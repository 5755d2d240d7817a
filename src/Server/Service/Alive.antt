-- ===== src/Server/Service/Alive.antt =====
-- services/game/main.go with shared/registry/registry.go: a running game server can be found.
use nodefall.Base.{
  ℕ, ◌+◌, ◌≤◌, ◌<◌, String, ◌==◌, eq_iff, eq_refl, Bool, true, false, ◌&&◌, ◌≡◌, ◌≢◌, ◌⊎◌, inl,
  refl, ap, ◌∙◌, subst, some, List, [], ◌∷◌, ◌++◌, map, All, arith,
}
use Prim.Native.String.{◌++◌ as ◌<>◌}
use nodefall.Base.Loop.{for_each, any}
use nodefall.Runtime.Environment.{load}
use nodefall.Registry.{key_prefix, Instance, Redis, Json, register, heartbeat, list_live}
use nodefall.Registry.Listing.{IsRedis, IsJson}
use nodefall.Registry.Sound.{register_all}
use nodefall.Registry.Alive.{list_live_renewed}
use nodefall.Server.Service.{instance_id, own_instance, announce, registry_ttl}

for_each-append {ℓ κ} :
    {A : Type ℓ} {S : Type κ} (body : A → S → S) (xs ys : List A) (s : S)
    → for_each body (xs ++ ys) s ≡ for_each body ys (for_each body xs s)
unfolding for_each
for_each-append body [] ys s = refl
for_each-append body (x ∷ xs) ys s = for_each-append body xs ys (body x s)

abbrev pub dated : Instance → List ℕ → List (ℕ × Instance)
dated inst = map (λ at. (at, inst))

abbrev pub is_own : (String → String) → Instance → Bool
is_own getenv inst =
    inst.id == instance_id getenv && inst.grpc_addr == instance_id getenv <> ":9090"

module _ {R : Type 0} (redis : Redis R) (json : Json) where
  abbrev pub beat : Instance → ℕ → R → R
  beat inst at r = (register redis json at inst registry_ttl r).1

  beats-register_all :
      (inst : Instance) (times : List ℕ) (r : R)
      → for_each (beat inst) times r ≡ register_all redis json registry_ttl (dated inst times) r
  unfolding for_each register_all
  beats-register_all inst [] r = refl
  beats-register_all inst (at ∷ times) r = beats-register_all inst times (beat inst at r)

  dated-All :
      (inst : Instance) (at scanned : ℕ) (times : List ℕ)
      → All (λ t. (at ≤ t) × (t ≤ scanned)) times
      → All
          (λ x. (at ≤ x.0) × (x.0 ≤ scanned) × ((x.1 ≡ inst) ⊎ ((x.1.id == inst.id) ≡ false)))
          (dated inst times)
  dated-All inst at scanned [] h = tt
  dated-All inst at scanned (t ∷ times) ((after, past), h) =
      ((after, past, inl refl), dated-All inst at scanned times h)

  -- A game server whose environment names a registry is listed, under its instance ID and with its gRPC
  -- address, by every complete list that is scanned after one of its heartbeats succeeded and read
  -- less than the five seconds of the time to live after it, whatever becomes of the earlier heartbeats
  -- and of the later ones up to the scan.
  pub announced_listed :
      (laws : IsRedis redis) (coded : IsJson json) (getenv : String → String)
      (started at scanned read : ℕ) (ticks earlier later : List ℕ) (r : R)
      → (load getenv).redis_url ≢ ""
      → started ∷ ticks ≡ earlier ++ at ∷ later
      → (register redis json at
          (own_instance getenv)
          registry_ttl
          (for_each (beat (own_instance getenv)) earlier r)).0
        ≡ true
      → All (λ t. (at ≤ t) × (t ≤ scanned)) later
      → at ≤ scanned
      → scanned ≤ read
      → read < at + registry_ttl
      → let after = announce getenv redis json started ticks r in
        (redis.scan scanned (key_prefix <> "*") after).1 ≡ true
        → (listed : List Instance) × (list_live redis json scanned read after ≡ some listed)
          × (any (is_own getenv) listed ≡ true)
  unfolding announce heartbeat own_instance
  announced_listed laws coded getenv started at scanned read ticks earlier later r named split done
        follow t_s s_r during complete =
      let inst = own_instance getenv in
      let before = for_each (beat inst) earlier r in
      let history : announce getenv redis json started ticks r
          ≡ register_all redis json registry_ttl (dated inst later)
              (register redis json at inst registry_ttl before).1 =
        ground (arith, eq_iff (load getenv).redis_url "")
        ∙ ap (λ times. for_each (beat inst) times r) split
        ∙ for_each-append (beat inst) earlier (at ∷ later) r
        ∙ (unfold for_each in (beats-register_all inst later (beat inst at before))) in
      let (listed, read_back, found) =
        list_live_renewed redis json laws coded at registry_ttl scanned read inst (dated inst later)
          before (is_own getenv) done (dated-All inst at scanned later follow) t_s s_r during
          (subst (λ a. (redis.scan scanned (key_prefix <> "*") a).1 ≡ true) history complete)
          (rw (eq_refl (instance_id getenv), eq_refl (instance_id getenv <> ":9090")) refl) in
      (listed, ap (list_live redis json scanned read) history ∙ read_back, found)
