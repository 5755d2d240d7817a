-- ===== src/Registry/Alive.antt =====
-- shared/registry/registry.go: an instance stays listed while its registrations are renewed, whatever
-- becomes of single ones.
use nodefall.Base.{
  ℕ, ◌+◌, ◌≤◌, ◌<◌, String, ◌==◌, Bool, true, false, ltb, ◌≡◌, ◌⊎◌, inl, inr, refl, sym, ap, ◌∙◌,
  subst, some, List, [], ◌∷◌, All, All-map, arith, Bool-cases, Option-cases, String-cases,
}
use Prim.Native.String.{◌++◌ as ◌<>◌}
use text.Mathlib.TextPositions.{starts_with-append}
use nodefall.Base.Dict.{has}
use nodefall.Base.Loop.{for_each, any}
use nodefall.Registry.{
  key_prefix, Instance, Redis, Json, register, read_instance, read_instances, list_live,
}
use nodefall.Registry.Listing.{IsRedis, IsJson}
use nodefall.Registry.Sound.{register_all, register_apart, register_encoded, register_stands}

module _ {R : Type 0} (redis : Redis R) (json : Json) (laws : IsRedis redis)
    (coded : IsJson json) where
  module _ (now ttl : ℕ) (inst : Instance) (value : String) where
    -- What a renewal leaves, whether it succeeds or not.
    renewed :
        (at : ℕ) (r : R)
        → at ≤ now
        → now < at + ttl
        → json.marshal inst ≡ some value
        → redis.get now (key_prefix <> inst.id) r ≡ some value
        → redis.get now (key_prefix <> inst.id) (register redis json at inst ttl r).1 ≡ some value
    renewed at r after during made there =
        let set = redis.set at (key_prefix <> inst.id) value ttl r in
        ap (λ x. redis.get now (key_prefix <> inst.id) x.1)
          (register_encoded redis json laws coded at ttl inst r value made)
        ∙ elim (Bool-cases set.0)
            as (λ x. redis.get now (key_prefix <> inst.id) set.1 ≡ some value) [
              | inl done ↦ ground (
                arith,
                laws.get-set_self at now (key_prefix <> inst.id) value ttl r
                    (omega (arith, after, during)) after done,
              )
              | inr failed ↦
                  elim (laws.get-set_failed at now (key_prefix <> inst.id) value ttl r
                    (omega (arith, after, during)) failed) [
                      | inl old ↦ old ∙ there
                      | inr new ↦ ground (arith, new)
                    ]
            ]

    -- Registrations of this instance or of other IDs, within its time to live.
    abbrev pub Renewal : ℕ → ℕ × Instance → Type 0
    Renewal until x =
        (x.0 ≤ until) × (until < x.0 + ttl) × ((x.1 ≡ inst) ⊎ ((x.1.id == inst.id) ≡ false))

    renewed_later :
        (later : List (ℕ × Instance)) (r : R)
        → All (Renewal now) later
        → json.marshal inst ≡ some value
        → redis.get now (key_prefix <> inst.id) r ≡ some value
        → redis.get now (key_prefix <> inst.id) (register_all redis json ttl later r) ≡ some value
    unfolding register_all for_each
    renewed_later [] r renewals made there = there
    renewed_later ((at, by) ∷ later) r ((past, during, who), renewals) made there =
        let kept : redis.get now (key_prefix <> inst.id) (register redis json at by ttl r).1
            ≡ some value =
          elim who [
            | inl same ↦
                subst
                  (λ i.
                    redis.get now (key_prefix <> inst.id) (register redis json at i ttl r).1
                    ≡ some value)
                  (sym same) (renewed at r past during made there)
            | inr other ↦ register_apart redis json laws coded at ttl by r now inst.id other ∙ there
          ] in
        renewed_later later (register redis json at by ttl r).1 renewals made kept

  -- What is wanted of a key that is scanned is listed.
  listed_some :
      (read : ℕ) (r : R) (wanted : Instance → Bool) (target : String) (inst : Instance)
      (keys : List String)
      → read_instance redis json read r target ≡ some inst
      → wanted inst ≡ true
      → has target keys ≡ true
      → any wanted (read_instances redis json read r keys) ≡ true
  unfolding read_instances has
  listed_some read r wanted target inst [] there asked found = cc
  listed_some read r wanted target inst (key ∷ keys) there asked found =
      let later = listed_some read r wanted target inst keys there asked in
      elim (String-cases key target) [
        | inl same ↦
            let here =
              subst (λ k. read_instance redis json read r k ≡ some inst) (sym same) there in
            ground (arith, here)
        | inr (ne, flip, apart) ↦
            ground (arith, later, Option-cases (read_instance redis json read r key))
      ]

  before : (now at ttl read : ℕ) → now ≤ read → read < at + ttl → ltb now (at + ttl) ≡ true
  before now at ttl read le lt = ground arith

  -- An instance whose registration succeeded is listed until that registration's time to live is over,
  -- if since then only it and other IDs have registered, whether they succeeded or not.
  pub list_live_renewed :
      (at ttl scanned read : ℕ) (inst : Instance) (later : List (ℕ × Instance)) (r : R)
      (wanted : Instance → Bool)
      → (register redis json at inst ttl r).0 ≡ true
      → All
          (λ x. (at ≤ x.0) × (x.0 ≤ scanned) × ((x.1 ≡ inst) ⊎ ((x.1.id == inst.id) ≡ false)))
          later
      → at ≤ scanned
      → scanned ≤ read
      → read < at + ttl
      → let after = register_all redis json ttl later (register redis json at inst ttl r).1 in
        (redis.scan scanned (key_prefix <> "*") after).1 ≡ true
        → wanted inst ≡ true
        → (listed : List Instance) × (list_live redis json scanned read after ≡ some listed)
          × (any wanted listed ≡ true)
  unfolding list_live read_instance
  list_live_renewed at ttl scanned read inst later r wanted done renewals t_s s_r during complete
        asked =
      let key = key_prefix <> inst.id in
      let after = register_all redis json ttl later (register redis json at inst ttl r).1 in
      let scan = redis.scan scanned (key_prefix <> "*") after in
      let (value, made, stood) =
        register_stands redis json laws coded at ttl inst r (omega (arith, t_s, s_r, during))
          done in
      let there : (now : ℕ) → scanned ≤ now → now ≤ read → redis.get now key after ≡ some value =
        λ now le ge.
          renewed_later now ttl inst value later (register redis json at inst ttl r).1
            (All-map later (λ x h. (omega (arith, h.1, le), omega (arith, h.0, ge, during), h.2))
              renewals)
            made
            (stood now (omega (arith, t_s, le)) ∙ rw (before now at ttl read ge during) refl) in
      (
        read_instances redis json read after scan.0,
        rw (complete, list_live) refl,
        listed_some read after wanted key inst scan.0
            (rw (there read s_r (omega arith), read_instance)
              (coded.unmarshal-marshal inst value made))
            asked
            (laws.scan_prefix scanned key after complete
              ∙ rw (starts_with-append key_prefix inst.id, there scanned (omega arith) s_r) refl),
      )
