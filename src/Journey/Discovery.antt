-- ===== src/Journey/Discovery.antt =====
-- From the heartbeat of services/game/main.go through shared/registry/registry.go to a pass of the queue
-- of services/matchmaker: a game server that runs is found.
use nodefall.Base.{
  ℕ, ◌+◌, ◌≤◌, ◌<◌, String, eq_iff, Bool, true, is_some, ◌≡◌, ◌≢◌, refl, sym, ◌∙◌, subst, Option,
  some, List, [], ◌∷◌, ◌++◌, All, arith, inl, inr, Option-cases,
}
use Prim.Native.String.{◌++◌ as ◌<>◌}
use nodefall.Base.Loop.{for_each, any}
use nodefall.Runtime.Environment.{load}
use nodefall.Registry.{key_prefix, Instance, Redis, Json, register, list_live}
use nodefall.Registry.Listing.{IsRedis, IsJson}
use nodefall.Server.Service.{instance_id, own_instance, announce, registry_ttl}
use nodefall.Server.Service.Alive.{is_own, beat, announced_listed}
use nodefall.Matchmaker.Queue.{
  Queue, MatchResponse, matched, status, accepted_by, first_accepting, find_server, try_form_match,
}
use nodefall.Matchmaker.Queue.Forming.{entry, answer, status-try_form_match}

own-is_own :
    (getenv : String → String) (inst : Instance)
    → is_own getenv inst ≡ true
    → inst ≡ own_instance getenv
unfolding own_instance
own-is_own getenv inst own = ground (
  arith,
  eq_iff inst.id (instance_id getenv),
  eq_iff inst.grpc_addr (instance_id getenv <> ":9090"),
)

-- Some server accepts, if one does that is on the list.
some_accepts :
    (start : Instance → Option MatchResponse) (wanted : Instance → Bool) (listed : List Instance)
    → ((inst : Instance) → wanted inst ≡ true → is_some (accepted_by start inst) ≡ true)
    → any wanted listed ≡ true
    → (addr : String) × (first_accepting start listed ≡ some addr)
unfolding first_accepting
some_accepts start wanted [] accepts there = absurd (ground arith)
some_accepts start wanted (inst ∷ rest) accepts there =
    elim (Option-cases (accepted_by start inst)) [
      | inr (addr, gave) ↦ (addr, rw (gave, first_accepting) refl)
      | inl refused ↦
          let would = accepts inst in
          let rest_there : any wanted rest ≡ true = ground (arith, refused, would) in
          let (addr, found) = some_accepts start wanted rest accepts rest_there in
          (addr, rw (refused, first_accepting) found)
    ]

-- A game server whose environment names a registry runs: a heartbeat of it has succeeded, and less than
-- the five seconds of the time to live later the list of the registry is scanned completely and read.
-- If the server accepts the match, then a pass with that list matches the two players who wait longest,
-- whatever other servers are listed and whether they accept or not: both are told the same server.
pub running_found :
    {R : Type 0} (redis : Redis R) (json : Json) (laws : IsRedis redis) (coded : IsJson json)
    (getenv : String → String) (started at scanned read : ℕ) (ticks earlier later : List ℕ) (r : R)
    (start : Instance → Option MatchResponse) (match_id a b : String) (rest : List String)
    (q : Queue)
    → (load getenv).redis_url ≢ ""
    → started ∷ ticks ≡ earlier ++ at ∷ later
    → (register redis json at
        (own_instance getenv)
        registry_ttl
        (for_each (beat redis json (own_instance getenv)) earlier r)).0
      ≡ true
    → All (λ t. (at ≤ t) × (t ≤ scanned)) later
    → at ≤ scanned
    → scanned ≤ read
    → read < at + registry_ttl
    → (redis.scan scanned (key_prefix <> "*") (announce getenv redis json started ticks r)).1 ≡ true
    → is_some (accepted_by start (own_instance getenv)) ≡ true
    → q.waiting ≡ a ∷ b ∷ rest
    → let listed = list_live redis json scanned read (announce getenv redis json started ticks r) in
      let formed = try_form_match start listed match_id q in
      (addr : String) × (status a formed ≡ matched (entry match_id addr a))
      × (status b formed ≡ matched (entry match_id addr b))
running_found redis json laws coded getenv started at scanned read ticks earlier later r start
      match_id a b rest q named split done follow t_s s_r during complete accepts waits =
    let after = announce getenv redis json started ticks r in
    let (listed, read_back, there) =
      announced_listed redis json laws coded getenv started at scanned read ticks earlier later r
        named split done follow t_s s_r during complete in
    let willing : (inst : Instance)
        → is_own getenv inst ≡ true
        → is_some (accepted_by start inst) ≡ true =
      λ inst own.
        subst (λ i. is_some (accepted_by start i) ≡ true) (sym (own-is_own getenv inst own))
          accepts in
    let (addr, found) = some_accepts start (is_own getenv) listed willing there in
    let server : find_server start (list_live redis json scanned read after) ≡ some addr =
      rw read_back (unfold find_server in found) in
    let told = λ (k : String).
      status-try_form_match start (list_live redis json scanned read after) match_id a b k rest q
        waits in
    (
      addr,
      told a ∙ rw server (unfold answer in (ground (arith, eq_iff a a))),
      told b ∙ rw server (unfold answer in (ground (arith, eq_iff b b))),
    )
