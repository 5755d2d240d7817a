-- ===== src/Tests/Instances.antt =====
-- The theorems about the registry at a store that forgets what has expired, and at an encoding of the
-- instances whose address is their ID with the port.
use nodefall.Base.{
  ℕ, ◌+◌, ◌*◌, String, ◌==◌, eq_iff, Bool, true, ltb, is_some, ◌&&◌, ◌≡◌, ◌≢◌, inl, inr, refl, ap,
  Option, none, some, List, [], ◌∷◌, arith, if◌then◌else◌, Option-cases, String-cases,
}
use Prim.Native.String.{◌++◌ as ◌<>◌}
use text.Mathlib.Text.{starts_with}
use nodefall.Base.Dict.{
  Dict, lookup, insert, keys, has, has-keys, lookup-insert_self, lookup-insert_ne,
}
use nodefall.Matchmaker.Queue.{Queue, MatchResponse, status, matched, accepted_by, try_form_match}
use nodefall.Matchmaker.Queue.Forming.{entry}
use nodefall.Journey.Discovery.{running_found}
use nodefall.Base.Loop.{any}
use nodefall.Runtime.Clock.{second}
use nodefall.Runtime.Environment.{load}
use nodefall.Registry.{key_prefix, Instance, Redis, Json, register, list_live}
use nodefall.Registry.Listing.{IsRedis, IsJson}
use nodefall.Registry.Sound.{register_all}
use nodefall.Registry.Expiry.{list_live_until_expiry}
use nodefall.Server.Service.{instance_id, own_instance, announce}

-- A key has its value and the time at which it expires.
abbrev Entries : Type 0
Entries = Dict (String × ℕ)

abbrev unexpired : ℕ → Option (String × ℕ) → Option String
unexpired now none = none
unexpired now (some (value, until)) = if ltb now until then some value else none

abbrev keep : (String → Bool) → List String → List String
keep test [] = []
keep test (k ∷ ks) = let rest = keep test ks in if test k then k ∷ rest else rest

has-keep :
    (test : String → Bool) (k : String) (ks : List String)
    → has k (keep test ks) ≡ (test k && has k ks)
unfolding has
has-keep test k [] = ground arith
has-keep test k (j ∷ js) = elim (String-cases j k) [
  | inl same ↦ ground (arith, has-keep test k js, ap test same, eq_iff j k)
  | inr (ne, flip, apart) ↦ ground (arith, has-keep test k js)
]

abbrev store : Redis Entries
store = record {
  set = λ now key value ttl r. (true, insert key (value, now + ttl) r);
  scan = λ now pattern r.
      (keep (λ k. starts_with k key_prefix && is_some (unexpired now (lookup k r))) (keys r), true);
  get = λ now key r. unexpired now (lookup key r);
}

store-IsRedis : IsRedis store
store-IsRedis = record {
  get-set_self =
      λ t now key value ttl r lasts le done. rw (lookup-insert_self key r (value, t + ttl)) refl;
  get-set_failed = λ t now key value ttl r lasts failed. cc;
  get-set_ne = λ t now key other value ttl r ne.
      ap (unexpired now) (lookup-insert_ne key r other (value, t + ttl) ne);
  scan_prefix = λ now key r done. ground (
    arith,
    has-keep (λ k. starts_with k key_prefix && is_some (unexpired now (lookup k r))) key (keys r),
    has-keys key r,
    Option-cases (lookup key r),
  );
}

abbrev terse : Json
terse = record {
  marshal = λ inst. if inst.grpc_addr == inst.id <> ":9090" then some inst.id else none;
  unmarshal = λ value. some (record { id = value; grpc_addr = value <> ":9090" });
}

terse-IsJson : IsJson terse
terse-IsJson = record {
  unmarshal-marshal = λ inst value made. ground (arith, eq_iff inst.grpc_addr (inst.id <> ":9090"));
}

abbrev game_1 : Instance
game_1 = record { id = "game-1"; grpc_addr = "game-1:9090" }

abbrev game_2 : Instance
game_2 = record { id = "game-2"; grpc_addr = "game-2:9090" }

abbrev is_game_1 : Instance → Bool
is_game_1 inst = inst.id == "game-1"

-- Both register, then the first crashes and the second goes on.
abbrev crashed : Entries
crashed =
    register_all store terse 5 ((8, game_2) ∷ (9, game_2) ∷ [])
      (register store terse 7 game_1 5
        (register_all store terse 5 ((1, game_1) ∷ (6, game_2) ∷ []) [])).1

list_live_until_expiry_example :
    (listed : List Instance) × (list_live store terse 10 13 crashed ≡ some listed)
    × (any is_game_1 listed ≡ ltb 13 (7 + 5))
unfolding register lookup
list_live_until_expiry_example =
    list_live_until_expiry store terse store-IsRedis terse-IsJson 7 5 10 13 game_1
      ((1, game_1) ∷ (6, game_2) ∷ []) ((8, game_2) ∷ (9, game_2) ∷ []) [] is_game_1 (omega arith)
      (λ id. refl) (omega arith, (omega arith, tt)) (omega arith, (omega arith, tt))
      (refl, (refl, tt)) (omega arith) (omega arith) refl refl refl
      (λ other same. ground (arith, eq_iff other.id "game-1"))

abbrev environment : String → String
environment name = if name == "NODEFALL_REDIS_URL" then "redis:6379" else ""

named : (load environment).redis_url ≢ ""
unfolding load
named same = ground (arith, eq_iff "redis:6379" "")

abbrev accepting : Instance → Option MatchResponse
accepting inst = some (record { accepted = true; server_addr = inst.id })

abbrev two_wait : Queue
two_wait = record { waiting = "ann" ∷ "bob" ∷ "cy" ∷ []; matched = [] }

abbrev after_pass : Queue
after_pass =
    try_form_match accepting
      (list_live store terse (5 * second) (6 * second)
        (announce environment store terse 0 (2 * second ∷ 4 * second ∷ []) []))
      "m1" two_wait

running_found_example :
    (addr : String) × (status "ann" after_pass ≡ matched (entry "m1" addr "ann"))
    × (status "bob" after_pass ≡ matched (entry "m1" addr "bob"))
unfolding register own_instance instance_id accepted_by
running_found_example =
    running_found store terse store-IsRedis terse-IsJson environment 0 (2 * second) (5 * second)
      (6 * second) (2 * second ∷ 4 * second ∷ []) (0 ∷ []) (4 * second ∷ []) [] accepting "m1" "ann"
      "bob" ("cy" ∷ []) two_wait named refl refl ((omega arith, omega arith), tt) (omega arith)
      (omega arith) (omega arith) refl refl refl
