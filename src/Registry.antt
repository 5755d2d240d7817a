-- ===== src/Registry.antt =====
-- shared/registry/registry.go. The client of Redis and package json are parameters. Redis keeps the time
-- itself, so each command has the time at which Redis carries it out.
pub mod Listing
pub mod Sound
pub mod Expiry
pub mod Alive
use nodefall.Base.{ℕ, String, Bool, true, false, Option, none, some, List, [], ◌∷◌}
use Prim.Native.String.{◌++◌ as ◌<>◌}
use nodefall.Base.Loop.{for_each}

abbrev pub key_prefix : String
key_prefix = "nodefall:instances:"

pub record Instance : Type 0 where
  pub id : String
  pub grpc_addr : String

-- `set` at a time, with a key, a value and a time to live: whether it succeeded, and the store. `scan`
-- walks the keys that fit a pattern: the keys, and whether it came to its end. `get` of a key that is
-- not there fails.
pub record Redis (R : Type 0) : Type 0 where
  pub set : ℕ → String → String → ℕ → R → Bool × R
  pub scan : ℕ → String → R → List String × Bool
  pub get : ℕ → String → R → Option String

pub record Json : Type 0 where
  pub marshal : Instance → Option String
  pub unmarshal : String → Option Instance

module _ {R : Type 0} (redis : Redis R) (json : Json) where
  -- Whether `Register` returned no error, and the store.
  unfoldable pub register : ℕ → Instance → ℕ → R → Bool × R
  register now inst ttl r = elim (json.marshal inst) [
    | none ↦ (false, r)
    | some value ↦ redis.set now (key_prefix <> inst.id) value ttl r
  ]

  -- At the start and at each tick, until the context is cancelled. The errors are ignored.
  unfoldable pub heartbeat : ℕ → List ℕ → Instance → ℕ → R → R
  heartbeat now ticks inst ttl = for_each (λ at r. (register at inst ttl r).1) (now ∷ ticks)

  -- The body of the loop of `ListLive`: the instance under a key, unless the key has expired meanwhile
  -- or its value does not decode.
  unfoldable pub read_instance : ℕ → R → String → Option Instance
  read_instance now r key = elim (redis.get now key r) [
    | none ↦ none
    | some value ↦ json.unmarshal value
  ]

  unfoldable pub read_instances : ℕ → R → List String → List Instance
  read_instances now r [] = []
  read_instances now r (key ∷ keys) =
      let rest = read_instances now r keys in
      elim (read_instance now r key) [ none ↦ rest | some inst ↦ inst ∷ rest ]

  -- The keys are scanned at one time and read at a later one. None is an error, with which the caller
  -- does not look at the instances.
  unfoldable pub list_live : ℕ → ℕ → R → Option (List Instance)
  list_live scanned read r =
      let (keys, complete) = redis.scan scanned (key_prefix <> "*") r in
      elim complete [ true ↦ some (read_instances read r keys) | false ↦ none ]
