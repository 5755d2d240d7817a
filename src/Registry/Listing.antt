-- ===== src/Registry/Listing.antt =====
-- shared/registry/registry.go: how long a registered instance is listed.
use nodefall.Base.{
  ℕ, ◌+◌, ◌≤◌, String, ◌==◌, eq_iff, true, false, ltb, is_some, ◌&&◌, ◌≡◌, ◌⊎◌, sym, ap, ◌∙◌, none,
  some, ◌<◌, arith, if◌then◌else◌,
}
use Prim.Native.String.{len, slice, ◌++◌ as ◌<>◌}
use text.Mathlib.Text.{starts_with}
use text.Mathlib.TextPositions.{len-append, slice-append_right}
use nodefall.Base.Dict.{has}
use nodefall.Registry.{key_prefix, Instance, Redis, Json}

-- What the code relies on. A value that was set with a time to live (a zero would mean none) is read
-- until its time to live is over, and not from then
-- on; a command that failed may have been carried out or not; a complete scan for a prefix finds the
-- keys with that prefix that have a value; and what was encoded decodes to itself.
pub record IsRedis {R : Type 0} (redis : Redis R) : Type 0 where
  pub get-set_self :
      (t now : ℕ) (key value : String) (ttl : ℕ) (r : R)
      → 0 < ttl
      → t ≤ now
      → (redis.set t key value ttl r).0 ≡ true
      → redis.get now key (redis.set t key value ttl r).1
        ≡ (if ltb now (t + ttl) then some value else none)
  pub get-set_failed :
      (t now : ℕ) (key value : String) (ttl : ℕ) (r : R)
      → 0 < ttl
      → (redis.set t key value ttl r).0 ≡ false
      → (redis.get now key (redis.set t key value ttl r).1 ≡ redis.get now key r)
        ⊎ (redis.get now key (redis.set t key value ttl r).1
            ≡ (if ltb now (t + ttl) then some value else none))
  pub get-set_ne :
      (t now : ℕ) (key other value : String) (ttl : ℕ) (r : R)
      → (key == other) ≡ false
      → redis.get now other (redis.set t key value ttl r).1 ≡ redis.get now other r
  pub scan_prefix :
      (now : ℕ) (key : String) (r : R)
      → (redis.scan now (key_prefix <> "*") r).1 ≡ true
      → has key (redis.scan now (key_prefix <> "*") r).0
        ≡ (starts_with key key_prefix && is_some (redis.get now key r))

pub record IsJson (json : Json) : Type 0 where
  pub unmarshal-marshal :
      (inst : Instance) (value : String)
      → json.marshal inst ≡ some value
      → json.unmarshal value ≡ some inst

pub prefix_inj : (p a b : String) → p <> a ≡ p <> b → a ≡ b
prefix_inj p a b e =
    let same : len a ≡ len b = omega (arith, sym (len-append p a) ∙ ap len e ∙ len-append p b) in
    sym (slice-append_right p a)
    ∙ ap (λ s. slice s (len p) (len p + len a)) e
    ∙ ap (λ n. slice (p <> b) (len p) (len p + n)) same
    ∙ slice-append_right p b

-- Two instances have two keys.
pub keys_differ : (a b : String) → (a == b) ≡ false → (key_prefix <> a == key_prefix <> b) ≡ false
keys_differ a b ne =
    ground
      (arith, eq_iff a b, eq_iff (key_prefix <> a) (key_prefix <> b), prefix_inj key_prefix a b)
