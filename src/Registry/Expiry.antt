-- ===== src/Registry/Expiry.antt =====
-- shared/registry/registry.go: an instance is listed until its last registration runs out.
use nodefall.Base.{
  ℕ, ◌+◌, ◌≤◌, ◌<◌, String, ◌==◌, eq_iff, eq_refl, Bool, true, false, ltb, is_some, ◌&&◌, ◌≡◌, inl,
  inr, refl, ◌∙◌, subst, none, some, List, [], ◌∷◌, All, All-map, arith, if◌then◌else◌, Bool-cases,
  Option-cases, String-cases,
}
use Prim.Native.String.{◌++◌ as ◌<>◌}
use text.Mathlib.Text.{starts_with}
use text.Mathlib.TextEquality.{starts_with_iff}
use text.Mathlib.TextPositions.{starts_with-append}
use nodefall.Base.Dict.{has}
use nodefall.Base.Loop.{any}
use nodefall.Registry.{
  key_prefix, Instance, Redis, Json, register, read_instance, read_instances, list_live,
}
use nodefall.Registry.Sound.{
  IsSound, register_all, register-IsSound, register_all-IsSound, register_all_apart,
  register_stands,
}
use nodefall.Registry.Listing.{IsRedis, IsJson, keys_differ}

module _ {R : Type 0} (redis : Redis R) (json : Json) (read : ℕ) (r : R)
    (wanted : Instance → Bool) where
  -- Whether what is read under the key is wanted.
  abbrev wanted_at : String → Bool
  wanted_at key = elim (read_instance redis json read r key) [
    | none ↦ false
    | some held ↦ wanted held
  ]

  -- If the wanted ones stand under one key and are there just if `live`, they are listed just if the key
  -- is among those read and they are there.
  listed_once :
      (target : String) (live : Bool) (keys : List String)
      → ((key : String) → has key keys ≡ true → wanted_at key ≡ (key == target && live))
      → any wanted (read_instances redis json read r keys) ≡ (has target keys && live)
  unfolding read_instances has
  listed_once target live [] only = refl
  listed_once target live (key ∷ keys) only =
      let here = only key (ground (arith, eq_refl key)) in
      let there =
        listed_once target live keys (λ other found. only other (ground (arith, found))) in
      ground (arith, here, there, Option-cases (read_instance redis json read r key))

module _ {R : Type 0} (redis : Redis R) (json : Json) (laws : IsRedis redis)
    (coded : IsJson json) where
  module _ (read : ℕ) (inst : Instance) (r : R) (wanted : Instance → Bool) (live : Bool) where
    -- An instance that is read under its own key while `live`, and nothing else that is wanted.
    wanted_self :
        (value : String)
        → json.marshal inst ≡ some value
        → redis.get read (key_prefix <> inst.id) r ≡ (if live then some value else none)
        → wanted inst ≡ true
        → wanted_at redis json read r wanted (key_prefix <> inst.id) ≡ live
    unfolding read_instance
    wanted_self value made stands self = elim (Bool-cases live) [
      | inl during ↦ ground (arith, coded.unmarshal-marshal inst value made)
      | inr otherwise ↦ ground arith
    ]

    wanted_other :
        IsSound redis json read r
        → ((other : Instance) → wanted other ≡ true → other.id ≡ inst.id)
        → (id : String) → (inst.id == id) ≡ false
        → wanted_at redis json read r wanted (key_prefix <> id) ≡ false
    unfolding read_instance IsSound
    wanted_other sound only id ne = elim (Option-cases (redis.get read (key_prefix <> id) r)) [
      | inl gone ↦ ground arith
      | inr (value, there) ↦
          let (held, decoded, named) = sound id value there in
          elim (Bool-cases (wanted held)) [
            | inl asked ↦ ground (arith, eq_iff inst.id id, only held asked, named)
            | inr otherwise ↦ ground (arith, decoded)
          ]
    ]

  -- What is wanted under a key that was scanned.
  wanted_scanned :
      (read : ℕ) (inst : Instance) (r : R) (wanted : Instance → Bool) (live : Bool)
      → wanted_at redis json read r wanted (key_prefix <> inst.id) ≡ live
      → ((id : String)
          → (inst.id == id) ≡ false
          → wanted_at redis json read r wanted (key_prefix <> id) ≡ false)
      → (key : String) → starts_with key key_prefix ≡ true
      → wanted_at redis json read r wanted key ≡ (key == key_prefix <> inst.id && live)
  wanted_scanned read inst r wanted live self other key begins =
      let (id, spelled) = (starts_with_iff key key_prefix).0 begins in
      subst (λ k. wanted_at redis json read r wanted k ≡ (k == key_prefix <> inst.id && live))
        spelled
        (elim (String-cases inst.id id) [
          | inl same ↦
              subst
                (λ i.
                  wanted_at redis json read r wanted (key_prefix <> i)
                  ≡ (key_prefix <> i == key_prefix <> inst.id && live))
                same (rw (eq_refl (key_prefix <> inst.id)) self)
          | inr (ne, flip, apart) ↦ rw (keys_differ id inst.id flip) (other id ne)
        ])

  -- A complete list holds what is wanted just while its key is there.
  list_live_wanted :
      (scanned read : ℕ) (inst : Instance) (r : R) (wanted : Instance → Bool) (live : Bool)
      → (redis.scan scanned (key_prefix <> "*") r).1 ≡ true
      → (live ≡ true → is_some (redis.get scanned (key_prefix <> inst.id) r) ≡ true)
      → ((key : String)
          → starts_with key key_prefix ≡ true
          → wanted_at redis json read r wanted key ≡ (key == key_prefix <> inst.id && live))
      → (listed : List Instance) × (list_live redis json scanned read r ≡ some listed)
        × (any wanted listed ≡ live)
  unfolding list_live
  list_live_wanted scanned read inst r wanted live complete there only =
      let scan = redis.scan scanned (key_prefix <> "*") r in
      let begun : (key : String) → has key scan.0 ≡ true → starts_with key key_prefix ≡ true =
        λ key found. ground (arith, laws.scan_prefix scanned key r complete) in
      let listed =
        listed_once redis json read r wanted (key_prefix <> inst.id) live scan.0
          (λ key found. only key (begun key found)) in
      (
        read_instances redis json read r scan.0,
        rw (complete, list_live) refl,
        ground (
          arith,
          listed,
          there,
          laws.scan_prefix scanned (key_prefix <> inst.id) r complete,
          starts_with-append key_prefix inst.id,
        ),
      )

  -- Once a registration of an instance succeeds, with a time to live, after earlier registrations on a
  -- store that held nothing under the keys of the registry, and while only other IDs register, a
  -- complete list that is scanned after all of these finds the instance as it registered if it is read
  -- before the time to live is over, and nothing with its ID from then on.
  pub list_live_until_expiry :
      (at ttl scanned read : ℕ) (inst : Instance) (earlier later : List (ℕ × Instance)) (r : R)
      (wanted : Instance → Bool)
      → 0 < ttl
      → ((id : String) → redis.get read (key_prefix <> id) r ≡ none)
      → All (λ x. x.0 ≤ at) earlier
      → All (λ x. x.0 ≤ scanned) later
      → All (λ x. (x.1.id == inst.id) ≡ false) later
      → at ≤ scanned
      → scanned ≤ read
      → let before = register_all redis json ttl earlier r in
        let made = register redis json at inst ttl before in
        let after = register_all redis json ttl later made.1 in
        made.0 ≡ true
        → (redis.scan scanned (key_prefix <> "*") after).1 ≡ true
        → wanted inst ≡ true
        → ((other : Instance) → wanted other ≡ true → other.id ≡ inst.id)
        → (listed : List Instance) × (list_live redis json scanned read after ≡ some listed)
          × (any wanted listed ≡ ltb read (at + ttl))
  list_live_until_expiry at ttl scanned read inst earlier later r wanted lasts fresh past soon apart
        t_s s_r done complete self only =
      let before = register_all redis json ttl earlier r in
      let made = register redis json at inst ttl before in
      let after = register_all redis json ttl later made.1 in
      let fresh_sound : IsSound redis json read r =
        unfold IsSound in (λ id value there. cc (fresh id, there)) in
      let sound : IsSound redis json read after =
        register_all-IsSound redis json laws coded read ttl later made.1 lasts
          (All-map later (λ x le. omega (arith, le, s_r)) soon)
          (register-IsSound redis json laws coded at ttl inst before read lasts
            (omega (arith, t_s, s_r))
            (register_all-IsSound redis json laws coded read ttl earlier r lasts
              (All-map earlier (λ x le. omega (arith, le, t_s, s_r)) past) fresh_sound)) in
      let (value, encoded, stood) =
        register_stands redis json laws coded at ttl inst before lasts done in
      let stands : (now : ℕ)
          → at ≤ now
          → redis.get now (key_prefix <> inst.id) after
            ≡ (if ltb now (at + ttl) then some value else none) =
        λ now le.
          register_all_apart redis json laws coded now ttl inst.id later made.1 apart
          ∙ stood now le in
      let live = ltb read (at + ttl) in
      list_live_wanted scanned read inst after wanted live complete
        (λ yes_live. ground (arith, stands scanned t_s, s_r))
        (wanted_scanned read inst after wanted live
          (wanted_self read inst after wanted live value encoded
            (stands read (omega (arith, t_s, s_r))) self)
          (wanted_other read inst after wanted live sound only))
