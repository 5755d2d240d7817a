-- ===== src/Registry/Sound.antt =====
-- shared/registry/registry.go: what registrations leave in the store.
use nodefall.Base.{
  ℕ, ◌+◌, ◌≤◌, ◌<◌, String, ◌==◌, Bool, true, false, ltb, ◌≡◌, inl, inr, refl, sym, ap, ◌∙◌, subst,
  none, some, List, [], ◌∷◌, All, if◌then◌else◌, Bool-cases, Option-cases, String-cases,
}
use Prim.Native.String.{◌++◌ as ◌<>◌}
use mathlib.Core.Option.{some_inj}
use nodefall.Base.Loop.{for_each}
use nodefall.Registry.{key_prefix, Instance, Redis, Json, register}
use nodefall.Registry.Listing.{IsRedis, IsJson, keys_differ}

module _ {R : Type 0} (redis : Redis R) (json : Json) where
  -- What stands at this time under the key of an ID is an instance with that ID.
  unfoldable pub IsSound : ℕ → R → Type 0
  IsSound now r =
      (id value : String)
      → redis.get now (key_prefix <> id) r ≡ some value
      → (inst : Instance) × (json.unmarshal value ≡ some inst) × (inst.id ≡ id)

  -- The registrations of several instances, in turn, whether they succeed or not.
  unfoldable pub register_all : ℕ → List (ℕ × Instance) → R → R
  register_all ttl = for_each (λ x r. (register redis json x.0 x.1 ttl r).1)

module _ {R : Type 0} (redis : Redis R) (json : Json) (laws : IsRedis redis)
    (coded : IsJson json) where
  -- What is read under the key of an instance that is set.
  kept_or :
      (now : ℕ) (r : R) (inst : Instance) (value found : String) (live : Bool)
      → IsSound redis json now r
      → json.marshal inst ≡ some value
      → (if live then some value else none) ≡ some found
      → (held : Instance) × (json.unmarshal found ≡ some held) × (held.id ≡ inst.id)
  kept_or now r inst value found true sound made there = (
    inst,
    subst (λ v. json.unmarshal v ≡ some inst) (some_inj.0 there)
        (coded.unmarshal-marshal inst value made),
    refl,
  )
  kept_or now r inst value found false sound made there = cc

  set-IsSound :
      (at now ttl : ℕ) (inst : Instance) (value : String) (r : R)
      → 0 < ttl
      → at ≤ now
      → json.marshal inst ≡ some value
      → IsSound redis json now r
      → IsSound redis json now (redis.set at (key_prefix <> inst.id) value ttl r).1
  unfolding IsSound
  set-IsSound at now ttl inst value r lasts before made sound id found there =
      elim (String-cases inst.id id) [
        | inr (ne, flip, apart) ↦ sound id found (
            sym (
              laws.get-set_ne at now (key_prefix <> inst.id) (key_prefix <> id) value ttl r
                (keys_differ inst.id id ne))
            ∙ there)
        | inl same ↦
            let here =
              subst
                (λ i.
                  redis.get now (key_prefix <> i)
                    (redis.set at (key_prefix <> inst.id) value ttl r).1
                  ≡ some found)
                (sym same) there in
            let (held, decoded, named) : (held : Instance) × (json.unmarshal found ≡ some held)
                × (held.id ≡ inst.id) =
              elim (Bool-cases (redis.set at (key_prefix <> inst.id) value ttl r).0) [
                | inl done ↦ kept_or now r inst value found (ltb now (at + ttl)) sound made (
                    sym (
                      laws.get-set_self at now (key_prefix <> inst.id) value ttl r lasts before
                        done)
                    ∙ here)
                | inr failed ↦
                    elim (laws.get-set_failed at now (key_prefix <> inst.id) value ttl r lasts
                      failed) [
                        | inl old ↦ sound inst.id found (sym old ∙ here)
                        | inr new ↦
                            kept_or now r inst value found (ltb now (at + ttl)) sound made
                              (sym new ∙ here)
                      ]
              ] in
            (held, decoded, named ∙ same)
      ]

  module _ (at ttl : ℕ) (inst : Instance) (r : R) where
    register_refused : json.marshal inst ≡ none → register redis json at inst ttl r ≡ (false, r)
    unfolding register
    register_refused failed = rw (failed, register) refl

    pub register_encoded :
        (value : String)
        → json.marshal inst ≡ some value
        → register redis json at inst ttl r ≡ redis.set at (key_prefix <> inst.id) value ttl r
    unfolding register
    register_encoded value made = rw (made, register) refl

    pub register-IsSound :
        (now : ℕ)
        → 0 < ttl
        → at ≤ now
        → IsSound redis json now r
        → IsSound redis json now (register redis json at inst ttl r).1
    register-IsSound now lasts before sound = elim (Option-cases (json.marshal inst)) [
      | inl failed ↦ subst (λ x. IsSound redis json now x.1) (sym (register_refused failed)) sound
      | inr (value, made) ↦
          subst (λ x. IsSound redis json now x.1) (sym (register_encoded value made))
            (set-IsSound at now ttl inst value r lasts before made sound)
    ]

    -- A registration leaves what stands under the other keys.
    pub register_apart :
        (now : ℕ) (id : String)
        → (inst.id == id) ≡ false
        → redis.get now (key_prefix <> id) (register redis json at inst ttl r).1
          ≡ redis.get now (key_prefix <> id) r
    register_apart now id ne = elim (Option-cases (json.marshal inst)) [
      | inl failed ↦ ap (λ x. redis.get now (key_prefix <> id) x.1) (register_refused failed)
      | inr (value, made) ↦
          ap (λ x. redis.get now (key_prefix <> id) x.1) (register_encoded value made)
          ∙ laws.get-set_ne at now (key_prefix <> inst.id) (key_prefix <> id) value ttl r
              (keys_differ inst.id id ne)
    ]

    -- A registration that succeeded stands until its time to live is over.
    pub register_stands :
        0 < ttl
        → (register redis json at inst ttl r).0 ≡ true
        → (value : String) × (json.marshal inst ≡ some value)
          × ((now : ℕ)
              → at ≤ now
              → redis.get now (key_prefix <> inst.id) (register redis json at inst ttl r).1
                ≡ (if ltb now (at + ttl) then some value else none))
    register_stands lasts done = elim (Option-cases (json.marshal inst)) [
      | inl failed ↦ cc (register_refused failed, done)
      | inr (value, made) ↦
          let same = register_encoded value made in
          (
            value,
            made,
            λ now after.
                ap (λ x. redis.get now (key_prefix <> inst.id) x.1) same
                ∙ laws.get-set_self at now (key_prefix <> inst.id) value ttl r lasts after
                    (sym (ap (λ x. x.0) same) ∙ done),
          )
    ]

  pub register_all-IsSound :
      (now ttl : ℕ) (xs : List (ℕ × Instance)) (r : R)
      → 0 < ttl
      → All (λ x. x.0 ≤ now) xs
      → IsSound redis json now r
      → IsSound redis json now (register_all redis json ttl xs r)
  unfolding register_all for_each
  register_all-IsSound now ttl [] r lasts before sound = sound
  register_all-IsSound now ttl ((at, inst) ∷ xs) r lasts (now_or, before) sound =
      register_all-IsSound now ttl xs (register redis json at inst ttl r).1 lasts before
        (register-IsSound at ttl inst r now lasts now_or sound)

  pub register_all_apart :
      (now ttl : ℕ) (id : String) (xs : List (ℕ × Instance)) (r : R)
      → All (λ x. (x.1.id == id) ≡ false) xs
      → redis.get now (key_prefix <> id) (register_all redis json ttl xs r)
        ≡ redis.get now (key_prefix <> id) r
  unfolding register_all for_each
  register_all_apart now ttl id [] r others = refl
  register_all_apart now ttl id ((at, inst) ∷ xs) r (other, others) =
      register_all_apart now ttl id xs (register redis json at inst ttl r).1 others
      ∙ register_apart at ttl inst r now id other
