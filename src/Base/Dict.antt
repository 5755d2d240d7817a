-- ===== src/Base/Dict.antt =====
-- A Go map with string keys, as an association list. A missing key is `none`; `insert` overwrites,
-- `erase` of a missing key does nothing.
use Prim.Native.String.{String}
use mathlib.Core.Path.{◌≡◌, refl, sym, subst}
use mathlib.Core.Bool.{Bool, true, false, ◌||◌}
use mathlib.Core.Option.{Option, none, some, some_inj}
use mathlib.Core.Logic.{inl, inr}
use mathlib.Core.List.{List, [], ◌∷◌}
use native.Mathlib.Omega.{arith}
use text.Mathlib.Text.{◌==◌}
use text.Mathlib.TextEquality.{eq_iff}
use nodefall.Base.Lists.{All, All-map}
use nodefall.Base.Tests.{if◌then◌else◌, is_some, eq_refl, Bool-cases, if-cases}

abbrev pub Dict {ℓ} : Type ℓ → Type ℓ
Dict V = List (String × V)

module _ {ℓ} {V : Type ℓ} where
  unfoldable pub lookup : String → Dict V → Option V
  lookup key [] = none
  lookup key ((found, value) ∷ rest) = if found == key then some value else lookup key rest

  unfoldable pub insert : String → V → Dict V → Dict V
  insert key value [] = (key, value) ∷ []
  insert key value ((found, old) ∷ rest) =
      if found == key then (key, value) ∷ rest else (found, old) ∷ insert key value rest

  unfoldable pub erase : String → Dict V → Dict V
  erase key [] = []
  erase key ((found, old) ∷ more) =
      let rest = erase key more in if found == key then rest else (found, old) ∷ rest

  abbrev pub keys : Dict V → List String
  keys [] = []
  keys ((j, w) ∷ m) = j ∷ keys m

  abbrev pub values : Dict V → List V
  values [] = []
  values ((j, w) ∷ m) = w ∷ values m

  pub lookup-insert :
      (written read : String) (value : V) (d : Dict V)
      → lookup read (insert written value d)
        ≡ (if written == read then some value else lookup read d)
  unfolding lookup insert
  lookup-insert written read value [] = refl
  lookup-insert written read value ((found, old) ∷ rest) =
      let later = lookup-insert written read value rest in
      ground (arith, later, eq_iff written read, eq_iff found written, eq_iff found read)

  pub lookup-erase :
      (k j : String) (m : Dict V) → lookup j (erase k m) ≡ (if k == j then none else lookup j m)
  unfolding lookup erase
  lookup-erase k j [] = ground arith
  lookup-erase k j ((i, w) ∷ m) =
      ground (arith, eq_iff k j, eq_iff i k, eq_iff i j, lookup-erase k j m)

-- Whether a list of keys holds a key.
unfoldable pub has : String → List String → Bool
has k [] = false
has k (j ∷ js) = j == k || has k js

pub has-keys {ℓ} : {V : Type ℓ} (k : String) (m : Dict V) → has k (keys m) ≡ is_some (lookup k m)
unfolding has lookup
has-keys k [] = refl
has-keys k ((j, w) ∷ m) = ground (arith, has-keys k m)

module _ {ℓ} {V : Type ℓ} (k : String) (m : Dict V) where
  pub lookup-insert_self : (v : V) → lookup k (insert k v m) ≡ some v
  lookup-insert_self v = rw (lookup-insert k k v m, eq_refl k)

  pub lookup-insert_ne :
      (j : String) (v : V) → (k == j) ≡ false → lookup j (insert k v m) ≡ lookup j m
  lookup-insert_ne j v ne = rw (lookup-insert k j v m, ne)

  pub lookup-erase_self : lookup k (erase k m) ≡ none
  lookup-erase_self = rw (lookup-erase k k m, eq_refl k)

  pub lookup-erase_ne : (j : String) → (k == j) ≡ false → lookup j (erase k m) ≡ lookup j m
  lookup-erase_ne j ne = rw (lookup-erase k j m, ne)

  -- The same under a key that is spelled otherwise.
  pub lookup-insert_at : (j : String) (v : V) → j ≡ k → lookup k (insert j v m) ≡ some v
  lookup-insert_at j v same =
      subst (λ i. lookup k (insert i v m) ≡ some v) (sym same) (lookup-insert_self v)

-- Every entry's key is found.
pub entries-found {ℓ} : {V : Type ℓ} (m : Dict V) → All (λ x. is_some (lookup x.0 m) ≡ true) m
unfolding lookup
entries-found [] = tt
entries-found ((j, w) ∷ m) =
    (rw (eq_refl j), All-map m (λ x found. ground (arith, eq_iff j x.0)) (entries-found m))

module _ {ℓ κ} {V : Type ℓ} (Good : V → Type κ) where
  -- Every entry has the property.
  abbrev pub Each : Dict V → Type κ
  Each m = All (λ x. Good x.1) m

  pub lookup-Each : (k : String) (m : Dict V) (v : V) → Each m → lookup k m ≡ some v → Good v
  unfolding lookup
  lookup-Each k [] v each found = cc
  lookup-Each k ((j, w) ∷ m) v (here, rest) found = elim (Bool-cases (j == k)) [
    | inl same ↦ subst Good (some_inj.0 (ground arith)) here
    | inr other ↦ lookup-Each k m v rest (ground arith)
  ]

  pub insert-Each : (k : String) (v : V) (m : Dict V) → Good v → Each m → Each (insert k v m)
  unfolding insert
  insert-Each k v [] good each = (good, tt)
  insert-Each k v ((j, w) ∷ m) good (here, rest) =
      if-cases Each (j == k) _ _ (λ same. (good, rest))
        (λ other. (here, insert-Each k v m good rest))

  pub erase-Each : (k : String) (m : Dict V) → Each m → Each (erase k m)
  unfolding erase
  erase-Each k [] each = tt
  erase-Each k ((j, w) ∷ m) (here, rest) =
      if-cases Each (j == k) _ _ (λ same. erase-Each k m rest)
        (λ other. (here, erase-Each k m rest))

module _ {ℓ κ} {V : Type ℓ} (Good : V → Type κ) where
  -- Whatever is found under a key has the property.
  abbrev pub AllFound : Dict V → Type (ℓ ⊔ κ)
  AllFound m = (k : String) (v : V) → lookup k m ≡ some v → Good v

  pub insert-AllFound :
      (k : String) (v : V) (m : Dict V) → Good v → AllFound m → AllFound (insert k v m)
  insert-AllFound k v m good all j w found = elim (Bool-cases (k == j)) [
    | inl same ↦ subst Good (some_inj.0 (ground (arith, lookup-insert k j v m))) good
    | inr other ↦ all j w (ground (arith, lookup-insert k j v m))
  ]

  pub erase-AllFound : (k : String) (m : Dict V) → AllFound m → AllFound (erase k m)
  erase-AllFound k m all j w found = all j w (ground (arith, lookup-erase k j m))

-- Every entry has a property of its key and its value.
abbrev pub EachAt {ℓ κ} : {V : Type ℓ} → (String → V → Type κ) → Dict V → Type κ
EachAt Good m = All (λ x. Good x.0 x.1) m

module _ {ℓ κ} {V : Type ℓ} (Good : String → V → Type κ) where
  pub lookup-EachAt :
      (k : String) (m : Dict V) (v : V) → EachAt Good m → lookup k m ≡ some v → Good k v
  unfolding lookup
  lookup-EachAt k [] v each found = cc
  lookup-EachAt k ((j, w) ∷ m) v (here, rest) found = elim (Bool-cases (j == k)) [
    | inl same ↦
        subst (Good k) (some_inj.0 (ground arith))
          (subst (λ i. Good i w) ((eq_iff j k).0 same) here)
    | inr other ↦ lookup-EachAt k m v rest (ground arith)
  ]

  pub insert-EachAt :
      (k : String) (v : V) (m : Dict V) → Good k v → EachAt Good m → EachAt Good (insert k v m)
  unfolding insert
  insert-EachAt k v [] good each = (good, tt)
  insert-EachAt k v ((j, w) ∷ m) good (here, rest) =
      if-cases (EachAt Good) (j == k) _ _ (λ same. (good, rest))
        (λ other. (here, insert-EachAt k v m good rest))

  -- What the entries with another key come to have.
  pub erase-EachAt :
      (Then : String → V → Type κ) (k : String) (m : Dict V)
      → ((j : String) (v : V) → (j == k) ≡ false → Good j v → Then j v)
      → EachAt Good m
      → EachAt Then (erase k m)
  unfolding erase
  erase-EachAt Then k [] become each = tt
  erase-EachAt Then k ((j, w) ∷ m) become (here, rest) =
      if-cases (EachAt Then) (j == k) _ _ (λ same. erase-EachAt Then k m become rest)
        (λ other. (become j w other here, erase-EachAt Then k m become rest))
