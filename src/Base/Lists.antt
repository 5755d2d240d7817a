-- ===== src/Base/Lists.antt =====
-- Lists measured by native numbers, and the predicate that holds of every element.
use Prim.Native.Nat.{ℕ, zero, suc, ◌+◌}
use mathlib.Core.Path.{◌≡◌}
use mathlib.Core.List.{List, [], ◌∷◌, ◌++◌}
use native.Mathlib.Omega.{arith}

module _ {ℓ} {A : Type ℓ} where
  abbrev pub length : List A → ℕ
  length [] = 0
  length (x ∷ xs) = suc (length xs)

  abbrev pub get_or : List A → ℕ → A → A
  get_or [] i d = d
  get_or (x ∷ xs) zero d = x
  get_or (x ∷ xs) (suc i) d = get_or xs i d

  abbrev pub take : ℕ → List A → List A
  take zero xs = []
  take (suc n) [] = []
  take (suc n) (x ∷ xs) = x ∷ take n xs

  abbrev pub drop : ℕ → List A → List A
  drop zero xs = xs
  drop (suc n) [] = []
  drop (suc n) (x ∷ xs) = drop n xs

  pub length-append : (xs ys : List A) → length (xs ++ ys) ≡ length xs + length ys
  length-append [] ys = omega arith
  length-append (x ∷ xs) ys = omega (arith, length-append xs ys)

  abbrev pub All {κ} : (Good : A → Type κ) → List A → Type κ
  All Good [] = Unit
  All Good (first ∷ others) = Good first × All Good others

  pub All-append {κ} :
      (Good : A → Type κ) (front back : List A)
      → All Good front
      → All Good back
      → All Good (front ++ back)
  All-append Good [] back none_left behind = behind
  All-append Good (first ∷ others) back (good, rest) behind =
      (good, All-append Good others back rest behind)

  pub All-map {κ μ} :
      {Good : A → Type κ} {Fine : A → Type μ} (members : List A)
      → ((x : A) → Good x → Fine x)
      → All Good members
      → All Fine members
  All-map [] weaken all = tt
  All-map (first ∷ others) weaken (good, rest) = (weaken first good, All-map others weaken rest)

  -- What holds of everything holds of every element.
  pub All-of {κ} : {Good : A → Type κ} (members : List A) → ((x : A) → Good x) → All Good members
  All-of [] always = tt
  All-of (first ∷ others) always = (always first, All-of others always)
