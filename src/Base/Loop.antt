-- ===== src/Base/Loop.antt =====
-- Loops over a list: `for` with a state, and `for` whose body can panic.
use mathlib.Core.Option.{Option, none, some, some_inj}
use mathlib.Core.List.{List, [], ◌∷◌}
use mathlib.Core.Path.{◌≡◌, subst}
use mathlib.Core.Logic.{inl, inr}
use mathlib.Core.Bool.{Bool, true, false, ◌||◌}
use native.Mathlib.Omega.{arith}
use nodefall.Base.Lists.{All, All-of}
use nodefall.Base.Tests.{Option-cases, Bool-cases}

-- Whether the test holds of some element.
abbrev pub any {ℓ} : {A : Type ℓ} → (A → Bool) → List A → Bool
any hit [] = false
any hit (x ∷ xs) = hit x || any hit xs

module _ {κ} {S : Type κ} where
  -- What is returned has the property, unless there was a panic.
  abbrev pub Returned {μ} : (S → Type μ) → Option S → Type μ
  Returned P none = Unit
  Returned P (some s) = P s

  pub Returned-then {μ ν} :
      (P : S → Type μ) (Q : S → Type ν) (f : S → S)
      → ((s : S) → P s → Q (f s))
      → (o : Option S) → Returned P o
      → Returned Q (elim o [ none ↦ none | some s ↦ some (f s) ])
  Returned-then P Q f keep none r = tt
  Returned-then P Q f keep (some s) r = keep s r

  pub try_each_then {μ} :
      (P : S → Type μ) (o : Option S)
      → Returned P o
      → (f : S → Option S) → ((s : S) → P s → Returned P (f s))
      → Returned P (elim o [ none ↦ none | some s ↦ f s ])
  try_each_then P none r f keep = tt
  try_each_then P (some s) r f keep = keep s r

  pub Returned-map {μ} :
      (P : S → Type μ) (f : S → S)
      → ((s : S) → P s → P (f s))
      → (o : Option S) → Returned P o
      → Returned P (elim o [ none ↦ none | some s ↦ some (f s) ])
  Returned-map P = Returned-then P P

module _ {ℓ κ} {A : Type ℓ} {S : Type κ} where
  unfoldable pub for_each : (A → S → S) → List A → S → S
  for_each body [] s = s
  for_each body (x ∷ xs) s = for_each body xs (body x s)

  -- `none` is a panic of the body.
  unfoldable pub try_each : (A → S → Option S) → List A → S → Option S
  try_each body [] s = some s
  try_each body (x ∷ xs) s = elim (body x s) [ none ↦ none | some t ↦ try_each body xs t ]

  pub for_each_inv {μ} :
      (P : S → Type μ) (body : A → S → S)
      → ((x : A) (s : S) → P s → P (body x s))
      → (xs : List A) (s : S) → P s
      → P (for_each body xs s)
  unfolding for_each
  for_each_inv P body keep [] s h = h
  for_each_inv P body keep (x ∷ xs) s h = for_each_inv P body keep xs (body x s) (keep x s h)

  -- A loop that does not panic keeps what each of its steps keeps.
  pub try_each_inv {μ} :
      (P : S → Type μ) (body : A → S → Option S) (xs : List A)
      → All (λ x. (s t : S) → P s → body x s ≡ some t → P t) xs
      → (s t : S) → P s
      → try_each body xs s ≡ some t
      → P t
  unfolding try_each
  try_each_inv P body [] keep s t h done = subst P (some_inj.0 done) h
  try_each_inv P body (x ∷ xs) (keep, rest) s t h done = elim (Option-cases (body x s)) [
    | inl stop ↦ ground arith
    | inr (u, step) ↦ try_each_inv P body xs rest u t (keep s u h step) (ground (arith, step))
  ]

  -- A loop that does not panic reaches what one of its steps brings about and all of them keep.
  pub try_each_reaches {μ} :
      (P : S → Type μ) (hit : A → Bool) (body : A → S → Option S)
      → ((x : A) (s t : S) → P s → body x s ≡ some t → P t)
      → ((x : A) (s t : S) → hit x ≡ true → body x s ≡ some t → P t)
      → (xs : List A) (s t : S) → any hit xs ≡ true
      → try_each body xs s ≡ some t
      → P t
  unfolding try_each
  try_each_reaches P hit body keep make [] s t there done = cc
  try_each_reaches P hit body keep make (x ∷ xs) s t there done = elim (Option-cases (body x s)) [
    | inl stop ↦ ground arith
    | inr (u, step) ↦ elim (Bool-cases (hit x)) [
      | inl now ↦
          try_each_inv P body xs (All-of xs (λ y. keep y)) u t (make x s u now step)
            (ground (arith, step))
      | inr later ↦
          try_each_reaches P hit body keep make xs u t (ground arith) (ground (arith, step))
    ]
  ]

  pub try_each-Returned {μ} :
      (P : S → Type μ) (body : A → S → Option S)
      → ((x : A) (s : S) → P s → Returned P (body x s))
      → (xs : List A) (s : S) → P s
      → Returned P (try_each body xs s)
  unfolding try_each
  try_each-Returned P body keep [] s h = h
  try_each-Returned P body keep (x ∷ xs) s h =
      try_each_then P (body x s) (keep x s h) _ (try_each-Returned P body keep xs)
