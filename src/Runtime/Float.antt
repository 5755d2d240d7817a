-- ===== src/Runtime/Float.antt =====
-- Go's float64 with the functions of package math that the game calls.
use nodefall.Base.{ℕ, ◌+◌, ◌*◌, ◌≤◌, ◌<◌, ◌≡◌, Bool, true}

-- `of_tenths n` is the constant n / 10: every constant of the game is a multiple of a tenth, and
-- Go computes with untyped constants exactly before it converts them.
pub record Float (F : Type 0) : Type 0 where
  pub of_tenths : ℕ → F
  pub add : F → F → F
  pub sub : F → F → F
  pub mul : F → F → F
  pub max : F → F → F
  pub min : F → F → F
  pub hypot : F → F → F
  pub cos : F → F
  pub sin : F → F
  pub le : F → F → Bool
  pub lt : F → F → Bool

-- Up to here an integer is exact in a float64.
abbrev pub exact_limit : ℕ
exact_limit = 9007199254740992

module _ {F : Type 0} (fl : Float F) where
  open fl use {of_tenths, add, sub, mul, max, min, le, lt}

  -- IEEE 754 facts. `le x x` fails for a NaN alone; `finite` holds of no NaN and no infinity.
  pub record IsFloat : Type 0 where
    pub finite : F → Bool
    pub tenths_finite : (n : ℕ) → n < exact_limit → finite (of_tenths n) ≡ true
    pub tenths_le : (m n : ℕ) → m ≤ n → le (of_tenths m) (of_tenths n) ≡ true
    pub finite_num : (x : F) → finite x ≡ true → le x x ≡ true
    pub finite_between :
        (x y z : F)
        → finite x ≡ true
        → finite z ≡ true
        → le x y ≡ true
        → le y z ≡ true
        → finite y ≡ true
    pub le_trans : (x y z : F) → le x y ≡ true → le y z ≡ true → le x z ≡ true
    pub le_max : (x y : F) → le x x ≡ true → le y y ≡ true → le x (max x y) ≡ true
    pub max_le : (x y z : F) → le x z ≡ true → le y z ≡ true → le (max x y) z ≡ true
    pub min_le : (x y : F) → le x x ≡ true → le y y ≡ true → le (min x y) y ≡ true
    pub min_num : (x y : F) → le x x ≡ true → le y y ≡ true → le (min x y) (min x y) ≡ true
    -- A product of finite numbers may be an infinity, and is no NaN.
    pub mul_num : (x y : F) → finite x ≡ true → finite y ≡ true → le (mul x y) (mul x y) ≡ true
    pub add_num : (x y : F) → finite x ≡ true → le y y ≡ true → le (add x y) (add x y) ≡ true
    pub sub_num : (x y : F) → finite x ≡ true → finite y ≡ true → le (sub x y) (sub x y) ≡ true
    -- A fraction in [0, 1) of a constant lies between 0 and the constant.
    pub scale_nonneg :
        (r : F) (n : ℕ)
        → n < exact_limit
        → le (of_tenths 0) r ≡ true
        → lt r (of_tenths 10) ≡ true
        → le (of_tenths 0) (mul r (of_tenths n)) ≡ true
    pub scale_le :
        (r : F) (n : ℕ)
        → n < exact_limit
        → le (of_tenths 0) r ≡ true
        → lt r (of_tenths 10) ≡ true
        → le (mul r (of_tenths n)) (of_tenths n) ≡ true
    -- Rounding is monotonic, and sums of integers are exact.
    pub add_ge :
        (x : F) (m : ℕ)
        → m < exact_limit
        → le (of_tenths 0) x ≡ true
        → le (of_tenths (10 * m)) (add (of_tenths (10 * m)) x) ≡ true
    pub add_le :
        (x : F) (m n : ℕ)
        → m + n < exact_limit
        → le x (of_tenths (10 * n)) ≡ true
        → le (add (of_tenths (10 * m)) x) (of_tenths (10 * (m + n))) ≡ true
