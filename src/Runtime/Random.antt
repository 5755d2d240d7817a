-- ===== src/Runtime/Random.antt =====
-- Package math/rand: `float64` and `intn` take the source's state and return the next one.
use nodefall.Base.{ℕ, ◌<◌, ◌≡◌, true}
use nodefall.Runtime.Float.{Float}

pub record Random (F S : Type 0) : Type 0 where
  pub float64 : S → F × S
  pub intn : ℕ → S → ℕ × S

-- A draw of `Float64` lies in [0, 1), one of `Intn(n)` in [0, n).
pub record IsRandom {F S : Type 0} (fl : Float F) (rnd : Random F S) : Type 0 where
  pub float64_ge : (s : S) → fl.le (fl.of_tenths 0) (rnd.float64 s).0 ≡ true
  pub float64_lt : (s : S) → fl.lt (rnd.float64 s).0 (fl.of_tenths 10) ≡ true
  pub intn_lt : (n : ℕ) (s : S) → 0 < n → (rnd.intn n s).0 < n
