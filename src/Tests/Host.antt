-- ===== src/Tests/Host.antt =====
-- A concrete host: coordinates are whole tenths, a random source counts up, a message is the number
-- of players in the snapshot. It meets the laws that are assumed of float64 and math/rand.
use nodefall.Base.{
  ℕ, suc, ◌+◌, ◌-◌, ◌*◌, ◌/◌, ◌≤◌, ◌≡◌, refl, true, ltb, leb, some, length, arith, if◌then◌else◌,
}
use Prim.Native.Nat.{◌%◌}
use native.Mathlib.Nat.{mul-le-mul_right}
use nodefall.Runtime.Float.{Float, IsFloat}
use nodefall.Runtime.Random.{Random, IsRandom}
use nodefall.Engine.State.{Host, Ranges}
use nodefall.Server.Client.{Client, client_transport}

-- `sub` is the distance, which is all that its callers use of a difference of coordinates.
abbrev pub tenths : Float ℕ
tenths = record {
  of_tenths = λ n. n;
  add = λ x y. x + y;
  sub = λ x y. (x - y) + (y - x);
  mul = λ x y. x * y / 10;
  max = λ x y. if ltb x y then y else x;
  min = λ x y. if ltb y x then y else x;
  hypot = λ x y. x + y;
  cos = λ x. 10;
  sin = λ x. 0;
  le = leb;
  lt = ltb;
}

scale : (r n : ℕ) → ltb r 10 ≡ true → leb (r * n / 10) n ≡ true
scale r n h =
    let small : r ≤ 10 = ground arith in
    let bound = mul-le-mul_right n small in ground (arith, bound)

pub tenths-IsFloat : IsFloat tenths
tenths-IsFloat = record {
  finite = λ x. true;
  tenths_finite = λ n h. refl;
  tenths_le = λ m n h. ground arith;
  finite_num = λ x h. ground arith;
  finite_between = λ x y z hx hz h k. refl;
  le_trans = λ x y z h k. ground arith;
  le_max = λ x y h k. ground arith;
  max_le = λ x y z h k. ground arith;
  min_le = λ x y h k. ground arith;
  min_num = λ x y h k. ground arith;
  mul_num = λ x y h k. ground arith;
  add_num = λ x y h k. ground arith;
  sub_num = λ x y h k. ground arith;
  scale_nonneg = λ r n b h k. ground arith;
  scale_le = λ r n b h k. scale r n k;
  add_ge = λ x m b h. ground arith;
  add_le = λ x m n b h. ground arith;
}

pub finite_all : (x : ℕ) → tenths-IsFloat.finite x ≡ true
unfolding tenths-IsFloat
finite_all x = refl

abbrev pub counting : Random ℕ ℕ
counting = record { float64 = λ s. (s % 10, suc s); intn = λ n s. (s % n, suc s) }

pub counting-IsRandom : IsRandom tenths counting
counting-IsRandom = record {
  float64_ge = λ s. ground arith;
  float64_lt = λ s. ground arith;
  intn_lt = λ n s h. grind arith;
}

abbrev pub host : Host ℕ ℕ (Client ℕ) ℕ
host = record {
  float = tenths;
  random = counting;
  transport = client_transport;
  marshal = λ shot. some (length shot.players);
}

abbrev pub in_order : Ranges
in_order = record { by_bullet = λ n ks. ks; by_item = λ n ks. ks }
