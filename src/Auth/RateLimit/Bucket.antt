-- ===== src/Auth/RateLimit/Bucket.antt =====
-- shared/middleware/ratelimit.go: what a token bucket lets through.
use nodefall.Base.{
  ℕ, ◌+◌, ◌-◌, ◌*◌, ◌≤◌, ◌≡◌, ◌∙◌, sym, ap, Bool, true, leb, if◌then◌else◌, List, [], ◌∷◌, ◌++◌,
  All, All-map, arith,
}
use native.Mathlib.Nat.{mul-add, mul-le-mul_left, mul-le-mul}
use nodefall.Runtime.Clock.{second}
use nodefall.Auth.RateLimit.{TokenBucket}
use nodefall.Auth.RateLimit.Alone.{bucket_after, bucket_passes}

-- Each time is no earlier than the one before, and at least so much later.
abbrev pub Spaced : ℕ → ℕ → List ℕ → Type 0
Spaced gap t [] = Unit
Spaced gap t (now ∷ ts) = (t + gap ≤ now) × Spaced gap now ts

abbrev pub EachApart : ℕ → List ℕ → Type 0
EachApart gap [] = Unit
EachApart gap (now ∷ ts) = Spaced gap now ts

unfoldable pub count : List Bool → ℕ
count [] = 0
count (passed ∷ bs) = let rest = count bs in if passed then 1 + rest else rest

-- What a bucket holds at a time, in billionths of a token: it gains that many per nanosecond as its
-- rate says per second, and never has more than its burst.
abbrev pub refilled : (rate burst t now held : ℕ) → ℕ
refilled rate burst t now held =
    if leb (burst * second) (held + rate * (now - t))
    then burst * second
    else held + rate * (now - t)

-- x/time/rate: a bucket is full at first and is refilled at its rate; a request takes a token if there
-- is a whole one, and is refused otherwise.
pub record IsTokenBucket {L : Type 0} (tb : TokenBucket ℕ L) : Type 1 where
  pub Holds : (rate burst t held : ℕ) → L → Type 0
  pub full : (rate burst : ℕ) → Holds rate burst 0 (burst * second) (tb.new_limiter rate burst)
  pub asked :
      (rate burst t held now : ℕ) (l : L)
      → Holds rate burst t held l
      → t ≤ now
      → ((tb.allow now l).0 ≡ leb second (refilled rate burst t now held))
        × Holds rate burst now
            (if leb second (refilled rate burst t now held)
              then refilled rate burst t now held - second
              else refilled rate burst t now held)
            (tb.allow now l).1

module _ {L : Type 0} (tb : TokenBucket ℕ L) (law : IsTokenBucket tb) (rate burst : ℕ) where
  pay :
      (t now until : ℕ)
      → t ≤ now
      → now ≤ until
      → rate * (now - t) + rate * (until - now) ≡ rate * (until - t)
  pay t now until le le' =
      sym (mul-add rate (now - t) (until - now)) ∙ ap (λ x. rate * x) (omega arith)

  spends :
      (t held until : ℕ) (ts : List ℕ) (l : L)
      → law.Holds rate burst t held l
      → Spaced 0 t ts
      → t ≤ until
      → All (λ now. now ≤ until) ts
      → count (bucket_passes tb ts l) * second ≤ held + rate * (until - t)
  unfolding bucket_passes count
  spends t held until [] l h order le within = omega arith
  spends t held until (now ∷ ts) l h (later, order) le (here, within) =
      let le' : t ≤ now = omega arith in
      let (passed, left) = law.asked rate burst t held now l h le' in
      let rest = spends now _ until ts _ left order here within in
      let all = pay t now until le' here in rw (passed) (ground arith)

  -- From any state, what comes before the first request of a window counts at most as a full bucket.
  pub window_spends :
      (t held start until : ℕ) (ts : List ℕ) (l : L)
      → law.Holds rate burst t held l
      → Spaced 0 t ts
      → All (λ now. (start ≤ now) × (now ≤ until)) ts
      → count (bucket_passes tb ts l) * second ≤ burst * second + rate * (until - start)
  unfolding bucket_passes count
  window_spends t held start until [] l h order within = omega arith
  window_spends t held start until (now ∷ ts) l h (later, order) ((le, here), within) =
      let (passed, left) = law.asked rate burst t held now l h (omega arith) in
      let rest = spends now _ until ts _ left order here (All-map ts (λ t both. both.1) within) in
      let sooner : until - now ≤ until - start = omega arith in
      let wide = mul-le-mul_left rate sooner in rw (passed) (ground arith)

  pub before_window :
      (t held : ℕ) (ts us : List ℕ) (l : L)
      → law.Holds rate burst t held l
      → Spaced 0 t (ts ++ us)
      → (t' : ℕ) × (held' : ℕ) × law.Holds rate burst t' held' (bucket_after tb ts l)
        × Spaced 0 t' us
  unfolding bucket_after
  before_window t held [] us l h order = (t, held, h, order)
  before_window t held (now ∷ ts) us l h (later, order) =
      let (passed, left) = law.asked rate burst t held now l h (omega arith) in
      before_window now _ ts us _ left order

  never_short :
      (t held : ℕ) (ts : List ℕ) (l : L)
      → law.Holds rate burst t held l
      → 1 ≤ rate
      → 1 ≤ burst
      → Spaced second t ts
      → All (λ passed. passed ≡ true) (bucket_passes tb ts l)
  unfolding bucket_passes
  never_short t held [] l h r b order = tt
  never_short t held (now ∷ ts) l h r b (later, order) =
      let (passed, left) = law.asked rate burst t held now l h (omega arith) in
      let apart : second ≤ now - t = omega arith in
      let wide = mul-le-mul r apart in
      (rw (passed) (ground arith), never_short now _ ts _ left r b order)

  pub never_short_new :
      (ts : List ℕ)
      → 1 ≤ rate
      → 1 ≤ burst
      → EachApart second ts
      → All (λ passed. passed ≡ true) (bucket_passes tb ts (tb.new_limiter rate burst))
  unfolding bucket_passes
  never_short_new [] r b order = tt
  never_short_new (now ∷ ts) r b order =
      let (passed, left) =
        law.asked rate burst 0 (burst * second) now _ (law.full rate burst) (omega arith) in
      (rw (passed) (ground arith), never_short now _ ts _ left r b order)
