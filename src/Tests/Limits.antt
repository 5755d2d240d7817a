-- ===== src/Tests/Limits.antt =====
-- A bucket that is refilled exactly, and the limiter's theorems at it.
use nodefall.Base.{
  ℕ, String, ◌+◌, ◌-◌, ◌*◌, ◌≤◌, ◌≡◌, refl, ap, true, false, leb, if◌then◌else◌, List, [], ◌∷◌, All,
  arith,
}
use nodefall.Base.Dict.{lookup, insert}
use nodefall.Runtime.Clock.{second}
use nodefall.Auth.RateLimit.{TokenBucket, new_rate_limiter, get_limiter, limit}
use nodefall.Auth.RateLimit.Alone.{times_of, after, passes, bucket_passes, passes-alone}
use nodefall.Auth.RateLimit.Bucket.{refilled, IsTokenBucket, EachApart, count}
use nodefall.Auth.RateLimit.Window.{passes_bounded, unhurried_pass}

-- The rate, the burst, the time of the last request, and what was left then.
abbrev pub Bucket : Type 0
Bucket = ℕ × ℕ × ℕ × ℕ

abbrev pub refilling : TokenBucket ℕ Bucket
refilling = record {
  new_limiter = λ rate burst. (rate, burst, 0, burst * second);
  allow = λ now l.
      let (rate, burst, t, held) = l in
      let level = refilled rate burst t now held in
      (leb second level, (rate, burst, now, if leb second level then level - second else level));
}

pub refilling-IsTokenBucket : IsTokenBucket refilling
refilling-IsTokenBucket = record {
  Holds = λ rate burst t held l. l ≡ (rate, burst, t, held);
  full = λ rate burst. refl;
  asked = λ rate burst t held now l h le.
      (ap (λ x. (refilling.allow now x).0) h, ap (λ x. (refilling.allow now x).1) h);
}

-- Three requests of one address at one time, one of another, and one more two seconds later.
abbrev hurried : List (ℕ × String)
hurried =
    (second, "1.1.1.1")
    ∷ (second, "1.1.1.1")
    ∷ (second, "1.1.1.1")
    ∷ (second, "2.2.2.2")
    ∷ (3 * second, "1.1.1.1")
    ∷ []

-- The third is refused.
third_refused :
    passes refilling "1.1.1.1" hurried (new_rate_limiter 1 2) ≡ true ∷ true ∷ false ∷ true ∷ []
unfolding passes limit get_limiter new_rate_limiter lookup insert
third_refused = refl

passes-alone_example :
    passes refilling "1.1.1.1" hurried (new_rate_limiter 1 2)
    ≡ bucket_passes refilling
        (times_of "1.1.1.1" hurried)
        (get_limiter refilling "1.1.1.1" (new_rate_limiter 1 2))
passes-alone_example = passes-alone refilling "1.1.1.1" hurried (new_rate_limiter 1 2)

passes_bounded_example :
    count (passes refilling "1.1.1.1" hurried (after refilling [] (new_rate_limiter 1 2))) * second
    ≤ 2 * second + 1 * (3 * second - second)
passes_bounded_example =
    passes_bounded refilling refilling-IsTokenBucket 1 2 second (3 * second) "1.1.1.1" [] hurried
      (omega arith, (omega arith, (omega arith, (omega arith, (omega arith, tt)))))
      (
        (omega arith, omega arith),
        (
          (omega arith, omega arith),
          (
            (omega arith, omega arith),
            ((omega arith, omega arith), ((omega arith, omega arith), tt)),
          ),
        ),
      )

abbrev unhurried : List (ℕ × String)
unhurried = (second, "2.2.2.2") ∷ (second, "1.1.1.1") ∷ (2 * second, "2.2.2.2") ∷ []

unhurried_apart : EachApart second (times_of "2.2.2.2" unhurried)
unfolding times_of
unhurried_apart = (omega arith, tt)

unhurried_pass_example :
    All (λ passed. passed ≡ true) (passes refilling "2.2.2.2" unhurried (new_rate_limiter 1 2))
unhurried_pass_example =
    unhurried_pass refilling refilling-IsTokenBucket 1 2 "2.2.2.2" unhurried (omega arith)
      (omega arith) unhurried_apart
