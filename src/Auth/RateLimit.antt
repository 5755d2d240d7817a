-- ===== src/Auth/RateLimit.antt =====
-- shared/middleware/ratelimit.go. The limiter of golang.org/x/time/rate is a parameter.
pub mod Alone
pub mod Bucket
pub mod Window
use nodefall.Base.{
  ℕ, String, ◌==◌, Bool, false, not, ◌≡◌, Option, none, some, [], arith, if◌then◌else◌, ap,
}
use nodefall.Base.Dict.{Dict, lookup, insert, lookup-insert_ne}
use nodefall.Http.{Answer, http_error, status_too_many_requests}

-- A new limiter for a rate and a burst, and `Allow` at a time.
pub record TokenBucket (R L : Type 0) : Type 0 where
  pub new_limiter : R → ℕ → L
  pub allow : ℕ → L → Bool × L

pub record RateLimiter (R L : Type 0) : Type 0 where
  pub limiters : Dict L
  pub rate : R
  pub burst : ℕ

unfoldable pub new_rate_limiter : {R L : Type 0} → R → ℕ → RateLimiter R L
new_rate_limiter requests_per_second burst = record {
  limiters = [];
  rate = requests_per_second;
  burst = burst;
}

module _ {R L : Type 0} (tb : TokenBucket R L) where
  -- The limiter of `getLimiter`, which makes one for a new key; `Wrap` writes it back.
  unfoldable pub get_limiter : String → RateLimiter R L → L
  get_limiter key rl = elim (lookup key rl.limiters) [
    | some l ↦ l
    | none ↦ tb.new_limiter rl.rate rl.burst
  ]

  -- `split` is what `SplitHostPort` makes of the address, if it can.
  unfoldable pub client_ip : (String → Option String) → String → String
  client_ip split remote = elim (split remote) [ none ↦ remote | some host ↦ host ]

  -- `Wrap`: the answer, or what the wrapped handler gives, and the limiters afterwards.
  unfoldable pub limit {ℓ} :
      {A : Type ℓ} → ℕ → String → (Answer → A) → A → RateLimiter R L → A × RateLimiter R L
  limit now key refuse next rl =
      let (allowed, l) = tb.allow now (get_limiter key rl) in
      (
        if not allowed
            then refuse (http_error "too many requests" status_too_many_requests)
            else next,
        record rl { limiters = insert key l rl.limiters },
      )

  get_limiter-limit_ne :
      {A : Type 0} (now : ℕ) (key other : String) (refuse : Answer → A) (next : A)
      (rl : RateLimiter R L)
      → (key == other) ≡ false
      → get_limiter other (limit now key refuse next rl).1 ≡ get_limiter other rl
  unfolding get_limiter limit
  get_limiter-limit_ne now key other refuse next rl ne =
      ground
        (arith, lookup-insert_ne key rl.limiters other (tb.allow now (get_limiter key rl)).1 ne)

  -- A request from one address does not change how a request from another is answered, now or later.
  limit_apart :
      {A : Type 0} (now later : ℕ) (key other : String) (refuse : Answer → A) (next after : A)
      (rl : RateLimiter R L)
      → (key == other) ≡ false
      → (limit later other refuse after (limit now key refuse next rl).1).0
        ≡ (limit later other refuse after rl).0
  unfolding limit
  limit_apart now later key other refuse next after rl ne =
      let same = get_limiter-limit_ne now key other refuse next rl ne in
      ap
        (λ l.
          if not (tb.allow later l).0
          then refuse (http_error "too many requests" status_too_many_requests)
          else after)
        same
