-- ===== src/Auth/RateLimit/Alone.antt =====
-- shared/middleware/ratelimit.go: the requests of many addresses, in the order in which they come.
use nodefall.Base.{
  ℕ, String, ◌==◌, ◌≡◌, refl, subst, Bool, true, false, not, if◌then◌else◌, List, [], ◌∷◌, inl, inr,
  Bool-cases, String-cases, arith, eq_refl, eq_iff,
}
use nodefall.Base.Dict.{lookup-insert_self, lookup-insert_ne}
use nodefall.Auth.RateLimit.{TokenBucket, RateLimiter, get_limiter, limit}

-- The times of one address's requests.
unfoldable pub times_of : String → List (ℕ × String) → List ℕ
times_of key [] = []
times_of key ((now, k) ∷ xs) = let rest = times_of key xs in if k == key then now ∷ rest else rest

module _ {R L : Type 0} (tb : TokenBucket R L) where
  -- One request: whether it gets through to the handler.
  abbrev pub request : ℕ → String → RateLimiter R L → Bool × RateLimiter R L
  request now key rl = limit tb now key (λ a. false) true rl

  unfoldable pub after : List (ℕ × String) → RateLimiter R L → RateLimiter R L
  after [] rl = rl
  after ((now, k) ∷ xs) rl = after xs (request now k rl).1

  -- Which requests of one address get through.
  unfoldable pub passes : String → List (ℕ × String) → RateLimiter R L → List Bool
  passes key [] rl = []
  passes key ((now, k) ∷ xs) rl =
      let (passed, rl') = request now k rl in
      let rest = passes key xs rl' in if k == key then passed ∷ rest else rest

  -- A bucket that is asked at these times.
  unfoldable pub bucket_after : List ℕ → L → L
  bucket_after [] l = l
  bucket_after (now ∷ ts) l = bucket_after ts (tb.allow now l).1

  unfoldable pub bucket_passes : List ℕ → L → List Bool
  bucket_passes [] l = []
  bucket_passes (now ∷ ts) l = let (passed, l') = tb.allow now l in passed ∷ bucket_passes ts l'

  get_limiter-request :
      (now : ℕ) (k key : String) (rl : RateLimiter R L)
      → get_limiter tb key (request now k rl).1
        ≡ (if k == key then (tb.allow now (get_limiter tb key rl)).1 else get_limiter tb key rl)
  unfolding get_limiter limit
  get_limiter-request now k key rl =
      let l = (tb.allow now (get_limiter tb k rl)).1 in
      elim (String-cases k key) [
        | inl same ↦
            subst
              (λ j.
                get_limiter tb j (request now k rl).1
                ≡ (if k == j then (tb.allow now (get_limiter tb j rl)).1 else get_limiter tb j rl))
              same (ground (arith, lookup-insert_self k rl.limiters l, eq_refl k))
        | inr (ne, _, _) ↦ ground (arith, lookup-insert_ne k rl.limiters key l ne)
      ]

  request-passed :
      (now : ℕ) (k key : String) (rl : RateLimiter R L)
      → (k == key) ≡ true
      → (request now k rl).0 ≡ (tb.allow now (get_limiter tb key rl)).0
  unfolding limit
  request-passed now k key rl same =
      subst (λ j. (request now k rl).0 ≡ (tb.allow now (get_limiter tb j rl)).0)
        ((eq_iff k key).0 same) (not_not (tb.allow now (get_limiter tb k rl)).0)
    where
      not_not : (b : Bool) → (if not b then false else true) ≡ b
      not_not true = refl
      not_not false = refl

  -- One address's bucket is the one that is asked at the times of its requests alone.
  pub after-alone :
      (key : String) (xs : List (ℕ × String)) (rl : RateLimiter R L)
      → get_limiter tb key (after xs rl) ≡ bucket_after (times_of key xs) (get_limiter tb key rl)
  unfolding after times_of bucket_after
  after-alone key [] rl = refl
  after-alone key ((now, k) ∷ xs) rl =
      let rest = after-alone key xs (request now k rl).1 in
      let here = get_limiter-request now k key rl in
      elim (Bool-cases (k == key)) [
        | inl same ↦ rw (rest, here, same) refl
        | inr other ↦ rw (rest, here, other) refl
      ]

  -- Which requests of an address get through is what a bucket of its own says that is asked at the
  -- times of these requests, however many others come in between.
  pub passes-alone :
      (key : String) (xs : List (ℕ × String)) (rl : RateLimiter R L)
      → passes key xs rl ≡ bucket_passes (times_of key xs) (get_limiter tb key rl)
  unfolding passes times_of bucket_passes
  passes-alone key [] rl = refl
  passes-alone key ((now, k) ∷ xs) rl =
      let rest = passes-alone key xs (request now k rl).1 in
      let here = get_limiter-request now k key rl in
      elim (Bool-cases (k == key)) [
        | inl same ↦ rw (rest, here, same, request-passed now k key rl same) refl
        | inr other ↦ rw (rest, here, other) refl
      ]
