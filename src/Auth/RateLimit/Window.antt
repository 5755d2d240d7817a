-- ===== src/Auth/RateLimit/Window.antt =====
-- shared/middleware/ratelimit.go: how many requests of one address get through.
use nodefall.Base.{
  ℕ, String, ◌+◌, ◌-◌, ◌*◌, ◌≤◌, ◌≡◌, refl, subst, true, List, [], ◌∷◌, ◌++◌, All, if-cases, ◌==◌,
  arith,
}
use nodefall.Base.Dict.{lookup}
use nodefall.Runtime.Clock.{second}
use nodefall.Auth.RateLimit.{TokenBucket, new_rate_limiter, get_limiter}
use nodefall.Auth.RateLimit.Alone.{times_of, after, passes, after-alone, passes-alone}
use nodefall.Auth.RateLimit.Bucket.{
  Spaced, EachApart, count, IsTokenBucket, window_spends, before_window, never_short_new,
}

-- The times at which requests come.
abbrev pub InOrder : ℕ → List (ℕ × String) → Type 0
InOrder t [] = Unit
InOrder t ((now, k) ∷ xs) = (t ≤ now) × InOrder now xs

times_of-Spaced :
    (key : String) (t u : ℕ) (xs : List (ℕ × String))
    → t ≤ u
    → InOrder u xs
    → Spaced 0 t (times_of key xs)
unfolding times_of
times_of-Spaced key t u [] le order = tt
times_of-Spaced key t u ((now, k) ∷ xs) le (later, order) =
    let rest = times_of-Spaced key now now xs (omega arith) order in
    let over = times_of-Spaced key t now xs (omega arith) order in
    if-cases (Spaced 0 t) (k == key) _ _ (λ same. (omega arith, rest)) (λ other. over)

times_of-All :
    (P : ℕ → Type 0) (key : String) (xs : List (ℕ × String))
    → All (λ x. P x.0) xs
    → All P (times_of key xs)
unfolding times_of
times_of-All P key [] all = tt
times_of-All P key ((now, k) ∷ xs) (here, all) =
    let rest = times_of-All P key xs all in
    if-cases (All P) (k == key) _ _ (λ same. (here, rest)) (λ other. rest)

times_of-append :
    (key : String) (xs ys : List (ℕ × String))
    → times_of key (xs ++ ys) ≡ times_of key xs ++ times_of key ys
unfolding times_of
times_of-append key [] ys = refl
times_of-append key ((now, k) ∷ xs) ys =
    let rest = times_of-append key xs ys in ground (arith, rest)

module _ {L : Type 0} (tb : TokenBucket ℕ L) (law : IsTokenBucket tb) where
  get_limiter-new :
      (key : String) (rate burst : ℕ)
      → get_limiter tb key (new_rate_limiter rate burst) ≡ tb.new_limiter rate burst
  unfolding get_limiter new_rate_limiter lookup
  get_limiter-new key rate burst = refl

  -- Requests come in order. In a window, a new limiter lets at most its burst through for one address, and
  -- its rate for each second of the window, whatever came before the window and in between.
  pub passes_bounded :
      (rate burst start until : ℕ) (key : String) (before window : List (ℕ × String))
      → InOrder 0 (before ++ window)
      → All (λ x. (start ≤ x.0) × (x.0 ≤ until)) window
      → count (passes tb key window (after tb before (new_rate_limiter rate burst))) * second
        ≤ burst * second + rate * (until - start)
  passes_bounded rate burst start until key before window order within =
      let start_of = after-alone tb key before (new_rate_limiter rate burst) in
      let spaced =
        subst (Spaced 0 0) (times_of-append key before window)
          (times_of-Spaced key 0 0 (before ++ window) (omega arith) order) in
      let (t, held, h, later) =
        before_window tb law rate burst 0 _ (times_of key before) (times_of key window) _
          (law.full rate burst) spaced in
      let spent =
        window_spends tb law rate burst t held start until (times_of key window) _ h later
          (times_of-All (λ t. (start ≤ t) × (t ≤ until)) key window within) in
      rw
        (
          passes-alone tb key window (after tb before (new_rate_limiter rate burst)),
          start_of,
          get_limiter-new key rate burst,
        )
        spent

  -- A new limiter with a rate of one a second or more, and a burst of one or more, never refuses an
  -- address whose requests come at least a second apart.
  pub unhurried_pass :
      (rate burst : ℕ) (key : String) (xs : List (ℕ × String))
      → 1 ≤ rate
      → 1 ≤ burst
      → EachApart second (times_of key xs)
      → All (λ passed. passed ≡ true) (passes tb key xs (new_rate_limiter rate burst))
  unhurried_pass rate burst key xs r b apart =
      rw (passes-alone tb key xs (new_rate_limiter rate burst), get_limiter-new key rate burst)
        (never_short_new tb law rate burst (times_of key xs) r b apart)
