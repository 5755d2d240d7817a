-- ===== src/Engine/Phases.antt =====
-- engine.go: the phases of `Tick` as a state machine.
use nodefall.Base.{
  ℕ, ◌+◌, ◌≤◌, ◌<◌, ◌≡◌, not, ◌&&◌, refl, sym, subst, some, none, ltb, leb_ℤ, pos, Option, if-cases,
  arith, Bool-cases, inl, inr,
}
use nodefall.Runtime.Clock.{since, since-ge}
use nodefall.World.Constants.{match_start_delay, reset_delay}
use nodefall.Engine.State.{Engine, Host, Ranges, Phase, waiting, live, ended, is_empty, is_zero}
use nodefall.Engine.Steps.{process_respawns}
use nodefall.Engine.Frame.{Framed, simulate-Frame, process_respawns-Frame}
use nodefall.Engine.Lifecycle.{
  tally, reset_match, check_match_end, tick_waiting, tick_live, tick_ended, broadcast, advance,
  tick,
}

-- What a tick at `now` may do to the phase of the engine `e`. A match waits until three seconds after
-- its countdown began, and then starts; it ends only while it is live, or goes back to waiting; and an
-- ended match is reset as soon as eight seconds have passed since its end.
pub data PhaseStep {F C : Type 0} (now : ℕ) (e : Engine F C) (p : Phase) : Type 0 where
  waits :
      e.phase ≡ waiting
      → (0 < e.wait_started → now < e.wait_started + match_start_delay)
      → p ≡ waiting
      → PhaseStep now e p
  plays : e.phase ≡ live → p ≡ live → PhaseStep now e p
  lingers : e.phase ≡ ended → now < e.ended_at + reset_delay → p ≡ ended → PhaseStep now e p
  starts :
      e.phase ≡ waiting
      → 0 < e.wait_started
      → e.wait_started + match_start_delay ≤ now
      → p ≡ live
      → PhaseStep now e p
  ends : e.phase ≡ live → p ≡ ended → PhaseStep now e p
  empties : e.phase ≡ live → p ≡ waiting → PhaseStep now e p
  resets : e.phase ≡ ended → e.ended_at + reset_delay ≤ now → p ≡ waiting → PhaseStep now e p

module _ {F S C M : Type 0} (h : Host F S C M) where
  -- The phase of what a call leaves, unless it panicked.
  abbrev Next : ℕ → Engine F C → Option (Engine F C × S) → Type 0
  Next now e none = Unit
  Next now e (some (e', s)) = PhaseStep now e e'.phase

  waiting-Next :
      (now : ℕ) (e : Engine F C) (s : S)
      → e.phase ≡ waiting
      → Next now e (some (tick_waiting h now e, s))
  unfolding tick_waiting
  waiting-Next now e s at =
      elim (Bool-cases (
        not (is_zero e.wait_started) && leb_ℤ (pos match_start_delay) (since now e.wait_started))) [
          | inl go ↦ rw go (
              starts at (ground arith)
                (ground (arith, since-ge now e.wait_started match_start_delay)) refl)
          | inr wait ↦
              rw wait (
                waits at (λ begun. ground (arith, since-ge now e.wait_started match_start_delay))
                  at)
        ]

  ended-Next :
      (now : ℕ) (e : Engine F C) (s : S)
      → e.phase ≡ ended
      → Next now e (some (tick_ended h now (e, s)))
  unfolding tick_ended
  ended-Next now e s at = elim (Bool-cases (leb_ℤ (pos reset_delay) (since now e.ended_at))) [
    | inl over ↦ rw over (
        unfold reset_match in
        (resets at (ground (arith, since-ge now e.ended_at reset_delay)) refl))
    | inr wait ↦ rw wait (lingers at (ground (arith, since-ge now e.ended_at reset_delay)) at)
  ]

  check_match_end-Next :
      (now : ℕ) (e e' : Engine F C) (s : S)
      → e.phase ≡ live
      → e'.phase ≡ live
      → Next now e (some (check_match_end h now (e', s)))
  unfolding check_match_end reset_match
  check_match_end-Next now e e' s at still =
      if-cases {A = Engine F C × S} (λ t. PhaseStep now e t.0.phase) (is_empty e'.players) _ _
        (λ empty. empties at refl)
        (λ there.
          if-cases {A = Engine F C × S} (λ t. PhaseStep now e t.0.phase)
            (ltb 1 (tally e'.players (0, "")).0) (e', s) _ (λ on. plays at still)
            (λ over. ends at refl))

  live-Next :
      (w : Ranges) (now : ℕ) (e : Engine F C) (s : S)
      → e.phase ≡ live
      → Next now e (tick_live h w now (e, s))
  unfolding tick_live process_respawns
  live-Next w now e s at = go _ (
      process_respawns-Frame h (λ e'. e'.phase ≡ live) (λ e' ps bs is z ts k. k) now _ _ s
        (simulate-Frame h (λ e'. e'.phase ≡ live) (λ e' ps bs is z ts k. k) w now e at))
    where
      go :
          (o : Option (Engine F C × S))
          → Framed h (λ e'. e'.phase ≡ live) (λ e' ps bs is z ts k. k) o
          → Next now e (elim o [ none ↦ none | some t ↦ some (check_match_end h now t) ])
      go none k = tt
      go (some (e', t)) k = check_match_end-Next now e e' t at k

  advance-Next :
      (w : Ranges) (now : ℕ) (p : Phase) (e : Engine F C) (s : S)
      → e.phase ≡ p
      → Next now e (advance h w now p (e, s))
  unfolding advance
  advance-Next w now waiting e s at = waiting-Next now e s at
  advance-Next w now ended e s at = ended-Next now e s at
  advance-Next w now live e s at = live-Next w now e s at

  broadcast_phase : (now : ℕ) (e : Engine F C) → (broadcast h now e).phase ≡ e.phase
  unfolding broadcast
  broadcast_phase now e = ground arith

  tick-Next : (w : Ranges) (now : ℕ) (e : Engine F C) (s : S) → Next now e (tick h w now (e, s))
  unfolding tick
  tick-Next w now e s = go _ (advance-Next w now e.phase e s refl)
    where
      go :
          (o : Option (Engine F C × S))
          → Next now e o
          → Next now e (elim o [ none ↦ none | some t ↦ some (broadcast h now t.0, t.1) ])
      go none k = tt
      go (some (e', t)) k = subst (PhaseStep now e) (sym (broadcast_phase now e')) k

  -- Every tick that does not panic follows an edge of the phase machine: a waiting match starts exactly
  -- when three seconds have passed since its countdown began, an ended one is reset exactly when eight
  -- seconds have passed since its end, and only a live one can end.
  pub tick_phase :
      (w : Ranges) (now : ℕ) (e e' : Engine F C) (s t : S)
      → tick h w now (e, s) ≡ some (e', t)
      → PhaseStep now e e'.phase
  tick_phase w now e e' s t done = subst (Next now e) done (tick-Next w now e s)
