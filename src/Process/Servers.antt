-- ===== src/Process/Servers.antt =====
-- What the main functions rely on of the servers of net/http and grpc.
use nodefall.Base.{
  ℕ, Bool, not, ◌&&◌, true, false, ◌≡◌, ap, ◌∙◌, is_some, none, some, arith, Bool-cases, inl, inr,
}
use nodefall.Process.{server_closed, NetServer}

-- The request is under way, and its connection is not hijacked.
abbrev pub waits : {S : Type 0} → NetServer S → ℕ → S → Bool
waits net k s = net.pending k s && not (net.hijacked k s)

-- What net/http and grpc document: a server that is stopped takes no more requests and serving returns
-- at once, but the requests under way go on. The call of `stop` returns when none of them is left whose
-- connection is not hijacked: `Shutdown` does not wait for hijacked connections.
pub record IsNetServer {S : Type 0} (net : NetServer S) : Type 0 where
  pub stop_over : (s : S) → net.over s ≡ none → net.over (net.stop s) ≡ some server_closed
  pub stop_over_kept : (s : S) → is_some (net.over s) ≡ true → net.over (net.stop s) ≡ net.over s
  pub stop_pending : (k : ℕ) (s : S) → net.pending k (net.stop s) ≡ net.pending k s
  pub stop_waits : (k : ℕ) (s : S) → waits net k (net.stop s) ≡ waits net k s
  pub take_over :
      (n : ℕ) (s : S)
      → net.over (net.take n s) ≡ some server_closed
      → net.over s ≡ some server_closed
  pub take_refused :
      (n : ℕ) (s : S)
      → is_some (net.over s) ≡ true
      → (net.over (net.take n s) ≡ net.over s)
        × ((k : ℕ) → waits net k (net.take n s) ≡ waits net k s)
  pub answer_over :
      (n : ℕ) (s : S)
      → net.over (net.answer n s) ≡ some server_closed
      → net.over s ≡ some server_closed
  pub answer_over_kept :
      (n : ℕ) (s : S) → is_some (net.over s) ≡ true → net.over (net.answer n s) ≡ net.over s
  pub answer_waits : (n k : ℕ) (s : S) → waits net k (net.answer n s) ≡ true → waits net k s ≡ true
  pub hijack_over : (n : ℕ) (s : S) → net.over (net.hijack n s) ≡ net.over s
  pub hijack_waits : (n k : ℕ) (s : S) → waits net k (net.hijack n s) ≡ true → waits net k s ≡ true
  pub idle_waits : (k : ℕ) (s : S) → net.idle s ≡ true → waits net k s ≡ false

module _ {S : Type 0} (net : NetServer S) where
  -- The server serves no longer.
  abbrev pub IsStopped : S → Type 0
  IsStopped s = is_some (net.over s) ≡ true

  -- The server serves no longer, and has no request under way but on hijacked connections.
  abbrev pub IsDrained : S → Type 0
  IsDrained s = (is_some (net.over s) ≡ true) × ((k : ℕ) → waits net k s ≡ false)

module _ {S : Type 0} (net : NetServer S) (laws : IsNetServer net) where
  pub take-IsStopped : (n : ℕ) (s : S) → IsStopped net s → IsStopped net (net.take n s)
  take-IsStopped n s h = ap is_some (laws.take_refused n s h).0 ∙ h

  pub answer-IsStopped : (n : ℕ) (s : S) → IsStopped net s → IsStopped net (net.answer n s)
  answer-IsStopped n s h = ap is_some (laws.answer_over_kept n s h) ∙ h

  pub hijack-IsStopped : (n : ℕ) (s : S) → IsStopped net s → IsStopped net (net.hijack n s)
  hijack-IsStopped n s h = ap is_some (laws.hijack_over n s) ∙ h

  pub stop-IsStopped : (s : S) → IsStopped net (net.stop s)
  stop-IsStopped s = elim (Bool-cases (is_some (net.over s))) [
    | inl over ↦ ap is_some (laws.stop_over_kept s over) ∙ over
    | inr serves ↦ ap is_some (laws.stop_over s (ground arith))
  ]

  pub take-IsDrained : (n : ℕ) (s : S) → IsDrained net s → IsDrained net (net.take n s)
  take-IsDrained n s (over, idle) =
      (take-IsStopped n s over, λ k. (laws.take_refused n s over).1 k ∙ idle k)

  pub answer-IsDrained : (n : ℕ) (s : S) → IsDrained net s → IsDrained net (net.answer n s)
  answer-IsDrained n s (over, idle) =
      (answer-IsStopped n s over, λ k. ground (arith, laws.answer_waits n k s, idle k))

  pub hijack-IsDrained : (n : ℕ) (s : S) → IsDrained net s → IsDrained net (net.hijack n s)
  hijack-IsDrained n s (over, idle) =
      (hijack-IsStopped n s over, λ k. ground (arith, laws.hijack_waits n k s, idle k))

  pub stop-IsDrained : (s : S) → IsDrained net s → IsDrained net (net.stop s)
  stop-IsDrained s (over, idle) = (stop-IsStopped s, λ k. laws.stop_waits k s ∙ idle k)
