-- ===== src/Tests/Shutdown.antt =====
-- A server that keeps the list of the requests under way, and runs of the main functions over it.
use nodefall.Base.{
  ℕ, eqb, Bool, true, false, ◌≡◌, refl, sym, ap, subst, ◌∙◌, inl, inr, not, ◌&&◌, Bool-cases,
  is_some, Option, none, some, List, [], ◌∷◌, if◌then◌else◌, arith,
}
use nodefall.Base.Loop.{any, try_each}
use nodefall.Process.{
  Closing, server_closed, NetServer, shutdown_http, stop_grpc, game_calls, auth_calls, Process,
  serving, launch, ProcessEvent, signals, wakes, returns, ends, takes, answers, hijacks, call,
  call_returns, main_returns, running_step, process_step, process_run,
}
use nodefall.Process.Servers.{IsNetServer, IsDrained}
use nodefall.Process.Shutdown.{cut_off}
use nodefall.Process.Drained.{drained}

-- Why it serves no longer, the requests under way, and those of them that are on hijacked connections.
abbrev Counter : Type 0
Counter = Option Closing × List ℕ × List ℕ

abbrev take : ℕ → Counter → Counter
take n (none, under_way, lent) = (none, n ∷ under_way, lent)
take n (some why, under_way, lent) = (some why, under_way, lent)

abbrev answer : ℕ → List ℕ → List ℕ
answer n [] = []
answer n (m ∷ ms) = let rest = answer n ms in if eqb n m then rest else m ∷ rest

abbrev stop : Option Closing → Option Closing
stop none = some server_closed
stop (some why) = some why

abbrev all_lent : List ℕ → List ℕ → Bool
all_lent [] lent = true
all_lent (n ∷ ns) lent = any (eqb n) lent && all_lent ns lent

abbrev counting_server : NetServer Counter
counting_server = record {
  take = take;
  answer = λ n s. (s.0, answer n s.1, answer n s.2);
  hijack = λ n s. (s.0, s.1, n ∷ s.2);
  stop = λ s. (stop s.0, s.1, s.2);
  pending = λ k s. any (eqb k) s.1;
  hijacked = λ k s. any (eqb k) s.2;
  idle = λ s. all_lent s.1 s.2;
  over = λ s. s.0;
}

stop_over : (o : Option Closing) → o ≡ none → stop o ≡ some server_closed
stop_over none e = refl
stop_over (some why) e = ground arith

stop_kept : (o : Option Closing) → is_some o ≡ true → stop o ≡ o
stop_kept none e = ground arith
stop_kept (some why) e = refl

take_over : (n : ℕ) (o : Option Closing) (ns hs : List ℕ) → (take n (o, ns, hs)).0 ≡ o
take_over n none ns hs = refl
take_over n (some why) ns hs = refl

take_refused :
    (n : ℕ) (o : Option Closing) (ns hs : List ℕ)
    → is_some o ≡ true
    → take n (o, ns, hs) ≡ (o, ns, hs)
take_refused n none ns hs e = ground arith
take_refused n (some why) ns hs e = refl

any-answer : (n k : ℕ) (ns : List ℕ) → any (eqb k) (answer n ns) ≡ (any (eqb k) ns && not (eqb k n))
any-answer n k [] = refl
any-answer n k (m ∷ ms) = ground (arith, any-answer n k ms)

all_lent-waits :
    (k : ℕ) (ns hs : List ℕ)
    → all_lent ns hs ≡ true
    → (any (eqb k) ns && not (any (eqb k) hs)) ≡ false
all_lent-waits k [] hs all = refl
all_lent-waits k (n ∷ ns) hs all = elim (Bool-cases (eqb k n)) [
  | inl same ↦
      let one : n ≡ k = ground arith in
      let lent : any (eqb k) hs ≡ true = subst (λ j. any (eqb j) hs ≡ true) one (ground arith) in
      rw lent (ground arith)
  | inr other ↦ ground (arith, all_lent-waits k ns hs)
]

counting-IsNetServer : IsNetServer counting_server
counting-IsNetServer = record {
  stop_over = λ s e. stop_over s.0 e;
  stop_over_kept = λ s e. stop_kept s.0 e;
  stop_pending = λ k s. refl;
  stop_waits = λ k s. refl;
  take_over = λ n s e. sym (take_over n s.0 s.1 s.2) ∙ e;
  take_refused = λ n s e. (
    take_over n s.0 s.1 s.2,
    λ k. ap (λ t. any (eqb k) t.1 && not (any (eqb k) t.2)) (take_refused n s.0 s.1 s.2 e),
  );
  answer_over = λ n s e. e;
  answer_over_kept = λ n s e. refl;
  answer_waits = λ n k s e. ground (arith, any-answer n k s.1, any-answer n k s.2);
  hijack_over = λ n s. refl;
  hijack_waits = λ n k s e. ground arith;
  idle_waits = λ k s e. all_lent-waits k s.1 s.2 e;
}

-- A request is under way.
abbrev busy : Process Counter
busy = record (serving false (none, 7 ∷ [], []) (none, [], []) game_calls) { done = false }

cut_off_example :
    (p : Process Counter) × (process_run counting_server (signals ∷ wakes ∷ ends ∷ []) busy
      ≡ some p)
    × (p.exit ≡ some 0)
    × (any (eqb 7) p.http.1 ≡ true)
    × (p.calls ≡ busy.calls)
    × (p.grpc ≡ busy.grpc)
unfolding serving
cut_off_example =
    cut_off counting_server counting-IsNetServer busy (stop_grpc ∷ []) 7 refl refl refl refl refl
      refl refl

abbrev idle_server : Counter
idle_server = (none, [], [])

-- Two requests come, one of them a WebSocket; the other is answered after the signal.
abbrev events : List ProcessEvent
events = takes 7 ∷ takes 8 ∷ hijacks 8 ∷ signals ∷ wakes ∷ answers 7 ∷ returns ∷ []

abbrev or_busy : Option (Process Counter) → Process Counter
or_busy none = busy
or_busy (some p) = p

some_busy : (o : Option (Process Counter)) → is_some o ≡ true → o ≡ some (or_busy o)
some_busy none there = cc
some_busy (some p) there = refl

stopping : Process Counter
unfolding process_run process_step running_step call call_returns main_returns serving launch
    try_each
stopping =
    or_busy (process_run counting_server events (serving true idle_server idle_server auth_calls))

drained_example : IsDrained counting_server stopping.http
unfolding stopping
drained_example =
    drained counting_server counting-IsNetServer true idle_server idle_server auth_calls events
      stopping shutdown_http refl
      (some_busy
        (process_run counting_server events (serving true idle_server idle_server auth_calls)) refl)
      refl
