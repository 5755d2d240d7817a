-- ===== src/Process/Drained.antt =====
-- The main functions: what has become of the servers once the goroutine has made its calls.
use nodefall.Base.{
  eqb, Bool, true, false, not, ◌&&◌, ◌≡◌, refl, sym, Option, none, some, List, [], ◌∷◌, arith,
  if-cases, subst,
}
use nodefall.Base.Loop.{Returned, try_each-Returned, any}
use nodefall.Process.{
  Closing, server_closed, failed, NetServer, ShutdownCall, shutdown_http, stop_grpc, Process,
  serving, ProcessEvent, signals, wakes, returns, ends, borrows, gives_back, takes, answers,
  hijacks, takes_call, answers_call, call, call_returns, main_returns, close_pool, running_step,
  process_step, process_run,
}
use nodefall.Process.Servers.{
  IsNetServer, IsStopped, take-IsStopped, answer-IsStopped, hijack-IsStopped, hijack-IsDrained,
  stop-IsStopped, take-IsDrained, answer-IsDrained, stop-IsDrained, IsDrained,
}
use nodefall.Process.Shutdown.{process_step-Returned}

abbrev pub is_call : ShutdownCall → ShutdownCall → Bool
is_call shutdown_http shutdown_http = true
is_call shutdown_http stop_grpc = false
is_call stop_grpc shutdown_http = false
is_call stop_grpc stop_grpc = true

-- Of the two servers, the one that the call stops.
abbrev pub server_of : {S : Type 0} → ShutdownCall → S → S → S
server_of shutdown_http http grpc = http
server_of stop_grpc http grpc = grpc

module _ {S : Type 0} (net : NetServer S) (laws : IsNetServer net) where
  -- The server of the first call.
  abbrev FirstStopped : List ShutdownCall → S → S → Type 0
  FirstStopped [] http grpc = Unit
  FirstStopped (c ∷ rest) http grpc = IsStopped net (server_of c http grpc)

  -- The server of a call that has returned is drained, and that of the call under way is stopped.
  Progress : ShutdownCall → List ShutdownCall → Bool → S → S → Type 0
  Progress c calls calling http grpc =
      (any (is_call c) calls ≡ false → IsDrained net (server_of c http grpc))
      × (calling ≡ true → FirstStopped calls http grpc)

  InProgress : ShutdownCall → Process S → Type 0
  InProgress c p = Progress c p.calls p.calling p.http p.grpc

  http-Progress :
      (c : ShutdownCall) (calls : List ShutdownCall) (calling : Bool) (http http' grpc : S)
      → (IsStopped net http → IsStopped net http')
      → (IsDrained net http → IsDrained net http')
      → Progress c calls calling http grpc
      → Progress c calls calling http' grpc
  unfolding Progress
  http-Progress c calls calling http http' grpc over drained (settled, under_way) =
      (settled_then c settled, λ now. first calls (under_way now))
    where
      settled_then :
          (c : ShutdownCall)
          → (any (is_call c) calls ≡ false → IsDrained net (server_of c http grpc))
          → any (is_call c) calls ≡ false
          → IsDrained net (server_of c http' grpc)
      settled_then shutdown_http h left = drained (h left)
      settled_then stop_grpc h left = h left

      first :
          (calls : List ShutdownCall) → FirstStopped calls http grpc → FirstStopped calls http' grpc
      first [] h = tt
      first (shutdown_http ∷ rest) h = over h
      first (stop_grpc ∷ rest) h = h

  grpc-Progress :
      (c : ShutdownCall) (calls : List ShutdownCall) (calling : Bool) (http grpc grpc' : S)
      → (IsStopped net grpc → IsStopped net grpc')
      → (IsDrained net grpc → IsDrained net grpc')
      → Progress c calls calling http grpc
      → Progress c calls calling http grpc'
  unfolding Progress
  grpc-Progress c calls calling http grpc grpc' over drained (settled, under_way) =
      (settled_then c settled, λ now. first calls (under_way now))
    where
      settled_then :
          (c : ShutdownCall)
          → (any (is_call c) calls ≡ false → IsDrained net (server_of c http grpc))
          → any (is_call c) calls ≡ false
          → IsDrained net (server_of c http grpc')
      settled_then shutdown_http h left = h left
      settled_then stop_grpc h left = drained (h left)

      first :
          (calls : List ShutdownCall) → FirstStopped calls http grpc → FirstStopped calls http grpc'
      first [] h = tt
      first (shutdown_http ∷ rest) h = h
      first (stop_grpc ∷ rest) h = over h

  call-InProgress :
      (c : ShutdownCall) (calls : List ShutdownCall) (p : Process S)
      → p.calls ≡ calls
      → InProgress c p
      → Returned (InProgress c) (call net calls p)
  unfolding call InProgress Progress
  call-InProgress c [] p e h = tt
  call-InProgress c (shutdown_http ∷ rest) p e h =
      let stopped =
        http-Progress c p.calls p.calling p.http (net.stop p.http) p.grpc
          (λ over. stop-IsStopped net laws p.http) (stop-IsDrained net laws p.http) h in
      (
        stopped.0,
        λ now.
            subst (λ calls. FirstStopped calls (net.stop p.http) p.grpc) (sym e)
              (stop-IsStopped net laws p.http),
      )
  call-InProgress c (stop_grpc ∷ rest) p e h =
      let stopped =
        grpc-Progress c p.calls p.calling p.http p.grpc (net.stop p.grpc)
          (λ over. stop-IsStopped net laws p.grpc) (stop-IsDrained net laws p.grpc) h in
      (
        stopped.0,
        λ now.
            subst (λ calls. FirstStopped calls p.http (net.stop p.grpc)) (sym e)
              (stop-IsStopped net laws p.grpc),
      )

  -- What is left of the calls when the first has returned.
  returned-Progress :
      (c d : ShutdownCall) (rest : List ShutdownCall) (http grpc : S)
      → net.idle (server_of d http grpc) ≡ true
      → Progress c (d ∷ rest) true http grpc
      → Progress c rest false http grpc
  unfolding Progress
  returned-Progress c d rest http grpc idle (settled, under_way) =
      (go c d idle settled (under_way refl), λ now. ground arith)
    where
      go :
          (c d : ShutdownCall)
          → net.idle (server_of d http grpc) ≡ true
          → (any (is_call c) (d ∷ rest) ≡ false → IsDrained net (server_of c http grpc))
          → IsStopped net (server_of d http grpc)
          → any (is_call c) rest ≡ false
          → IsDrained net (server_of c http grpc)
      go shutdown_http shutdown_http idle h over left = (over, λ k. laws.idle_waits k http idle)
      go shutdown_http stop_grpc idle h over left = h left
      go stop_grpc shutdown_http idle h over left = h left
      go stop_grpc stop_grpc idle h over left = (over, λ k. laws.idle_waits k grpc idle)

  call_returns-InProgress :
      (c : ShutdownCall) (calls : List ShutdownCall) (p : Process S)
      → Progress c calls true p.http p.grpc
      → Returned (InProgress c) (call_returns net calls p)
  unfolding call_returns InProgress
  call_returns-InProgress c [] p h = tt
  call_returns-InProgress c (shutdown_http ∷ rest) p h =
      if-cases (Returned (InProgress c)) (net.idle p.http) _ _
        (λ idle. returned-Progress c shutdown_http rest p.http p.grpc idle h) (λ busy. tt)
  call_returns-InProgress c (stop_grpc ∷ rest) p h =
      if-cases (Returned (InProgress c)) (net.idle p.grpc) _ _
        (λ idle. returned-Progress c stop_grpc rest p.http p.grpc idle h) (λ busy. tt)

  main_returns-InProgress :
      (c : ShutdownCall) (o : Option Closing) (p : Process S)
      → InProgress c p
      → Returned (InProgress c) (main_returns net o p)
  unfolding main_returns close_pool InProgress
  main_returns-InProgress c none p h = tt
  main_returns-InProgress c (some server_closed) p h =
      if-cases {A = Process S} (InProgress c) (p.pooled && not (eqb p.in_use 0)) _ _ (λ busy. h)
        (λ free. h)
  main_returns-InProgress c (some failed) p h = h

  running_step-InProgress :
      (c : ShutdownCall) (x : ProcessEvent) (p : Process S)
      → InProgress c p
      → Returned (InProgress c) (running_step net x p)
  unfolding running_step InProgress
  running_step-InProgress c signals p h = h
  running_step-InProgress c wakes p h =
      if-cases (Returned (InProgress c)) (p.done && not p.calling) _ _
        (λ yes. call-InProgress c p.calls p refl h) (λ no. tt)
  running_step-InProgress c returns p h =
      if-cases (Returned (InProgress c)) p.calling _ _
        (λ yes.
          call_returns-InProgress c p.calls p
            (subst (λ b. Progress c p.calls b p.http p.grpc) yes h))
        (λ no. tt)
  running_step-InProgress c ends p h = main_returns-InProgress c (net.over p.http) p h
  running_step-InProgress c borrows p h =
      if-cases (Returned (InProgress c)) (p.pooled && not p.closing) _ _ (λ yes. h) (λ no. tt)
  running_step-InProgress c gives_back p h =
      if-cases (Returned (InProgress c)) (eqb p.in_use 0) _ _ (λ yes. tt) (λ no. h)
  running_step-InProgress c (hijacks n) p h =
      http-Progress c p.calls p.calling p.http _ p.grpc (hijack-IsStopped net laws n p.http)
        (hijack-IsDrained net laws n p.http) h
  running_step-InProgress c (takes n) p h =
      http-Progress c p.calls p.calling p.http _ p.grpc (take-IsStopped net laws n p.http)
        (take-IsDrained net laws n p.http) h
  running_step-InProgress c (answers n) p h =
      http-Progress c p.calls p.calling p.http _ p.grpc (answer-IsStopped net laws n p.http)
        (answer-IsDrained net laws n p.http) h
  running_step-InProgress c (takes_call n) p h =
      grpc-Progress c p.calls p.calling p.http p.grpc _ (take-IsStopped net laws n p.grpc)
        (take-IsDrained net laws n p.grpc) h
  running_step-InProgress c (answers_call n) p h =
      grpc-Progress c p.calls p.calling p.http p.grpc _ (answer-IsStopped net laws n p.grpc)
        (answer-IsDrained net laws n p.grpc) h

  -- Whatever happens: once all calls of the goroutine have returned, a server that one of them stops
  -- serves no longer, and no request is under way in it but on hijacked connections.
  pub drained :
      (pooled : Bool) (http grpc : S) (calls : List ShutdownCall) (xs : List ProcessEvent)
      (p : Process S) (c : ShutdownCall)
      → any (is_call c) calls ≡ true
      → process_run net xs (serving pooled http grpc calls) ≡ some p
      → p.calls ≡ []
      → IsDrained net (server_of c p.http p.grpc)
  unfolding InProgress Progress serving process_run
  drained pooled http grpc calls xs p c one went all =
      let kept =
        try_each-Returned (InProgress c) (process_step net)
          (λ x t h.
            process_step-Returned net laws (InProgress c) x t (running_step-InProgress c x t h))
          xs (serving pooled http grpc calls) ((λ left. ground arith), (λ now. ground arith)) in
      (subst (Returned (InProgress c)) went kept).0 (rw (all) refl)
