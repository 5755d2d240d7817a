-- ===== src/Process/Shutdown.antt =====
-- The main functions: what the end of the process does to the requests that are under way.
use nodefall.Base.{
  ℕ, eqb, not, ◌&&◌, sym, Bool, true, false, ◌≡◌, ◌≢◌, refl, ◌∙◌, Option, none, some, List, [], ◌∷◌,
  arith, if-cases, Bool-cases, inl, inr, subst,
}
use nodefall.Base.Loop.{try_each, Returned, try_each_then, any}
use nodefall.Process.{
  Closing, server_closed, failed, NetServer, ShutdownCall, shutdown_http, stop_grpc, Process,
  serving, launch, ProcessEvent, signals, wakes, returns, ends, borrows, gives_back, takes, answers,
  hijacks, takes_call, answers_call, call, call_returns, main_returns, close_pool, running_step,
  process_step, process_run,
}
use nodefall.Process.Servers.{IsNetServer}

abbrev pub is_signal : ProcessEvent → Bool
is_signal signals = true
is_signal _ = false

module _ {S : Type 0} (net : NetServer S) (laws : IsNetServer net) where
  -- A process that serves and has a request under way but no database connection in use, and has not
  -- been sent a signal, can end with exit code 0 right after one: the goroutine calls `Shutdown` first, `ListenAndServe` returns, and the main
  -- function with it, while the request is not answered, no call of the goroutine has returned, and
  -- the gRPC server is as it was.
  pub cut_off :
      (p : Process S) (rest : List ShutdownCall) (k : ℕ)
      → p.exit ≡ none
      → p.done ≡ false
      → p.calling ≡ false
      → p.calls ≡ shutdown_http ∷ rest
      → p.in_use ≡ 0
      → net.over p.http ≡ none
      → net.pending k p.http ≡ true
      → (p' : Process S) × (process_run net (signals ∷ wakes ∷ ends ∷ []) p ≡ some p')
        × (p'.exit ≡ some 0)
        × (net.pending k p'.http ≡ true)
        × (p'.calls ≡ p.calls)
        × (p'.grpc ≡ p.grpc)
  unfolding process_run process_step running_step call main_returns close_pool try_each
  cut_off p rest k alive unsignalled idle next free serves waits =
      let closed = laws.stop_over p.http serves in
      let kept = laws.stop_pending k p.http in
      (
        record p { http = net.stop p.http; done = true; calling = true; exit = some 0 },
        ground (arith, closed),
        refl,
        kept ∙ waits,
        refl,
        refl,
      )

  -- Without a signal the process does not end with exit code 0.
  Unsignalled : Process S → Type 0
  Unsignalled p = (p.done ≡ false) × (net.over p.http ≢ some server_closed) × (p.exit ≢ some 0)

  call_returns-Unsignalled :
      (calls : List ShutdownCall) (p : Process S)
      → Unsignalled p
      → Returned Unsignalled (call_returns net calls p)
  unfolding call_returns Unsignalled
  call_returns-Unsignalled [] p h = tt
  call_returns-Unsignalled (shutdown_http ∷ rest) p h =
      if-cases (Returned Unsignalled) (net.idle p.http) _ _ (λ yes. h) (λ no. tt)
  call_returns-Unsignalled (stop_grpc ∷ rest) p h =
      if-cases (Returned Unsignalled) (net.idle p.grpc) _ _ (λ yes. h) (λ no. tt)

  main_returns-Unsignalled :
      (o : Option Closing) (p : Process S)
      → net.over p.http ≡ o
      → Unsignalled p
      → Returned Unsignalled (main_returns net o p)
  unfolding main_returns close_pool Unsignalled
  main_returns-Unsignalled none p e h = tt
  main_returns-Unsignalled (some server_closed) p e (dark, serves, on) = absurd (serves e)
  main_returns-Unsignalled (some failed) p e (dark, serves, on) =
      (dark, serves, λ bad. ground arith)

  running_step-Unsignalled :
      (x : ProcessEvent) (p : Process S)
      → is_signal x ≡ false
      → Unsignalled p
      → Returned Unsignalled (running_step net x p)
  unfolding running_step Unsignalled
  running_step-Unsignalled signals p other h = ground arith
  running_step-Unsignalled wakes p other (dark, serves, on) = rw (dark) tt
  running_step-Unsignalled returns p other h =
      if-cases (Returned Unsignalled) p.calling _ _ (λ yes. call_returns-Unsignalled p.calls p h)
        (λ no. tt)
  running_step-Unsignalled ends p other h = main_returns-Unsignalled (net.over p.http) p refl h
  running_step-Unsignalled borrows p other h =
      if-cases (Returned Unsignalled) (p.pooled && not p.closing) _ _ (λ yes. h) (λ no. tt)
  running_step-Unsignalled gives_back p other h =
      if-cases (Returned Unsignalled) (eqb p.in_use 0) _ _ (λ yes. tt) (λ no. h)
  running_step-Unsignalled (hijacks n) p other (dark, serves, on) =
      (dark, (λ e. serves (sym (laws.hijack_over n p.http) ∙ e)), on)
  running_step-Unsignalled (takes n) p other (dark, serves, on) =
      (dark, (λ e. serves (laws.take_over n p.http e)), on)
  running_step-Unsignalled (answers n) p other (dark, serves, on) =
      (dark, (λ e. serves (laws.answer_over n p.http e)), on)
  running_step-Unsignalled (takes_call n) p other h = h
  running_step-Unsignalled (answers_call n) p other h = h

  pub process_step-Returned :
      (P : Process S → Type 0) (x : ProcessEvent) (p : Process S)
      → Returned P (running_step net x p)
      → Returned P (process_step net x p)
  unfolding process_step
  process_step-Returned P x p kept = go p.exit
    where
      go : (o : Option ℕ) → Returned P (elim o [ none ↦ running_step net x p | some code ↦ none ])
      go none = kept
      go (some code) = tt

  run-Unsignalled :
      (xs : List ProcessEvent) (p : Process S)
      → any is_signal xs ≡ false
      → Unsignalled p
      → Returned Unsignalled (process_run net xs p)
  unfolding process_run try_each
  run-Unsignalled [] p dark h = h
  run-Unsignalled (x ∷ xs) p dark h =
      let here : is_signal x ≡ false = ground arith in
      let rest : any is_signal xs ≡ false = ground arith in
      try_each_then (Unsignalled) (process_step net x p)
        (process_step-Returned Unsignalled x p (running_step-Unsignalled x p here h)) _
        (λ t. run-Unsignalled xs t rest)

  launch-Unsignalled :
      {A : Type 0} (set_up : Option A) (pooled : Bool) (http grpc : S) (calls : List ShutdownCall)
      → net.over http ≡ none
      → Unsignalled (launch set_up pooled http grpc calls)
  unfolding Unsignalled launch serving
  launch-Unsignalled none pooled http grpc calls new =
      (refl, (λ e. ground arith), (λ e. ground arith))
  launch-Unsignalled (some x) pooled http grpc calls new =
      (refl, (λ e. ground arith), (λ e. ground arith))

  -- A process that ends with exit code 0 was sent a signal.
  clean_exit :
      {A : Type 0} (set_up : Option A) (pooled : Bool) (http grpc : S) (calls : List ShutdownCall)
      (xs : List ProcessEvent) (p : Process S)
      → net.over http ≡ none
      → process_run net xs (launch set_up pooled http grpc calls) ≡ some p
      → p.exit ≡ some 0
      → any is_signal xs ≡ true
  unfolding Unsignalled
  clean_exit set_up pooled http grpc calls xs p new went clean =
      elim (Bool-cases (any is_signal xs)) [
        | inl signalled ↦ signalled
        | inr dark ↦
            let kept =
              run-Unsignalled xs (launch set_up pooled http grpc calls) dark
                (launch-Unsignalled set_up pooled http grpc calls new) in
            absurd ((subst (Returned Unsignalled) went kept).2 clean)
      ]
