-- ===== src/Process.antt =====
-- The main functions of services/auth, services/matchmaker and services/game, from the moment when they
-- serve to the end of the process: the goroutine that waits for a signal, and the main goroutine.
pub mod Servers
pub mod Shutdown
pub mod Drained
use nodefall.Base.{
  ℕ, ◌+◌, ◌-◌, eqb, Bool, true, false, not, ◌&&◌, Option, none, some, List, [], ◌∷◌, if◌then◌else◌,
}
use nodefall.Base.Loop.{try_each}

-- Why `ListenAndServe` returned: `http.ErrServerClosed`, or another error.
pub data Closing : Type 0 where
  server_closed failed : Closing

-- A server of net/http or of grpc. `stop` is the call of `Shutdown` or `GracefulStop`, which returns when
-- the server is `idle`; `over` is the error with which serving has returned, if it has. A request that is
-- `pending` may take its connection over, as a WebSocket does; it is then `hijacked`.
pub record NetServer (S : Type 0) : Type 0 where
  pub take : ℕ → S → S
  pub answer : ℕ → S → S
  pub hijack : ℕ → S → S
  pub stop : S → S
  pub pending : ℕ → S → Bool
  pub hijacked : ℕ → S → Bool
  pub idle : S → Bool
  pub over : S → Option Closing

pub data ShutdownCall : Type 0 where
  shutdown_http stop_grpc : ShutdownCall

-- What the goroutine of each main function calls once the context is done.
abbrev pub auth_calls : List ShutdownCall
auth_calls = shutdown_http ∷ []

abbrev pub matchmaker_calls : List ShutdownCall
matchmaker_calls = shutdown_http ∷ []

abbrev pub game_calls : List ShutdownCall
game_calls = shutdown_http ∷ stop_grpc ∷ []

-- `calls` are those that have not returned; the first is under way if `calling` is set. `exit` is the
-- process's exit code when it is over. If `pooled` is set, as in auth alone, there is a pool of
-- connections to the database, of which `in_use` are handed out; `closing` is set when it is closed.
pub record Process (S : Type 0) : Type 0 where
  pub http : S
  pub grpc : S
  pub done : Bool
  pub calls : List ShutdownCall
  pub calling : Bool
  pub pooled : Bool
  pub in_use : ℕ
  pub closing : Bool
  pub exit : Option ℕ

-- The process when it begins to serve.
unfoldable pub serving : {S : Type 0} → Bool → S → S → List ShutdownCall → Process S
serving pooled http grpc calls = record {
  http = http;
  grpc = grpc;
  done = false;
  calls = calls;
  calling = false;
  pooled = pooled;
  in_use = 0;
  closing = false;
  exit = none;
}

-- What the main functions do before they serve, `set_up`, ends the process if it fails: the checks of the
-- environment, the database and its schemas, or the listener of gRPC.
unfoldable pub launch : {A S : Type 0} → Option A → Bool → S → S → List ShutdownCall → Process S
launch none pooled http grpc calls = record (serving pooled http grpc calls) { exit = some 1 }
launch (some set_up) pooled http grpc calls = serving pooled http grpc calls

pub data ProcessEvent : Type 0 where
  signals wakes returns ends : ProcessEvent
  borrows gives_back : ProcessEvent
  takes answers hijacks : ℕ → ProcessEvent
  takes_call answers_call : ℕ → ProcessEvent

module _ {S : Type 0} (net : NetServer S) where
  -- The goroutine calls, if the context is done.
  unfoldable pub call : List ShutdownCall → Process S → Option (Process S)
  call [] p = none
  call (shutdown_http ∷ rest) p = some (record p { http = net.stop p.http; calling = true })
  call (stop_grpc ∷ rest) p = some (record p { grpc = net.stop p.grpc; calling = true })

  -- The call that is under way returns, if its server is idle; hijacked connections do not count.
  unfoldable pub call_returns : List ShutdownCall → Process S → Option (Process S)
  call_returns [] p = none
  call_returns (shutdown_http ∷ rest) p =
      if net.idle p.http then some (record p { calls = rest; calling = false }) else none
  call_returns (stop_grpc ∷ rest) p =
      if net.idle p.grpc then some (record p { calls = rest; calling = false }) else none

  -- The deferred `database.Close()`, which waits until no connection is in use, and the end.
  unfoldable pub close_pool : Process S → Process S
  close_pool p =
      if p.pooled && not (eqb p.in_use 0)
      then record p { closing = true }
      else record p { exit = some 0 }

  -- `ListenAndServe` has returned: the main function returns, once its deferred calls have; `log.Fatal`
  -- exits with 1 and skips them. The process does not wait for its other goroutines.
  unfoldable pub main_returns : Option Closing → Process S → Option (Process S)
  main_returns none p = none
  main_returns (some server_closed) p = some (close_pool p)
  main_returns (some failed) p = some (record p { exit = some 1 })

  unfoldable pub running_step : ProcessEvent → Process S → Option (Process S)
  running_step signals p = some (record p { done = true })
  running_step wakes p = if p.done && not p.calling then call p.calls p else none
  running_step returns p = if p.calling then call_returns p.calls p else none
  running_step ends p = main_returns (net.over p.http) p
  running_step borrows p =
      if p.pooled && not p.closing then some (record p { in_use = p.in_use + 1 }) else none
  running_step gives_back p =
      if eqb p.in_use 0 then none else some (record p { in_use = p.in_use - 1 })
  running_step (hijacks n) p = some (record p { http = net.hijack n p.http })
  running_step (takes n) p = some (record p { http = net.take n p.http })
  running_step (answers n) p = some (record p { http = net.answer n p.http })
  running_step (takes_call n) p = some (record p { grpc = net.take n p.grpc })
  running_step (answers_call n) p = some (record p { grpc = net.answer n p.grpc })

  -- `none`: this cannot happen now. Nothing happens in a process that is over.
  unfoldable pub process_step : ProcessEvent → Process S → Option (Process S)
  process_step x p = elim p.exit [ none ↦ running_step x p | some code ↦ none ]

  unfoldable pub process_run : List ProcessEvent → Process S → Option (Process S)
  process_run = try_each process_step
