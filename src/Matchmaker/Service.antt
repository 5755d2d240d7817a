-- ===== src/Matchmaker/Service.antt =====
-- services/matchmaker/main.go: the routes of the service, with the middleware around each handler.
pub mod Round
pub mod Own
use nodefall.Base.{ℕ, String, ◌==◌, Option, none, some, List, [], ◌∷◌, if◌then◌else◌}
use nodefall.Http.{Answer}
use nodefall.Http.Cors.{with_cors}
use nodefall.Http.Mux.{Mux, Target, dispatch}
use nodefall.Runtime.Environment.{load}
use nodefall.Auth.Token.{Jwt}
use nodefall.Auth.Guard.{Request, with_auth}
use nodefall.Matchmaker.Queue.{Queue, new_queue}
use nodefall.Matchmaker.Handlers.{
  StatusAnswer, handle_join_queue, handle_queue_status, handle_leave_queue,
}

pub record QueueRequest : Type 0 where
  pub target : Target
  pub tokens : Request
  pub now : ℕ

pub data QueueAnswer : Type 0 where
  plain : Answer → QueueAnswer
  state : StatusAnswer → QueueAnswer

-- What a handler does with the queue.
abbrev pub OnQueue : Type 0
OnQueue = Queue → QueueAnswer × Queue

abbrev pub answers : Answer → OnQueue
answers answer q = (plain answer, q)

abbrev pub changes : (Queue → Answer × Queue) → OnQueue
changes handler q = let (answer, q') = handler q in (plain answer, q')

module _ (mux : Mux) (j : Jwt) (getenv : String → String) where
  -- `middleware.WithAuth`.
  unfoldable pub guarded : QueueRequest → (Option String → OnQueue) → OnQueue
  guarded r handler = with_auth j (load getenv).jwt_secret r.now r.tokens answers handler

  unfoldable pub routes : QueueRequest → List (String × (String → OnQueue))
  routes r =
      ("POST /queue", λ value. guarded r (λ player. changes (handle_join_queue player)))
      ∷ ("GET /queue", λ value. guarded r (λ player q. (state (handle_queue_status player q), q)))
      ∷ ("DELETE /queue", λ value. guarded r (λ player. changes (handle_leave_queue player)))
      ∷ []

  -- One request, with the headers of its answer.
  unfoldable pub serve : QueueRequest → Queue → (List (String × String) × QueueAnswer) × Queue
  serve r q =
      let (headers, respond) =
        with_cors r.target.method answers (dispatch mux r.target answers (routes r)) in
      let (answer, q') = respond q in ((headers, answer), q')

  -- The queue when the service starts to listen; none if it ends before.
  unfoldable pub start : Option Queue
  start = if (load getenv).redis_url == "" then none else some new_queue
