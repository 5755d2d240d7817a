-- ===== src/Matchmaker/Handlers.antt =====
-- services/matchmaker/handlers.go. `player` is the identity that the middleware verified.
use nodefall.Base.{String, Option, none, some, ◌≡◌, refl, if◌then◌else◌, ◌==◌}
use nodefall.Base.Dict.{lookup}
use nodefall.Matchmaker.Queue.Answers.{told, status-join}
use nodefall.Http.{Answer, http_error, status_ok, status_accepted, status_unauthorized}
use nodefall.Matchmaker.Queue.{Queue, Status, matched, waiting, not_queued, join, leave, status}

pub record QueueStatusResponse : Type 0 where
  pub status : String
  pub match_id : String
  pub server_addr : String

pub data StatusAnswer : Type 0 where
  refused : Answer → StatusAnswer
  reported : QueueStatusResponse → StatusAnswer

unfoldable pub handle_join_queue : Option String → Queue → Answer × Queue
handle_join_queue none q = (http_error "missing verified identity" status_unauthorized, q)
handle_join_queue (some player) q = (http_error "" status_accepted, join player q)

-- The fields of the match stay empty unless there is an entry.
unfoldable pub response_of : Status → QueueStatusResponse
response_of (matched entry) = record {
  status = "matched";
  match_id = entry.match_id;
  server_addr = entry.server_addr;
}
response_of waiting = record { status = "waiting"; match_id = ""; server_addr = "" }
response_of not_queued = record { status = "not_queued"; match_id = ""; server_addr = "" }

unfoldable pub handle_queue_status : Option String → Queue → StatusAnswer
handle_queue_status none q = refused (http_error "missing verified identity" status_unauthorized)
handle_queue_status (some player) q = reported (response_of (status player q))

unfoldable pub handle_leave_queue : Option String → Queue → Answer × Queue
handle_leave_queue none q = (http_error "missing verified identity" status_unauthorized, q)
handle_leave_queue (some player) q = (http_error "" status_ok, leave player q)

-- A player who posts to the queue and then asks for the status is told the match that they have, or
-- to wait, and another player is told what they were told before.
status-handle_join_queue :
    (id k : String) (q : Queue)
    → handle_queue_status (some k) (handle_join_queue (some id) q).1
      ≡ reported (response_of (if id == k then told (lookup k q.matched) else status k q))
unfolding handle_queue_status handle_join_queue
status-handle_join_queue id k q = rw (status-join id k q) refl
