-- ===== src/Auth/Handlers/Errors/Lost.antt =====
-- services/auth/friends_handlers.go: the codes of failures, and a write that fails for the service alone.
use nodefall.Base.{ℕ, String, Bool, ◌≡◌, ◌≢◌, arith}
use nodefall.Http.{status_ok, status_created, status_internal_server_error}
use nodefall.Auth.Db.{
  Db, Error, user_not_found, username_taken, cannot_friend_self, already_requested,
  friend_request_not_found, unavailable, ok, err,
}
use nodefall.Auth.Friends.{request_friend, accept_friend, remove_friend}
use nodefall.Auth.Handlers.{answered, request_error, action_error}

pub request_error-code : (e : Error) → (request_error e).code ≢ status_created
unfolding request_error
request_error-code user_not_found e = ground arith
request_error-code cannot_friend_self e = ground arith
request_error-code already_requested e = ground arith
request_error-code username_taken e = ground arith
request_error-code friend_request_not_found e = ground arith
request_error-code unavailable e = ground arith

pub action_error-code : (e : Error) → (action_error e).code ≢ status_ok
unfolding action_error
action_error-code user_not_found e = ground arith
action_error-code cannot_friend_self e = ground arith
action_error-code already_requested e = ground arith
action_error-code username_taken e = ground arith
action_error-code friend_request_not_found e = ground arith
action_error-code unavailable e = ground arith

-- A call that fails only for want of the answer to its write fails with `unavailable`.
pub request_friend-lost :
    (up : ℕ → Bool) (id u f : String) (db db' : Db) (e : Error)
    → request_friend (answered 2 up) id u f db ≡ ok db'
    → request_friend up id u f db ≡ err e
    → (request_error e).code ≡ status_internal_server_error
unfolding request_friend request_error
request_friend-lost up id u f db db' e made failed = ground arith

pub accept_friend-lost :
    (up : ℕ → Bool) (u f : String) (db db' : Db) (e : Error)
    → accept_friend (answered 1 up) u f db ≡ ok db'
    → accept_friend up u f db ≡ err e
    → (action_error e).code ≡ status_internal_server_error
unfolding accept_friend action_error
accept_friend-lost up u f db db' e made failed = ground arith

pub remove_friend-lost :
    (up : ℕ → Bool) (u f : String) (db db' : Db) (e : Error)
    → remove_friend (answered 1 up) u f db ≡ ok db'
    → remove_friend up u f db ≡ err e
    → (action_error e).code ≡ status_internal_server_error
unfolding remove_friend action_error
remove_friend-lost up u f db db' e made failed = ground arith
