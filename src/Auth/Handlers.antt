-- ===== src/Auth/Handlers.antt =====
-- services/auth/handlers.go and friends_handlers.go. Package bcrypt is a parameter; `req` is the decoded
-- body, none if it does not decode.
pub mod Keeps
pub mod Login
pub mod Errors
use nodefall.Base.{
  ℕ, String, ◌==◌, Bool, true, eqb, ltb, ◌||◌, ◌≡◌, Option, none, some, List, [], ◌∷◌,
  if◌then◌else◌,
}
use Prim.Native.String.{len}
use nodefall.Http.{
  Answer, http_error, status_ok, status_created, status_bad_request, status_unauthorized,
  status_not_found, status_conflict, status_internal_server_error,
}
use nodefall.Auth.Db.{
  Db, Error, user_not_found, username_taken, cannot_friend_self, already_requested,
  friend_request_not_found, Result, ok, err,
}
use nodefall.Auth.Users.{create_user, get_user_by_username}
use nodefall.Auth.Friends.{
  Friend, request_friend, accept_friend, remove_friend, list_friends, list_pending_requests,
}
use nodefall.Auth.Token.{Jwt, sign}

-- `GenerateFromPassword`, with the salt that it draws, and whether `CompareHashAndPassword` accepts.
pub record Bcrypt : Type 0 where
  pub generate : String → String → Option String
  pub accepts : String → String → Bool

-- A hash accepts the password it was made of.
pub record IsBcrypt (b : Bcrypt) : Type 0 where
  pub accepts_own :
      (salt password hash : String)
      → b.generate salt password ≡ some hash
      → b.accepts hash password ≡ true

abbrev pub min_password_length : ℕ
min_password_length = 8

pub record Credentials : Type 0 where
  pub username : String
  pub password : String

abbrev pub no_body : ℕ → Answer
no_body code = http_error "" code

unfoldable pub register_answer : Result String → Answer
register_answer (ok id) = no_body status_created
register_answer (err username_taken) = http_error "username already taken" status_conflict
register_answer (err _) = http_error "internal error" status_internal_server_error

-- `up` and `kept` say what becomes of the statement, `id` is the UUID drawn.
unfoldable pub handle_register :
    Bcrypt → (up kept : Bool) → String → String → ℕ → Option Credentials → Db → Answer × Db
handle_register b up kept salt id now none db =
    (http_error "invalid request body" status_bad_request, db)
handle_register b up kept salt id now (some req) db =
    if req.username == "" || req.password == ""
    then (http_error "username and password are required" status_bad_request, db)
    else if ltb (len req.password) min_password_length
    then (http_error "password must be at least 8 characters" status_bad_request, db)
    else elim (b.generate salt req.password) [
      | none ↦ (http_error "internal error" status_internal_server_error, db)
      | some hash ↦
          let (result, db') = create_user up kept id now req.username hash db in
          (register_answer result, db')
    ]

pub data LoginAnswer : Type 0 where
  refused : Answer → LoginAnswer
  token : String → LoginAnswer

abbrev pub bad_credentials : LoginAnswer
bad_credentials = refused (http_error "invalid username or password" status_unauthorized)

unfoldable pub signed_answer : Option String → LoginAnswer
signed_answer none = refused (http_error "internal error" status_internal_server_error)
signed_answer (some t) = token t

unfoldable pub handle_login :
    Bcrypt → Jwt → String → Bool → ℕ → Option Credentials → Db → LoginAnswer
handle_login b j jwt_secret up now none db =
    refused (http_error "invalid request body" status_bad_request)
handle_login b j jwt_secret up now (some req) db = elim (get_user_by_username up req.username db) [
  | err _ ↦ bad_credentials
  | ok user ↦
      if b.accepts user.password_hash req.password
      then signed_answer (sign j jwt_secret now user.id)
      else bad_credentials
]

abbrev pub missing_identity : Answer
missing_identity = http_error "missing verified identity" status_unauthorized

-- An entry as it is written to the answer.
pub record FriendView : Type 0 where
  pub friendship_id : String
  pub user_id : String
  pub username : String

unfoldable pub to_friend_views : List Friend → List FriendView
to_friend_views [] = []
to_friend_views (f ∷ fs) =
    record { friendship_id = f.friendship_id; user_id = f.user_id; username = f.username }
    ∷ to_friend_views fs

pub data FriendsAnswer : Type 0 where
  not_listed : Answer → FriendsAnswer
  listed : List FriendView → List FriendView → FriendsAnswer

unfoldable pub handle_friends_list : (ℕ → Bool) → Option String → Db → FriendsAnswer
handle_friends_list up none db = not_listed missing_identity
handle_friends_list up (some user) db = elim (list_friends (up 0) user db) [
  | err _ ↦ not_listed (http_error "internal error" status_internal_server_error)
  | ok friends ↦ elim (list_pending_requests (up 1) user db) [
    | err _ ↦ not_listed (http_error "internal error" status_internal_server_error)
    | ok pending ↦ listed (to_friend_views friends) (to_friend_views pending)
  ]
]

-- The answer to a failed friend request.
unfoldable pub request_error : Error → Answer
request_error user_not_found = http_error "user not found" status_not_found
request_error cannot_friend_self = http_error "cannot friend yourself" status_bad_request
request_error already_requested =
    http_error "a request or friendship already exists" status_conflict
request_error _ = http_error "internal error" status_internal_server_error

-- The answer to a failed acceptance or removal.
unfoldable pub action_error : Error → Answer
action_error friend_request_not_found = http_error "request not found" status_not_found
action_error _ = http_error "internal error" status_internal_server_error

-- The statements as the database carries them out if the n-th fails for the client alone.
abbrev pub answered : ℕ → (ℕ → Bool) → ℕ → Bool
answered n up k = if eqb k n then true else up k

-- The database after a call that fails: as it was, or if `kept` is set, as the call would have left it
-- with the answer to its last statement, which writes.
unfoldable pub left_behind : Bool → Db → Result Db → Db
left_behind kept db (ok db') = if kept then db' else db
left_behind kept db (err e) = db

-- The answer to a call of the database and the database afterwards; `failed` is what a call that fails
-- leaves behind.
unfoldable pub settled : ℕ → (Error → Answer) → Db → Result Db → Answer × Db
settled code on_error failed (ok db') = (no_body code, db')
settled code on_error failed (err e) = (on_error e, failed)

-- `username` is the body's field, none if the body does not decode.
unfoldable pub handle_friend_request :
    (ℕ → Bool) → Bool → String → Option String → Option String → Db → Answer × Db
handle_friend_request up kept id none username db = (missing_identity, db)
handle_friend_request up kept id (some user) none db =
    (http_error "username is required" status_bad_request, db)
handle_friend_request up kept id (some user) (some username) db =
    if username == ""
    then (http_error "username is required" status_bad_request, db)
    else settled status_created request_error
        (left_behind kept db (request_friend (answered 2 up) id user username db))
        (request_friend up id user username db)

unfoldable pub handle_friend_accept :
    (ℕ → Bool) → Bool → Option String → Option String → Db → Answer × Db
handle_friend_accept up kept none id db = (missing_identity, db)
handle_friend_accept up kept (some user) none db =
    (http_error "friendship_id is required" status_bad_request, db)
handle_friend_accept up kept (some user) (some id) db =
    if id == ""
    then (http_error "friendship_id is required" status_bad_request, db)
    else settled status_ok action_error
        (left_behind kept db (accept_friend (answered 1 up) user id db))
        (accept_friend up user id db)

-- `id` is the value in the path.
unfoldable pub handle_friend_remove : (ℕ → Bool) → Bool → Option String → String → Db → Answer × Db
handle_friend_remove up kept none id db = (missing_identity, db)
handle_friend_remove up kept (some user) id db =
    if id == ""
    then (http_error "friendship id is required" status_bad_request, db)
    else settled status_ok action_error
        (left_behind kept db (remove_friend (answered 1 up) user id db))
        (remove_friend up user id db)
