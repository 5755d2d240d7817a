-- ===== src/Auth/Handlers/Errors.antt =====
-- services/auth/handlers.go and friends_handlers.go: the database after an answer.
pub mod Lost
use nodefall.Base.{
  ℕ, String, Bool, true, false, ◌≡◌, ◌≢◌, ◌⊎◌, refl, Option, none, some, arith, if-cases, ◌==◌,
  Option-cases, inl, inr, ltb, ◌||◌,
}
use Prim.Native.String.{len}
use nodefall.Http.{Answer, status_ok, status_created, status_internal_server_error}
use nodefall.Auth.Db.{
  Db, Error, user_not_found, username_taken, cannot_friend_self, already_requested,
  friend_request_not_found, unavailable, Result, ok, err,
}
use nodefall.Auth.Users.{taken, insert_user, create_user}
use nodefall.Auth.Friends.{request_friend, accept_friend, remove_friend}
use nodefall.Auth.Handlers.{
  Bcrypt, Credentials, min_password_length, answered, left_behind, settled, request_error,
  action_error, register_answer, handle_register, handle_friend_request, handle_friend_accept,
  handle_friend_remove,
}
use nodefall.Auth.Handlers.Errors.Lost.{
  request_error-code, action_error-code, request_friend-lost, accept_friend-lost,
  remove_friend-lost,
}

-- What becomes of the tables: with the code `code` they are as `Made` says. With any other they are as
-- before, or else as `Lost` says, and then the code is 500.
abbrev pub Outcome : ℕ → (Made Lost : Db → Type 0) → Db → Answer × Db → Type 0
Outcome code Made Lost db (answer, db') =
    ((answer.code ≡ code) × Made db')
    ⊎ ((answer.code ≢ code)
        × ((db' ≡ db) ⊎ ((answer.code ≡ status_internal_server_error) × Lost db')))

-- The body holds a user name and a password that bcrypt hashes, and inserting the user under the UUID
-- succeeds with these tables.
abbrev pub Registers : Bcrypt → String → String → ℕ → Option Credentials → Db → Db → Type 0
Registers b salt id now req db db' =
    (c : Credentials) × (hash : String) × (req ≡ some c)
    × (b.generate salt c.password ≡ some hash)
    × (insert_user id now c.username hash db ≡ (ok id, db'))

-- There is a verified user and a field of the request, and the call for them succeeds with these tables.
abbrev pub Succeeds : (String → String → Result Db) → (user field : Option String) → Db → Type 0
Succeeds call user field db' =
    (u : String) × (f : String) × (user ≡ some u) × (field ≡ some f) × (call u f ≡ ok db')

settled-Outcome :
    (code : ℕ) (on_error : Error → Answer) (call lost : String → String → Result Db) (kept : Bool)
    (u f : String) (db : Db)
    → ((e : Error) → (on_error e).code ≢ code)
    → ((db' : Db) (e : Error)
        → lost u f ≡ ok db'
        → call u f ≡ err e
        → (on_error e).code ≡ status_internal_server_error)
    → Outcome code
        (Succeeds call (some u) (some f))
        (λ db'. (kept ≡ true) × Succeeds lost (some u) (some f) db')
        db
        (settled code on_error (left_behind kept db (lost u f)) (call u f))
unfolding settled left_behind
settled-Outcome code on_error call lost kept u f db wrong internal =
    go (call u f) (lost u f) kept refl refl refl
  where
    go :
        (r l : Result Db) (k : Bool)
        → call u f ≡ r
        → lost u f ≡ l
        → kept ≡ k
        → Outcome code
            (Succeeds call (some u) (some f))
            (λ db'. (kept ≡ true) × Succeeds lost (some u) (some f) db')
            db
            (settled code on_error (left_behind k db l) r)
    go (ok db') l k c m b = inl (refl, (u, f, refl, refl, c))
    go (err e) (err e') k c m b = inr (wrong e, inl refl)
    go (err e) (ok db') false c m b = inr (wrong e, inl refl)
    go (err e) (ok db') true c m b =
        inr (wrong e, inr (internal db' e m c, (b, (u, f, refl, refl, m))))

-- The tables as a write that is answered leaves them, or, if `kept` is set, one that is not.
abbrev pub Lost : Bool → (String → String → Result Db) → (user field : Option String) → Db → Type 0
Lost kept call user field db' = (kept ≡ true) × Succeeds call user field db'

abbrev pub RequestOutcome :
    (ℕ → Bool) → Bool → String → (user username : Option String) → Db → Answer × Db → Type 0
RequestOutcome up kept id user username db =
    Outcome status_created (Succeeds (λ u f. request_friend up id u f db) user username)
      (Lost kept (λ u f. request_friend (answered 2 up) id u f db) user username) db

abbrev pub AcceptOutcome : (ℕ → Bool) → Bool → (user id : Option String) → Db → Answer × Db → Type 0
AcceptOutcome up kept user id db =
    Outcome status_ok (Succeeds (λ u f. accept_friend up u f db) user id)
      (Lost kept (λ u f. accept_friend (answered 1 up) u f db) user id) db

abbrev pub RemoveOutcome : (ℕ → Bool) → Bool → Option String → String → Db → Answer × Db → Type 0
RemoveOutcome up kept user id db =
    Outcome status_ok (Succeeds (λ u f. remove_friend up u f db) user (some id))
      (Lost kept (λ u f. remove_friend (answered 1 up) u f db) user (some id)) db

abbrev pub RegisterOutcome :
    Bcrypt → (up kept : Bool) → String → String → ℕ → Option Credentials → Db → Answer × Db → Type 0
RegisterOutcome b up kept salt id now req db =
    Outcome status_created (Registers b salt id now req db)
      (λ db'. (up ≡ false) × (kept ≡ true) × Registers b salt id now req db db') db

request-Outcome :
    (up : ℕ → Bool) (kept : Bool) (id : String) (user username : Option String) (db : Db)
    → RequestOutcome up kept id user username db (handle_friend_request up kept id user username db)
unfolding handle_friend_request
request-Outcome up kept id none username db = inr ((λ e. ground arith), inl refl)
request-Outcome up kept id (some user) none db = inr ((λ e. ground arith), inl refl)
request-Outcome up kept id (some user) (some f) db =
    if-cases (RequestOutcome up kept id (some user) (some f) db) (f == "") _ _
      (λ nameless. inr ((λ e. ground arith), inl refl))
      (λ named.
        settled-Outcome status_created request_error (λ u f. request_friend up id u f db)
          (λ u f. request_friend (answered 2 up) id u f db) kept user f db request_error-code
          (λ db' e. request_friend-lost up id user f db db' e))

accept-Outcome :
    (up : ℕ → Bool) (kept : Bool) (user id : Option String) (db : Db)
    → AcceptOutcome up kept user id db (handle_friend_accept up kept user id db)
unfolding handle_friend_accept
accept-Outcome up kept none id db = inr ((λ e. ground arith), inl refl)
accept-Outcome up kept (some user) none db = inr ((λ e. ground arith), inl refl)
accept-Outcome up kept (some user) (some id) db =
    if-cases (AcceptOutcome up kept (some user) (some id) db) (id == "") _ _
      (λ nameless. inr ((λ e. ground arith), inl refl))
      (λ named.
        settled-Outcome status_ok action_error (λ u f. accept_friend up u f db)
          (λ u f. accept_friend (answered 1 up) u f db) kept user id db action_error-code
          (λ db' e. accept_friend-lost up user id db db' e))

remove-Outcome :
    (up : ℕ → Bool) (kept : Bool) (user : Option String) (id : String) (db : Db)
    → RemoveOutcome up kept user id db (handle_friend_remove up kept user id db)
unfolding handle_friend_remove
remove-Outcome up kept none id db = inr ((λ e. ground arith), inl refl)
remove-Outcome up kept (some user) id db =
    if-cases (RemoveOutcome up kept (some user) id db) (id == "") _ _
      (λ nameless. inr ((λ e. ground arith), inl refl))
      (λ named.
        settled-Outcome status_ok action_error (λ u f. remove_friend up u f db)
          (λ u f. remove_friend (answered 1 up) u f db) kept user id db action_error-code
          (λ db' e. remove_friend-lost up user id db db' e))

-- The insertion, and its answer.
created-Outcome :
    (b : Bcrypt) (up kept : Bool) (salt id hash : String) (now : ℕ) (c : Credentials) (db : Db)
    → b.generate salt c.password ≡ some hash
    → RegisterOutcome b up kept salt id now (some c) db (
      register_answer (create_user up kept id now c.username hash db).0,
      (create_user up kept id now c.username hash db).1,
    )
unfolding create_user register_answer insert_user
created-Outcome b true kept salt id hash now c db made =
    if-cases {A = Result String × Db}
      (λ r. RegisterOutcome b true kept salt id now (some c) db (register_answer r.0, r.1))
      (taken id c.username db.users) _ _ (λ used. inr ((λ e. ground arith), inl refl))
      (λ free. inl (refl, (c, hash, refl, made, rw free refl)))
created-Outcome b false false salt id hash now c db made = inr ((λ e. ground arith), inl refl)
created-Outcome b false true salt id hash now c db made =
    if-cases {A = Result String × Db}
      (λ r.
        RegisterOutcome b false true salt id now (some c) db
          (register_answer (err unavailable), r.1))
      (taken id c.username db.users) _ _ (λ used. inr ((λ e. ground arith), inl refl))
      (λ free.
        inr ((λ e. ground arith), inr (refl, (refl, refl, (c, hash, refl, made, rw free refl)))))

register-Outcome :
    (b : Bcrypt) (up kept : Bool) (salt id : String) (now : ℕ) (req : Option Credentials) (db : Db)
    → RegisterOutcome b up kept salt id now req db (handle_register b up kept salt id now req db)
unfolding handle_register
register-Outcome b up kept salt id now none db = inr ((λ e. ground arith), inl refl)
register-Outcome b up kept salt id now (some c) db =
    if-cases (RegisterOutcome b up kept salt id now (some c) db)
      (c.username == "" || c.password == "") _ _ (λ empty. inr ((λ e. ground arith), inl refl))
      (λ given.
        if-cases (RegisterOutcome b up kept salt id now (some c) db)
          (ltb (len c.password) min_password_length) _ _
          (λ short. inr ((λ e. ground arith), inl refl))
          (λ long. elim (Option-cases (b.generate salt c.password)) [
            | inl unhashed ↦ rw unhashed (inr ((λ e. ground arith), inl refl))
            | inr (hash, made) ↦ rw made (created-Outcome b up kept salt id hash now c db made)
          ]))

-- Whatever a client sends, and whichever statements of the database fail. If a registration or a friend
-- request is answered 201, or an acceptance or a removal 200, the tables are as its call of the database
-- leaves them that succeeds. With every other answer the tables are as they were, unless the write has
-- failed for the service alone: the answer is then 500, and the tables are as the write leaves them.
pub answer_tells :
    (b : Bcrypt) (up kept : Bool) (ups : ℕ → Bool) (salt id : String) (now : ℕ)
    (req : Option Credentials) (user field : Option String) (path : String) (db : Db)
    → RegisterOutcome b up kept salt id now req db (handle_register b up kept salt id now req db)
      × RequestOutcome ups kept id user field db (handle_friend_request ups kept id user field db)
      × AcceptOutcome ups kept user field db (handle_friend_accept ups kept user field db)
      × RemoveOutcome ups kept user path db (handle_friend_remove ups kept user path db)
answer_tells b up kept ups salt id now req user field path db = (
  register-Outcome b up kept salt id now req db,
  request-Outcome ups kept id user field db,
  accept-Outcome ups kept user field db,
  remove-Outcome ups kept user path db,
)
