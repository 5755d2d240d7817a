-- ===== src/Auth/Handlers/Keeps.antt =====
-- services/auth/handlers.go and friends_handlers.go: what holds of the tables after a handler, if it
-- holds before, and after the method of the database that the handler calls.
use nodefall.Base.{
  ℕ, String, ◌==◌, Bool, true, false, ltb, ◌||◌, ◌≡◌, refl, Option, none, some, if-cases, inl, inr,
  Option-cases,
}
use Prim.Native.String.{len}
use nodefall.Http.{Answer}
use nodefall.Auth.Db.{Db, Error, Result, ok, err}
use nodefall.Auth.Users.{insert_user, create_user-gives}
use nodefall.Auth.Friends.{request_friend, accept_friend, remove_friend}
use nodefall.Auth.Handlers.{
  Bcrypt, Credentials, min_password_length, handle_register, handle_friend_request,
  handle_friend_accept, handle_friend_remove, answered, left_behind, settled,
}

module _ {κ} (P : Db → Type κ) (db : Db) (there : P db) where
  left_behind-keeps :
      (kept : Bool) (r : Result Db) → ((db' : Db) → r ≡ ok db' → P db') → P (left_behind kept db r)
  unfolding left_behind
  left_behind-keeps kept (err cause) keep = there
  left_behind-keeps true (ok db') keep = keep db' refl
  left_behind-keeps false (ok db') keep = there

  settled-keeps :
      (code : ℕ) (on_error : Error → Answer) (kept : Bool) (whole r : Result Db)
      → ((db' : Db) → whole ≡ ok db' → P db')
      → ((db' : Db) → r ≡ ok db' → P db')
      → P (settled code on_error (left_behind kept db whole) r).1
  unfolding settled
  settled-keeps code on_error kept whole (err cause) keep keep' = left_behind-keeps kept whole keep
  settled-keeps code on_error kept whole (ok db') keep keep' = keep' db' refl

  pub handle_register-keeps :
      (b : Bcrypt) (up kept : Bool) (salt id : String) (now : ℕ) (req : Option Credentials)
      → ((username hash : String) → P (insert_user id now username hash db).1)
      → P (handle_register b up kept salt id now req db).1
  unfolding handle_register
  handle_register-keeps b up kept salt id now none keep = there
  handle_register-keeps b up kept salt id now (some req) keep =
      if-cases {A = Answer × Db} (λ x. P x.1) (req.username == "" || req.password == "") _ _
        (λ empty. there)
        (λ filled.
          if-cases {A = Answer × Db} (λ x. P x.1) (ltb (len req.password) min_password_length) _ _
            (λ short. there)
            (λ long. elim (Option-cases (b.generate salt req.password)) [
              | inl failed ↦ rw failed there
              | inr (hash, made) ↦ rw made (
                  create_user-gives P up kept id now req.username hash db there
                    (keep req.username hash))
            ]))

  module _ (up : ℕ → Bool) (kept : Bool) (user : String) where
    pub handle_friend_request-keeps :
        (id : String) (username : Option String)
        → ((up : ℕ → Bool) (name : String) (db' : Db)
            → request_friend up id user name db ≡ ok db'
            → P db')
        → P (handle_friend_request up kept id (some user) username db).1
    unfolding handle_friend_request
    handle_friend_request-keeps id none keep = there
    handle_friend_request-keeps id (some username) keep =
        if-cases {A = Answer × Db} (λ x. P x.1) (username == "") _ _ (λ empty. there)
          (λ filled.
            settled-keeps _ _ kept (request_friend (answered 2 up) id user username db)
              (request_friend up id user username db) (keep (answered 2 up) username)
              (keep up username))

    pub handle_friend_accept-keeps :
        (id : Option String)
        → ((up : ℕ → Bool) (id : String) (db' : Db) → accept_friend up user id db ≡ ok db' → P db')
        → P (handle_friend_accept up kept (some user) id db).1
    unfolding handle_friend_accept
    handle_friend_accept-keeps none keep = there
    handle_friend_accept-keeps (some id) keep =
        if-cases {A = Answer × Db} (λ x. P x.1) (id == "") _ _ (λ empty. there)
          (λ filled.
            settled-keeps _ _ kept (accept_friend (answered 1 up) user id db)
              (accept_friend up user id db) (keep (answered 1 up) id) (keep up id))

    pub handle_friend_remove-keeps :
        (id : String)
        → ((up : ℕ → Bool) (db' : Db) → remove_friend up user id db ≡ ok db' → P db')
        → P (handle_friend_remove up kept (some user) id db).1
    unfolding handle_friend_remove
    handle_friend_remove-keeps id keep =
        if-cases {A = Answer × Db} (λ x. P x.1) (id == "") _ _ (λ empty. there)
          (λ filled.
            settled-keeps _ _ kept (remove_friend (answered 1 up) user id db)
              (remove_friend up user id db) (keep (answered 1 up)) (keep up))
