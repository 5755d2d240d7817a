-- ===== src/Auth/Handlers/Login.antt =====
-- services/auth/handlers.go: a registration and the login after it.
use nodefall.Base.{Bool, ℕ, ◌≤◌, String, eq_iff, true, false, ◌≡◌, ◌≢◌, refl, some, arith, subst}
use Prim.Native.String.{len}
use nodefall.Http.{status_created}
use nodefall.Auth.Db.{Db}
use nodefall.Auth.Users.{taken, create_user, insert_user, get-create_user}
use nodefall.Auth.Token.{Jwt, sign}
use nodefall.Auth.Handlers.{
  Bcrypt, IsBcrypt, Credentials, token, no_body, register_answer, handle_register, signed_answer,
  handle_login,
}

long_password : (s : String) → 8 ≤ len s → s ≢ ""
long_password s long empty = let short : 8 ≤ 0 = subst (λ t. 8 ≤ len t) empty long in omega arith

registered_answer :
    (kept : Bool) (id : String) (registered : ℕ) (username hash : String) (db : Db)
    → taken id username db.users ≡ false
    → register_answer (create_user true kept id registered username hash db).0
      ≡ no_body status_created
unfolding create_user insert_user register_answer
registered_answer kept id registered username hash db free = ground arith

handle_register_ok :
    (b : Bcrypt) (kept : Bool) (salt id hash : String) (registered : ℕ) (req : Credentials)
    (db : Db)
    → req.username ≢ ""
    → 8 ≤ len req.password
    → b.generate salt req.password ≡ some hash
    → taken id req.username db.users ≡ false
    → handle_register b true kept salt id registered (some req) db
      ≡ (no_body status_created, (create_user true kept id registered req.username hash db).1)
unfolding handle_register
handle_register_ok b kept salt id hash registered req db named long hashed free = ground (
  arith,
  eq_iff req.username "",
  eq_iff req.password "",
  long_password req.password long,
  registered_answer kept id registered req.username hash db free,
)

module _ (b : Bcrypt) (bcrypt : IsBcrypt b) (j : Jwt) (jwt_secret : String) where
  -- A user who registers under a free name, with a password of at least eight bytes that bcrypt
  -- hashes, is answered 201; and if a token for the new ID can be signed, a login with the same
  -- credentials on the database left behind answers with that token.
  pub login-register :
      (kept : Bool) (salt id hash t : String) (registered now : ℕ) (req : Credentials) (db : Db)
      → req.username ≢ ""
      → 8 ≤ len req.password
      → b.generate salt req.password ≡ some hash
      → taken id req.username db.users ≡ false
      → sign j jwt_secret now id ≡ some t
      → ((handle_register b true kept salt id registered (some req) db).0 ≡ no_body status_created)
        × (handle_login b j jwt_secret true now
              (some req)
              (handle_register b true kept salt id registered (some req) db).1
            ≡ token t)
  login-register kept salt id hash t registered now req db named long hashed free signed =
      rw (handle_register_ok b kept salt id hash registered req db named long hashed free) (
        refl,
        unfold handle_login signed_answer in
            (ground (
              arith,
              get-create_user kept id req.username hash registered db free,
              bcrypt.accepts_own salt req.password hash,
            )),
      )
