-- ===== src/Auth/Service.antt =====
-- services/auth/main.go: the routes of the service, with the middleware around each handler.
pub mod Tables
pub mod Own
pub mod Entry
pub mod Consent
pub mod Sound
use nodefall.Base.{
  ℕ, String, Bool, true, false, not, Option, none, some, List, [], ◌∷◌, if◌then◌else◌, ◌||◌,
}
use nodefall.Http.{Answer}
use nodefall.Http.Cors.{with_cors}
use nodefall.Http.Mux.{Mux, Target, dispatch}
use nodefall.Runtime.Environment.{load, require_env}
use nodefall.Auth.Db.{Db, ok, err}
use nodefall.Auth.Schema.{StoredTables, Postgres, open_database}
use nodefall.Auth.Token.{Jwt}
use nodefall.Auth.Guard.{Request, with_auth}
use nodefall.Auth.RateLimit.{TokenBucket, RateLimiter, new_rate_limiter, client_ip, limit}
use nodefall.Auth.Handlers.{
  Bcrypt, Credentials, LoginAnswer, FriendsAnswer, handle_register, handle_login,
  handle_friends_list, handle_friend_request, handle_friend_accept, handle_friend_remove,
}

-- The tables, and the limiter of the two routes without a token.
pub record AuthService (L : Type 0) : Type 0 where
  pub database : Db
  pub limiter : RateLimiter ℕ L

-- What decoding the body comes to, for each of the handlers.
pub record Decoders (D : Type 0) : Type 0 where
  pub credentials : D → Option Credentials
  pub username : D → Option String
  pub friendship_id : D → Option String

-- A request from a remote address at a time, which statements of the database are answered for it,
-- whether a write that is not was carried out all the same, and what is drawn for it.
pub record AuthRequest (D : Type 0) : Type 0 where
  pub target : Target
  pub tokens : Request
  pub remote : String
  pub body : D
  pub now : ℕ
  pub up : ℕ → Bool
  pub kept : Bool
  pub salt : String
  pub uuid : String

pub data AuthAnswer : Type 0 where
  plain : Answer → AuthAnswer
  login : LoginAnswer → AuthAnswer
  friends : FriendsAnswer → AuthAnswer

-- What a handler does with the tables.
abbrev pub OnTables : Type 0
OnTables = Db → AuthAnswer × Db

abbrev pub answers : Answer → OnTables
answers answer db = (plain answer, db)

abbrev pub changes : (Db → Answer × Db) → OnTables
changes handler db = let (answer, db') = handler db in (plain answer, db')

abbrev pub on_tables : {L : Type 0} → OnTables → AuthService L → AuthAnswer × AuthService L
on_tables f s = let (answer, db) = f s.database in (answer, record s { database = db })

module _ {D L : Type 0} (mux : Mux) (b : Bcrypt) (j : Jwt) (tb : TokenBucket ℕ L)
    (split : String → Option String) (decode : Decoders D) (getenv : String → String) where
  -- `limiter.Wrap`.
  unfoldable pub limited : AuthRequest D → OnTables → AuthService L → AuthAnswer × AuthService L
  limited r handler s =
      let (f, rl) = limit tb r.now (client_ip tb split r.remote) answers handler s.limiter in
      let (answer, db) = f s.database in (answer, record { database = db; limiter = rl })

  -- `middleware.WithAuth`.
  unfoldable pub guarded :
      AuthRequest D → (Option String → OnTables) → AuthService L → AuthAnswer × AuthService L
  guarded r handler =
      on_tables (with_auth j (load getenv).jwt_secret r.now r.tokens answers handler)

  unfoldable pub routes :
      AuthRequest D → List (String × (String → AuthService L → AuthAnswer × AuthService L))
  routes r =
      (
        "POST /register",
        λ value. limited r (
            changes
              (handle_register b (r.up 0) r.kept r.salt r.uuid r.now (decode.credentials r.body))),
      )
      ∷ (
        "POST /login",
        λ value. limited r (λ db. (
          login (
              handle_login b j (load getenv).jwt_secret (r.up 0) r.now (decode.credentials r.body)
                db),
          db,
        )),
      )
      ∷ (
        "GET /friends",
        λ value. guarded r (λ user db. (friends (handle_friends_list r.up user db), db)),
      )
      ∷ (
        "POST /friends/request",
        λ value. guarded r (λ user.
            changes (handle_friend_request r.up r.kept r.uuid user (decode.username r.body))),
      )
      ∷ (
        "POST /friends/accept",
        λ value.
            guarded r (λ user.
              changes (handle_friend_accept r.up r.kept user (decode.friendship_id r.body))),
      )
      ∷ (
        "DELETE /friends/{id}",
        λ id. guarded r (λ user. changes (handle_friend_remove r.up r.kept user id)),
      )
      ∷ []

  -- One request, with the headers of its answer.
  unfoldable pub serve :
      AuthRequest D → AuthService L → (List (String × String) × AuthAnswer) × AuthService L
  serve r s =
      let (headers, respond) =
        with_cors r.target.method (λ answer. on_tables (answers answer))
          (dispatch mux r.target (λ answer. on_tables (answers answer)) (routes r)) in
      let (answer, t) = respond s in ((headers, answer), t)

  -- The service when it starts to listen, on the tables that it finds; none if it ends before, because
  -- the variable is missing, or the connection or one of the two schemas fails.
  unfoldable pub start : Postgres → (ℕ → Bool) → StoredTables → Option (AuthService L)
  start postgres schemas tables = elim (require_env getenv "NODEFALL_DB_URL") [
    | none ↦ none
    | some db_url ↦ elim (open_database postgres schemas db_url tables) [
      | err cause ↦ none
      | ok db ↦ some (record { database = db; limiter = new_rate_limiter 1 5 })
    ]
  ]
