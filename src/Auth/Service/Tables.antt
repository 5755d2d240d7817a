-- ===== src/Auth/Service/Tables.antt =====
-- services/auth/main.go: what the service keeps of its tables, if each method of the database keeps it.
use nodefall.Base.{ℕ, String, Bool, ◌==◌, not, ◌≡◌, Option, some, if-cases}
use nodefall.Http.Cors.{with_cors, method_options}
use nodefall.Http.Mux.{Mux, dispatch, first_match-All}
use nodefall.Runtime.Environment.{load}
use nodefall.Auth.Db.{Db, ok}
use nodefall.Auth.Token.{Jwt, verify}
use nodefall.Auth.Guard.{token_of, with_auth-All}
use nodefall.Auth.RateLimit.{TokenBucket, client_ip, get_limiter, limit}
use nodefall.Auth.Users.{insert_user}
use nodefall.Auth.Friends.{request_friend, accept_friend, remove_friend}
use nodefall.Auth.Handlers.{Bcrypt}
use nodefall.Auth.Handlers.Keeps.{
  handle_register-keeps, handle_friend_request-keeps, handle_friend_accept-keeps,
  handle_friend_remove-keeps,
}
use nodefall.Auth.Service.{
  AuthService, Decoders, AuthRequest, AuthAnswer, OnTables, limited, guarded, routes, serve,
}

module _ {D L : Type 0} (mux : Mux) (b : Bcrypt) (j : Jwt) (tb : TokenBucket ℕ L)
    (split : String → Option String) (decode : Decoders D) (getenv : String → String) where
  -- The user that the request's token verifies as.
  abbrev pub user_of : AuthRequest D → Option String
  user_of r = verify j (load getenv).jwt_secret r.now (token_of r.tokens)

  -- What the methods of the database that a request may call make of the tables: inserting a user, and
  -- for the user that the token verifies as, requesting, accepting and removing a friendship.
  abbrev pub MethodsGive {κ} : (Db → Type κ) → AuthRequest D → Db → Type κ
  MethodsGive P r db =
      ((username hash : String) → P (insert_user r.uuid r.now username hash db).1)
      × ((user : String)
          → user_of r ≡ some user
          → ((up : ℕ → Bool) (name : String) (db' : Db)
              → request_friend up r.uuid user name db ≡ ok db'
              → P db')
            × ((up : ℕ → Bool) (id : String) (db' : Db)
                → accept_friend up user id db ≡ ok db'
                → P db')
            × ((up : ℕ → Bool) (id : String) (db' : Db)
                → remove_friend up user id db ≡ ok db'
                → P db'))

  module _ {κ} (P : Db → Type κ) (s : AuthService L) (there : P s.database) where
    abbrev Gives : (AuthService L → AuthAnswer × AuthService L) → Type κ
    Gives f = P (f s).1.database

    abbrev GivesTables : OnTables → Type κ
    GivesTables f = P (f s.database).1

    limited-Gives :
        (r : AuthRequest D) (handler : OnTables)
        → GivesTables handler
        → Gives (limited mux b j tb split decode getenv r handler)
    unfolding limited limit
    limited-Gives r handler gives =
        if-cases {A = OnTables} GivesTables
          (not (tb.allow r.now (get_limiter tb (client_ip tb split r.remote) s.limiter)).0) _ _
          (λ spent. there) (λ allowed. gives)

    guarded-Gives :
        (r : AuthRequest D) (handler : Option String → OnTables)
        → ((user : String) → user_of r ≡ some user → GivesTables (handler (some user)))
        → Gives (guarded mux b j tb split decode getenv r handler)
    unfolding guarded
    guarded-Gives r handler gives =
        with_auth-All GivesTables j (load getenv).jwt_secret r.now r.tokens _ handler
          (λ answer. there) gives

    -- What holds before a request, and after each method that it may call, holds after it.
    pub serve-gives :
        (r : AuthRequest D)
        → MethodsGive P r s.database
        → P (serve mux b j tb split decode getenv r s).1.database
    unfolding serve dispatch routes with_cors
    serve-gives r (creates, others) =
        if-cases {A = AuthService L → AuthAnswer × AuthService L} Gives
          (r.target.method == method_options) _ _ (λ preflight. there)
          (λ call.
            first_match-All mux r.target Gives _ (routes mux b j tb split decode getenv r) there (
              (λ value. limited-Gives r _ (
                  handle_register-keeps P s.database there b (r.up 0) r.kept r.salt r.uuid r.now
                    (decode.credentials r.body) creates)),
              (
                (λ value. limited-Gives r _ there),
                (
                  (λ value. guarded-Gives r _ (λ user verified. there)),
                  (
                    (λ value. guarded-Gives r _ (λ user verified.
                        handle_friend_request-keeps P s.database there r.up r.kept user r.uuid
                          (decode.username r.body) (others user verified).0)),
                    (
                      (λ value. guarded-Gives r _ (λ user verified.
                          handle_friend_accept-keeps P s.database there r.up r.kept user
                            (decode.friendship_id r.body) (others user verified).1)),
                      (
                        (λ id. guarded-Gives r _ (λ user verified.
                            handle_friend_remove-keeps P s.database there r.up r.kept user id
                              (λ up. (others user verified).2 up id))),
                        tt,
                      ),
                    ),
                  ),
                ),
              ),
            ))
