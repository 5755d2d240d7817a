-- ===== src/Auth/Service/Sound.antt =====
-- services/auth/main.go: what the tables hold after any sequence of requests.
use nodefall.Base.{ℕ, String, Bool, ◌≡◌, List, Option, some, arith, sym, subst, Option-cases}
use nodefall.Base.Loop.{for_each, for_each_inv}
use nodefall.Http.Mux.{Mux}
use nodefall.Auth.Token.{Jwt}
use nodefall.Auth.RateLimit.{TokenBucket}
use nodefall.Auth.Friends.Sound.{
  IsSound, insert_user-IsSound, request_friend-IsSound, accept_friend-IsSound,
  remove_friend-IsSound,
}
use nodefall.Auth.Handlers.{Bcrypt}
use nodefall.Auth.Service.{AuthService, AuthRequest, Decoders, serve, start}
use nodefall.Runtime.Environment.{require_env}
use nodefall.Auth.Schema.{
  StoredTables, Postgres, created, ensure_schema, ensure_friends_schema, database_of, open_database,
}
use nodefall.Auth.Service.Tables.{serve-gives}

module _ {D L : Type 0} (mux : Mux) (b : Bcrypt) (j : Jwt) (tb : TokenBucket ℕ L)
    (split : String → Option String) (decode : Decoders D) (getenv : String → String) where
  pub serve-IsSound :
      (r : AuthRequest D) (s : AuthService L)
      → IsSound s.database
      → IsSound (serve mux b j tb split decode getenv r s).1.database
  serve-IsSound r s sound = serve-gives mux b j tb split decode getenv IsSound s sound r (
    (λ username hash. insert_user-IsSound r.uuid r.now username hash s.database sound),
    (λ user verified. (
      (λ up name db'. request_friend-IsSound up r.uuid user name s.database db' sound),
      (λ up id db'. accept_friend-IsSound up user id s.database db' sound),
      (λ up id db'. remove_friend-IsSound up user id s.database db' sound),
    )),
  )

  -- What the service starts with is what the tables hold that it finds.
  start-database_of :
      (postgres : Postgres) (schemas : ℕ → Bool) (tables : StoredTables) (s : AuthService L)
      → start mux b j tb split decode getenv postgres schemas tables ≡ some s
      → s.database ≡ database_of tables
  unfolding start open_database ensure_schema ensure_friends_schema database_of created require_env
  start-database_of postgres schemas tables s started =
      ground (arith, Option-cases tables.users, Option-cases tables.friendships)

  -- After the service has started and has answered any requests, one after the other, and whichever
  -- statements the database failed to answer, its writes carried out then or not: no two users have one ID or one name, each friendship
  -- is between two different users that exist, and no two friendships are between the same users or
  -- have one ID, if this was so of the tables that the service found; a table that was not there counts as
  -- empty.
  pub serve_all-IsSound :
      (postgres : Postgres) (schemas : ℕ → Bool) (tables : StoredTables)
      (requests : List (AuthRequest D)) (s : AuthService L)
      → start mux b j tb split decode getenv postgres schemas tables ≡ some s
      → IsSound (database_of tables)
      → IsSound (for_each (λ r t. (serve mux b j tb split decode getenv r t).1) requests s).database
  serve_all-IsSound postgres schemas tables requests s started sound =
      for_each_inv (λ t. IsSound t.database) (λ r t. (serve mux b j tb split decode getenv r t).1)
        (λ r t. serve-IsSound r t) requests s
        (subst IsSound (sym (start-database_of postgres schemas tables s started)) sound)
