-- ===== src/Auth/Service/Entry.antt =====
-- services/auth/main.go: the two routes without a token, when the limiter lets the request through.
use nodefall.Base.{
  ℕ, ◌*◌, ◌≤◌, String, ◌==◌, true, false, ◌≡◌, refl, ap, ◌∙◌, Option, some, none, List, arith,
}
use nodefall.Base.Dict.{lookup, insert, lookup-insert_self}
use nodefall.Http.Cors.{with_cors, cors_headers, method_options}
use nodefall.Http.Mux.{Mux, dispatch, first_match}
use nodefall.Runtime.Clock.{second}
use nodefall.Runtime.Environment.{load}
use nodefall.Auth.Token.{Jwt}
use nodefall.Auth.RateLimit.{TokenBucket, client_ip, get_limiter, limit}
use nodefall.Auth.RateLimit.Bucket.{IsTokenBucket}
use nodefall.Auth.Db.{Db}
use nodefall.Auth.Handlers.{Bcrypt, Credentials, handle_register, handle_login}
use nodefall.Auth.Service.{
  AuthService, Decoders, AuthRequest, AuthAnswer, login, OnTables, changes, limited, routes, serve,
}

module _ {D L : Type 0} (mux : Mux) (b : Bcrypt) (j : Jwt) (tb : TokenBucket ℕ L)
    (split : String → Option String) (decode : Decoders D) (getenv : String → String) where
  abbrev pub bucket_of : AuthRequest D → AuthService L → L
  bucket_of r s = get_limiter tb (client_ip tb split r.remote) s.limiter

  abbrev pub WithHeaders : Type 0
  WithHeaders = (List (String × String) × AuthAnswer) × AuthService L

  abbrev pub with_headers : AuthAnswer × AuthService L → WithHeaders
  with_headers x = ((cors_headers, x.0), x.1)

  -- What a handler makes of the tables, with the limiter as the request leaves it.
  abbrev pub let_through :
      AuthRequest D → AuthService L → AuthAnswer × Db → AuthAnswer × AuthService L
  let_through r s x = (
    x.0,
    record {
      database = x.1;
      limiter = record s.limiter {
        limiters =
            insert (client_ip tb split r.remote) (tb.allow r.now (bucket_of r s)).1
              s.limiter.limiters;
      };
    },
  )

  limited_passes :
      (r : AuthRequest D) (handler : OnTables) (s : AuthService L)
      → (tb.allow r.now (bucket_of r s)).0 ≡ true
      → limited mux b j tb split decode getenv r handler s ≡ let_through r s (handler s.database)
  unfolding limited limit
  limited_passes r handler s allowed = rw (allowed) refl

  pub serve_register :
      (r : AuthRequest D) (value : String) (c : Credentials) (s : AuthService L)
      → (r.target.method == method_options) ≡ false
      → mux.matches "POST /register" r.target ≡ some value
      → (tb.allow r.now (bucket_of r s)).0 ≡ true
      → r.up 0 ≡ true
      → decode.credentials r.body ≡ some c
      → serve mux b j tb split decode getenv r s
        ≡ with_headers (
            let_through r s
              (changes (handle_register b true r.kept r.salt r.uuid r.now (some c)) s.database))
  unfolding serve with_cors dispatch routes first_match
  serve_register r value c s call matched allowed up body =
      rw (call, matched, up, body) (ap with_headers (limited_passes r _ s allowed))

  pub serve_login :
      (r : AuthRequest D) (value : String) (c : Credentials) (s : AuthService L)
      → (r.target.method == method_options) ≡ false
      → mux.matches "POST /register" r.target ≡ none
      → mux.matches "POST /login" r.target ≡ some value
      → (tb.allow r.now (bucket_of r s)).0 ≡ true
      → r.up 0 ≡ true
      → decode.credentials r.body ≡ some c
      → serve mux b j tb split decode getenv r s
        ≡ with_headers (
            let_through r s (
              login (handle_login b j (load getenv).jwt_secret true r.now (some c) s.database),
              s.database,
            ))
  unfolding serve with_cors dispatch routes first_match
  serve_login r value c s call other matched allowed up body =
      rw (call, other, matched, up, body) (ap with_headers (limited_passes r _ s allowed))

  -- A new bucket of two tokens or more allows two requests, however close.
  pub two_allowed :
      (law : IsTokenBucket tb) (rate burst t t' : ℕ)
      → 2 ≤ burst
      → t ≤ t'
      → ((tb.allow t (tb.new_limiter rate burst)).0 ≡ true)
        × ((tb.allow t' (tb.allow t (tb.new_limiter rate burst)).1).0 ≡ true)
  two_allowed law rate burst t t' two order =
      let (first, left) =
        law.asked rate burst 0 (burst * second) t _ (law.full rate burst) (omega arith) in
      let (next, _) = law.asked rate burst t _ t' _ left order in
      (first ∙ ground arith, next ∙ ground arith)

  pub bucket_of-unseen :
      (r : AuthRequest D) (s : AuthService L)
      → lookup (client_ip tb split r.remote) s.limiter.limiters ≡ none
      → bucket_of r s ≡ tb.new_limiter s.limiter.rate s.limiter.burst
  unfolding get_limiter
  bucket_of-unseen r s unseen = ground (arith, unseen)

  pub bucket_of-let_through :
      (r r' : AuthRequest D) (s : AuthService L) (x : AuthAnswer × Db)
      → r'.remote ≡ r.remote
      → bucket_of r' (let_through r s x).1 ≡ (tb.allow r.now (bucket_of r s)).1
  unfolding get_limiter
  bucket_of-let_through r r' s x same =
      let ip = client_ip tb split r.remote in
      let written = lookup-insert_self ip s.limiter.limiters (tb.allow r.now (bucket_of r s)).1 in
      rw (same) (ground (arith, written))
