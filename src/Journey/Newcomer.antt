-- ===== src/Journey/Newcomer.antt =====
-- From the routes of services/auth/main.go to a route of services/matchmaker/main.go: a user registers,
-- logs in, and queues with the token.
use nodefall.Base.{
  ℕ, ◌+◌, ◌*◌, ◌/◌, ◌≤◌, ◌<◌, String, ◌==◌, eq_iff, true, false, ◌≡◌, ◌≢◌, sym, ap, ◌∙◌, Option,
  some, none, arith, [], ◌∷◌,
}
use Prim.Native.String.{len}
use nodefall.Base.Dict.{lookup, has}
use nodefall.Http.{http_error, status_created, status_accepted}
use nodefall.Http.Cors.{cors_headers, method_options}
use nodefall.Http.Mux.{Mux, IsMux}
use nodefall.Runtime.Clock.{second}
use nodefall.Runtime.Environment.{load}
use nodefall.Auth.Token.{Jwt, IsJwt, sign, token_ttl}
use nodefall.Auth.Guard.{Request, token_of, IsSignedIn}
use nodefall.Auth.RateLimit.{TokenBucket, client_ip}
use nodefall.Auth.RateLimit.Bucket.{IsTokenBucket}
use nodefall.Auth.Users.{taken}
use nodefall.Auth.Handlers.{Bcrypt, IsBcrypt, Credentials, token, no_body, handle_register}
use nodefall.Auth.Handlers.Login.{login-register}
use nodefall.Auth.Service.Entry.{
  serve_register, serve_login, two_allowed, bucket_of-unseen, bucket_of-let_through, let_through,
}
use nodefall.Auth.Service.{AuthService, Decoders, AuthRequest, plain, login, changes, serve}
use nodefall.Matchmaker.Service as Matchmaker
use nodefall.Matchmaker.Service.Round.{to_queue, post_as}
use nodefall.Matchmaker.Queue.{Queue, join}
use nodefall.Matchmaker.Queue.Answers.{has-append}

-- A request with the token in the query.
abbrev pub carrying : String → Request
carrying t = record { query_token = t; authorization = "" }

carrying-IsSignedIn :
    (j : Jwt) (jwt_secret user t : String) (issued now : ℕ)
    → user ≢ ""
    → t ≢ ""
    → sign j jwt_secret issued user ≡ some t
    → now < (issued + token_ttl) / second * second
    → IsSignedIn j jwt_secret now user (carrying t)
unfolding token_of
carrying-IsSignedIn j jwt_secret user t issued now named filled signed early =
    let carried : token_of (carrying t) ≡ t = ground (arith, eq_iff t "") in
    record {
      issued = issued;
      named = named;
      filled = λ e. filled (sym carried ∙ e);
      signed = signed ∙ ap some (sym carried);
      unexpired = early;
    }

-- Who has no match waits after `Join`.
join-has :
    (id : String) (q : Queue) → lookup id q.matched ≡ none → has id (join id q).waiting ≡ true
unfolding join has
join-has id q unmatched = ground (arith, has-append id q.waiting (id ∷ []), eq_iff id id)

module _ {D L : Type 0} (mux : Mux) (b : Bcrypt) (j : Jwt) (tb : TokenBucket ℕ L)
    (split : String → Option String) (decode : Decoders D) (auth queue : String → String)
    (bcrypt : IsBcrypt b) (laws : IsJwt j) (law : IsTokenBucket tb)
    (shaped : IsMux mux "/queue") where
  -- A user registers and then logs in with the same credentials, from an address that the limiter has not
  -- seen and with a burst of two requests or more. If the name is free, the password has at least eight
  -- bytes in UTF-8 (so fewer characters will do), bcrypt hashes it, the database answers both statements
  -- and a token can be signed for the new ID, neither of them empty, then the registration is answered
  -- 201 and the login with the token. And a matchmaker with the same secret that has no match for the new
  -- ID, and that is sent this token before the 24 hours are over, to the second, answers 202, and the user
  -- waits in the queue, which is as `Join` leaves it.
  pub newcomer :
      (registers logs_in : AuthRequest D) (s : AuthService L) (c : Credentials)
      (hash t v w : String) (now : ℕ) (q : Queue)
      → (registers.target.method == method_options) ≡ false
      → mux.matches "POST /register" registers.target ≡ some v
      → (logs_in.target.method == method_options) ≡ false
      → mux.matches "POST /register" logs_in.target ≡ none
      → mux.matches "POST /login" logs_in.target ≡ some w
      → logs_in.remote ≡ registers.remote
      → registers.now ≤ logs_in.now
      → lookup (client_ip tb split registers.remote) s.limiter.limiters ≡ none
      → 2 ≤ s.limiter.burst
      → registers.up 0 ≡ true
      → logs_in.up 0 ≡ true
      → decode.credentials registers.body ≡ some c
      → decode.credentials logs_in.body ≡ some c
      → c.username ≢ ""
      → 8 ≤ len c.password
      → b.generate registers.salt c.password ≡ some hash
      → taken registers.uuid c.username s.database.users ≡ false
      → registers.uuid ≢ ""
      → t ≢ ""
      → sign j (load auth).jwt_secret logs_in.now registers.uuid ≡ some t
      → (load queue).jwt_secret ≡ (load auth).jwt_secret
      → now < (logs_in.now + token_ttl) / second * second
      → lookup registers.uuid q.matched ≡ none
      → let (answer, s') = serve mux b j tb split decode auth registers s in
        (answer ≡ (cors_headers, plain (no_body status_created)))
        × ((serve mux b j tb split decode auth logs_in s').0 ≡ (cors_headers, login (token t)))
        × (Matchmaker.serve mux j queue (to_queue "POST" (carrying t) now) q ≡ (
          (cors_headers, Matchmaker.plain (http_error "" status_accepted)),
          join registers.uuid q,
        ))
        × (has registers.uuid (join registers.uuid q).waiting ≡ true)
  newcomer registers logs_in s c hash t v w now q call routed call' other routed' near order unseen
        two up up' body body' named long hashed free numbered filled signed shared early unmatched =
      let user = registers.uuid in
      let (first, next) =
        two_allowed mux b j tb split decode auth law s.limiter.rate s.limiter.burst registers.now
          logs_in.now two order in
      let new = bucket_of-unseen mux b j tb split decode auth registers s unseen in
      let served =
        serve_register mux b j tb split decode auth registers v c s call routed (rw new first) up
          body in
      let (created, entered) =
        login-register b bcrypt j (load auth).jwt_secret registers.kept registers.salt user hash t
          registers.now logs_in.now c s.database named long hashed free signed in
      let x =
        changes (handle_register b true registers.kept registers.salt user registers.now (some c))
          s.database in
      let left = bucket_of-let_through mux b j tb split decode auth registers logs_in s x near in
      let served' =
        serve_login mux b j tb split decode auth logs_in w c
          (let_through mux b j tb split decode auth registers s x).1 call' other routed'
          (rw (left, new) next) up' body' in
      let known =
        carrying-IsSignedIn j (load queue).jwt_secret user t logs_in.now now numbered filled
          (rw shared signed) early in
      (
        ap (λ y. y.0) served ∙ ap (λ y. (cors_headers, plain y)) created,
        ap (λ y. (serve mux b j tb split decode auth logs_in y.1).0) served
            ∙ ap (λ y. y.0) served'
            ∙ ap (λ y. (cors_headers, login y)) entered,
        post_as mux shaped j queue laws now user (carrying t) q known,
        join-has user q unmatched,
      )
