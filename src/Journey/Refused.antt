-- ===== src/Journey/Refused.antt =====
-- The routes of the three services that want a token: what a request without a good one comes to.
use nodefall.Base.{
  ℕ, String, ◌==◌, true, false, ◌≡◌, ap, sym, subst, ◌∙◌, Option, none, List, [], ◌∷◌,
}
use nodefall.Http.Cors.{with_cors, cors_headers, method_options}
use nodefall.Http.Mux.{Mux, dispatch, first_match, first_match_later, is_routed, first_match-routed}
use nodefall.Runtime.Environment.{load}
use nodefall.Runtime.Float.{Float}
use nodefall.Runtime.Random.{Random}
use nodefall.Auth.Token.{Jwt}
use nodefall.Auth.Guard.{IsStranger, refusal, with_auth-IsStranger}
use nodefall.Auth.RateLimit.{TokenBucket}
use nodefall.Auth.Handlers.{Bcrypt}
use nodefall.Auth.Service as Auth
use nodefall.Matchmaker.Service as Matchmaker
use nodefall.Matchmaker.Queue.{Queue}
use nodefall.Engine.State.{Snapshot}
use nodefall.Server.Client.{Client}
use nodefall.Server.Manager.{Manager}
use nodefall.Server.Connect.{Outcome, answered}
use nodefall.Server.Service.{SocketRequest, serve_socket}

abbrev pub friends_routes : List String
friends_routes =
    "GET /friends" ∷ "POST /friends/request" ∷ "POST /friends/accept" ∷ "DELETE /friends/{id}" ∷ []

module _ {D L : Type 0} (mux : Mux) (b : Bcrypt) (j : Jwt) (tb : TokenBucket ℕ L)
    (split : String → Option String) (decode : Auth.Decoders D) (getenv : String → String) where
  Refuses :
      Auth.AuthRequest D → (Auth.AuthService L → Auth.AuthAnswer × Auth.AuthService L) → Type 0
  Refuses r f = (s : Auth.AuthService L) → f s ≡ (Auth.plain (refusal r.tokens), s)

  guarded-Refuses :
      (r : Auth.AuthRequest D) (handler : Option String → Auth.OnTables)
      → IsStranger j (load getenv).jwt_secret r.now r.tokens
      → Refuses r (Auth.guarded mux b j tb split decode getenv r handler)
  unfolding Auth.guarded Refuses
  guarded-Refuses r handler strange s =
      ap (λ f. Auth.on_tables f s)
        (with_auth-IsStranger j (load getenv).jwt_secret r.now r.tokens Auth.answers handler
          strange)

  -- A request whose token is missing or does not verify, and that one of the routes for friends matches
  -- and neither register nor login, is answered 401, as "missing token" or "invalid token", with the
  -- headers of CORS, and changes nothing.
  pub friends_refused :
      (r : Auth.AuthRequest D) (s : Auth.AuthService L)
      → IsStranger j (load getenv).jwt_secret r.now r.tokens
      → (r.target.method == method_options) ≡ false
      → mux.matches "POST /register" r.target ≡ none
      → mux.matches "POST /login" r.target ≡ none
      → is_routed mux r.target friends_routes ≡ true
      → Auth.serve mux b j tb split decode getenv r s
        ≡ ((cors_headers, Auth.plain (refusal r.tokens)), s)
  unfolding Auth.serve with_cors dispatch Auth.routes Refuses
  friends_refused r s strange call not_register not_login routed =
      let found : Refuses r
          (first_match mux r.target _ (Auth.routes mux b j tb split decode getenv r)) =
        subst (Refuses r)
          (sym (
            first_match_later mux r.target _ _ _ _ not_register
            ∙ first_match_later mux r.target _ _ _ _ not_login))
          (first_match-routed mux r.target (Refuses r) _ _
            (
              (λ value. guarded-Refuses r _ strange),
              (
                (λ value. guarded-Refuses r _ strange),
                (
                  (λ value. guarded-Refuses r _ strange),
                  ((λ value. guarded-Refuses r _ strange), tt),
                ),
              ),
            )
            routed) in
      rw (call) (ap (λ x. ((cors_headers, x.0), x.1)) (found s))

abbrev pub queue_routes : List String
queue_routes = "POST /queue" ∷ "GET /queue" ∷ "DELETE /queue" ∷ []

module _ (mux : Mux) (j : Jwt) where
  module _ (getenv : String → String) (r : Matchmaker.QueueRequest) where
    RefusesQueue : Matchmaker.OnQueue → Type 0
    RefusesQueue f = (q : Queue) → f q ≡ (Matchmaker.plain (refusal r.tokens), q)

    guarded-RefusesQueue :
        (handler : Option String → Matchmaker.OnQueue)
        → IsStranger j (load getenv).jwt_secret r.now r.tokens
        → RefusesQueue (Matchmaker.guarded mux j getenv r handler)
    unfolding Matchmaker.guarded RefusesQueue
    guarded-RefusesQueue handler strange q =
        ap (λ f. f q)
          (with_auth-IsStranger j (load getenv).jwt_secret r.now r.tokens Matchmaker.answers handler
            strange)

    -- A request whose token is missing or does not verify, and that a route of the queue matches, is
    -- answered 401, as "missing token" or "invalid token", with the headers of CORS, and changes nothing.
    pub queue_refused :
        (q : Queue)
        → IsStranger j (load getenv).jwt_secret r.now r.tokens
        → (r.target.method == method_options) ≡ false
        → is_routed mux r.target queue_routes ≡ true
        → Matchmaker.serve mux j getenv r q
          ≡ ((cors_headers, Matchmaker.plain (refusal r.tokens)), q)
    unfolding Matchmaker.serve with_cors dispatch Matchmaker.routes RefusesQueue
    queue_refused q strange call routed =
        let refused : (handler : Option String → Matchmaker.OnQueue)
            → RefusesQueue (Matchmaker.guarded mux j getenv r handler) =
          λ handler. guarded-RefusesQueue handler strange in
        let found =
          first_match-routed mux r.target RefusesQueue _ (Matchmaker.routes mux j getenv r)
            ((λ value. refused _), ((λ value. refused _), ((λ value. refused _), tt))) routed in
        rw (call) (ap (λ x. ((cors_headers, x.0), x.1)) (found q))

  -- A request whose token is missing or does not verify, and that the route for sockets matches, is
  -- answered 401, as "missing token" or "invalid token", and changes nothing.
  socket_refused :
      {F S M : Type 0} (fl : Float F) (rnd : Random F S) (marshal : Snapshot F → Option M)
      (getenv : String → String) (r : SocketRequest) (m : Manager F S (Client M))
      → IsStranger j (load getenv).jwt_secret r.now r.tokens
      → is_routed mux r.target ("/ws" ∷ []) ≡ true
      → serve_socket fl rnd marshal getenv mux j r m ≡ (answered (refusal r.tokens), m)
  unfolding serve_socket dispatch
  socket_refused {F} {S} {M} fl rnd marshal getenv r m strange routed =
      first_match-routed {A = Manager F S (Client M) → Outcome × Manager F S (Client M)} mux
        r.target (λ f. f m ≡ (answered (refusal r.tokens), m)) _ _
        (
          (λ value.
              ap {A = Manager F S (Client M) → Outcome × Manager F S (Client M)} (λ f. f m)
                (with_auth-IsStranger j (load getenv).jwt_secret r.now r.tokens
                  (λ answer m. (answered answer, m)) _ strange)),
          tt,
        )
        routed
