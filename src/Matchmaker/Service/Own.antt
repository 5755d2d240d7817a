-- ===== src/Matchmaker/Service/Own.antt =====
-- services/matchmaker/main.go: which requests can change what a player is told.
use nodefall.Base.{
  String, ◌==◌, false, ◌≡◌, refl, subst, ◌∙◌, Option, none, some, List, [], ◌∷◌, All, if-cases,
}
use nodefall.Base.Loop.{for_each}
use nodefall.Http.Cors.{with_cors, method_options}
use nodefall.Http.Mux.{Mux, dispatch, first_match-All}
use nodefall.Runtime.Environment.{load}
use nodefall.Auth.Token.{Jwt, verify}
use nodefall.Auth.Guard.{token_of, with_auth-All}
use nodefall.Matchmaker.Queue.{Queue, status}
use nodefall.Matchmaker.Queue.Answers.{status-join, status-leave_ne}
use nodefall.Matchmaker.Handlers.{handle_join_queue, handle_leave_queue}
use nodefall.Matchmaker.Service.{QueueRequest, OnQueue, changes, guarded, routes, serve}

-- A verified user, if there is one, who is not this player.
abbrev pub Other : String → Option String → Type 0
Other k none = Unit
Other k (some user) = (user == k) ≡ false

-- What the player is told after the handler is what was told before.
abbrev Spares : String → OnQueue → Type 0
Spares k f = (q : Queue) → status k (f q).1 ≡ status k q

handle_join_queue-Spares :
    (k user : String) → (user == k) ≡ false → Spares k (changes (handle_join_queue (some user)))
unfolding handle_join_queue
handle_join_queue-Spares k user ne q = rw (status-join user k q, ne) refl

handle_leave_queue-Spares :
    (k user : String) → (user == k) ≡ false → Spares k (changes (handle_leave_queue (some user)))
unfolding handle_leave_queue
handle_leave_queue-Spares k user ne q = status-leave_ne user k q ne

module _ (mux : Mux) (j : Jwt) (getenv : String → String) where
  -- The user that the request's token verifies as.
  abbrev pub user_of : QueueRequest → Option String
  user_of r = verify j (load getenv).jwt_secret r.now (token_of r.tokens)

  module _ (k : String) (r : QueueRequest) where
    guarded-Spares :
        (handler : Option String → OnQueue)
        → Other k (user_of r)
        → ((user : String) → (user == k) ≡ false → Spares k (handler (some user)))
        → Spares k (guarded mux j getenv r handler)
    unfolding guarded
    guarded-Spares handler other keep =
        with_auth-All (Spares k) j (load getenv).jwt_secret r.now r.tokens _ handler
          (λ answer q. refl) (λ user verified. keep user (subst (Other k) verified other))

    serve-Spares :
        Other k (user_of r) → (q : Queue) → status k (serve mux j getenv r q).1 ≡ status k q
    unfolding serve dispatch routes with_cors
    serve-Spares other q =
        if-cases {A = OnQueue} (Spares k) (r.target.method == method_options) _ _
          (λ preflight p. refl)
          (λ call.
            first_match-All mux r.target (Spares k) _ (routes mux j getenv r) (λ p. refl)
              (
                (λ value. guarded-Spares _ other (handle_join_queue-Spares k)),
                (
                  (λ value. guarded-Spares _ other (λ user ne p. refl)),
                  ((λ value. guarded-Spares _ other (handle_leave_queue-Spares k)), tt),
                ),
              ))
          q

  -- After any requests to the service, of whatever route and with whatever token, a player is told what
  -- was told before, as long as none of the tokens verifies as that player.
  pub serve_own_place :
      (k : String) (requests : List QueueRequest) (q : Queue)
      → All (λ r. Other k (user_of r)) requests
      → status k (for_each (λ r p. (serve mux j getenv r p).1) requests q) ≡ status k q
  unfolding for_each
  serve_own_place k [] q others = refl
  serve_own_place k (r ∷ rs) q (other, others) =
      serve_own_place k rs (serve mux j getenv r q).1 others ∙ serve-Spares k r other q
