-- ===== src/Matchmaker/Service/Round.antt =====
-- services/matchmaker/main.go: what a client with a token is answered.
use nodefall.Base.{ℕ, String, ◌≡◌, refl, ap, ◌∙◌, Option, some, List}
use nodefall.Http.{http_error, status_accepted}
use nodefall.Http.Cors.{with_cors, cors_headers}
use nodefall.Http.Mux.{Mux, IsMux, dispatch, first_match}
use nodefall.Runtime.Environment.{load}
use nodefall.Auth.Token.{Jwt, IsJwt}
use nodefall.Auth.Guard.{Request, with_auth-IsSignedIn, IsSignedIn}
use nodefall.Matchmaker.Queue.{Queue, join, status}
use nodefall.Matchmaker.Handlers.{reported, response_of, handle_join_queue, handle_queue_status}
use nodefall.Matchmaker.Service.{
  QueueRequest, QueueAnswer, plain, state, OnQueue, answers, changes, guarded, routes, serve,
}

abbrev pub to_queue : String → Request → ℕ → QueueRequest
to_queue method tokens now = record {
  target = record { method = method; path = "/queue" };
  tokens = tokens;
  now = now;
}

module _ (mux : Mux) (shaped : IsMux mux "/queue") (j : Jwt) (getenv : String → String) where
  -- What the queue is asked, with the headers of the answer.
  abbrev with_headers : QueueAnswer × Queue → (List (String × String) × QueueAnswer) × Queue
  with_headers x = ((cors_headers, x.0), x.1)

  serve_post :
      (tokens : Request) (now : ℕ) (q : Queue)
      → serve mux j getenv (to_queue "POST" tokens now) q
        ≡ with_headers (
            guarded mux j getenv
              (to_queue "POST" tokens now)
              (λ player. changes (handle_join_queue player))
              q)
  unfolding serve with_cors dispatch routes first_match
  serve_post tokens now q = rw (shaped.matches_own "POST") refl

  serve_get :
      (tokens : Request) (now : ℕ) (q : Queue)
      → serve mux j getenv (to_queue "GET" tokens now) q
        ≡ with_headers (
            guarded mux j getenv
              (to_queue "GET" tokens now)
              (λ player q. (state (handle_queue_status player q), q))
              q)
  unfolding serve with_cors dispatch routes first_match
  serve_get tokens now q =
      rw (shaped.matches_other "POST" "GET" refl refl, shaped.matches_own "GET") refl

  module _ (laws : IsJwt j) (now : ℕ) (user : String) (tokens : Request) (q : Queue) where
    abbrev SignedIn : Type 0
    SignedIn = IsSignedIn j (load getenv).jwt_secret now user tokens

    guarded_as :
        SignedIn
        → (method : String) (handler : Option String → OnQueue)
        → guarded mux j getenv (to_queue method tokens now) handler q ≡ handler (some user) q
    unfolding guarded
    guarded_as known method handler =
        ap (λ f. f q)
          (with_auth-IsSignedIn j laws (load getenv).jwt_secret now user tokens answers handler
            known)

    -- What a player who is signed in posts and asks reaches the queue as that player.
    pub post_as :
        SignedIn
        → serve mux j getenv (to_queue "POST" tokens now) q
          ≡ ((cors_headers, plain (http_error "" status_accepted)), join user q)
    unfolding handle_join_queue
    post_as known = serve_post tokens now q ∙ ap with_headers (guarded_as known "POST" _)

    pub get_as :
        SignedIn
        → serve mux j getenv (to_queue "GET" tokens now) q
          ≡ ((cors_headers, state (reported (response_of (status user q)))), q)
    unfolding handle_queue_status
    get_as known = serve_get tokens now q ∙ ap with_headers (guarded_as known "GET" _)
