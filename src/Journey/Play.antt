-- ===== src/Journey/Play.antt =====
-- From the routes of services/matchmaker/main.go to the route of services/game/main.go: two players who
-- are signed in queue, are matched, and connect.
use nodefall.Base.{
  ℕ, String, ◌==◌, true, false, ◌≡◌, ◌≢◌, ap, ◌∙◌, Option, none, some, List, [], ◌∷◌, arith,
}
use nodefall.Base.Dict.{lookup, has}
use nodefall.Http.Cors.{cors_headers}
use nodefall.Http.Mux.{Mux, IsMux, dispatch, first_match, first_match_here}
use nodefall.Runtime.Environment.{load}
use nodefall.Runtime.Float.{Float}
use nodefall.Runtime.Random.{Random}
use nodefall.Auth.Token.{Jwt, IsJwt}
use nodefall.Auth.Guard.{Request, IsSignedIn, with_auth-IsSignedIn}
use nodefall.Engine.State.{Snapshot}
use nodefall.Matchmaker.Queue.{Queue, Instance, MatchResponse, join, try_form_match}
use nodefall.Matchmaker.Handlers.{reported, response_of}
use nodefall.Matchmaker.Service.{state, serve}
use nodefall.Matchmaker.Service.Round.{to_queue, post_as, get_as}
use nodefall.Server.Client.{Client}
use nodefall.Server.Manager.{Manager}
use nodefall.Server.Connect.{answered, joined, serve_ws}
use nodefall.Server.Service.{SocketRequest, serve_start_match, serve_socket, instance_id}
use nodefall.Journey.{matched_players_join}

-- Two players who join an empty queue wait in it, in that order.
join_twice :
    (a b : String) (q : Queue)
    → (a == b) ≡ false
    → q.waiting ≡ []
    → lookup a q.matched ≡ none
    → lookup b q.matched ≡ none
    → (join b (join a q)).waiting ≡ a ∷ b ∷ []
unfolding join has
join_twice a b q differ idle a_free b_free = ground (arith, idle, a_free, b_free)

abbrev pub to_match : String → Request → ℕ → ℕ → SocketRequest
to_match match_id tokens now n = record {
  target = record { method = "GET"; path = "/ws" };
  tokens = tokens;
  match_id = match_id;
  upgraded = some n;
  now = now;
}

module _ {F S M : Type 0} (fl : Float F) (rnd : Random F S) (marshal : Snapshot F → Option M)
    (mux : Mux) (shaped_queue : IsMux mux "/queue") (shaped_ws : IsMux mux "/ws") (j : Jwt)
    (laws : IsJwt j) where
  serve_socket_as :
      (getenv : String → String) (match_id user : String) (tokens : Request) (now n : ℕ)
      (m : Manager F S (Client M))
      → IsSignedIn j (load getenv).jwt_secret now user tokens
      → serve_socket fl rnd marshal getenv mux j (to_match match_id tokens now n) m
        ≡ serve_ws fl rnd marshal now (some user) match_id (some n) m
  unfolding serve_socket dispatch first_match
  serve_socket_as getenv match_id user tokens now n m known =
      ap (λ f. f m)
        (first_match_here mux (record { method = "GET"; path = "/ws" }) _ "/ws" "" _ []
            (shaped_ws.matches_any "GET")
          ∙ with_auth-IsSignedIn j laws (load getenv).jwt_secret now user tokens
              (λ answer m. (answered answer, m))
              (λ player. serve_ws fl rnd marshal now player match_id (some n)) known)

  -- Two different players who are signed in post to a queue in which nobody waits and neither has a
  -- match, then a pass asks the first server of the registry, which makes the match under an ID that is
  -- not empty. Then each of the two who asks, signed in, is told the match's ID and the server's instance
  -- ID, and the server lets that player in who connects to it with the match's ID, signed in.
  pub play :
      (own game : String → String) (a b k match_id : String) (of_a of_b asks connects : Request)
      (t_a t_b t_asks t_connects t n : ℕ) (q : Queue) (inst : Instance) (others : List Instance)
      (start : Instance → Option MatchResponse) (s : S) (m : Manager F S (Client M))
      → (a == b) ≡ false
      → q.waiting ≡ []
      → lookup a q.matched ≡ none
      → lookup b q.matched ≡ none
      → match_id ≢ ""
      → has k (a ∷ b ∷ []) ≡ true
      → IsSignedIn j (load own).jwt_secret t_a a of_a
      → IsSignedIn j (load own).jwt_secret t_b b of_b
      → IsSignedIn j (load own).jwt_secret t_asks k asks
      → IsSignedIn j (load game).jwt_secret t_connects k connects
      → let (response, running) =
          serve_start_match fl rnd marshal game t s match_id (a ∷ b ∷ []) m in
        start inst ≡ some response
        → let q_a = (serve mux j own (to_queue "POST" of_a t_a) q).1 in
          let q_b = (serve mux j own (to_queue "POST" of_b t_b) q_a).1 in
          let formed = try_form_match start (some (inst ∷ others)) match_id q_b in
          ((serve mux j own (to_queue "GET" asks t_asks) formed).0 ≡ (
            cors_headers,
            state (
                reported (record {
                  status = "matched";
                  match_id = match_id;
                  server_addr = instance_id game;
                })),
          ))
          × ((serve_socket fl rnd marshal game mux j
                (to_match match_id connects t_connects n)
                running).0
              ≡ joined)
  unfolding serve_start_match response_of
  play own game a b k match_id of_a of_b asks connects t_a t_b t_asks t_connects t n q inst others
        start s m differ idle a_free b_free named one by_a by_b by_asks by_connects accepts =
      let q_a = (serve mux j own (to_queue "POST" of_a t_a) q).1 in
      let q_b = join b (join a q) in
      let queued : (serve mux j own (to_queue "POST" of_b t_b) q_a).1 ≡ q_b =
        ap (λ x. x.1) (post_as mux shaped_queue j own laws t_b b of_b q_a by_b)
        ∙ ap (λ x. join b x.1) (post_as mux shaped_queue j own laws t_a a of_a q by_a) in
      let (told, entered) =
        matched_players_join fl rnd marshal (instance_id game) match_id a b k [] q_b inst others
          start t t_connects n s m named (join_twice a b q differ idle a_free b_free) one accepts in
      let asked =
        get_as mux shaped_queue j own laws t_asks k asks
          (try_form_match start (some (inst ∷ others)) match_id q_b) by_asks in
      (
        ap
              (λ q.
                (serve mux j own (to_queue "GET" asks t_asks)
                  (try_form_match start (some (inst ∷ others)) match_id q)).0)
              queued
            ∙ ap (λ x. x.0) asked
            ∙ ap (λ x. (cors_headers, state (reported (response_of x)))) told,
        ap (λ x. x.0)
              (serve_socket_as game match_id k connects t_connects n
                (serve_start_match fl rnd marshal game t s match_id (a ∷ b ∷ []) m).1 by_connects)
            ∙ entered,
      )
