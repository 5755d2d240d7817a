-- ===== src/Journey.antt =====
-- From the queue of services/matchmaker to the engine of services/game: the players of a pass, the
-- server that accepts their match, and their connections.
pub mod Play
pub mod Discovery
pub mod Newcomer
pub mod Refused
use nodefall.Base.{ℕ, String, true, ◌≡◌, ◌≢◌, refl, Option, some, List, [], ◌∷◌, arith}
use nodefall.Base.Dict.{has}
use nodefall.Runtime.Float.{Float}
use nodefall.Runtime.Random.{Random}
use nodefall.Engine.State.{Snapshot}
use nodefall.Server.Client.{Client}
use nodefall.Server.Manager.{Manager, start_match}
use nodefall.Server.Connect.{server_host, serve_ws, joined, serve_ws-start_match}
use nodefall.Matchmaker.Queue.{
  Queue, Instance, MatchResponse, matched, status, accepted_by, first_accepting, find_server,
  try_form_match,
}
use nodefall.Matchmaker.Queue.Forming.{entry, answer, status-try_form_match}

module _ {F S M : Type 0} (fl : Float F) (rnd : Random F S) (marshal : Snapshot F → Option M) where
  -- If the first server on the registry's list is asked and makes the match, each of the two players
  -- who wait longest is told that match and that server's address, and the server lets the player in
  -- who connects with that match's ID.
  pub matched_players_join :
      (addr match_id a b k : String) (rest : List String) (q : Queue) (inst : Instance)
      (others : List Instance) (start : Instance → Option MatchResponse) (t now n : ℕ) (s : S)
      (m : Manager F S (Client M))
      → match_id ≢ ""
      → q.waiting ≡ a ∷ b ∷ rest
      → has k (a ∷ b ∷ []) ≡ true
      → start inst
        ≡ some (start_match (server_host fl rnd marshal) addr t s match_id (a ∷ b ∷ []) m).0
      → (status k (try_form_match start (some (inst ∷ others)) match_id q)
          ≡ matched (entry match_id addr k))
        × ((serve_ws fl rnd marshal now
              (some k)
              match_id
              (some n)
              (start_match (server_host fl rnd marshal) addr t s match_id (a ∷ b ∷ []) m).1).0
            ≡ joined)
  matched_players_join addr match_id a b k rest q inst others start t now n s m named waits one
        accepts =
      (
        rw (status-try_form_match start (some (inst ∷ others)) match_id a b k rest q waits) (
            unfold answer find_server first_accepting accepted_by start_match has in
            (ground arith)),
        rw (serve_ws-start_match fl rnd marshal addr match_id k (a ∷ b ∷ []) t now n s m named, one)
            refl,
      )
