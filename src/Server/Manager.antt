-- ===== src/Server/Manager.antt =====
-- services/game/matchmanager/manager.go, and `StartMatch` of services/game/server/grpc.go. A match is
-- its engine with its random source.
use nodefall.Base.{ℕ, String, true, Option, List, []}
use nodefall.Base.Dict.{Dict, lookup, insert, erase}
use nodefall.Engine.State.{Engine, Host}
use nodefall.Engine.Session.{new_for_players}
use nodefall.Matchmaker.Queue.{MatchResponse}

abbrev pub Match : Type 0 → Type 0 → Type 0 → Type 0
Match F S C = Engine F C × S

pub record Manager (F S C : Type 0) : Type 0 where
  pub matches : Dict (Match F S C)

module _ {F S C M : Type 0} (h : Host F S C M) where
  unfoldable pub new_manager : Manager F S C
  new_manager = record { matches = [] }

  -- The engine's tick loop, which the source starts here, is the source of the engine's ticks.
  unfoldable pub create_match : ℕ → S → String → List String → Manager F S C → Manager F S C
  create_match now s match_id players m = record {
    matches = insert match_id (new_for_players h players now s) m.matches;
  }

  unfoldable pub get : String → Manager F S C → Option (Match F S C)
  get match_id m = lookup match_id m.matches

  unfoldable pub remove : String → Manager F S C → Manager F S C
  remove match_id m = record { matches = erase match_id m.matches }

  -- `GRPCServer.StartMatch` of the server with the address `addr`.
  unfoldable pub start_match :
      String → ℕ → S → String → List String → Manager F S C → MatchResponse × Manager F S C
  start_match addr now s match_id players m =
      (record { accepted = true; server_addr = addr }, create_match now s match_id players m)
