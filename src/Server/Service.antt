-- ===== src/Server/Service.antt =====
-- services/game/main.go: the one route of the game server, and what it announces of itself.
pub mod Alive
use nodefall.Base.{ℕ, ◌*◌, String, ◌==◌, Option, none, some, List, [], ◌∷◌, if◌then◌else◌}
use Prim.Native.String.{◌++◌ as ◌<>◌}
use nodefall.Http.{Answer}
use nodefall.Http.Mux.{Mux, Target, dispatch}
use nodefall.Runtime.Clock.{second}
use nodefall.Runtime.Environment.{load}
use nodefall.Runtime.Float.{Float}
use nodefall.Runtime.Random.{Random}
use nodefall.Auth.Token.{Jwt}
use nodefall.Auth.Guard.{Request, with_auth}
use nodefall.Engine.State.{Snapshot}
use nodefall.Registry.{Instance, Redis, Json, heartbeat}
use nodefall.Server.Client.{Client}
use nodefall.Server.Manager.{Manager, start_match}
use nodefall.Server.Connect.{Outcome, answered, serve_ws, server_host}
use nodefall.Matchmaker.Queue.{MatchResponse}

abbrev pub registry_ttl : ℕ
registry_ttl = 5 * second

abbrev pub heartbeat_interval : ℕ
heartbeat_interval = 2 * second

-- A request for a web socket: the query's match ID, and the socket if it is upgraded.
pub record SocketRequest : Type 0 where
  pub target : Target
  pub tokens : Request
  pub match_id : String
  pub upgraded : Option ℕ
  pub now : ℕ

module _ (getenv : String → String) where
  unfoldable pub instance_id : String
  instance_id =
      if getenv "NODEFALL_INSTANCE_ID" == "" then "game-1" else getenv "NODEFALL_INSTANCE_ID"

  unfoldable pub own_instance : Instance
  own_instance = record { id = instance_id; grpc_addr = instance_id <> ":9090" }

  -- The heartbeat from the start on, if there is a registry.
  unfoldable pub announce : {R : Type 0} → Redis R → Json → ℕ → List ℕ → R → R
  announce redis json now ticks r =
      if (load getenv).redis_url == ""
      then r
      else heartbeat redis json now ticks own_instance registry_ttl r

module _ {F S M : Type 0} (fl : Float F) (rnd : Random F S) (marshal : Snapshot F → Option M)
    (getenv : String → String) where
  -- What the gRPC server answers to `StartMatch`.
  unfoldable pub serve_start_match :
      ℕ → S → String → List String → Manager F S (Client M) → MatchResponse × Manager F S (Client M)
  serve_start_match = start_match (server_host fl rnd marshal) (instance_id getenv)

  unfoldable pub serve_socket :
      Mux → Jwt → SocketRequest → Manager F S (Client M) → Outcome × Manager F S (Client M)
  serve_socket mux j r =
      dispatch mux r.target (λ answer m. (answered answer, m))
        ((
          "/ws",
          λ value.
              with_auth j (load getenv).jwt_secret r.now r.tokens (λ answer m. (answered answer, m))
                (λ player. serve_ws fl rnd marshal r.now player r.match_id r.upgraded),
        )
          ∷ [])
