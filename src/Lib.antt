-- ===== src/Lib.antt =====
-- Nodefall is a multiplayer shooter of three Go services: auth keeps accounts and friendships and
-- issues tokens, matchmaker pairs waiting players, and game runs the matches. A client logs in at
-- auth, queues at matchmaker with its token, is told a match and a game server, and connects to
-- that server over a web socket; matchmaker asked the server by gRPC to make the match. This
-- library models the services and shows what they promise.
--
-- Parts. Paths are those of the repository.
--   Base       helpers: tests on numbers, integers, lists, association lists, loops.
--   Runtime    what the code takes from Go: float64 (Float), time (Clock), math/rand (Random); and
--              shared/config with the environment (Environment).
--   Http       the status codes and answers of net/http, its ServeMux (Mux), and
--              shared/middleware/cors.go (Cors).
--   World      services/game/world: constants, players, bullets, items, the zone.
--   Engine     services/game/engine/engine.go: State (the struct), Session (New, NewForPlayers, Join,
--              Leave, HandleInput), Steps (the stages of a tick), Lifecycle (Tick and the phases),
--              Run (sequences of calls); Cases, Frame, Invariant, Everyone, Roster, Verdict, Phases,
--              Broadcast, FireRate, Respawn and Targets hold proofs.
--   Registry   shared/registry/registry.go; Listing has the laws of Redis and JSON, Sound, Expiry and
--              Alive hold proofs.
--   Server     services/game/server (Client, and Connect for ServeWS up to the upgrade), in Manager
--              services/game/matchmanager with StartMatch of services/game/server/grpc.go, in Hall
--              the connections of one match with their pumps, in Service services/game/main.go.
--   Matchmaker services/matchmaker: Queue (queue.go), Handlers (handlers.go), Service (main.go).
--   Auth       services/auth/db (Db, Schema, Users, Friends), services/auth/handlers.go and
--              friends_handlers.go (Handlers), shared/jwt with the secret of shared/config (Token),
--              and of shared/middleware auth.go (Guard) and ratelimit.go (RateLimit); Service is
--              services/auth/main.go. Friends.Moves reads the table of friendships as a relation of
--              each two users.
--   Journey    the ways through several services: from the queue to a match, with Play going through
--              the services' routes; Newcomer from a registration to the queue; Discovery from a game
--              server's heartbeat to a pass of the queue; Refused for requests without a good token.
--   Process    the main functions of the three services from the moment when they serve to the end of
--              the process: the goroutine that waits for a signal, and the main goroutine.
--   Tests      concrete runs, and the theorems at concrete inputs.
--
-- How state and operations correspond. A struct is a record with the struct's fields, a method a
-- function of the same name, in the spelling of this library, that returns the new state; a method
-- with a mutex is one step. `tryFormMatch` unlocks in its middle, and so is two steps, `begin` and
-- `conclude`, with other calls in between. A Go map is an association list. The range loops over a
-- map that stop at the first hit take the order from a parameter, `Ranges`, which is any function
-- on the keys; the other loops over maps go in the order of the list. The engine takes one reading
-- of the clock per call. A time is a number of nanoseconds since the year 1, and the zero time is
-- 0; `since` saturates as `time.Sub` does. HP and armour are unbounded integers where the source
-- has int. The connections of a match are a step relation, Hall.Reach: a step is a Join, a message
-- that one of the pumps handles, the end of both pumps with the deferred Leave, or a tick, in any
-- order. A service is a function from a request and its state to an answer and the next state; its
-- routes are the list of patterns that the main function registers, and the first that the
-- ServeMux says matches is taken, since no two of them match one request. The end of a process is
-- a sequence of events: the signal, the calls of the goroutine and their returns, requests that
-- come, hijack their connections and are answered, uses of a database connection, and the return
-- of `ListenAndServe` with the deferred close of auth's database; the three services differ in the
-- calls and in whether they have a database. A nil dereference is a panic, and `none` in the model
-- of a tick.
--
-- Parameters, with what is assumed of them. Float has the order laws of finite float64 numbers and
-- no exact arithmetic; Random draws in the documented ranges; a message is what `marshal` makes of
-- a snapshot; Jwt reads back what it signed until it expires; Bcrypt accepts a hash of the same
-- password; Redis keeps a value until its time to live is over, and a command that failed may have
-- been carried out or not; Json reads back what it encoded; Mux matches a pattern of a method and
-- a path as net/http documents it; a token bucket is full at first, is refilled at its rate, and a
-- request takes a whole token; a server of net/http or grpc that is stopped takes no more requests
-- and leaves those under way, serving returns at once, and the call that stops it returns when
-- none is left but on hijacked connections, those of web sockets. The environment, the answers of
-- gRPC, UUIDs, whether Postgres answers a statement, and whether a write that it has not answered
-- is carried out, are arguments without assumptions. The SQL statements are read as functions on
-- lists of rows. Every loop is over a list, so no fuel is used.
--
-- Not modelled: the event structs, which nothing uses, generated gRPC stubs, JSON, logging, and
-- the front end.
pub mod Base
pub mod Runtime
pub mod Http
pub mod World
pub mod Engine
pub mod Registry
pub mod Server
pub mod Matchmaker
pub mod Auth
pub mod Journey
pub mod Process
mod Tests
