-- ===== src/Tests/Services.antt =====
-- The theorems about the services' routes at concrete requests.
use nodefall.Base.{
  ℕ, ◌<◌, ◌*◌, eq_iff, String, ◌==◌, true, false, ◌≡◌, ◌≢◌, refl, sym, ap, ◌∙◌, Option, none, some,
  List, [], ◌∷◌, arith, if◌then◌else◌,
}
use nodefall.Base.Dict.{lookup, has}
use nodefall.Base.Loop.{for_each}
use nodefall.Runtime.Clock.{second}
use nodefall.Runtime.Environment.{load}
use nodefall.Auth.Token.{sign, verify, require_jwt_secret, checked_user}
use nodefall.Auth.Guard.{Request, token_of, bearer_token, IsSignedIn}
use nodefall.Auth.Friends.{find_friendship}
use nodefall.Auth.Friends.Sound.{IsSound}
use nodefall.Auth.Service.{AuthService, AuthRequest, Decoders, serve, start}
use nodefall.Runtime.Environment.{require_env}
use nodefall.Auth.RateLimit.{new_rate_limiter}
use nodefall.Auth.Friends.Rows.{DistinctUsers, DistinctRows}
use nodefall.Auth.Schema.{
  StoredTables, Postgres, connect, created, ensure_schema, ensure_friends_schema, database_of,
  open_database,
}
use nodefall.Auth.Service.Own.{serve_own}
use nodefall.Auth.Service.Sound.{serve_all-IsSound}
use nodefall.Http.Cors.{cors_headers}
use nodefall.Matchmaker.Queue.{Queue, Instance, MatchResponse, status, try_form_match}
use nodefall.Matchmaker.Handlers.{reported}
use nodefall.Matchmaker.Service.{QueueRequest, state}
use nodefall.Matchmaker.Service as Matchmaking
use nodefall.Matchmaker.Service.Round.{to_queue}
use nodefall.Matchmaker.Service.Own.{serve_own_place}
use nodefall.Server.Connect.{joined}
use nodefall.Server.Manager.{start_match}
use nodefall.Server.Service.{serve_start_match, serve_socket, instance_id}
use nodefall.Journey.Play.{play, to_match}
use nodefall.Tests.Host.{tenths, counting}
use nodefall.Tests.Connect.{head_count, dusk, empty, m1_named}
use nodefall.Tests.Auth.{row, small, always}
use nodefall.Tests.Routes.{literal, literal-IsMux}
use nodefall.Tests.Tokens.{notary, notary-IsJwt, marking, bucket, u1_named, u1_signed}

abbrev pub environment : String → String
environment name = if name == "NODEFALL_JWT_SECRET" then "secret" else ""

-- A body is a user's name, or a row's ID.
abbrev pub by_name : Decoders String
by_name = record {
  credentials = λ body. some (record { username = body; password = "correct horse" });
  username = λ body. some body;
  friendship_id = λ body. some body;
}

abbrev pub no_port : String → Option String
no_port remote = none

abbrev pub request : String → String → String → String → AuthRequest String
request method path token body = record {
  target = record { method = method; path = path };
  tokens = record { query_token = token; authorization = "" };
  remote = "1.1.1.1";
  body = body;
  now = 5 * second;
  up = always;
  kept = false;
  salt = "salt";
  uuid = "f9";
}

abbrev pub running : AuthService ℕ
running = record { database = small; limiter = record { limiters = []; rate = 1; burst = 5 } }

-- Ann asks Bob, tries to accept and to remove what Cy asked of Bob, and a stranger registers.
abbrev calls : List (AuthRequest String)
calls =
    request "POST" "/friends/request" "u1" "bob"
    ∷ request "POST" "/friends/accept" "u1" "f2"
    ∷ request "DELETE" "/friends/f2" "u1" ""
    ∷ request "POST" "/register" "" "dan"
    ∷ []

serve_own_example :
    find_friendship "f2"
      (for_each
        (λ r t. (serve literal marking notary bucket no_port by_name environment r t).1)
        calls
        running).database.friendships
    ≡ some (row "f2" "u3" "u2" "pending")
unfolding verify require_jwt_secret checked_user token_of bearer_token load find_friendship
serve_own_example =
    serve_own literal marking notary bucket no_port by_name environment
      (row "f2" "u3" "u2" "pending") calls running
      ((refl, refl), ((refl, refl), ((refl, refl), (tt, tt)))) refl

-- A server that has no tables yet, and carries everything out.
abbrev ready : Postgres
ready = record { new_pool = λ db_url. true; ping = λ db_url. true }

abbrev no_tables : StoredTables
no_tables = record { users = none; friendships = none }

abbrev fresh : AuthService ℕ
fresh = record {
  database = record { users = []; friendships = [] };
  limiter = record { limiters = []; rate = 1; burst = 5 };
}

-- Ann and Bob register, and Ann asks Bob.
abbrev first_calls : List (AuthRequest String)
first_calls =
    record (request "POST" "/register" "" "ann") { uuid = "u1" }
    ∷ record (request "POST" "/register" "" "bob") { uuid = "u2" }
    ∷ request "POST" "/friends/request" "u1" "bob"
    ∷ []

abbrev with_database : String → String
with_database name = if name == "NODEFALL_DB_URL" then "postgres:5432" else environment name

no_tables-IsSound : IsSound (database_of no_tables)
unfolding database_of created DistinctUsers DistinctRows
no_tables-IsSound = record { distinct_users = tt; distinct_rows = tt }

serve_all-IsSound_example :
    IsSound
      (for_each
        (λ r t. (serve literal marking notary bucket no_port by_name with_database r t).1)
        first_calls
        fresh).database
unfolding start require_env open_database connect ensure_schema ensure_friends_schema database_of
    created new_rate_limiter
serve_all-IsSound_example =
    serve_all-IsSound literal marking notary bucket no_port by_name with_database ready always
      no_tables first_calls fresh refl no_tables-IsSound

abbrev of_u1 : Request
of_u1 = record { query_token = "u1"; authorization = "" }

abbrev of_u2 : Request
of_u2 = record { query_token = "u2"; authorization = "" }

abbrev waiting_two : Queue
waiting_two = record { waiting = "u2" ∷ "u3" ∷ []; matched = [] }

abbrev queue_calls : List QueueRequest
queue_calls =
    to_queue "POST" of_u1 (5 * second)
    ∷ to_queue "DELETE" of_u1 (6 * second)
    ∷ to_queue "DELETE" (record { query_token = ""; authorization = "Bearer " }) (7 * second)
    ∷ []

serve_own_place_example :
    status "u2" (
      for_each
        (λ r q. (Matchmaking.serve literal notary environment r q).1)
        queue_calls
        waiting_two)
    ≡ status "u2" waiting_two
unfolding verify require_jwt_secret checked_user token_of bearer_token load
serve_own_place_example =
    serve_own_place literal notary environment "u2" queue_calls waiting_two (refl, (refl, (tt, tt)))

abbrev pub by : String → Request
by user = record { query_token = user; authorization = "" }

of_user :
    (user : String)
    → user ≢ ""
    → (user == "") ≡ false
    → (now : ℕ) → now < 86400 * second
    → sign notary "secret" 0 user ≡ some user
    → IsSignedIn notary "secret" now user (by user)
unfolding token_of
of_user user named filled now early issues =
    let carried : token_of (by user) ≡ user = rw filled refl in
    record {
      issued = 0;
      named = named;
      filled = λ e. named (sym carried ∙ e);
      signed = issues ∙ ap some (sym carried);
      unexpired = early;
    }

abbrev u2 : String
u2 = "u2"

u2_named : u2 ≢ ""
u2_named same = ground (arith, eq_iff u2 "")

u2_signed : sign notary "secret" 0 u2 ≡ some u2
unfolding sign require_jwt_secret
u2_signed = refl

abbrev first_game : Instance
first_game = record { id = "game-1"; grpc_addr = "game-1:9090" }

abbrev pub idle : Queue
idle = record { waiting = []; matched = [] }

abbrev accepting : Instance → Option MatchResponse
accepting inst = some (record { accepted = true; server_addr = inst.id })

-- Two requests to the queue, of the users "u1" and "u2", and a pass.
abbrev matchmaking : Queue
matchmaking =
    try_form_match accepting (some (first_game ∷ [])) "m1"
      (Matchmaking.serve literal notary environment (to_queue "POST" (by "u2") (2 * second))
        (Matchmaking.serve literal notary environment (to_queue "POST" (by "u1") second) idle).1).1

play_example :
    ((Matchmaking.serve literal notary environment
        (to_queue "GET" (by "u2") (4 * second))
        matchmaking).0
      ≡ (
        cors_headers,
        state (
            reported (record {
              status = "matched";
              match_id = "m1";
              server_addr = instance_id environment;
            })),
      ))
    × ((serve_socket tenths counting head_count environment literal notary
          (to_match "m1" (by "u2") (5 * second) 7)
          (serve_start_match tenths counting head_count environment dusk 0 "m1"
            ("u1" ∷ "u2" ∷ [])
            empty).1).0
        ≡ joined)
unfolding lookup has load serve_start_match start_match instance_id
play_example =
    play tenths counting head_count literal (literal-IsMux "/queue") (literal-IsMux "/ws") notary
      notary-IsJwt environment environment "u1" "u2" "u2" "m1" (by "u1") (by "u2") (by "u2")
      (by "u2") second (2 * second) (4 * second) (5 * second) dusk 7 idle first_game [] accepting 0
      empty refl refl refl refl m1_named refl
      (of_user "u1" u1_named refl second (omega arith) u1_signed)
      (of_user "u2" u2_named refl (2 * second) (omega arith) u2_signed)
      (of_user "u2" u2_named refl (4 * second) (omega arith) u2_signed)
      (of_user "u2" u2_named refl (5 * second) (omega arith) u2_signed) refl
