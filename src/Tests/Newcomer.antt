-- ===== src/Tests/Newcomer.antt =====
-- A user who registers, logs in and queues.
use nodefall.Base.{◌*◌, String, ◌≡◌, ◌≢◌, refl, true, [], arith, eq_iff}
use nodefall.Base.Dict.{lookup, has}
use nodefall.Runtime.Clock.{second}
use nodefall.Runtime.Environment.{load}
use nodefall.Http.{http_error, status_created, status_accepted}
use nodefall.Http.Cors.{cors_headers}
use nodefall.Auth.Users.{taken}
use nodefall.Auth.Handlers.{token, no_body}
use nodefall.Auth.Service.{AuthService, AuthRequest, plain, login, serve}
use nodefall.Matchmaker.Queue.{join}
use nodefall.Matchmaker.Service as Matchmaker
use nodefall.Matchmaker.Service.Round.{to_queue}
use nodefall.Journey.Newcomer.{carrying, newcomer}
use nodefall.Tests.Routes.{literal, literal-IsMux}
use nodefall.Tests.Tokens.{notary, notary-IsJwt, marking, marking-IsBcrypt, u1_named, u1_signed}
use nodefall.Tests.Limits.{Bucket, refilling, refilling-IsTokenBucket}
use nodefall.Tests.Services.{environment, by_name, no_port, request, idle}

abbrev opened : AuthService Bucket
opened = record {
  database = record { users = []; friendships = [] };
  limiter = record { limiters = []; rate = 1; burst = 5 };
}

-- Ann registers and logs in at once.
abbrev registers : AuthRequest String
registers = record (request "POST" "/register" "" "ann") { uuid = "u1"; now = 0 }

abbrev logs_in : AuthRequest String
logs_in = record (request "POST" "/login" "" "ann") { now = 0 }

abbrev ann : String
ann = "ann"

ann_named : ann ≢ ""
ann_named same = ground (arith, eq_iff ann "")

newcomer_example :
    let (answer, after) =
      serve literal marking notary refilling no_port by_name environment registers opened in
    (answer ≡ (cors_headers, plain (no_body status_created)))
    × ((serve literal marking notary refilling no_port by_name environment logs_in after).0
        ≡ (cors_headers, login (token "u1")))
    × (Matchmaker.serve literal notary environment
          (to_queue "POST" (carrying "u1") (60 * second))
          idle
        ≡ ((cors_headers, Matchmaker.plain (http_error "" status_accepted)), join "u1" idle))
    × (has "u1" (join "u1" idle).waiting ≡ true)
unfolding load taken lookup
newcomer_example =
    newcomer literal marking notary refilling no_port by_name environment environment
      marking-IsBcrypt notary-IsJwt refilling-IsTokenBucket (literal-IsMux "/queue") registers
      logs_in opened (record { username = "ann"; password = "correct horse" }) "correct horse" "u1"
      "" "" (60 * second) idle refl refl refl refl refl refl (omega arith) refl (omega arith) refl
      refl refl refl ann_named (omega arith) refl refl u1_named u1_named u1_signed refl
      (omega arith) refl
