-- ===== src/Tests/Refused.antt =====
-- Requests without a good token, at auth and at the matchmaker.
use nodefall.Base.{◌*◌, String, ◌≡◌, refl}
use nodefall.Runtime.Clock.{second}
use nodefall.Runtime.Environment.{load}
use nodefall.Auth.Token.{verify, require_jwt_secret, checked_user}
use nodefall.Auth.Guard.{token_of, bearer_token, IsStranger, refusal}
use nodefall.Auth.Service.{AuthRequest}
use nodefall.Auth.Service as Auth
use nodefall.Matchmaker.Service as Matchmaker
use nodefall.Matchmaker.Service.Round.{to_queue}
use nodefall.Http.Cors.{cors_headers}
use nodefall.Http.Mux.{is_routed}
use nodefall.Journey.Refused.{friends_refused, queue_refused}
use nodefall.Tests.Routes.{literal}
use nodefall.Tests.Tokens.{notary, marking, bucket}
use nodefall.Tests.Services.{environment, by_name, no_port, request, running, by, idle}

-- The token that Ann was given a day ago.
expired : IsStranger notary "secret" (86400 * second) (by "u1")
unfolding verify require_jwt_secret checked_user token_of bearer_token
expired given = refl

no_token : IsStranger notary "secret" second (by "")
unfolding token_of bearer_token
no_token given = absurd (given refl)

abbrev late : AuthRequest String
late = record (request "POST" "/friends/request" "u1" "bob") { now = 86400 * second }

friends_refused_example :
    Auth.serve literal marking notary bucket no_port by_name environment late running
    ≡ ((cors_headers, Auth.plain (refusal (by "u1"))), running)
unfolding load is_routed
friends_refused_example =
    friends_refused literal marking notary bucket no_port by_name environment late running expired
      refl refl refl refl

queue_refused_example :
    Matchmaker.serve literal notary environment (to_queue "DELETE" (by "") second) idle
    ≡ ((cors_headers, Matchmaker.plain (refusal (by ""))), idle)
unfolding load is_routed
queue_refused_example =
    queue_refused literal notary environment (to_queue "DELETE" (by "") second) idle no_token refl
      refl
