-- ===== src/Tests/Consent.antt =====
-- How the relation of two users changes in a small database.
use nodefall.Base.{
  String, ◌==◌, ◌||◌, true, false, ◌≡◌, ◌≢◌, ◌⊎◌, refl, eq_iff, arith, some, List, [], ◌∷◌,
}
use nodefall.Base.Loop.{for_each}
use nodefall.Runtime.Environment.{load}
use nodefall.Auth.Token.{verify, require_jwt_secret, checked_user}
use nodefall.Auth.Guard.{token_of, bearer_token}
use nodefall.Auth.Users.{taken, has_user}
use nodefall.Auth.Friends.{has_friendship, related}
use nodefall.Auth.Friends.Rows.{DistinctUsers, DistinctRows}
use nodefall.Auth.Friends.Sound.{IsSound}
use nodefall.Auth.Friends.Pairs.{row_of}
use nodefall.Auth.Friends.Moves.{relation, friends, Move}
use nodefall.Auth.Service.{AuthRequest, serve}
use nodefall.Auth.Service.Tables.{user_of}
use nodefall.Auth.Service.Consent.{serve_moves, consent}
use nodefall.Tests.Auth.{small}
use nodefall.Tests.Routes.{literal}
use nodefall.Tests.Tokens.{notary, marking, bucket}
use nodefall.Tests.Services.{environment, by_name, no_port, request, running}

small-IsSound : IsSound small
unfolding taken has_user has_friendship related DistinctUsers DistinctRows
small-IsSound = record {
  distinct_users = (refl, (refl, (refl, tt)));
  distinct_rows = (refl, refl, refl, refl, refl, (refl, refl, refl, refl, refl, tt));
}

-- Ann asks Bob.
abbrev asks_bob : AuthRequest String
asks_bob = request "POST" "/friends/request" "u1" "bob"

serve_moves_example :
    let after =
      (serve literal marking notary bucket no_port by_name environment asks_bob
        running).1.database in
    (relation "u1" "u2" after ≡ relation "u1" "u2" small)
    ⊎ (user : String) × (user_of literal marking notary bucket no_port by_name environment asks_bob
        ≡ some user)
      × (("u1" == user || "u2" == user) ≡ true)
      × Move user (relation "u1" "u2" small) (relation "u1" "u2" after)
serve_moves_example =
    serve_moves literal marking notary bucket no_port by_name environment asks_bob running "u1" "u2"
      small-IsSound

-- Then she tries to accept that for him.
abbrev alone : List (AuthRequest String)
alone = asks_bob ∷ request "POST" "/friends/accept" "u1" "f9" ∷ []

other_user : (text : String) → (text == "u2") ≡ false → some text ≢ some "u2"
other_user text ne same = ground (arith, eq_iff text "u2")

consent_example :
    relation "u1" "u2"
      (for_each
        (λ r t. (serve literal marking notary bucket no_port by_name environment r t).1)
        alone
        running).database
    ≢ friends
unfolding verify require_jwt_secret checked_user token_of bearer_token load row_of
consent_example =
    consent literal marking notary bucket no_port by_name environment alone running "u1" "u2" "u2"
      small-IsSound refl refl (other_user "u1" refl, (other_user "u1" refl, tt))
