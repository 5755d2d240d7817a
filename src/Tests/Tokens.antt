-- ===== src/Tests/Tokens.antt =====
-- The theorems about tokens and logins at concrete inputs: a library that signs the tokens of one
-- second by writing the user down, and a hash that marks the password.
use nodefall.Base.{
  ℕ, ◌+◌, ◌*◌, ◌/◌, String, ◌==◌, eq_iff, Bool, true, false, ltb, leb, ◌&&◌, ◌≡◌, ◌≢◌, refl, Option,
  none, some, [], arith, if◌then◌else◌,
}
use nodefall.Runtime.Clock.{second}
use nodefall.Http.{http_error, status_unauthorized}
use nodefall.Auth.Db.{Db}
use nodefall.Auth.Token.{Jwt, IsJwt, Claims, sign, token_ttl, require_jwt_secret}
use nodefall.Auth.Guard.{Request, token_of, with_auth, with_auth-sign}
use nodefall.Auth.Handlers.{
  Bcrypt, IsBcrypt, Credentials, handle_register, handle_friend_request, handle_friend_accept,
  handle_friend_remove,
}
use nodefall.Auth.Handlers.Errors.{
  RegisterOutcome, RequestOutcome, AcceptOutcome, RemoveOutcome, answer_tells,
}
use nodefall.Auth.RateLimit.{TokenBucket}

abbrev pub is_now : Claims → Bool
is_now c = leb c.issued_at 0 && leb c.expires_at 86400 && leb 86400 c.expires_at

abbrev pub read_as : Option String → ℕ → String → Option Claims
read_as none now t = none
read_as (some key) now t =
    if ltb now (86400 * second)
    then some (record { user_id = t; issued_at = 0; expires_at = 86400 })
    else none

abbrev pub notary : Jwt
notary = record {
  signed_string = λ key c. if is_now c then some c.user_id else none;
  parse = λ now find_key t. read_as (find_key true) now t;
}

pub notary-IsJwt : IsJwt notary
notary-IsJwt = record {
  parse_signed = λ key t c now find_key signed found. rw (found) (ground arith);
}

abbrev pub marking : Bcrypt
marking = record {
  generate = λ salt password. some password;
  accepts = λ hash password. hash == password;
}

pub marking-IsBcrypt : IsBcrypt marking
marking-IsBcrypt = record {
  accepts_own = λ salt password hash made. ground (arith, eq_iff hash password);
}

abbrev pub u1 : String
u1 = "u1"

pub u1_named : u1 ≢ ""
u1_named same = ground (arith, eq_iff u1 "")

pub u1_signed : sign notary "secret" 0 u1 ≡ some u1
unfolding sign require_jwt_secret
u1_signed = refl

abbrev pub visit : Request
visit = record { query_token = "u1"; authorization = "" }

abbrev or_code : Option String → ℕ
or_code none = 0
or_code (some user) = 200

with_auth-sign_example : with_auth notary "secret" (5 * second) visit (λ a. a.code) or_code ≡ (
    if ltb (5 * second) ((0 + token_ttl) / second * second)
    then or_code (some u1)
    else (http_error "invalid token" status_unauthorized).code)
unfolding token_of
with_auth-sign_example =
    with_auth-sign notary notary-IsJwt "secret" 0 (5 * second) u1 u1 visit (λ a. a.code) or_code
      u1_named u1_named u1_signed refl

abbrev empty : Db
empty = record { users = []; friendships = [] }

-- A bucket that is empty or is not, and stays so.
abbrev pub bucket : TokenBucket ℕ ℕ
bucket = record { new_limiter = λ r burst. burst; allow = λ now n. (ltb 0 n, n) }

-- The insertion of Ann is not answered, but the database has carried it out.
abbrev ann : Credentials
ann = record { username = "ann"; password = "correct horse" }

answer_tells_example :
    RegisterOutcome marking false true "salt" u1 7
      (some ann)
      empty
      (handle_register marking false true "salt" u1 7 (some ann) empty)
    × RequestOutcome
        (λ n. true)
        true
        u1
        (some "u1")
        (some "bob")
        empty
        (handle_friend_request (λ n. true) true u1 (some "u1") (some "bob") empty)
    × AcceptOutcome
        (λ n. true)
        true
        (some "u1")
        (some "bob")
        empty
        (handle_friend_accept (λ n. true) true (some "u1") (some "bob") empty)
    × RemoveOutcome
        (λ n. true)
        true
        (some "u1")
        "f1"
        empty
        (handle_friend_remove (λ n. true) true (some "u1") "f1" empty)
answer_tells_example =
    answer_tells marking false true (λ n. true) "salt" u1 7 (some ann) (some "u1") (some "bob") "f1"
      empty
