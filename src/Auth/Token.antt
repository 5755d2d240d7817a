-- ===== src/Auth/Token.antt =====
-- shared/jwt/jwt.go and `RequireJWTSecret` of shared/config/config.go. The package golang-jwt is a
-- parameter.
use nodefall.Base.{
  ℕ, ◌+◌, ◌*◌, ◌/◌, String, ◌==◌, eq_iff, Bool, true, ltb, ◌≡◌, ◌≢◌, Option, none, some, arith,
  if◌then◌else◌,
}
use nodefall.Runtime.Clock.{second}

-- The dates are whole seconds, to which `NewNumericDate` truncates.
pub record Claims : Type 0 where
  pub user_id : String
  pub issued_at : ℕ
  pub expires_at : ℕ

-- `SignedString` with a key, and `ParseWithClaims` at a time with a key function, which is told whether
-- the token's method is an HMAC. `parse` answers `none` for an error and for a token that is not valid.
pub record Jwt : Type 0 where
  pub signed_string : String → Claims → Option String
  pub parse : ℕ → (Bool → Option String) → String → Option Claims

-- A token that was signed with a key is read back with that key until it expires, and not from then
-- on.
pub record IsJwt (j : Jwt) : Type 0 where
  pub parse_signed :
      (key token : String) (c : Claims) (now : ℕ) (find_key : Bool → Option String)
      → j.signed_string key c ≡ some token
      → find_key true ≡ some key
      → j.parse now find_key token ≡ (if ltb now (c.expires_at * second) then some c else none)

-- 24 hours.
abbrev pub token_ttl : ℕ
token_ttl = 86400 * second

-- The argument is the variable NODEFALL_JWT_SECRET, empty if it is not set.
unfoldable pub require_jwt_secret : String → Option String
require_jwt_secret jwt_secret = if jwt_secret == "" then none else some jwt_secret

module _ (j : Jwt) (jwt_secret : String) where
  abbrev pub claims_at : ℕ → String → Claims
  claims_at now user = record {
    user_id = user;
    issued_at = now / second;
    expires_at = (now + token_ttl) / second;
  }

  unfoldable pub sign : ℕ → String → Option String
  sign now user = elim (require_jwt_secret jwt_secret) [
    | none ↦ none
    | some key ↦ j.signed_string key (claims_at now user)
  ]

  unfoldable pub checked_user : Claims → Option String
  checked_user c = if c.user_id == "" then none else some c.user_id

  unfoldable pub verify : ℕ → String → Option String
  verify now token = elim (require_jwt_secret jwt_secret) [
    | none ↦ none
    | some key ↦ elim (j.parse now (λ hmac. if hmac then some key else none) token) [
      | none ↦ none
      | some c ↦ checked_user c
    ]
  ]

  -- A token that `Sign` issued for a user at time t verifies as that user until the second in which
  -- 24 hours have passed begins, and not from then on.
  pub verify-sign :
      (laws : IsJwt j) (t now : ℕ) (user token : String)
      → user ≢ ""
      → sign t user ≡ some token
      → verify now token ≡ (if ltb now ((t + token_ttl) / second * second) then some user else none)
  unfolding sign verify checked_user require_jwt_secret
  verify-sign laws t now user token named signed =
      let read =
        laws.parse_signed jwt_secret token (claims_at t user) now
          (λ hmac. if hmac then some jwt_secret else none) in
      ground (arith, eq_iff user "", read)
