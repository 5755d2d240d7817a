-- ===== src/Auth/Guard.antt =====
-- shared/middleware/auth.go. A handler takes the verified ID, or none if the middleware is missing.
use nodefall.Base.{
  ℕ, String, ◌==◌, eq_iff, ltb, ◌&&◌, ◌≡◌, ◌≢◌, refl, Option, none, some, arith, if-cases,
  Bool-cases, inl, inr, if◌then◌else◌, ◌+◌, ◌*◌, ◌/◌, ◌<◌, eq_refl,
}
use text.Mathlib.TextPositions.{len-append, slice-append_left, slice-append_right, len_utf8-pos}
use nodefall.Runtime.Clock.{second}
use Prim.Native.String.{[], ◌∷◌, len, slice, ◌++◌}
use Prim.Native.String.len.{cons as len_cons}
use nodefall.Http.{Answer, http_error, status_unauthorized}
use nodefall.Auth.Token.{Jwt, IsJwt, sign, verify, verify-sign, token_ttl}

-- The argument is the header "Authorization", empty if it is missing.
unfoldable pub bearer_token : String → String
bearer_token auth =
    if ltb (len "Bearer ") (len auth) && slice auth 0 (len "Bearer ") == "Bearer "
    then slice auth (len "Bearer ") (len auth)
    else ""

-- What of a request `WithAuth` reads.
pub record Request : Type 0 where
  pub query_token : String
  pub authorization : String

unfoldable pub token_of : Request → String
token_of r = if r.query_token == "" then bearer_token r.authorization else r.query_token

-- `refuse` answers with an error, `next` is the wrapped handler.
unfoldable pub with_auth {ℓ} :
    {A : Type ℓ} → Jwt → String → ℕ → Request → (Answer → A) → (Option String → A) → A
with_auth j jwt_secret now r refuse next =
    if token_of r == ""
    then refuse (http_error "missing token" status_unauthorized)
    else elim (verify j jwt_secret now (token_of r)) [
      | none ↦ refuse (http_error "invalid token" status_unauthorized)
      | some user ↦ next (some user)
    ]

-- What holds of every refusal and of the handler for the user that the token verifies as.
pub with_auth-All {ℓ κ} :
    {A : Type ℓ} (P : A → Type κ) (j : Jwt) (jwt_secret : String) (now : ℕ) (r : Request)
    (refuse : Answer → A) (next : Option String → A)
    → ((answer : Answer) → P (refuse answer))
    → ((user : String) → verify j jwt_secret now (token_of r) ≡ some user → P (next (some user)))
    → P (with_auth j jwt_secret now r refuse next)
unfolding with_auth
with_auth-All {A = A} P j jwt_secret now r refuse next refused accepted =
    if-cases P (token_of r == "") _ _
      (λ missing. refused (http_error "missing token" status_unauthorized))
      (λ given. go (verify j jwt_secret now (token_of r)) accepted)
  where
    go :
        (o : Option String)
        → ((user : String) → o ≡ some user → P (next (some user)))
        → P (elim o [
          | none ↦ refuse (http_error "invalid token" status_unauthorized)
          | some user ↦ next (some user)
        ])
    go none each = refused (http_error "invalid token" status_unauthorized)
    go (some user) each = each user refl

len_pos : (t : String) → t ≢ "" → 0 < len t
len_pos [] filled = absurd (filled refl)
len_pos (c ∷ s) filled = ground (arith, len_cons c s, (len_utf8-pos c).1)

after_prefix :
    (s t : String)
    → t ≢ ""
    → (if ltb (len s) (len (s ++ t)) && slice (s ++ t) 0 (len s) == s
        then slice (s ++ t) (len s) (len (s ++ t))
        else "")
      ≡ t
after_prefix s t filled =
    rw (len-append s t, slice-append_left s t, slice-append_right s t, eq_refl s)
      (ground (arith, len_pos t filled))

bearer_token-bearer : (t : String) → t ≢ "" → bearer_token ("Bearer " ++ t) ≡ t
unfolding bearer_token
bearer_token-bearer t filled = after_prefix "Bearer " t filled

-- A token is found in the query, and without one there, after "Bearer " in the header.
token_of-both :
    (t auth : String)
    → t ≢ ""
    → (token_of (record { query_token = t; authorization = auth }) ≡ t)
      × (token_of (record { query_token = ""; authorization = "Bearer " ++ t }) ≡ t)
unfolding token_of
token_of-both t auth filled = (ground (arith, eq_iff t ""), bearer_token-bearer t filled)

-- A request with a token that `Sign` issued for a user reaches the handler as that user until 24 hours
-- after the issue, to the second, and is refused as "invalid token" from then on.
pub with_auth-sign {ℓ} :
    {A : Type ℓ} (j : Jwt) (laws : IsJwt j) (jwt_secret : String) (t now : ℕ) (user token : String)
    (r : Request) (refuse : Answer → A) (next : Option String → A)
    → user ≢ ""
    → token ≢ ""
    → sign j jwt_secret t user ≡ some token
    → token_of r ≡ token
    → with_auth j jwt_secret now r refuse next ≡ (
        if ltb now ((t + token_ttl) / second * second)
        then next (some user)
        else refuse (http_error "invalid token" status_unauthorized))
unfolding with_auth
with_auth-sign j laws jwt_secret t now user token r refuse next named filled signed carried =
    ground
      (arith, eq_iff (token_of r) "", verify-sign j jwt_secret laws t now user token named signed)

-- The request carries a token that `Sign` issued for the user at some time and that has not expired.
pub record IsSignedIn (j : Jwt) (jwt_secret : String) (now : ℕ) (user : String) (r : Request)
    : Type 0 where
  pub issued : ℕ
  pub named : user ≢ ""
  pub filled : token_of r ≢ ""
  pub signed : sign j jwt_secret issued user ≡ some (token_of r)
  pub unexpired : now < (issued + token_ttl) / second * second

pub with_auth-IsSignedIn {ℓ} :
    {A : Type ℓ} (j : Jwt) (laws : IsJwt j) (jwt_secret : String) (now : ℕ) (user : String)
    (r : Request) (refuse : Answer → A) (next : Option String → A)
    → IsSignedIn j jwt_secret now user r
    → with_auth j jwt_secret now r refuse next ≡ next (some user)
with_auth-IsSignedIn j laws jwt_secret now user r refuse next h =
    let reached =
      with_auth-sign j laws jwt_secret h.issued now user (token_of r) r refuse next h.named h.filled
        h.signed refl in
    let unexpired = h.unexpired in ground (arith, reached)

-- A request whose token, if it has one, does not verify.
abbrev pub IsStranger : Jwt → String → ℕ → Request → Type 0
IsStranger j jwt_secret now r = token_of r ≢ "" → verify j jwt_secret now (token_of r) ≡ none

abbrev pub refusal : Request → Answer
refusal r =
    http_error (if token_of r == "" then "missing token" else "invalid token") status_unauthorized

pub with_auth-IsStranger {ℓ} :
    {A : Type ℓ} (j : Jwt) (jwt_secret : String) (now : ℕ) (r : Request) (refuse : Answer → A)
    (next : Option String → A)
    → IsStranger j jwt_secret now r
    → with_auth j jwt_secret now r refuse next ≡ refuse (refusal r)
unfolding with_auth
with_auth-IsStranger j jwt_secret now r refuse next strange = elim (Bool-cases (token_of r == "")) [
  | inl missing ↦ rw (missing) refl
  | inr given ↦
      let filled : token_of r ≢ "" = λ e. ground (arith, eq_iff (token_of r) "") in
      rw (given, strange filled) refl
]
