-- ===== src/Auth/Db.antt =====
-- The tables of services/auth/db and the errors of its methods. A statement that is not
-- answered (`up` is false) fails with `unavailable`, and so does one that breaks a foreign key. A write
-- that is not answered may have been carried out all the same.
use nodefall.Base.{ℕ, String, Bool, true, false, List}

pub record User : Type 0 where
  pub id : String
  pub username : String
  pub password_hash : String
  pub created_at : ℕ

-- A row of `friendships`. Its `created_at` is never read.
pub record Friendship : Type 0 where
  pub id : String
  pub requester_id : String
  pub addressee_id : String
  pub status : String

pub record Db : Type 0 where
  pub users : List User
  pub friendships : List Friendship

pub data Error : Type 0 where
  user_not_found username_taken cannot_friend_self already_requested : Error
  friend_request_not_found unavailable : Error

pub data Result {ℓ} (A : Type ℓ) : Type ℓ where
  err : Error → Result A
  ok : A → Result A

infixl 5 ◌>>=◌ ◌>>◌
abbrev pub ◌>>=◌ {ℓ κ} :
    {Found : Type ℓ} {Next : Type κ} → Result Found → (Found → Result Next) → Result Next
first >>= next = elim first [ err cause ↦ err cause | ok found ↦ next found ]

-- Early return with an error.
abbrev pub refuse_if : Bool → Error → Result (Unit {0})
refuse_if refused cause = elim refused [ true ↦ err cause | false ↦ ok tt ]

abbrev pub ◌>>◌ {ℓ} : {Next : Type ℓ} → Result (Unit {0}) → Result Next → Result Next
guard >> next = guard >>= λ passed. next
