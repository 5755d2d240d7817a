-- ===== src/Auth/Users.antt =====
-- services/auth/db/db.go: `CreateUser` and `GetUserByUsername`.
use nodefall.Base.{
  ℕ, String, ◌==◌, eq_iff, Bool, true, false, not, ◌||◌, ◌≡◌, refl, List, [], ◌∷◌, ◌++◌, Option,
  none, some, arith, if◌then◌else◌,
}
use nodefall.Auth.Db.{
  User, Db, Result, ok, err, ◌>>◌, refuse_if, user_not_found, username_taken, unavailable,
}

unfoldable pub find_user : String → List User → Option User
find_user username [] = none
find_user username (u ∷ us) = if u.username == username then some u else find_user username us

-- A row with this ID or this name, which the key of the table and its UNIQUE column forbid a second
-- time.
unfoldable pub taken : String → String → List User → Bool
taken id username [] = false
taken id username (u ∷ us) = u.id == id || u.username == username || taken id username us

unfoldable pub has_user : String → List User → Bool
has_user id [] = false
has_user id (u ∷ us) = u.id == id || has_user id us

-- `insertUserSQL`, with `now` the column's default. Any unique violation, of the ID's key as well, is
-- reported as a taken name.
unfoldable pub insert_user : String → ℕ → String → String → Db → Result String × Db
insert_user id now username password_hash db =
    if taken id username db.users then (err username_taken, db) else (
      ok id,
      record db {
        users =
            db.users
            ++ record {
              id = id;
              username = username;
              password_hash = password_hash;
              created_at = now;
            }
              ∷ [];
      },
    )

-- `id` is the UUID drawn by the caller, `up` whether the statement is answered. If it fails for the
-- client, `kept` says whether the database has carried it out all the same.
unfoldable pub create_user :
    (up kept : Bool) → String → ℕ → String → String → Db → Result String × Db
create_user up kept id now username password_hash db =
    let inserted = insert_user id now username password_hash db in
    if up then inserted else (err unavailable, if kept then inserted.1 else db)

-- What holds of the tables before, and after the insertion, holds after the call.
pub create_user-gives {κ} :
    (P : Db → Type κ) (up kept : Bool) (id : String) (now : ℕ) (username hash : String) (db : Db)
    → P db
    → P (insert_user id now username hash db).1
    → P (create_user up kept id now username hash db).1
unfolding create_user
create_user-gives P true kept id now username hash db there inserted = inserted
create_user-gives P false true id now username hash db there inserted = inserted
create_user-gives P false false id now username hash db there inserted = there

unfoldable pub or_not_found : Option User → Result User
or_not_found none = err user_not_found
or_not_found (some u) = ok u

unfoldable pub get_user_by_username : Bool → String → Db → Result User
unfolding or_not_found
get_user_by_username up username db = do
  refuse_if (not up) unavailable
  or_not_found (find_user username db.users)

find_user-append :
    (id username : String) (us : List User) (u : User)
    → taken id username us ≡ false
    → u.username ≡ username
    → find_user username (us ++ u ∷ []) ≡ some u
unfolding find_user taken
find_user-append id username [] u free named = ground (arith, eq_iff u.username username)
find_user-append id username (v ∷ us) u free named =
    ground (arith, find_user-append id username us u)

-- A registration under a free name is found again under that name, with the hash it was given.
pub get-create_user :
    (kept : Bool) (id username hash : String) (now : ℕ) (db : Db)
    → taken id username db.users ≡ false
    → get_user_by_username true username (create_user true kept id now username hash db).1
      ≡ ok (record { id = id; username = username; password_hash = hash; created_at = now })
unfolding get_user_by_username create_user insert_user
get-create_user kept id username hash now db free = ground (
  arith,
  find_user-append id username db.users
      (record { id = id; username = username; password_hash = hash; created_at = now }) free refl,
)
