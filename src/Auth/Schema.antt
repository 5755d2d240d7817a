-- ===== src/Auth/Schema.antt =====
-- services/auth/db: `Connect`, `EnsureSchema` and `EnsureFriendsSchema`. Postgres is a parameter.
use nodefall.Base.{
  ℕ, String, Bool, not, is_some, ◌&&◌, ◌||◌, Option, none, some, List, [], if◌then◌else◌,
}
use nodefall.Auth.Db.{User, Friendship, Db, Result, ok, err, ◌>>=◌, ◌>>◌, refuse_if, unavailable}

-- The two tables, each of which may not be there.
pub record StoredTables : Type 0 where
  pub users : Option (List User)
  pub friendships : Option (List Friendship)

-- Whether a pool can be made for a URL, and whether the server behind it answers a ping.
pub record Postgres : Type 0 where
  pub new_pool : String → Bool
  pub ping : String → Bool

unfoldable pub connect : Postgres → String → Bool
connect postgres db_url = postgres.new_pool db_url && postgres.ping db_url

-- `CREATE TABLE IF NOT EXISTS`.
unfoldable pub created {ℓ} : {A : Type ℓ} → Option (List A) → List A
created none = []
created (some rows) = rows

unfoldable pub ensure_schema : Bool → StoredTables → Result StoredTables
ensure_schema up t =
    if not up then err unavailable else ok (record t { users = some (created t.users) })

-- It refers to the table of the users, which has to be there.
unfoldable pub ensure_friends_schema : Bool → StoredTables → Result StoredTables
ensure_friends_schema up t =
    if not up || not (is_some t.users)
    then err unavailable
    else ok (record t { friendships = some (created t.friendships) })

-- What the other methods work on, once both tables are there.
unfoldable pub database_of : StoredTables → Db
database_of t = record { users = created t.users; friendships = created t.friendships }

-- From the connection to the tables; `up n` says whether the n-th schema is carried out.
unfoldable pub open_database : Postgres → (ℕ → Bool) → String → StoredTables → Result Db
open_database postgres up db_url t = do
  refuse_if (not (connect postgres db_url)) unavailable
  with_users ← ensure_schema (up 0) t
  with_both ← ensure_friends_schema (up 1) with_users
  ok (database_of with_both)
