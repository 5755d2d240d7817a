-- ===== src/Auth/Friends/Sound.antt =====
-- services/auth/db: what each method keeps of the tables.
use nodefall.Base.{
  ℕ, String, ◌==◌, Bool, true, false, ◌≡◌, [], ◌∷◌, ◌++◌, some, arith, inl, inr, Option-cases, sym,
  subst, if-cases,
}
use nodefall.Auth.Db.{User, Db, Result, ok, err, username_taken}
use nodefall.Auth.Users.{
  taken, has_user, find_user, insert_user, get_user_by_username, or_not_found,
}
use nodefall.Auth.Friends.{
  related, has_friendship, insert_friendship, request_friend, find_friendship, or_no_request,
  set_accepted, delete_friendship, accept_friend, remove_friend,
}
use nodefall.Auth.Friends.Accepted.{pending}
use nodefall.Auth.Friends.Rows.{
  DistinctUsers, DistinctRows, append-DistinctUsers, append_user-DistinctRows,
  append_row-DistinctRows, set_accepted-DistinctRows, delete-DistinctRows,
}

pub record IsSound (db : Db) : Type 0 where
  pub distinct_users : DistinctUsers db.users
  pub distinct_rows : DistinctRows db.users db.friendships

pub insert_user-IsSound :
    (id : String) (now : ℕ) (username hash : String) (db : Db)
    → IsSound db
    → IsSound (insert_user id now username hash db).1
unfolding insert_user
insert_user-IsSound id now username hash db s =
    let u : User = record {
      id = id;
      username = username;
      password_hash = hash;
      created_at = now;
    } in
    if-cases {A = Result String × Db} (λ x. IsSound x.1) (taken id username db.users)
      (err username_taken, db) (ok id, record db { users = db.users ++ u ∷ [] }) (λ used. s)
      (λ free. record {
        distinct_users = append-DistinctUsers db.users u free s.distinct_users;
        distinct_rows = append_user-DistinctRows db.users u db.friendships s.distinct_rows;
      })

-- What a request that goes through has found, and the row that it adds.
pub request_friend-inserted :
    (up : ℕ → Bool) (id requester username : String) (u : User) (db db' : Db)
    → find_user username db.users ≡ some u
    → request_friend up id requester username db ≡ ok db'
    → (db' ≡ record db { friendships = db.friendships ++ pending id requester u.id ∷ [] })
      × (has_user requester db.users ≡ true)
      × (has_user u.id db.users ≡ true)
      × ((u.id == requester) ≡ false)
      × (has_friendship id db.friendships ≡ false)
      × (related requester u.id db.friendships ≡ false)
unfolding request_friend get_user_by_username or_not_found insert_friendship
request_friend-inserted up id requester username u db db' known went = ground arith

-- The same, for the user that it has found.
pub request_friend-adds :
    (up : ℕ → Bool) (id requester username : String) (db db' : Db)
    → request_friend up id requester username db ≡ ok db'
    → (u : User) × (db'
        ≡ record db { friendships = db.friendships ++ pending id requester u.id ∷ [] })
      × (has_user requester db.users ≡ true)
      × (has_user u.id db.users ≡ true)
      × ((u.id == requester) ≡ false)
      × (has_friendship id db.friendships ≡ false)
      × (related requester u.id db.friendships ≡ false)
request_friend-adds up id requester username db db' went =
    elim (Option-cases (find_user username db.users)) [
      | inl missing ↦ unfold request_friend get_user_by_username or_not_found in (ground arith)
      | inr (u, known) ↦
          let (same, from, towards, other, new, only) =
            request_friend-inserted up id requester username u db db' known went in
          (u, same, from, towards, other, new, only)
    ]

pub request_friend-IsSound :
    (up : ℕ → Bool) (id requester username : String) (db db' : Db)
    → IsSound db
    → request_friend up id requester username db ≡ ok db'
    → IsSound db'
request_friend-IsSound up id requester username db db' s went =
    let (u, same, from, towards, other, new, only) =
      request_friend-adds up id requester username db db' went in
    subst IsSound (sym same) (record {
      distinct_users = s.distinct_users;
      distinct_rows =
          append_row-DistinctRows db.users (pending id requester u.id) db.friendships
            (unfold DistinctRows in (from, towards, other, new, only, s.distinct_rows));
    })

pub accept_friend-sets :
    (up : ℕ → Bool) (user id : String) (db db' : Db)
    → accept_friend up user id db ≡ ok db'
    → db' ≡ record db { friendships = set_accepted id db.friendships }
unfolding accept_friend or_no_request
accept_friend-sets up user id db db' went =
    elim (Option-cases (find_friendship id db.friendships)) [
      | inl missing ↦ ground arith
      | inr (f, there) ↦ ground arith
    ]

pub accept_friend-IsSound :
    (up : ℕ → Bool) (user id : String) (db db' : Db)
    → IsSound db
    → accept_friend up user id db ≡ ok db'
    → IsSound db'
accept_friend-IsSound up user id db db' s went =
    subst IsSound (sym (accept_friend-sets up user id db db' went)) (record {
      distinct_users = s.distinct_users;
      distinct_rows = set_accepted-DistinctRows id db.users db.friendships s.distinct_rows;
    })

pub remove_friend-deletes :
    (up : ℕ → Bool) (user id : String) (db db' : Db)
    → remove_friend up user id db ≡ ok db'
    → db' ≡ record db { friendships = delete_friendship id db.friendships }
unfolding remove_friend or_no_request
remove_friend-deletes up user id db db' went =
    elim (Option-cases (find_friendship id db.friendships)) [
      | inl missing ↦ ground arith
      | inr (f, there) ↦ ground arith
    ]

pub remove_friend-IsSound :
    (up : ℕ → Bool) (user id : String) (db db' : Db)
    → IsSound db
    → remove_friend up user id db ≡ ok db'
    → IsSound db'
remove_friend-IsSound up user id db db' s went =
    subst IsSound (sym (remove_friend-deletes up user id db db' went)) (record {
      distinct_users = s.distinct_users;
      distinct_rows = delete-DistinctRows id db.users db.friendships s.distinct_rows;
    })
