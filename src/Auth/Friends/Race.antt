-- ===== src/Auth/Friends/Race.antt =====
-- services/auth/db/friends.go: two requests at once. `RequestFriend` looks for a row and inserts one in
-- two statements, and another request can be carried out in between.
use nodefall.Base.{
  ℕ, String, ◌==◌, eq_refl, Bool, false, ◌≡◌, refl, ap, List, [], ◌∷◌, ◌++◌, some, arith,
}
use nodefall.Auth.Db.{User, Friendship, Db, ok}
use nodefall.Auth.Users.{find_user}
use nodefall.Auth.Friends.{related, has_friendship, insert_friendship, request_friend}
use nodefall.Auth.Friends.Accepted.{pending}
use nodefall.Auth.Friends.Rows.{DistinctRows, has_friendship-append}
use nodefall.Auth.Friends.Sound.{IsSound, request_friend-inserted}

two_rows :
    (us : List User) (f g : Friendship) (fs : List Friendship)
    → DistinctRows us (fs ++ f ∷ g ∷ [])
    → related f.requester_id f.addressee_id (g ∷ []) ≡ false
unfolding DistinctRows
two_rows us f g [] (from, towards, other, new, only, rows) = only
two_rows us f g (e ∷ fs) (from, towards, other, new, only, rows) = two_rows us f g fs rows

append_twice :
    (fs : List Friendship) (f g : Friendship) → (fs ++ f ∷ []) ++ g ∷ [] ≡ fs ++ f ∷ g ∷ []
append_twice [] f g = refl
append_twice (e ∷ fs) f g = ap (λ r. e ∷ r) (append_twice fs f g)

-- If each of two users requests the friendship of the other, with two IDs, and both requests go
-- through the checks on the same tables, then the second insert succeeds after the first. Both rows
-- are there, and two friendships are between the same users.
pub requests_interleaved :
    (up up' : ℕ → Bool) (id id' : String) (u v : User) (db first second : Db)
    → find_user u.username db.users ≡ some u
    → find_user v.username db.users ≡ some v
    → request_friend up id v.id u.username db ≡ ok first
    → request_friend up' id' u.id v.username db ≡ ok second
    → (id == id') ≡ false
    → let both = db.friendships ++ pending id v.id u.id ∷ pending id' u.id v.id ∷ [] in
      (insert_friendship id' u.id v.id first ≡ ok (record db { friendships = both }))
      × ¬ IsSound (record db { friendships = both })
requests_interleaved up up' id id' u v db first second known_u known_v went went' differ =
    let (same, v_there, u_there, other, new, only) =
      request_friend-inserted up id v.id u.username u db first known_u went in
    let (same', u_there', v_there', other', new', only') =
      request_friend-inserted up' id' u.id v.username v db second known_v went' in
    let a = pending id v.id u.id in
    let b = pending id' u.id v.id in
    let unused : has_friendship id' (db.friendships ++ a ∷ []) ≡ false =
      ground (arith, has_friendship-append id' db.friendships a) in
    (
      rw same (
          unfold insert_friendship in
          (rw (unused, u_there, v_there)
            (ap (λ r. ok (record db { friendships = r })) (append_twice db.friendships a b)))),
      λ sound.
          let apart = two_rows db.users a b db.friendships sound.distinct_rows in
          unfold related in (ground (arith, apart, eq_refl u.id, eq_refl v.id)),
    )
