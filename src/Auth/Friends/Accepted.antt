-- ===== src/Auth/Friends/Accepted.antt =====
-- services/auth/db/friends.go: a request and its acceptance.
use nodefall.Base.{
  ℕ, String, eq_refl, Bool, true, false, ◌≡◌, refl, List, [], ◌∷◌, ◌++◌, some, arith,
}
use nodefall.Auth.Db.{User, Friendship, Db, ok}
use nodefall.Auth.Users.{find_user, has_user, get_user_by_username, or_not_found}
use nodefall.Auth.Friends.{
  Friend, has_friendship, insert_friendship, request_friend, find_friendship, or_no_request,
  set_accepted, accept_friend, friends_in, list_friends, other_side,
}
use nodefall.Auth.Friends.Lists.{lists, befriends, befriended, befriended_sym, lists-friends_in}
use nodefall.Auth.Friends.Requests.{find_friendship-set_accepted}

abbrev pub pending : String → String → String → Friendship
pending id requester addressee = record {
  id = id;
  requester_id = requester;
  addressee_id = addressee;
  status = "pending";
}

find_friendship-append :
    (f : Friendship) (fs : List Friendship)
    → has_friendship f.id fs ≡ false
    → find_friendship f.id (fs ++ f ∷ []) ≡ some f
unfolding find_friendship has_friendship
find_friendship-append f [] new = rw (eq_refl f.id) refl
find_friendship-append f (g ∷ fs) new = ground (arith, find_friendship-append f fs)

found-befriended :
    (a b id : String) (fs : List Friendship) (f : Friendship)
    → find_friendship id fs ≡ some f
    → befriends a b f ≡ true
    → befriended a b fs ≡ true
unfolding find_friendship befriended
found-befriended a b id [] f there friendly = cc
found-befriended a b id (g ∷ fs) f there friendly = ground (arith, found-befriended a b id fs f)

-- What a request that went through says of the two users and of the new row.
request_friend-row :
    (up : ℕ → Bool) (id requester username : String) (u : User) (db db' : Db)
    → find_user username db.users ≡ some u
    → request_friend up id requester username db ≡ ok db'
    → (has_user requester db'.users ≡ true)
      × (has_user u.id db'.users ≡ true)
      × (find_friendship id db'.friendships ≡ some (pending id requester u.id))
unfolding request_friend get_user_by_username or_not_found insert_friendship
request_friend-row up id requester username u db db' known went =
    ground (arith, find_friendship-append (pending id requester u.id) db.friendships)

befriends_accepted :
    (id a b : String) → befriends a b (record (pending id a b) { status = "accepted" }) ≡ true
unfolding befriends other_side
befriends_accepted id a b = ground (arith, eq_refl a, eq_refl b)

accept_friend-pending :
    (id a b : String) (db : Db)
    → find_friendship id db.friendships ≡ some (pending id a b)
    → accept_friend (λ n. true) b id db
      ≡ ok (record db { friendships = set_accepted id db.friendships })
unfolding accept_friend or_no_request
accept_friend-pending id a b db there = rw (there, eq_refl b) refl

-- After a request that went through, the user it was made to can accept it, and then each of the two
-- is on the other's list of friends.
pub accept-request_friend :
    (up : ℕ → Bool) (id : String) (requester : String) (u : User) (db db' : Db)
    → find_user u.username db.users ≡ some u
    → request_friend up id requester u.username db ≡ ok db'
    → (done : Db) × (accept_friend (λ n. true) u.id id db' ≡ ok done)
      × ((of_requester : List Friend) × (list_friends true requester done ≡ ok of_requester)
          × (lists u.id of_requester ≡ true))
      × ((of_addressee : List Friend) × (list_friends true u.id done ≡ ok of_addressee)
          × (lists requester of_addressee ≡ true))
unfolding list_friends
accept-request_friend up id requester u db db' known went =
    let (has_v, has_u, row) = request_friend-row up id requester u.username u db db' known went in
    let done : Db = record db' { friendships = set_accepted id db'.friendships } in
    let now_accepted =
      find_friendship-set_accepted id db'.friendships (pending id requester u.id) row in
    let friends =
      found-befriended requester u.id id done.friendships _ now_accepted
        (befriends_accepted id requester u.id) in
    (
      done,
      accept_friend-pending id requester u.id db' row,
      (
        friends_in done.users requester done.friendships,
        refl,
        rw (lists-friends_in requester u.id done.users done.friendships has_u) friends,
      ),
      (
        friends_in done.users u.id done.friendships,
        refl,
        rw
            (
              lists-friends_in u.id requester done.users done.friendships has_v,
              befriended_sym u.id requester done.friendships,
            )
            friends,
      ),
    )
