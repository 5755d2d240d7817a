-- ===== src/Auth/Friends/Requests.antt =====
-- services/auth/db/friends.go: who may request, accept and remove a friendship.
use nodefall.Base.{
  ℕ, String, ◌==◌, eq_iff, Bool, true, false, ◌||◌, ◌≡◌, refl, List, [], ◌∷◌, ◌++◌, none, some,
  arith, inl, inr, Option-cases,
}
use nodefall.Auth.Db.{User, Friendship, Db, ok, err, already_requested}
use nodefall.Auth.Users.{find_user, get_user_by_username, or_not_found}
use nodefall.Auth.Friends.{
  related, insert_friendship, request_friend, find_friendship, or_no_request, set_accepted,
  delete_friendship, accept_friend, remove_friend,
}

pub related_sym : (a b : String) (fs : List Friendship) → related a b fs ≡ related b a fs
unfolding related
related_sym a b [] = refl
related_sym a b (f ∷ fs) = ground (arith, related_sym a b fs)

related-append :
    (a b : String) (fs : List Friendship) (f : Friendship)
    → f.requester_id ≡ a
    → f.addressee_id ≡ b
    → related a b (fs ++ f ∷ []) ≡ true
unfolding related
related-append a b [] f here there =
    ground (arith, eq_iff f.requester_id a, eq_iff f.addressee_id b)
related-append a b (g ∷ fs) f here there = ground (arith, related-append a b fs f here there)

-- What a request that went through has left behind.
request_friend-ok :
    (up : ℕ → Bool) (id requester username : String) (u : User) (db db' : Db)
    → find_user username db.users ≡ some u
    → request_friend up id requester username db ≡ ok db'
    → (db'.users ≡ db.users)
      × (related requester u.id db'.friendships ≡ true)
      × ((u.id == requester) ≡ false)
unfolding request_friend get_user_by_username or_not_found insert_friendship
request_friend-ok up id requester username u db db' known went = ground (
  arith,
  related-append requester u.id db.friendships
      (record { id = id; requester_id = requester; addressee_id = u.id; status = "pending" }) refl
      refl,
)

-- Once `v` has requested the friendship of `u`, a second request is refused, in either direction and
-- under whatever ID, as already made.
request_friend_once :
    (up : ℕ → Bool) (id id' : String) (u v : User) (db db' : Db)
    → find_user u.username db.users ≡ some u
    → find_user v.username db.users ≡ some v
    → request_friend up id v.id u.username db ≡ ok db'
    → (request_friend (λ n. true) id' v.id u.username db' ≡ err already_requested)
      × (request_friend (λ n. true) id' u.id v.username db' ≡ err already_requested)
unfolding request_friend get_user_by_username or_not_found
request_friend_once up id id' u v db db' known_u known_v went =
    let left = request_friend-ok up id v.id u.username u db db' known_u went in
    (
      ground (arith, left),
      ground
          (arith, left, related_sym u.id v.id db'.friendships, eq_iff u.id v.id, eq_iff v.id u.id),
    )

pub find_friendship-set_accepted :
    (id : String) (fs : List Friendship) (f : Friendship)
    → find_friendship id fs ≡ some f
    → find_friendship id (set_accepted id fs) ≡ some (record f { status = "accepted" })
unfolding find_friendship set_accepted
find_friendship-set_accepted id [] f there = cc
find_friendship-set_accepted id (g ∷ fs) f there =
    ground (arith, find_friendship-set_accepted id fs f, eq_iff g.id id)

-- If `AcceptFriend` goes through, the row was pending and addressed to the caller, and now it is
-- accepted.
pub accept_friend_by_addressee :
    (up : ℕ → Bool) (user id : String) (db db' : Db)
    → accept_friend up user id db ≡ ok db'
    → (f : Friendship) × (find_friendship id db.friendships ≡ some f)
      × (f.addressee_id ≡ user)
      × (f.status ≡ "pending")
      × (find_friendship id db'.friendships ≡ some (record f { status = "accepted" }))
unfolding accept_friend or_no_request
accept_friend_by_addressee up user id db db' went =
    elim (Option-cases (find_friendship id db.friendships)) [
      | inl missing ↦ ground arith
      | inr (f, there) ↦ (
        f,
        there,
        ground (arith, eq_iff f.addressee_id user),
        ground (arith, eq_iff f.status "pending"),
        ground (arith, find_friendship-set_accepted id db.friendships f there),
      )
    ]

find_friendship-delete :
    (id : String) (fs : List Friendship) → find_friendship id (delete_friendship id fs) ≡ none
unfolding find_friendship delete_friendship
find_friendship-delete id [] = refl
find_friendship-delete id (f ∷ fs) = ground (arith, find_friendship-delete id fs)

pub find_friendship-delete_ne :
    (id other : String) (fs : List Friendship)
    → (id == other) ≡ false
    → find_friendship other (delete_friendship id fs) ≡ find_friendship other fs
unfolding find_friendship delete_friendship
find_friendship-delete_ne id other [] ne = refl
find_friendship-delete_ne id other (f ∷ fs) ne = ground (
  arith,
  find_friendship-delete_ne id other fs ne,
  eq_iff f.id id,
  eq_iff f.id other,
  eq_iff id other,
)

pub remove_friend-participant :
    (up : ℕ → Bool) (user id : String) (db db' : Db)
    → remove_friend up user id db ≡ ok db'
    → (f : Friendship) × (find_friendship id db.friendships ≡ some f)
      × ((f.requester_id == user || f.addressee_id == user) ≡ true)
unfolding remove_friend or_no_request
remove_friend-participant up user id db db' went =
    elim (Option-cases (find_friendship id db.friendships)) [
      | inl missing ↦ ground arith
      | inr (f, there) ↦ (f, there, ground arith)
    ]

-- If `RemoveFriend` goes through, the caller was one of the row's two users; the row is gone, and
-- every other row is as it was.
remove_friend_by_participant :
    (up : ℕ → Bool) (user id other : String) (db db' : Db)
    → (id == other) ≡ false
    → remove_friend up user id db ≡ ok db'
    → ((f : Friendship) × (find_friendship id db.friendships ≡ some f)
        × ((f.requester_id == user || f.addressee_id == user) ≡ true))
      × (find_friendship id db'.friendships ≡ none)
      × (find_friendship other db'.friendships ≡ find_friendship other db.friendships)
unfolding remove_friend or_no_request
remove_friend_by_participant up user id other db db' ne went =
    elim (Option-cases (find_friendship id db.friendships)) [
      | inl missing ↦ ground arith
      | inr (f, there) ↦ (
        (f, there, ground arith),
        ground (arith, find_friendship-delete id db.friendships),
        ground (arith, find_friendship-delete_ne id other db.friendships ne),
      )
    ]
