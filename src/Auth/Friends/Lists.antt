-- ===== src/Auth/Friends/Lists.antt =====
-- services/auth/db/friends.go: the lists of two users side by side.
use nodefall.Base.{
  String, ◌==◌, eq_iff, Bool, true, false, ◌&&◌, ◌||◌, ◌≡◌, refl, List, [], ◌∷◌, ◌++◌, arith,
}
use nodefall.Auth.Db.{User, Friendship, Db, ok}
use nodefall.Auth.Users.{has_user}
use nodefall.Auth.Friends.{Friend, entry_of, other_side, friends_in, list_friends}

-- Some entry of the list is the user `id`.
unfoldable pub lists : String → List Friend → Bool
lists id [] = false
lists id (x ∷ xs) = x.user_id == id || lists id xs

lists-append :
    (id : String) (xs ys : List Friend) → lists id (xs ++ ys) ≡ (lists id xs || lists id ys)
unfolding lists
lists-append id [] ys = refl
lists-append id (x ∷ xs) ys = ground (arith, lists-append id xs ys)

lists-entry_of :
    (id friendship other : String) (us : List User)
    → lists id (entry_of us friendship other) ≡ (has_user other us && other == id)
unfolding lists entry_of has_user
lists-entry_of id friendship other [] = refl
lists-entry_of id friendship other (u ∷ us) = ground (arith, lists-entry_of id friendship other us)

-- The row makes the user `other` a friend of `user`.
unfoldable pub befriends : String → String → Friendship → Bool
befriends user other f =
    f.status == "accepted"
    && (f.requester_id == user || f.addressee_id == user)
    && other_side user f == other

befriends_sym : (a b : String) (f : Friendship) → befriends a b f ≡ befriends b a f
unfolding befriends other_side
befriends_sym a b f = ground (
  arith,
  eq_iff f.requester_id a,
  eq_iff f.requester_id b,
  eq_iff f.addressee_id a,
  eq_iff f.addressee_id b,
)

unfoldable pub befriended : String → String → List Friendship → Bool
befriended a b [] = false
befriended a b (f ∷ fs) = befriends a b f || befriended a b fs

pub befriended_sym : (a b : String) (fs : List Friendship) → befriended a b fs ≡ befriended b a fs
unfolding befriended
befriended_sym a b [] = refl
befriended_sym a b (f ∷ fs) = ground (arith, befriends_sym a b f, befriended_sym a b fs)

pub lists-friends_in :
    (a b : String) (us : List User) (fs : List Friendship)
    → has_user b us ≡ true
    → lists b (friends_in us a fs) ≡ befriended a b fs
unfolding friends_in befriended befriends lists
lists-friends_in a b us [] there = refl
lists-friends_in a b us (f ∷ fs) there = ground (
  arith,
  lists-friends_in a b us fs there,
  eq_iff (other_side a f) b,
  lists-append b (entry_of us f.id (other_side a f)) (friends_in us a fs),
  lists-entry_of b f.id (other_side a f) us,
)

-- Of two users that exist, the first is on the second's list of friends exactly if the second is on
-- the first's.
list_friends_mirror :
    (a b : String) (db : Db) (of_a of_b : List Friend)
    → has_user a db.users ≡ true
    → has_user b db.users ≡ true
    → list_friends true a db ≡ ok of_a
    → list_friends true b db ≡ ok of_b
    → lists b of_a ≡ lists a of_b
unfolding list_friends
list_friends_mirror a b db of_a of_b has_a has_b listed_a listed_b = ground (
  arith,
  lists-friends_in a b db.users db.friendships has_b,
  lists-friends_in b a db.users db.friendships has_a,
  befriended_sym a b db.friendships,
)
