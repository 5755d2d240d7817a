-- ===== src/Auth/Friends.antt =====
-- services/auth/db/friends.go. Each method is a chain of statements; `up n` says whether the n-th of
-- them is answered. The last one writes; what becomes of it if it is not answered is up to the handlers.
pub mod Requests
pub mod Lists
pub mod Accepted
pub mod Rows
pub mod Sound
pub mod Race
pub mod Pairs
pub mod Moves
use nodefall.Base.{
  ℕ, String, ◌==◌, Bool, false, not, ◌&&◌, ◌||◌, List, [], ◌∷◌, ◌++◌, Option, none, some,
  if◌then◌else◌,
}
use nodefall.Auth.Db.{
  User, Friendship, Db, Result, ok, err, ◌>>=◌, ◌>>◌, refuse_if, cannot_friend_self,
  already_requested, friend_request_not_found, unavailable,
}
use nodefall.Auth.Users.{get_user_by_username, has_user}

-- One entry of a list: the row's ID, and the other user.
pub record Friend : Type 0 where
  pub friendship_id : String
  pub user_id : String
  pub username : String

-- `selectExistingRelationshipSQL`, in either direction.
unfoldable pub related : String → String → List Friendship → Bool
related a b [] = false
related a b (f ∷ fs) =
    (f.requester_id == a && f.addressee_id == b)
    || (f.requester_id == b && f.addressee_id == a)
    || related a b fs

-- `insertFriendshipSQL`, which fails if the ID is taken, or if a user is not there.
unfoldable pub has_friendship : String → List Friendship → Bool
has_friendship id [] = false
has_friendship id (f ∷ fs) = f.id == id || has_friendship id fs

unfoldable pub insert_friendship : String → String → String → Db → Result Db
insert_friendship id requester addressee db =
    if has_friendship id db.friendships
      || not (has_user requester db.users)
      || not (has_user addressee db.users)
    then err unavailable
    else ok (record db {
      friendships =
          db.friendships
          ++ record {
            id = id;
            requester_id = requester;
            addressee_id = addressee;
            status = "pending";
          }
            ∷ [];
    })

-- `RequestFriend` with the UUID `id`: the database afterwards, or the error.
unfoldable pub request_friend : (ℕ → Bool) → String → String → String → Db → Result Db
request_friend up id requester username db = do
  addressee ← get_user_by_username (up 0) username db
  refuse_if (addressee.id == requester) cannot_friend_self
  refuse_if (not (up 1)) unavailable
  refuse_if (related requester addressee.id db.friendships) already_requested
  refuse_if (not (up 2)) unavailable
  insert_friendship id requester addressee.id db

-- `selectFriendshipByIDSQL`.
unfoldable pub find_friendship : String → List Friendship → Option Friendship
find_friendship id [] = none
find_friendship id (f ∷ fs) = if f.id == id then some f else find_friendship id fs

unfoldable pub or_no_request : Option Friendship → Result Friendship
or_no_request none = err friend_request_not_found
or_no_request (some f) = ok f

-- `updateFriendshipStatusSQL`.
unfoldable pub set_accepted : String → List Friendship → List Friendship
set_accepted id [] = []
set_accepted id (f ∷ fs) =
    (if f.id == id then record f { status = "accepted" } else f) ∷ set_accepted id fs

-- `deleteFriendshipSQL`.
unfoldable pub delete_friendship : String → List Friendship → List Friendship
delete_friendship id [] = []
delete_friendship id (f ∷ fs) =
    let rest = delete_friendship id fs in if f.id == id then rest else f ∷ rest

unfoldable pub accept_friend : (ℕ → Bool) → String → String → Db → Result Db
accept_friend up user id db = do
  refuse_if (not (up 0)) unavailable
  f ← or_no_request (find_friendship id db.friendships)
  refuse_if (not (f.addressee_id == user) || not (f.status == "pending")) friend_request_not_found
  refuse_if (not (up 1)) unavailable
  ok (record db { friendships = set_accepted id db.friendships })

unfoldable pub remove_friend : (ℕ → Bool) → String → String → Db → Result Db
remove_friend up user id db = do
  refuse_if (not (up 0)) unavailable
  f ← or_no_request (find_friendship id db.friendships)
  refuse_if (not (f.requester_id == user) && not (f.addressee_id == user)) friend_request_not_found
  refuse_if (not (up 1)) unavailable
  ok (record db { friendships = delete_friendship id db.friendships })

-- The joined row of a user, if there is one; an inner join drops the others.
unfoldable pub entry_of : List User → String → String → List Friend
entry_of [] friendship other = []
entry_of (u ∷ us) friendship other =
    let rest = entry_of us friendship other in
    if u.id == other
    then record { friendship_id = friendship; user_id = other; username = u.username } ∷ rest
    else rest

-- `CASE WHEN f.requester_id = $1 THEN f.addressee_id ELSE f.requester_id END`.
unfoldable pub other_side : String → Friendship → String
other_side user f = if f.requester_id == user then f.addressee_id else f.requester_id

-- `selectFriendsSQL`.
unfoldable pub friends_in : List User → String → List Friendship → List Friend
friends_in us user [] = []
friends_in us user (f ∷ fs) =
    let rest = friends_in us user fs in
    if f.status == "accepted" && (f.requester_id == user || f.addressee_id == user)
    then entry_of us f.id (other_side user f) ++ rest
    else rest

-- `selectPendingRequestsSQL`.
unfoldable pub pending_in : List User → String → List Friendship → List Friend
pending_in us user [] = []
pending_in us user (f ∷ fs) =
    let rest = pending_in us user fs in
    if f.addressee_id == user && f.status == "pending"
    then entry_of us f.id f.requester_id ++ rest
    else rest

unfoldable pub list_friends : Bool → String → Db → Result (List Friend)
list_friends up user db =
    if not up then err unavailable else ok (friends_in db.users user db.friendships)

unfoldable pub list_pending_requests : Bool → String → Db → Result (List Friend)
list_pending_requests up user db =
    if not up then err unavailable else ok (pending_in db.users user db.friendships)
