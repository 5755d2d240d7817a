-- ===== src/Tests/Auth.antt =====
-- The theorems about accounts and friendships at a small database.
use nodefall.Base.{ℕ, String, Bool, true, ◌≡◌, refl, List, [], ◌∷◌}
use nodefall.Auth.Db.{User, Friendship, Db, ok}
use nodefall.Auth.Users.{find_user, taken, has_user, create_user, get_user_by_username}
use nodefall.Auth.Friends.{
  Friend, related, request_friend, find_friendship, accept_friend, remove_friend, list_friends,
}
use nodefall.Auth.Friends.Lists.{lists}
use nodefall.Auth.Friends.Accepted.{accept-request_friend}

abbrev pub ann : User
ann = record { id = "u1"; username = "ann"; password_hash = "h1"; created_at = 0 }

abbrev pub bob : User
bob = record { id = "u2"; username = "bob"; password_hash = "h2"; created_at = 0 }

abbrev cy : User
cy = record { id = "u3"; username = "cy"; password_hash = "h3"; created_at = 0 }

abbrev pub row : String → String → String → String → Friendship
row id requester addressee status = record {
  id = id;
  requester_id = requester;
  addressee_id = addressee;
  status = status;
}

-- Cy and Ann are friends; Cy has asked Bob.
abbrev pub small : Db
small = record {
  users = ann ∷ bob ∷ cy ∷ [];
  friendships = row "f1" "u3" "u1" "accepted" ∷ row "f2" "u3" "u2" "pending" ∷ [];
}

abbrev pub always : ℕ → Bool
always n = true

abbrev asked : Db
asked = record small {
  friendships =
      row "f1" "u3" "u1" "accepted"
      ∷ row "f2" "u3" "u2" "pending"
      ∷ row "f3" "u1" "u2" "pending"
      ∷ [];
}

asked_ok : request_friend always "f3" ann.id bob.username small ≡ ok asked
unfolding request_friend get_user_by_username nodefall.Auth.Users.or_not_found find_user related
    nodefall.Auth.Friends.insert_friendship nodefall.Auth.Friends.has_friendship has_user
asked_ok = refl

abbrev accepted : Db
accepted = record small {
  friendships = row "f1" "u3" "u1" "accepted" ∷ row "f2" "u3" "u2" "accepted" ∷ [];
}

accept-request_friend_example :
    (done : Db) × (accept_friend (λ n. true) bob.id "f3" asked ≡ ok done)
    × ((of_requester : List Friend) × (list_friends true ann.id done ≡ ok of_requester)
        × (lists bob.id of_requester ≡ true))
    × ((of_addressee : List Friend) × (list_friends true bob.id done ≡ ok of_addressee)
        × (lists ann.id of_addressee ≡ true))
unfolding find_user
accept-request_friend_example =
    accept-request_friend always "f3" ann.id bob small asked refl asked_ok
