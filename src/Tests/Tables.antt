-- ===== src/Tests/Tables.antt =====
-- The theorems about the tables at a small database, and two requests at once.
use nodefall.Base.{◌≡◌, refl, [], ◌∷◌}
use nodefall.Auth.Db.{Db, ok}
use nodefall.Auth.Users.{find_user, has_user, get_user_by_username, or_not_found}
use nodefall.Auth.Friends.{related, has_friendship, insert_friendship, request_friend}
use nodefall.Auth.Friends.Sound.{IsSound}
use nodefall.Auth.Friends.Race.{requests_interleaved}
use nodefall.Tests.Auth.{ann, bob, row, small, always}

abbrev ann_asked : Db
ann_asked = record small {
  friendships =
      row "f1" "u3" "u1" "accepted"
      ∷ row "f2" "u3" "u2" "pending"
      ∷ row "f3" "u1" "u2" "pending"
      ∷ [];
}

abbrev bob_asked : Db
bob_asked = record small {
  friendships =
      row "f1" "u3" "u1" "accepted"
      ∷ row "f2" "u3" "u2" "pending"
      ∷ row "f4" "u2" "u1" "pending"
      ∷ [];
}

abbrev both_asked : Db
both_asked = record small {
  friendships =
      row "f1" "u3" "u1" "accepted"
      ∷ row "f2" "u3" "u2" "pending"
      ∷ row "f3" "u1" "u2" "pending"
      ∷ row "f4" "u2" "u1" "pending"
      ∷ [];
}

requests_interleaved_example :
    (insert_friendship "f4" "u2" "u1" ann_asked ≡ ok both_asked) × ¬ IsSound both_asked
unfolding request_friend get_user_by_username or_not_found find_user related insert_friendship
    has_friendship has_user
requests_interleaved_example =
    requests_interleaved always always "f3" "f4" bob ann small ann_asked bob_asked refl refl refl
      refl refl
