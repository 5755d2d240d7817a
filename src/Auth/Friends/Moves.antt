-- ===== src/Auth/Friends/Moves.antt =====
-- services/auth/db/friends.go: what the methods do to the relation of each two users.
use nodefall.Base.{
  ℕ, String, ◌==◌, eq_iff, eq_refl, Bool, true, false, ◌||◌, ◌≡◌, ◌⊎◌, refl, ◌∙◌, sym, ap, subst,
  List, [], ◌∷◌, ◌++◌, Option, none, some, arith, if◌then◌else◌, if-cases, Bool-cases, Option-cases,
  inl, inr,
}
use mathlib.Core.Option.{some_inj}
use nodefall.Auth.Db.{Friendship, Db, ok}
use nodefall.Auth.Friends.{
  related, find_friendship, set_accepted, delete_friendship, request_friend, accept_friend,
  remove_friend,
}
use nodefall.Auth.Friends.Accepted.{pending}
use nodefall.Auth.Friends.Pairs.{
  about, row_of, row_of-unrelated, row_of-append, row_of-set_accepted, row_of-delete, row_of-found,
  or_else-none, related-about,
}
use nodefall.Auth.Friends.Sound.{
  IsSound, request_friend-adds, accept_friend-sets, remove_friend-deletes,
}
use nodefall.Auth.Friends.Requests.{accept_friend_by_addressee, remove_friend-participant}

-- How two users stand: one of them may have asked the other.
pub data Relation : Type 0 where
  strangers : Relation
  asked_by : String → Relation
  friends : Relation

abbrev pub relation_of : Option Friendship → Relation
relation_of none = strangers
relation_of (some f) = if f.status == "accepted" then friends else asked_by f.requester_id

abbrev pub relation : String → String → Db → Relation
relation a b db = relation_of (row_of a b db.friendships)

-- What a user may do to the relation with another.
pub data Move (user : String) : Relation → Relation → Type 0 where
  asks : Move user strangers (asked_by user)
  accepts : (other : String) → (other == user) ≡ false → Move user (asked_by other) friends
  declines : (other : String) → Move user (asked_by other) strangers
  parts : Move user friends strangers

-- The relation of two users is as it was, or the user is one of the two and has moved.
abbrev pub Between : String → Db → String → String → Db → Type 0
Between user db a b db' =
    (relation a b db' ≡ relation a b db)
    ⊎ ((a == user || b == user) ≡ true) × Move user (relation a b db) (relation a b db')

abbrev pub Moved : String → Db → Db → Type 0
Moved user db db' = (a b : String) → Between user db a b db'

flip : (a b : String) → (b == a) ≡ false → (a == b) ≡ false
flip a b apart = ground (arith, eq_iff a b, eq_iff b a)

requester_in :
    (a b : String) (f : Friendship)
    → about a b f ≡ true
    → (a == f.requester_id || b == f.requester_id) ≡ true
requester_in a b f these =
    ground (arith, eq_iff f.requester_id a, eq_iff f.requester_id b, eq_refl f.requester_id)

addressee_in :
    (a b : String) (f : Friendship)
    → about a b f ≡ true
    → (a == f.addressee_id || b == f.addressee_id) ≡ true
addressee_in a b f these =
    ground (arith, eq_iff f.addressee_id a, eq_iff f.addressee_id b, eq_refl f.addressee_id)

request-Moved :
    (a b id requester addressee : String) (fs : List Friendship)
    → related requester addressee fs ≡ false
    → let after = row_of a b (fs ++ pending id requester addressee ∷ []) in
      (relation_of after ≡ relation_of (row_of a b fs))
      ⊎ ((a == requester || b == requester) ≡ true)
        × Move requester (relation_of (row_of a b fs)) (relation_of after)
request-Moved a b id requester addressee fs apart =
    let new = pending id requester addressee in
    let joined = row_of-append a b fs new in
    elim (Bool-cases (about a b new)) [
      | inr other ↦
          let kept : row_of a b (fs ++ new ∷ []) ≡ row_of a b fs =
            joined ∙ rw (other) (or_else-none (row_of a b fs)) in
          inl (ap relation_of kept)
      | inl these ↦
          let none_before = row_of-unrelated a b fs (related-about a b new fs these apart) in
          let one_after : row_of a b (fs ++ new ∷ []) ≡ some new =
            joined ∙ rw (none_before, these) refl in
          inr (requester_in a b new these, rw (none_before, one_after) asks)
    ]

accept-Moved :
    (a b user id : String) (db : Db) (f : Friendship)
    → IsSound db
    → find_friendship id db.friendships ≡ some f
    → f.addressee_id ≡ user
    → f.status ≡ "pending"
    → let after = row_of a b (set_accepted id db.friendships) in
      (relation_of after ≡ relation a b db)
      ⊎ ((a == user || b == user) ≡ true) × Move user (relation a b db) (relation_of after)
accept-Moved a b user id db f sound found addressed waits =
    let changed = row_of-set_accepted id a b db.friendships in
    elim (Option-cases (row_of a b db.friendships)) [
      | inl nothing ↦ inl (ap relation_of (changed ∙ rw (nothing) refl ∙ sym nothing))
      | inr (g, there) ↦ elim (Bool-cases (g.id == id)) [
        | inr other ↦ inl (ap relation_of (changed ∙ rw (there, other) refl ∙ sym there))
        | inl this ↦
            let (by_id, apart, these) =
              row_of-found a b db.users db.friendships g sound.distinct_rows there in
            let same : g ≡ f = some_inj.0 (
              sym by_id
              ∙ ap (λ i. find_friendship i db.friendships) ((eq_iff g.id id).0 this)
              ∙ found) in
            let addressed' : g.addressee_id ≡ user = ap (λ h. h.addressee_id) same ∙ addressed in
            let waits' : g.status ≡ "pending" = ap (λ h. h.status) same ∙ waits in
            let one_after : row_of a b (set_accepted id db.friendships)
                ≡ some (record g { status = "accepted" }) =
              changed ∙ rw (there, this) refl in
            let other : (g.requester_id == user) ≡ false =
              subst (λ u. (g.requester_id == u) ≡ false) addressed'
                (flip g.requester_id g.addressee_id apart) in
            inr (
              subst (λ u. (a == u || b == u) ≡ true) addressed' (addressee_in a b g these),
              rw (there, one_after, waits') (accepts g.requester_id other),
            )
      ]
    ]

removed : (user : String) (g : Friendship) → Move user (relation_of (some g)) strangers
removed user g =
    if-cases (λ r. Move user r strangers) (g.status == "accepted") friends (asked_by g.requester_id)
      (λ yes. parts) (λ no. declines g.requester_id)

remove-Moved :
    (a b user id : String) (db : Db) (f : Friendship)
    → IsSound db
    → find_friendship id db.friendships ≡ some f
    → (f.requester_id == user || f.addressee_id == user) ≡ true
    → let after = row_of a b (delete_friendship id db.friendships) in
      (relation_of after ≡ relation a b db)
      ⊎ ((a == user || b == user) ≡ true) × Move user (relation a b db) (relation_of after)
remove-Moved a b user id db f sound found takes_part =
    let changed = row_of-delete id a b db.users db.friendships sound.distinct_rows in
    elim (Option-cases (row_of a b db.friendships)) [
      | inl nothing ↦ inl (ap relation_of (changed ∙ rw (nothing) refl ∙ sym nothing))
      | inr (g, there) ↦ elim (Bool-cases (g.id == id)) [
        | inr other ↦ inl (ap relation_of (changed ∙ rw (there, other) refl ∙ sym there))
        | inl this ↦
            let (by_id, apart, these) =
              row_of-found a b db.users db.friendships g sound.distinct_rows there in
            let same : g ≡ f = some_inj.0 (
              sym by_id
              ∙ ap (λ i. find_friendship i db.friendships) ((eq_iff g.id id).0 this)
              ∙ found) in
            let takes_part' =
              subst (λ h. (h.requester_id == user || h.addressee_id == user) ≡ true) (sym same)
                takes_part in
            let none_after : row_of a b (delete_friendship id db.friendships) ≡ none =
              changed ∙ rw (there, this) refl in
            inr (one_of user a b g these takes_part', rw (there, none_after) (removed user g))
      ]
    ]
  where
    one_of :
        (user a b : String) (g : Friendship)
        → about a b g ≡ true
        → (g.requester_id == user || g.addressee_id == user) ≡ true
        → (a == user || b == user) ≡ true
    one_of user a b g these part = elim (Bool-cases (g.requester_id == user)) [
      | inl by ↦
          subst (λ u. (a == u || b == u) ≡ true) ((eq_iff g.requester_id user).0 by)
            (requester_in a b g these)
      | inr other ↦
          let to : g.addressee_id ≡ user =
            (eq_iff g.addressee_id user).0 (ground (arith, part, other)) in
          subst (λ u. (a == u || b == u) ≡ true) to (addressee_in a b g these)
    ]

-- A request that goes through makes strangers of the requester and another into a request.
pub request_friend-Moved :
    (up : ℕ → Bool) (id requester username : String) (db db' : Db)
    → request_friend up id requester username db ≡ ok db'
    → Moved requester db db'
request_friend-Moved up id requester username db db' went a b =
    let (u, same, from, towards, other, new, only) =
      request_friend-adds up id requester username db db' went in
    subst (Between requester db a b) (sym same)
      (request-Moved a b id requester u.id db.friendships only)

pub accept_friend-Moved :
    (up : ℕ → Bool) (user id : String) (db db' : Db)
    → IsSound db
    → accept_friend up user id db ≡ ok db'
    → Moved user db db'
accept_friend-Moved up user id db db' sound went a b =
    let (f, found, addressed, waits, after) = accept_friend_by_addressee up user id db db' went in
    subst (Between user db a b) (sym (accept_friend-sets up user id db db' went))
      (accept-Moved a b user id db f sound found addressed waits)

pub remove_friend-Moved :
    (up : ℕ → Bool) (user id : String) (db db' : Db)
    → IsSound db
    → remove_friend up user id db ≡ ok db'
    → Moved user db db'
remove_friend-Moved up user id db db' sound went a b =
    let (f, found, takes_part) = remove_friend-participant up user id db db' went in
    subst (Between user db a b) (sym (remove_friend-deletes up user id db db' went))
      (remove-Moved a b user id db f sound found takes_part)
