-- ===== src/Auth/Friends/Pairs.antt =====
-- services/auth/db/friends.go: the row of two users, and what the statements make of it.
use nodefall.Base.{
  String, ◌==◌, eq_iff, eq_refl, Bool, true, false, ◌&&◌, ◌||◌, ◌≡◌, refl, ◌∙◌, List, [], ◌∷◌, ◌++◌,
  Option, none, some, arith, if◌then◌else◌, Bool-cases, inl, inr, subst,
}
use nodefall.Auth.Db.{User, Friendship}
use nodefall.Auth.Friends.{
  related, has_friendship, find_friendship, set_accepted, delete_friendship,
}
use nodefall.Auth.Friends.Requests.{related_sym}
use nodefall.Auth.Friends.Rows.{DistinctRows, related-delete}

-- The row is about these two users, in either direction.
abbrev pub about : String → String → Friendship → Bool
about a b f =
    f.requester_id == a && f.addressee_id == b || f.requester_id == b && f.addressee_id == a

-- The first row about two users.
unfoldable pub row_of : String → String → List Friendship → Option Friendship
row_of a b [] = none
row_of a b (f ∷ fs) = let rest = row_of a b fs in if about a b f then some f else rest

pub row_of-unrelated :
    (a b : String) (fs : List Friendship) → related a b fs ≡ false → row_of a b fs ≡ none
unfolding row_of related
row_of-unrelated a b [] apart = refl
row_of-unrelated a b (f ∷ fs) apart = ground (arith, row_of-unrelated a b fs)

abbrev pub or_else : Option Friendship → Option Friendship → Option Friendship
or_else none o = o
or_else (some f) o = some f

pub row_of-append :
    (a b : String) (fs : List Friendship) (g : Friendship)
    → row_of a b (fs ++ g ∷ []) ≡ or_else (row_of a b fs) (if about a b g then some g else none)
unfolding row_of
row_of-append a b [] g = refl
row_of-append a b (f ∷ fs) g = ground (arith, row_of-append a b fs g)

pub or_else-none : (o : Option Friendship) → or_else o none ≡ o
or_else-none none = refl
or_else-none (some f) = refl

-- A row that is accepted if it has the ID.
abbrev pub accepted_at : String → Option Friendship → Option Friendship
accepted_at id none = none
accepted_at id (some f) = some (if f.id == id then record f { status = "accepted" } else f)

pub row_of-set_accepted :
    (id a b : String) (fs : List Friendship)
    → row_of a b (set_accepted id fs) ≡ accepted_at id (row_of a b fs)
unfolding row_of set_accepted
row_of-set_accepted id a b [] = refl
row_of-set_accepted id a b (f ∷ fs) = ground (arith, row_of-set_accepted id a b fs)

abbrev pub dropped_at : String → Option Friendship → Option Friendship
dropped_at id none = none
dropped_at id (some f) = if f.id == id then none else some f

-- No other row is about the two users of a row.
pub related-about :
    (a b : String) (f : Friendship) (fs : List Friendship)
    → about a b f ≡ true
    → related f.requester_id f.addressee_id fs ≡ false
    → related a b fs ≡ false
related-about a b f fs here apart = elim (Bool-cases (f.requester_id == a && f.addressee_id == b)) [
  | inl straight ↦
      let from : f.requester_id ≡ a = ground (arith, eq_iff f.requester_id a) in
      let towards : f.addressee_id ≡ b = ground (arith, eq_iff f.addressee_id b) in
      subst (λ x. related x b fs ≡ false) from
        (subst (λ y. related f.requester_id y fs ≡ false) towards apart)
  | inr reversed ↦
      let from : f.requester_id ≡ b = ground (arith, eq_iff f.requester_id b) in
      let towards : f.addressee_id ≡ a = ground (arith, eq_iff f.addressee_id a) in
      related_sym a b fs
      ∙ subst (λ x. related x a fs ≡ false) from
          (subst (λ y. related f.requester_id y fs ≡ false) towards apart)
]

pub row_of-delete :
    (id a b : String) (us : List User) (fs : List Friendship)
    → DistinctRows us fs
    → row_of a b (delete_friendship id fs) ≡ dropped_at id (row_of a b fs)
unfolding row_of delete_friendship DistinctRows
row_of-delete id a b us [] rows = refl
row_of-delete id a b us (f ∷ fs) (from, towards, other, new, only, rows) = ground (
  arith,
  row_of-delete id a b us fs rows,
  related-about a b f fs,
  row_of-unrelated a b (delete_friendship id fs),
  related-delete id a b fs,
)

found-has_friendship :
    (id : String) (fs : List Friendship) (f : Friendship)
    → find_friendship id fs ≡ some f
    → has_friendship id fs ≡ true
unfolding find_friendship has_friendship
found-has_friendship id [] f found = ground arith
found-has_friendship id (g ∷ fs) f found = ground (arith, found-has_friendship id fs f)

-- The row of two users is found under its ID, and is about two different users, these two.
pub row_of-found :
    (a b : String) (us : List User) (fs : List Friendship) (g : Friendship)
    → DistinctRows us fs
    → row_of a b fs ≡ some g
    → (find_friendship g.id fs ≡ some g)
      × ((g.addressee_id == g.requester_id) ≡ false)
      × (about a b g ≡ true)
unfolding row_of find_friendship DistinctRows
row_of-found a b us [] g rows there = ground arith
row_of-found a b us (f ∷ fs) g (from, towards, other, new, only, rows) there =
    elim (Bool-cases (about a b f)) [
      | inl here ↦
          let same : f ≡ g = ground arith in
          subst
            (λ h.
              (find_friendship h.id (f ∷ fs) ≡ some h)
              × ((h.addressee_id == h.requester_id) ≡ false)
              × (about a b h ≡ true))
            same (rw (eq_refl f.id) refl, other, here)
      | inr later ↦
          let (found, apart, these) = row_of-found a b us fs g rows (ground arith) in
          (ground (arith, found-has_friendship g.id fs g found, eq_iff f.id g.id), apart, these)
    ]
