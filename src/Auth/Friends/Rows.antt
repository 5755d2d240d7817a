-- ===== src/Auth/Friends/Rows.antt =====
-- services/auth/db: tables without two rows for the same thing.
use nodefall.Base.{
  String, ◌==◌, eq_iff, true, false, ◌||◌, ◌≡◌, refl, List, [], ◌∷◌, ◌++◌, arith, if-cases,
}
use nodefall.Auth.Db.{User, Friendship}
use nodefall.Auth.Users.{taken, has_user}
use nodefall.Auth.Friends.{related, has_friendship, set_accepted, delete_friendship}

-- No two users have one ID or one name.
unfoldable pub DistinctUsers : List User → Type 0
DistinctUsers [] = Unit
DistinctUsers (u ∷ us) = (taken u.id u.username us ≡ false) × DistinctUsers us

-- Each row is about two different users that exist, and no two rows have one ID or are about the same
-- two users, in either direction.
unfoldable pub DistinctRows : List User → List Friendship → Type 0
DistinctRows us [] = Unit
DistinctRows us (f ∷ fs) =
    (has_user f.requester_id us ≡ true)
    × (has_user f.addressee_id us ≡ true)
    × ((f.addressee_id == f.requester_id) ≡ false)
    × (has_friendship f.id fs ≡ false)
    × (related f.requester_id f.addressee_id fs ≡ false)
    × DistinctRows us fs

taken-append :
    (id username : String) (us : List User) (u : User)
    → taken id username (us ++ u ∷ [])
      ≡ (taken id username us || u.id == id || u.username == username)
unfolding taken
taken-append id username [] u = ground arith
taken-append id username (v ∷ us) u = ground (arith, taken-append id username us u)

pub append-DistinctUsers :
    (us : List User) (u : User)
    → taken u.id u.username us ≡ false
    → DistinctUsers us
    → DistinctUsers (us ++ u ∷ [])
unfolding taken DistinctUsers
append-DistinctUsers [] u free distinct = (refl, tt)
append-DistinctUsers (v ∷ us) u free (apart, distinct) = (
  ground (
    arith,
    taken-append v.id v.username us u,
    eq_iff u.id v.id,
    eq_iff v.id u.id,
    eq_iff u.username v.username,
    eq_iff v.username u.username,
  ),
  append-DistinctUsers us u (ground arith) distinct,
)

has_user-append :
    (id : String) (us : List User) (u : User)
    → has_user id us ≡ true
    → has_user id (us ++ u ∷ []) ≡ true
unfolding has_user
has_user-append id [] u there = cc
has_user-append id (v ∷ us) u there = ground (arith, has_user-append id us u)

pub append_user-DistinctRows :
    (us : List User) (u : User) (fs : List Friendship)
    → DistinctRows us fs
    → DistinctRows (us ++ u ∷ []) fs
unfolding DistinctRows
append_user-DistinctRows us u [] rows = tt
append_user-DistinctRows us u (f ∷ fs) (from, towards, other, new, only, rows) = (
  has_user-append f.requester_id us u from,
  has_user-append f.addressee_id us u towards,
  other,
  new,
  only,
  append_user-DistinctRows us u fs rows,
)

related-append :
    (a b : String) (fs : List Friendship) (f : Friendship)
    → related a b (fs ++ f ∷ []) ≡ (related a b fs || related a b (f ∷ []))
unfolding related
related-append a b [] f = refl
related-append a b (g ∷ fs) f = ground (arith, related-append a b fs f)

pub has_friendship-append :
    (id : String) (fs : List Friendship) (f : Friendship)
    → has_friendship id (fs ++ f ∷ []) ≡ (has_friendship id fs || f.id == id)
unfolding has_friendship
has_friendship-append id [] f = ground arith
has_friendship-append id (g ∷ fs) f = ground (arith, has_friendship-append id fs f)

pub append_row-DistinctRows :
    (us : List User) (f : Friendship) (fs : List Friendship)
    → DistinctRows us (f ∷ fs)
    → DistinctRows us (fs ++ f ∷ [])
unfolding DistinctRows related has_friendship
append_row-DistinctRows us f [] row = row
append_row-DistinctRows us f (g ∷ fs)
      (from, towards, other, new, only, (from', towards', other', new', only', rows)) =
    (
      from',
      towards',
      other',
      ground (arith, has_friendship-append g.id fs f, eq_iff f.id g.id, eq_iff g.id f.id),
      ground (
        arith,
        related-append g.requester_id g.addressee_id fs f,
        eq_iff f.requester_id g.requester_id,
        eq_iff g.requester_id f.requester_id,
        eq_iff f.addressee_id g.addressee_id,
        eq_iff g.addressee_id f.addressee_id,
        eq_iff f.requester_id g.addressee_id,
        eq_iff g.requester_id f.addressee_id,
        eq_iff f.addressee_id g.requester_id,
        eq_iff g.addressee_id f.requester_id,
      ),
      append_row-DistinctRows us f fs (from, towards, other, ground arith, ground arith, rows),
    )

related-set_accepted :
    (id a b : String) (fs : List Friendship) → related a b (set_accepted id fs) ≡ related a b fs
unfolding related set_accepted
related-set_accepted id a b [] = refl
related-set_accepted id a b (f ∷ fs) = ground (arith, related-set_accepted id a b fs)

has_friendship-set_accepted :
    (id other : String) (fs : List Friendship)
    → has_friendship other (set_accepted id fs) ≡ has_friendship other fs
unfolding has_friendship set_accepted
has_friendship-set_accepted id other [] = refl
has_friendship-set_accepted id other (f ∷ fs) =
    ground (arith, has_friendship-set_accepted id other fs)

pub related-delete :
    (id a b : String) (fs : List Friendship)
    → related a b fs ≡ false
    → related a b (delete_friendship id fs) ≡ false
unfolding related delete_friendship
related-delete id a b [] apart = refl
related-delete id a b (f ∷ fs) apart = ground (arith, related-delete id a b fs)

has_friendship-delete :
    (id other : String) (fs : List Friendship)
    → has_friendship other fs ≡ false
    → has_friendship other (delete_friendship id fs) ≡ false
unfolding has_friendship delete_friendship
has_friendship-delete id other [] new = refl
has_friendship-delete id other (f ∷ fs) new = ground (arith, has_friendship-delete id other fs)

pub set_accepted-DistinctRows :
    (id : String) (us : List User) (fs : List Friendship)
    → DistinctRows us fs
    → DistinctRows us (set_accepted id fs)
unfolding DistinctRows set_accepted
set_accepted-DistinctRows id us [] rows = tt
set_accepted-DistinctRows id us (f ∷ fs) (from, towards, other, new, only, rows) = (
  ground (arith, from),
  ground (arith, towards),
  ground (arith, other),
  ground (arith, has_friendship-set_accepted id f.id fs),
  ground (arith, related-set_accepted id f.requester_id f.addressee_id fs),
  set_accepted-DistinctRows id us fs rows,
)

pub delete-DistinctRows :
    (id : String) (us : List User) (fs : List Friendship)
    → DistinctRows us fs
    → DistinctRows us (delete_friendship id fs)
unfolding DistinctRows delete_friendship
delete-DistinctRows id us [] rows = tt
delete-DistinctRows id us (f ∷ fs) (from, towards, other, new, only, rows) =
    let rest = delete-DistinctRows id us fs rows in
    if-cases (DistinctRows us) (f.id == id) (delete_friendship id fs) (f ∷ delete_friendship id fs)
      (λ gone. rest)
      (λ stays. (
        from,
        towards,
        other,
        has_friendship-delete id f.id fs new,
        related-delete id f.requester_id f.addressee_id fs only,
        rest,
      ))
