-- ===== src/Auth/Service/Own.antt =====
-- services/auth/main.go: which requests can change a friendship.
use nodefall.Base.{
  ℕ, String, ◌==◌, eq_iff, Bool, false, ◌≡◌, refl, sym, subst, List, [], ◌∷◌, ◌++◌, Option, none,
  some, arith, inl, inr, All, Option-cases, String-cases,
}
use nodefall.Auth.Db.{Friendship, Db, ok}
use nodefall.Auth.Users.{insert_user}
use nodefall.Auth.Friends.{
  request_friend, find_friendship, or_no_request, set_accepted, accept_friend, remove_friend,
}
use nodefall.Auth.Friends.Accepted.{pending}
use nodefall.Auth.Friends.Requests.{find_friendship-delete_ne}
use nodefall.Auth.Friends.Sound.{request_friend-adds}
use nodefall.Base.Loop.{for_each}
use nodefall.Auth.Token.{Jwt}
use nodefall.Http.Mux.{Mux}
use nodefall.Auth.RateLimit.{TokenBucket}
use nodefall.Auth.Service.{AuthService, AuthRequest, Decoders, serve}
use nodefall.Auth.Service.Tables.{user_of, serve-gives}
use nodefall.Auth.Handlers.{Bcrypt}

find_friendship-append_old :
    (id : String) (fs : List Friendship) (f g : Friendship)
    → find_friendship id fs ≡ some f
    → find_friendship id (fs ++ g ∷ []) ≡ some f
unfolding find_friendship
find_friendship-append_old id [] f g there = cc
find_friendship-append_old id (e ∷ fs) f g there =
    ground (arith, find_friendship-append_old id fs f g)

find_friendship-set_accepted_ne :
    (id other : String) (fs : List Friendship)
    → (id == other) ≡ false
    → find_friendship other (set_accepted id fs) ≡ find_friendship other fs
unfolding find_friendship set_accepted
find_friendship-set_accepted_ne id other [] ne = refl
find_friendship-set_accepted_ne id other (f ∷ fs) ne = ground (
  arith,
  find_friendship-set_accepted_ne id other fs ne,
  eq_iff f.id id,
  eq_iff f.id other,
  eq_iff id other,
)

-- The row is there.
abbrev pub Holds : Friendship → Db → Type 0
Holds f db = find_friendship f.id db.friendships ≡ some f

module _ (f : Friendship) (db db' : Db) (up : ℕ → Bool) where
  request_friend-Holds :
      (id requester username : String)
      → Holds f db
      → request_friend up id requester username db ≡ ok db'
      → Holds f db'
  request_friend-Holds id requester username there went =
      let (u, same, from, towards, other, new, only) =
        request_friend-adds up id requester username db db' went in
      subst (Holds f) (sym same)
        (find_friendship-append_old f.id db.friendships f (pending id requester u.id) there)

  accept_friend-Holds :
      (user id : String)
      → (f.addressee_id == user) ≡ false
      → Holds f db
      → accept_friend up user id db ≡ ok db'
      → Holds f db'
  unfolding accept_friend or_no_request
  accept_friend-Holds user id ne there went = elim (String-cases id f.id) [
    | inl same ↦
        let at_id = subst (λ i. find_friendship i db.friendships ≡ some f) (sym same) there in
        ground (arith, at_id)
    | inr (apart, flip, differ) ↦ elim (Option-cases (find_friendship id db.friendships)) [
      | inl missing ↦ ground arith
      | inr (g, found) ↦
          ground (arith, find_friendship-set_accepted_ne id f.id db.friendships apart)
    ]
  ]

  remove_friend-Holds :
      (user id : String)
      → (f.requester_id == user) ≡ false
      → (f.addressee_id == user) ≡ false
      → Holds f db
      → remove_friend up user id db ≡ ok db'
      → Holds f db'
  unfolding remove_friend or_no_request
  remove_friend-Holds user id ne ne' there went = elim (String-cases id f.id) [
    | inl same ↦
        let at_id = subst (λ i. find_friendship i db.friendships ≡ some f) (sym same) there in
        ground (arith, at_id)
    | inr (apart, flip, differ) ↦ elim (Option-cases (find_friendship id db.friendships)) [
      | inl missing ↦ ground arith
      | inr (g, found) ↦ ground (arith, find_friendship-delete_ne id f.id db.friendships apart)
    ]
  ]

-- A verified user, if there is one, who is not one of the two of the row.
abbrev pub Foreign : Friendship → Option String → Type 0
Foreign f none = Unit
Foreign f (some user) = ((f.requester_id == user) ≡ false) × ((f.addressee_id == user) ≡ false)

insert_user-Holds :
    (f : Friendship) (id : String) (now : ℕ) (username hash : String) (db : Db)
    → Holds f db
    → Holds f (insert_user id now username hash db).1
unfolding insert_user
insert_user-Holds f id now username hash db there = ground arith

module _ {D L : Type 0} (mux : Mux) (b : Bcrypt) (j : Jwt) (tb : TokenBucket ℕ L)
    (split : String → Option String) (decode : Decoders D) (getenv : String → String) where
  serve-Holds :
      (f : Friendship) (r : AuthRequest D) (s : AuthService L)
      → Foreign f (user_of mux b j tb split decode getenv r)
      → Holds f s.database
      → Holds f (serve mux b j tb split decode getenv r s).1.database
  serve-Holds f r s foreign there = serve-gives mux b j tb split decode getenv (Holds f) s there r (
    (λ username hash. insert_user-Holds f r.uuid r.now username hash s.database there),
    (λ user verified.
        let (asked, invited) = subst (Foreign f) verified foreign in
        (
          (λ up name db'. request_friend-Holds f s.database db' up r.uuid user name there),
          (λ up id db'. accept_friend-Holds f s.database db' up user id invited there),
          (λ up id db'. remove_friend-Holds f s.database db' up user id asked invited there),
        )),
  )

  -- A friendship or a request is found as it was after any requests to the service, of whatever route and
  -- with whatever token, as long as none of the tokens verifies as one of its two users.
  pub serve_own :
      (f : Friendship) (requests : List (AuthRequest D)) (s : AuthService L)
      → All (λ r. Foreign f (user_of mux b j tb split decode getenv r)) requests
      → find_friendship f.id s.database.friendships ≡ some f
      → find_friendship f.id
          (for_each
            (λ r t. (serve mux b j tb split decode getenv r t).1)
            requests
            s).database.friendships
        ≡ some f
  unfolding for_each
  serve_own f [] s foreign there = there
  serve_own f (r ∷ rs) s (own, foreign) there =
      serve_own f rs (serve mux b j tb split decode getenv r s).1 foreign
        (serve-Holds f r s own there)
