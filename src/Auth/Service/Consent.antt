-- ===== src/Auth/Service/Consent.antt =====
-- services/auth/main.go: how requests change the relation of each two users.
use nodefall.Base.{
  ℕ, String, ◌==◌, eq_iff, true, false, ◌||◌, ◌≡◌, ◌≢◌, ◌⊎◌, inl, inr, refl, sym, ap, subst, ◌∙◌,
  List, [], ◌∷◌, Option, some, All, arith, Bool-cases,
}
use nodefall.Base.Loop.{for_each}
use nodefall.Http.Mux.{Mux}
use nodefall.Auth.Db.{Db}
use nodefall.Auth.Token.{Jwt}
use nodefall.Auth.RateLimit.{TokenBucket}
use nodefall.Auth.Users.{insert_user}
use nodefall.Auth.Handlers.{Bcrypt}
use nodefall.Auth.Friends.Moves.{
  Relation, strangers, asked_by, friends, relation, Move, asks, accepts, declines, parts, Between,
  request_friend-Moved, accept_friend-Moved, remove_friend-Moved,
}
use nodefall.Auth.Friends.Sound.{IsSound}
use nodefall.Auth.Service.{AuthService, AuthRequest, Decoders, serve}
use nodefall.Auth.Service.Tables.{user_of, serve-gives}
use nodefall.Auth.Service.Sound.{serve-IsSound}

insert_user-relation :
    (a b : String) (id : String) (now : ℕ) (username hash : String) (db : Db)
    → relation a b (insert_user id now username hash db).1 ≡ relation a b db
unfolding insert_user
insert_user-relation a b id now username hash db = ground arith

-- Of three users that are one of two, two are the same.
third :
    {P : Type 0} (u v w x y : String)
    → (u == w || v == w) ≡ true
    → (u == x || v == x) ≡ true
    → (u == y || v == y) ≡ true
    → (x == w) ≡ false
    → (y == w) ≡ false
    → (y == x) ≡ false
    → P
third u v w x y in_w in_x in_y x_w y_w y_x = elim (Bool-cases (u == w)) [
  | inl is_u ↦
      let v_x : v ≡ x = ground (arith, eq_iff u w, eq_iff u x, eq_iff x w, eq_iff v x) in
      let v_y : v ≡ y = ground (arith, eq_iff u w, eq_iff u y, eq_iff y w, eq_iff v y) in
      ground (arith, eq_iff y x)
  | inr not_u ↦
      let v_w : v ≡ w = ground (arith, eq_iff v w) in
      let u_x : u ≡ x = ground (arith, eq_iff v x, eq_iff x w, eq_iff u x) in
      let u_y : u ≡ y = ground (arith, eq_iff v y, eq_iff y w, eq_iff u y) in
      ground (arith, eq_iff y x)
]

module _ {D L : Type 0} (mux : Mux) (b : Bcrypt) (j : Jwt) (tb : TokenBucket ℕ L)
    (split : String → Option String) (decode : Decoders D) (getenv : String → String) where
  abbrev caller : AuthRequest D → Option String
  caller r = user_of mux b j tb split decode getenv r

  abbrev Served : AuthRequest D → String → String → Db → Db → Type 0
  Served r u v db db' =
      (relation u v db' ≡ relation u v db)
      ⊎ (user : String) × (caller r ≡ some user)
        × ((u == user || v == user) ≡ true)
        × Move user (relation u v db) (relation u v db')

  moved-Served :
      (r : AuthRequest D) (u v user : String) (db db' : Db)
      → caller r ≡ some user
      → Between user db u v db'
      → Served r u v db db'
  moved-Served r u v user db db' verified (inl same) = inl same
  moved-Served r u v user db db' verified (inr (part, move)) = inr (user, verified, part, move)

  -- If the tables are sound, which is that no two users and no two friendships are the same and each
  -- friendship is between two different users that are there, then a request to the service, of whatever
  -- route, leaves the relation of two users as it is, or its token verifies as one of the two and it
  -- does what that user may do: ask a stranger, accept what the other has asked, take back or decline
  -- what was asked, or end a friendship.
  pub serve_moves :
      (r : AuthRequest D) (s : AuthService L) (u v : String)
      → IsSound s.database
      → let after = (serve mux b j tb split decode getenv r s).1.database in
        (relation u v after ≡ relation u v s.database)
        ⊎ (user : String) × (user_of mux b j tb split decode getenv r ≡ some user)
          × ((u == user || v == user) ≡ true)
          × Move user (relation u v s.database) (relation u v after)
  serve_moves r s u v sound =
      serve-gives mux b j tb split decode getenv (Served r u v s.database) s (inl refl) r (
        (λ username hash. inl (insert_user-relation u v r.uuid r.now username hash s.database)),
        (λ user verified. (
          (λ up name db' went.
              moved-Served r u v user s.database db' verified
                (request_friend-Moved up r.uuid user name s.database db' went u v)),
          (λ up id db' went.
              moved-Served r u v user s.database db' verified
                (accept_friend-Moved up user id s.database db' sound went u v)),
          (λ up id db' went.
              moved-Served r u v user s.database db' verified
                (remove_friend-Moved up user id s.database db' sound went u v)),
        )),
      )

  -- Nobody but the other of the two has asked.
  AskedByOther : String → String → String → Relation → Type 0
  AskedByOther u v w strangers = Unit
  AskedByOther u v w (asked_by x) = ((u == x || v == x) ≡ true) × ((x == w) ≡ false)
  AskedByOther u v w friends = ⊥

  Move-AskedByOther :
      (u v w user : String) (from to : Relation)
      → (u == w || v == w) ≡ true
      → (u == user || v == user) ≡ true
      → (user == w) ≡ false
      → Move user from to
      → AskedByOther u v w from
      → AskedByOther u v w to
  unfolding AskedByOther
  Move-AskedByOther u v w user _ _ of_two part ne asks h = (part, ne)
  Move-AskedByOther u v w user _ _ of_two part ne (accepts x differ) (in_two, ne') =
      third u v w user x of_two part in_two ne ne' differ
  Move-AskedByOther u v w user _ _ of_two part ne (declines x) h = tt
  Move-AskedByOther u v w user _ _ of_two part ne parts h = tt

  serve-AskedByOther :
      (r : AuthRequest D) (s : AuthService L) (u v w : String)
      → IsSound s.database
      → (u == w || v == w) ≡ true
      → caller r ≢ some w
      → AskedByOther u v w (relation u v s.database)
      → AskedByOther u v w (relation u v (serve mux b j tb split decode getenv r s).1.database)
  serve-AskedByOther r s u v w sound of_two not_w h = elim (serve_moves r s u v sound) [
    | inl same ↦ subst (AskedByOther u v w) (sym same) h
    | inr (user, verified, part, move) ↦ elim (Bool-cases (user == w)) [
      | inl is_w ↦ absurd (not_w (verified ∙ ap some ((eq_iff user w).0 is_w)))
      | inr ne ↦ Move-AskedByOther u v w user _ _ of_two part ne move h
    ]
  ]

  serves-AskedByOther :
      (requests : List (AuthRequest D)) (s : AuthService L) (u v w : String)
      → IsSound s.database
      → (u == w || v == w) ≡ true
      → All (λ r. caller r ≢ some w) requests
      → AskedByOther u v w (relation u v s.database)
      → AskedByOther u v w (
          relation u v
            (for_each (λ r t. (serve mux b j tb split decode getenv r t).1) requests s).database)
  unfolding for_each
  serves-AskedByOther [] s u v w sound of_two none_by h = h
  serves-AskedByOther (r ∷ rs) s u v w sound of_two (not_w, none_by) h =
      serves-AskedByOther rs (serve mux b j tb split decode getenv r s).1 u v w
        (serve-IsSound mux b j tb split decode getenv r s sound) of_two none_by
        (serve-AskedByOther r s u v w sound of_two not_w h)

  -- If the tables are sound at first and two users are strangers in them, the two do not become friends by
  -- any requests to the service, of whatever route, as long as none of the tokens verifies as `w`, who is
  -- one of the two.
  pub consent :
      (requests : List (AuthRequest D)) (s : AuthService L) (u v w : String)
      → IsSound s.database
      → relation u v s.database ≡ strangers
      → (u == w || v == w) ≡ true
      → All (λ r. user_of mux b j tb split decode getenv r ≢ some w) requests
      → relation u v
          (for_each (λ r t. (serve mux b j tb split decode getenv r t).1) requests s).database
        ≢ friends
  unfolding AskedByOther
  consent requests s u v w sound apart of_two none_by befriended =
      subst (AskedByOther u v w) befriended
        (serves-AskedByOther requests s u v w sound of_two none_by (rw (apart) tt))
