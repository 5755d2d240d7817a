-- ===== src/Server/Hall/Members/Single.antt =====
-- services/game/server: a match whose players connect once at a time.
use nodefall.Base.{
  ℕ, String, is_some, Bool, true, ◌≡◌, ◌≢◌, ◌↔◌, refl, ◌∙◌, sym, subst, ap, Option, none, some,
  List, [], ◌∷◌, arith, Option-cases, inl, inr,
}
use nodefall.Base.Dict.{Dict, lookup, lookup-EachAt}
use nodefall.Base.Loop.{Returned}
use nodefall.Runtime.Float.{Float}
use nodefall.Runtime.Random.{Random}
use nodefall.World.Player.{Player}
use nodefall.Engine.State.{Engine, Snapshot}
use nodefall.Engine.Session.{admit, leave, new_for_players, new_engine}
use nodefall.Engine.Lifecycle.{send_all}
use nodefall.Engine.Everyone.Clients.{clients-start_countdown, tick-Clients}
use nodefall.Engine.Invariant.{Slot, Inv}
use nodefall.Engine.Invariant.Run.{new_for_players-Inv}
use nodefall.Server.Client.{Client, send}
use nodefall.Server.Connect.{server_host}
use nodefall.Server.Hall.{
  Link, Hall, Happening, connects, reads, writes, drops, ticks, player_of, disconnect, step, Reach,
  here, next,
}
use nodefall.Server.Hall.Cases.{connect_cases}
use nodefall.Server.Hall.Wires.{IsWired}
use nodefall.Server.Hall.Links.{Wired, HasFreshSocket, clients-read_message, Reach-Wired}
use nodefall.Server.Hall.Members.{
  Lives, step-Lives, conn_of, conn-take_filed, IsAttached, IsAttached-insert, IsAttached-erase,
}

module _ {F S M : Type 0} (fl : Float F) (rnd : Random F S) (marshal : Snapshot F → Option M) where
  -- The match that `CreateMatch` makes for a roster, with no connection yet.
  abbrev pub new_hall : List String → ℕ → S → Hall F S M
  new_hall ids now s =
      let (e, u) = new_for_players (server_host fl rnd marshal) ids now s in
      record { engine = e; random = u; links = []; adrift = [] }

  -- The socket is a new one, and the player has no other connection open.
  abbrev pub IsSingle : Happening F → Hall F S M → Type 0
  IsSingle (connects now n player) t =
      (player_of n t.links ≡ none) × ((m : ℕ) → player_of m t.links ≢ some player)
  IsSingle (reads now n message) t = Unit
  IsSingle (writes n) t = Unit
  IsSingle (drops n) t = Unit
  IsSingle (ticks r now) t = Unit

  IsSingle-fresh :
      (x : Happening F) (t : Hall F S M) → IsSingle x t → HasFreshSocket fl rnd marshal x t
  IsSingle-fresh (connects now n player) t single = single.0
  IsSingle-fresh (reads now n message) t single = tt
  IsSingle-fresh (writes n) t single = tt
  IsSingle-fresh (drops n) t single = tt
  IsSingle-fresh (ticks r now) t single = tt

  Reach-fresh :
      {start t : Hall F S M}
      → Reach fl rnd marshal IsSingle start t
      → Reach fl rnd marshal (HasFreshSocket fl rnd marshal) start t
  Reach-fresh here = here
  Reach-fresh (next {t} x r single done) = next x (Reach-fresh r) (IsSingle-fresh x t single) done

  conn-send_all :
      (msg : M) (k : String) (m : Dict (Client M))
      → conn_of (lookup k (send_all (server_host fl rnd marshal) msg m)) ≡ conn_of (lookup k m)
  unfolding lookup send_all send
  conn-send_all msg k [] = refl
  conn-send_all msg k ((j, c) ∷ m) = ground (arith, conn-send_all msg k m)

  -- The clients in the engine are attached.
  abbrev pub Attached : Hall F S M → Type 0
  Attached t = IsAttached t.links t.engine.clients

  step-Attached :
      (x : Happening F) (t : Hall F S M)
      → IsSingle x t
      → Attached t
      → Returned Attached (step fl rnd marshal x t)
  unfolding step
  step-Attached (connects now n player) t (fresh, alone) held =
      connect_cases fl rnd marshal Attached now n player t held (λ on_roster.
        unfold admit in
        (IsAttached-insert n player t.links _ _ refl alone
          (subst (IsAttached t.links) (sym (clients-start_countdown _ now t.engine)) held)))
  step-Attached (reads now n message) t single held = elim (Option-cases (player_of n t.links)) [
    | inl unknown ↦ rw (unknown, step) held
    | inr (player, at_n) ↦
        rw (at_n, step)
          (subst (IsAttached t.links)
            (sym (clients-read_message fl rnd marshal now _ message t.engine)) held)
  ]
  step-Attached (writes n) t single held =
      λ i k open_i. conn-take_filed n k t.engine.clients ∙ held i k open_i
  step-Attached (drops n) t single held = elim (Option-cases (player_of n t.links)) [
    | inl unknown ↦ rw (unknown, step) held
    | inr (player, at_n) ↦
        rw (at_n, step)
          (unfold disconnect leave in
            (IsAttached-erase n player t.links t.engine.clients at_n held))
  ]
  step-Attached (ticks r now) t single held = go _ (
      tick-Clients (server_host fl rnd marshal) (IsAttached t.links)
        (λ msg m attached i k open_i. conn-send_all msg k m ∙ attached i k open_i) r now
        (t.engine, t.random) held)
    where
      go :
          (o : Option (Engine F (Client M) × S))
          → Returned (λ u. IsAttached t.links u.0.clients) o
          → Returned Attached
              (elim o [ none ↦ none | some u ↦ some (record t { engine = u.0; random = u.1 }) ])
      go none r = tt
      go (some u) r = r

  Reach-Attached :
      {start t : Hall F S M} → Attached start → Reach fl rnd marshal IsSingle start t → Attached t
  Reach-Attached held here = held
  Reach-Attached held (next {t} x r single done) =
      subst (Returned Attached) done (step-Attached x t single (Reach-Attached held r))

  Reach-Inv :
      {May : Happening F → Hall F S M → Type 0} {start t : Hall F S M}
      → Inv start.engine
      → Reach fl rnd marshal May start t
      → Inv t.engine
  Reach-Inv v here = v
  Reach-Inv v (next {t} x r may done) =
      subst (Lives fl rnd marshal) done (step-Lives fl rnd marshal x t (Reach-Inv v r))

  pub new_hall-Wired : (ids : List String) (now : ℕ) (s : S) → Wired (new_hall ids now s)
  unfolding new_for_players new_engine
  new_hall-Wired ids now s = record { filed = tt; loose = tt }

  new_hall-Attached : (ids : List String) (now : ℕ) (s : S) → Attached (new_hall ids now s)
  unfolding player_of
  new_hall-Attached ids now s n k open_n = cc

  -- A player who is there has a client, and where there is no player there is none.
  Slot-members :
      (k : String) (o : Option (Player F)) (at : Option ℕ) (c : Option (Client M)) (allowed : Bool)
      → Slot k o at c allowed
      → is_some o ≡ is_some c
  Slot-members k none at c allowed (_, off) = ap is_some (sym off)
  Slot-members k (some p) at c allowed (_, _, _, on, _) = sym on

  has-conn : (o : Option (Client M)) (n : ℕ) → conn_of o ≡ some n → is_some o ≡ true
  has-conn none n e = cc
  has-conn (some c) n e = refl

  linked :
      (ls : List Link) (k : String) (m : Dict (Client M)) (o : Option (Client M))
      → ((c : Client M) → o ≡ some c → IsWired ls k c)
      → is_some o ≡ true
      → (n : ℕ) × (player_of n ls ≡ some k)
  linked ls k m none wired there = cc
  linked ls k m (some c) wired there = (c.conn, (wired c refl).open_link)

  -- If no player connects while another of their connections is open, then, whatever else happens to a
  -- match and its connections, the players in the match are exactly those with an open connection.
  pub members_connected :
      (ids : List String) (now : ℕ) (s : S) (t : Hall F S M) (k : String)
      → Reach fl rnd marshal IsSingle (new_hall ids now s) t
      → (is_some (lookup k t.engine.players) ≡ true) ↔ ((n : ℕ) × (player_of n t.links ≡ some k))
  members_connected ids now s t k r =
      let v : Inv t.engine = Reach-Inv (new_for_players-Inv _ ids now s) r in
      let w = Reach-Wired fl rnd marshal (new_hall-Wired ids now s) (Reach-fresh r) in
      let held : Attached t = Reach-Attached (new_hall-Attached ids now s) r in
      let same = Slot-members k _ _ _ _ (v.slots k) in
      (
        λ there.
            linked t.links k t.engine.clients (lookup k t.engine.clients)
              (λ c at_k. lookup-EachAt (IsWired t.links) k t.engine.clients c w.filed at_k)
              (sym same ∙ there),
        λ (n, open_n). same ∙ has-conn (lookup k t.engine.clients) n (held n k open_n),
      )
