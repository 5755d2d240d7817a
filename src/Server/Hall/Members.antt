-- ===== src/Server/Hall/Members.antt =====
-- services/game/server: who is in a match, and who is connected to it.
pub mod Single
use nodefall.Base.{
  ℕ, String, ◌==◌, eq_iff, eq_refl, Bool, true, false, not, eqb, is_some, ◌≡◌, ◌≢◌, ◌↔◌, refl, ◌∙◌,
  sym, subst, ap, Option, none, some, List, [], ◌∷◌, arith, if◌then◌else◌, if-cases, Bool-cases,
  Option-cases, String-cases, inl, inr,
}
use nodefall.Base.Dict.{
  Dict, lookup, insert, erase, lookup-insert, lookup-erase, EachAt, lookup-EachAt,
}
use nodefall.Base.Loop.{Returned}
use nodefall.Runtime.Float.{Float}
use nodefall.Runtime.Random.{Random}
use nodefall.World.Player.{Player}
use nodefall.Engine.State.{Engine, Input, Snapshot, Ranges}
use nodefall.Engine.Session.{is_allowed, start_countdown, admit, join, leave, new_for_players}
use nodefall.Engine.Lifecycle.{tick, send_all}
use nodefall.Engine.Everyone.Clients.{clients-handle_input, clients-start_countdown, tick-Clients}
use nodefall.Engine.Invariant.{Slot, Inv}
use nodefall.Engine.Invariant.Lifecycle.{Survives, tick-Survives, Slot-client}
use nodefall.Engine.Invariant.Run.{join-Inv, leave-Inv, handle_input-Inv, new_for_players-Inv}
use nodefall.Server.Client.{Client, send, receive}
use nodefall.Server.Connect.{server_host, connection, read_message}
use nodefall.Server.Hall.{
  Link, Hall, Happening, connects, reads, writes, drops, ticks, player_of, unlink, set_adrift,
  forget, take_from, take_filed, take_adrift, connect, disconnect, step, Reach, here, next,
}
use nodefall.Server.Hall.Cases.{player_of-unlink, player_of-link, other_socket, connect_cases}
use nodefall.Server.Hall.Wires.{IsWired}
use nodefall.Server.Hall.Links.{Wired, HasFreshSocket, Reach-Wired}

module _ {M : Type 0} where
  has-take_filed :
      (n : ℕ) (k : String) (m : Dict (Client M))
      → is_some (lookup k (take_filed n m)) ≡ is_some (lookup k m)
  unfolding lookup take_filed
  has-take_filed n k [] = refl
  has-take_filed n k ((j, c) ∷ m) = ground (arith, has-take_filed n k m)

  -- The socket of the client under an ID.
  abbrev pub conn_of : Option (Client M) → Option ℕ
  conn_of none = none
  conn_of (some c) = some c.conn

  conn-take_filed :
      (n : ℕ) (k : String) (m : Dict (Client M))
      → conn_of (lookup k (take_filed n m)) ≡ conn_of (lookup k m)
  unfolding lookup take_filed take_from receive
  conn-take_filed n k [] = refl
  conn-take_filed n k ((j, c) ∷ m) = ground (arith, conn-take_filed n k m)

  -- Every open connection is the one by which its player is in the match.
  abbrev pub IsAttached : List Link → Dict (Client M) → Type 0
  IsAttached ls m = (n : ℕ) (k : String) → player_of n ls ≡ some k → conn_of (lookup k m) ≡ some n

  IsAttached-insert :
      (n : ℕ) (player : String) (ls : List Link) (m : Dict (Client M)) (c : Client M)
      → c.conn ≡ n
      → ((i : ℕ) → player_of i ls ≢ some player)
      → IsAttached ls m
      → IsAttached (record { conn = n; player = player } ∷ ls) (insert player c m)
  unfolding player_of
  IsAttached-insert n player ls m c own none_else held i k open_i =
      ground (arith, lookup-insert player k c m, held i k, none_else i, eq_iff player k)

  IsAttached-erase :
      (n : ℕ) (player : String) (ls : List Link) (m : Dict (Client M))
      → player_of n ls ≡ some player
      → IsAttached ls m
      → IsAttached (unlink n ls) (erase player m)
  IsAttached-erase n player ls m at_n held i k open_i = ground (
    arith,
    player_of-unlink i n ls,
    lookup-erase player k m,
    held i k,
    held n player,
    eq_iff player k,
  )

module _ {F S M : Type 0} (fl : Float F) (rnd : Random F S) (marshal : Snapshot F → Option M) where
  -- No panic, and the engine's invariant.
  abbrev pub Lives : Option (Hall F S M) → Type 0
  Lives none = ⊥
  Lives (some t) = Inv t.engine

  connect-Inv :
      (now n : ℕ) (player : String) (t : Hall F S M)
      → Inv t.engine
      → Inv (connect fl rnd marshal now n player t).engine
  unfolding connect
  connect-Inv now n player t v =
      if-cases {A = Hall F S M} (λ u. Inv u.engine) _ t _ (λ refused. v)
        (λ let_in.
          join-Inv (server_host fl rnd marshal) now (connection fl rnd marshal n player) t.engine
            t.random v)

  read_message-Inv :
      (now : ℕ) (c : Client M) (message : Option (Input F)) (e : Engine F (Client M))
      → Inv e
      → Inv (read_message fl rnd marshal (λ input. input) now c message e)
  unfolding read_message
  read_message-Inv now c none e v = v
  read_message-Inv now c (some input) e v = handle_input-Inv _ now c input e v

  pub step-Lives :
      (x : Happening F) (t : Hall F S M) → Inv t.engine → Lives (step fl rnd marshal x t)
  unfolding step
  step-Lives (connects now n player) t v = connect-Inv now n player t v
  step-Lives (reads now n message) t v = elim (Option-cases (player_of n t.links)) [
    | inl unknown ↦ rw (unknown, step) v
    | inr (player, at_n) ↦ rw (at_n, step) (read_message-Inv now _ message t.engine v)
  ]
  step-Lives (writes n) t v = record {
    slots = λ k.
        Slot-client (server_host fl rnd marshal) k _ _ _ _ _ (has-take_filed n k t.engine.clients)
          (v.slots k);
    loaded = v.loaded;
  }
  step-Lives (drops n) t v = elim (Option-cases (player_of n t.links)) [
    | inl unknown ↦ rw (unknown, step) v
    | inr (player, at_n) ↦ rw (at_n, step) (unfold disconnect in (leave-Inv _ _ t.engine v))
  ]
  step-Lives (ticks r now) t v =
      go _ (tick-Survives (server_host fl rnd marshal) r now t.engine t.random v)
    where
      go :
          (o : Option (Engine F (Client M) × S))
          → Survives (server_host fl rnd marshal) o
          → Lives (elim o [ none ↦ none | some u ↦ some (record t { engine = u.0; random = u.1 }) ])
      go none stop = stop
      go (some u) w = w
