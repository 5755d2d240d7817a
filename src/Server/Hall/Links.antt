-- ===== src/Server/Hall/Links.antt =====
-- services/game/server: whose clients a match sends to, and how much waits in their channels.
use nodefall.Base.{
  ℕ, String, ◌≡◌, refl, sym, subst, Option, none, some, List, [], ◌∷◌, arith, Option-cases, inl,
  inr, All, All-map,
}
use nodefall.Base.Dict.{Dict, EachAt, insert-EachAt, erase-EachAt}
use nodefall.Base.Loop.{Returned}
use nodefall.Runtime.Float.{Float}
use nodefall.Runtime.Random.{Random}
use nodefall.Engine.State.{Engine, Input, Snapshot, Ranges}
use nodefall.Engine.Session.{admit, leave}
use nodefall.Engine.Lifecycle.{send_all}
use nodefall.Engine.Everyone.Clients.{clients-handle_input, clients-start_countdown, tick-Clients}
use nodefall.Server.Client.{Client}
use nodefall.Server.Connect.{server_host, read_message}
use nodefall.Server.Hall.{
  Link, Hall, Happening, connects, reads, writes, drops, ticks, player_of, unlink, connect,
  disconnect, step, Reach, here, next,
}
use nodefall.Server.Hall.Cases.{other_socket, connect_cases}
use nodefall.Server.Hall.Wires.{
  IsWired, IsLoose, IsWired-send, IsWired-link, IsWired-unlink, set_adrift-IsLoose, forget-IsLoose,
  take_filed-IsWired, take_adrift-IsLoose,
}

-- Every client, in the engine or adrift, is over an open connection of its player.
pub record Wired {F S M : Type 0} (t : Hall F S M) : Type 0 where
  pub filed : EachAt (IsWired t.links) t.engine.clients
  pub loose : All (IsLoose t.links) t.adrift

module _ {F S M : Type 0} (fl : Float F) (rnd : Random F S) (marshal : Snapshot F → Option M) where
  connect-Wired :
      (now n : ℕ) (player : String) (t : Hall F S M)
      → player_of n t.links ≡ none
      → Wired t
      → Wired (connect fl rnd marshal now n player t)
  connect-Wired now n player t fresh w =
      connect_cases fl rnd marshal Wired now n player t w (λ on_roster. record {
        filed =
            unfold admit in
            (insert-EachAt (IsWired _) player _ _
              (record {
                own_id = refl;
                open_link = unfold player_of in (ground arith);
                bounded = omega arith;
              })
              (subst (EachAt (IsWired _)) (sym (clients-start_countdown _ now t.engine)) (
                All-map t.engine.clients (λ x. IsWired-link n player x.0 t.links x.1 fresh)
                  w.filed)));
        loose =
            All-map _ (λ c. IsWired-link n player c.id t.links c fresh)
              (set_adrift-IsLoose t.links player t.engine.clients t.adrift w.filed w.loose);
      })

  disconnect-Wired :
      (n : ℕ) (player : String) (t : Hall F S M)
      → player_of n t.links ≡ some player
      → Wired t
      → Wired (disconnect fl rnd marshal n player t)
  unfolding disconnect leave
  disconnect-Wired n player t at_n w = record {
    filed =
        erase-EachAt (IsWired t.links) (IsWired (unlink n t.links)) player t.engine.clients
          (λ j c ne v.
            IsWired-unlink n j t.links c
              (other_socket c.conn n j player t.links at_n v.open_link ne) v)
          w.filed;
    loose =
        forget-IsLoose n t.links _
          (set_adrift-IsLoose t.links player t.engine.clients t.adrift w.filed w.loose);
  }

  pub clients-read_message :
      (now : ℕ) (c : Client M) (message : Option (Input F)) (e : Engine F (Client M))
      → (read_message fl rnd marshal (λ input. input) now c message e).clients ≡ e.clients
  unfolding read_message
  clients-read_message now c none e = refl
  clients-read_message now c (some input) e = clients-handle_input _ now c input e

  send_all-IsWired :
      (ls : List Link) (msg : M) (m : Dict (Client M))
      → EachAt (IsWired ls) m
      → EachAt (IsWired ls) (send_all (server_host fl rnd marshal) msg m)
  unfolding send_all
  send_all-IsWired ls msg [] each = tt
  send_all-IsWired ls msg ((k, c) ∷ m) (w, rest) =
      (IsWired-send ls k msg c w, send_all-IsWired ls msg m rest)

  tick-Wired :
      (r : Ranges) (now : ℕ) (t : Hall F S M)
      → Wired t
      → Returned Wired (step fl rnd marshal (ticks r now) t)
  unfolding step
  tick-Wired r now t w = go _ (
      tick-Clients (server_host fl rnd marshal) (EachAt (IsWired t.links))
        (send_all-IsWired t.links) r now (t.engine, t.random) w.filed)
    where
      go :
          (o : Option (Engine F (Client M) × S))
          → Returned (λ u. EachAt (IsWired t.links) u.0.clients) o
          → Returned Wired
              (elim o [ none ↦ none | some u ↦ some (record t { engine = u.0; random = u.1 }) ])
      go none r = tt
      go (some u) r = record { filed = r; loose = w.loose }

  -- A socket that `Accept` returns is not one of an open connection.
  abbrev pub HasFreshSocket : Happening F → Hall F S M → Type 0
  HasFreshSocket (connects now n player) t = player_of n t.links ≡ none
  HasFreshSocket (reads now n message) t = Unit
  HasFreshSocket (writes n) t = Unit
  HasFreshSocket (drops n) t = Unit
  HasFreshSocket (ticks r now) t = Unit

  step-Wired :
      (x : Happening F) (t : Hall F S M)
      → HasFreshSocket x t
      → Wired t
      → Returned Wired (step fl rnd marshal x t)
  unfolding step
  step-Wired (connects now n player) t fresh w = connect-Wired now n player t fresh w
  step-Wired (reads now n message) t fresh w = elim (Option-cases (player_of n t.links)) [
    | inl unknown ↦ rw (unknown, step) w
    | inr (player, at_n) ↦
        rw (at_n, step)
          (record {
            filed =
                subst (EachAt (IsWired t.links)) (sym (clients-read_message now _ message t.engine))
                  w.filed;
            loose = w.loose;
          })
  ]
  step-Wired (writes n) t fresh w = record {
    filed = take_filed-IsWired n t.links t.engine.clients w.filed;
    loose = take_adrift-IsLoose n t.links t.adrift w.loose;
  }
  step-Wired (drops n) t fresh w = elim (Option-cases (player_of n t.links)) [
    | inl unknown ↦ rw (unknown, step) w
    | inr (player, at_n) ↦ rw (at_n, step) (disconnect-Wired n player t at_n w)
  ]
  step-Wired (ticks r now) t fresh w = tick-Wired r now t w

  -- Whatever happens to a match and its connections, in whatever order: the match sends only over open
  -- connections of the players that it sends to, and no channel holds more than its capacity.
  pub Reach-Wired :
      {start t : Hall F S M} → Wired start → Reach fl rnd marshal HasFreshSocket start t → Wired t
  Reach-Wired w here = w
  Reach-Wired w (next {t} x r fresh done) =
      subst (Returned Wired) done (step-Wired x t fresh (Reach-Wired w r))
