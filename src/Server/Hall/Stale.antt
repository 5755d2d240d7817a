-- ===== src/Server/Hall/Stale.antt =====
-- services/game/server: the deferred `Leave` of a connection that another one has replaced.
use nodefall.Base.{ℕ, String, false, eqb, ◌≡◌, refl, ◌∙◌, ap, Option, none, some, arith}
use nodefall.Base.Dict.{lookup, lookup-erase_self}
use nodefall.Runtime.Float.{Float}
use nodefall.Runtime.Random.{Random}
use nodefall.Engine.State.{Engine, Input, Snapshot}
use nodefall.Engine.Session.{leave, handle_input}
use nodefall.Server.Client.{Client}
use nodefall.Server.Connect.{connection, read_message}
use nodefall.Server.Hall.{Hall, reads, drops, player_of, disconnect, step}
use nodefall.Server.Hall.Cases.{player_of-unlink}

module _ {F S M : Type 0} (fl : Float F) (rnd : Random F S) (marshal : Snapshot F → Option M) where
  read_message_absent :
      (now n : ℕ) (k : String) (message : Option (Input F)) (e : Engine F (Client M))
      → lookup k e.players ≡ none
      → read_message fl rnd marshal (λ input. input) now (connection fl rnd marshal n k) message e
        ≡ e
  unfolding read_message handle_input
  read_message_absent now n k none e gone = refl
  read_message_absent now n k (some input) e gone = ground arith

  -- When one of two open connections of a player ends, the player is out of the match. The other
  -- connection stays open, and nothing that arrives over it has any effect.
  pub drops_other :
      (n m now : ℕ) (k : String) (message : Option (Input F)) (t : Hall F S M)
      → player_of n t.links ≡ some k
      → player_of m t.links ≡ some k
      → eqb m n ≡ false
      → let u = disconnect fl rnd marshal n k t in
        (step fl rnd marshal (drops n) t ≡ some u)
        × (lookup k u.engine.players ≡ none)
        × (player_of m u.links ≡ some k)
        × (step fl rnd marshal (reads now m message) u ≡ some u)
  drops_other n m now k message t at_n at_m other =
      let u = disconnect fl rnd marshal n k t in
      let gone : lookup k u.engine.players ≡ none =
        unfold disconnect leave in (lookup-erase_self k t.engine.players) in
      let still : player_of m u.links ≡ some k =
        unfold disconnect in (player_of-unlink m n t.links ∙ rw other at_m) in
      (
        unfold step in (rw (at_n, step)),
        gone,
        still,
        unfold step in
            (rw (still, step)
              (ap (λ e. some (record u { engine = e }))
                (read_message_absent now m k message u.engine gone))),
      )
