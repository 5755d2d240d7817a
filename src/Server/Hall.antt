-- ===== src/Server/Hall.antt =====
-- services/game/server: the connections of one match from `Join` to the deferred `Leave`, with their
-- two pumps, and the ticks of its engine. A step is what happens between two waits of a goroutine.
pub mod Cases
pub mod Wires
pub mod Links
pub mod Members
pub mod Stale
use nodefall.Base.{
  ℕ, String, Bool, eqb, Option, none, some, List, [], ◌∷◌, if◌then◌else◌, not, ◌≡◌, false,
}
use nodefall.Base.Dict.{Dict, lookup}
use nodefall.Runtime.Float.{Float}
use nodefall.Runtime.Random.{Random}
use nodefall.Engine.State.{Engine, Input, Ranges, Snapshot}
use nodefall.Engine.Session.{join, leave}
use nodefall.Engine.Lifecycle.{tick}
use nodefall.Server.Client.{Client, receive}
use nodefall.Server.Connect.{server_host, connection, read_message}

-- An open connection: its web socket, and the player whose it is.
pub record Link : Type 0 where
  pub conn : ℕ
  pub player : String

-- `adrift` holds the clients of open connections that the engine has no longer under their player's
-- ID: another connection of that player took the place, or took the player out.
pub record Hall (F S M : Type 0) : Type 0 where
  pub engine : Engine F (Client M)
  pub random : S
  pub links : List Link
  pub adrift : List (Client M)

pub data Happening (F : Type 0) : Type 0 where
  -- A connection that `ServeWS` has upgraded, at the call of `Join`.
  connects : ℕ → ℕ → String → Happening F
  -- A message for `readPump`, none if it does not decode.
  reads : ℕ → ℕ → Option (Input F) → Happening F
  -- The next message that `writePump` takes.
  writes : ℕ → Happening F
  -- Both pumps have ended: a read or a write has failed.
  drops : ℕ → Happening F
  ticks : Ranges → ℕ → Happening F

-- The player of an open connection.
unfoldable pub player_of : ℕ → List Link → Option String
player_of n [] = none
player_of n (l ∷ ls) = if eqb l.conn n then some l.player else player_of n ls

unfoldable pub unlink : ℕ → List Link → List Link
unlink n [] = []
unlink n (l ∷ ls) = let rest = unlink n ls in if eqb l.conn n then rest else l ∷ rest

module _ {M : Type 0} where
  unfoldable pub set_adrift : Option (Client M) → List (Client M) → List (Client M)
  set_adrift none cs = cs
  set_adrift (some c) cs = c ∷ cs

  -- The client of the connection is forgotten.
  unfoldable pub forget : ℕ → List (Client M) → List (Client M)
  forget n [] = []
  forget n (c ∷ cs) = let rest = forget n cs in if eqb c.conn n then rest else c ∷ rest

  -- One message, if there is one, is taken from the channel of the connection.
  unfoldable pub take_from : ℕ → Client M → Client M
  take_from n c = if eqb c.conn n then elim (receive c) [ none ↦ c | some (msg, c') ↦ c' ] else c

  unfoldable pub take_filed : ℕ → Dict (Client M) → Dict (Client M)
  take_filed n [] = []
  take_filed n ((k, c) ∷ m) = (k, take_from n c) ∷ take_filed n m

  unfoldable pub take_adrift : ℕ → List (Client M) → List (Client M)
  take_adrift n [] = []
  take_adrift n (c ∷ cs) = take_from n c ∷ take_adrift n cs

module _ {F S M : Type 0} (fl : Float F) (rnd : Random F S) (marshal : Snapshot F → Option M) where
  -- From `e.Join(client)` to the start of the pumps. A refused client is closed.
  unfoldable pub connect : ℕ → ℕ → String → Hall F S M → Hall F S M
  connect now n player t =
      let (e, s, let_in) =
        join (server_host fl rnd marshal) now (connection fl rnd marshal n player) t.engine
          t.random in
      if not let_in then t else record {
        engine = e;
        random = s;
        links = record { conn = n; player = player } ∷ t.links;
        adrift = set_adrift (lookup player t.engine.clients) t.adrift;
      }

  -- The deferred `e.Leave(client)`, which goes by the client's ID.
  unfoldable pub disconnect : ℕ → String → Hall F S M → Hall F S M
  disconnect n player t = record {
    engine = leave (server_host fl rnd marshal) (connection fl rnd marshal n player) t.engine;
    random = t.random;
    links = unlink n t.links;
    adrift = forget n (set_adrift (lookup player t.engine.clients) t.adrift);
  }

  unfoldable pub step : Happening F → Hall F S M → Option (Hall F S M)
  step (connects now n player) t = some (connect now n player t)
  step (reads now n message) t = elim (player_of n t.links) [
    | none ↦ some t
    | some player ↦ some (record t {
      engine =
          read_message fl rnd marshal (λ input. input) now (connection fl rnd marshal n player)
            message t.engine;
    })
  ]
  step (writes n) t = some (record t {
    engine = record t.engine { clients = take_filed n t.engine.clients };
    adrift = take_adrift n t.adrift;
  })
  step (drops n) t = elim (player_of n t.links) [
    | none ↦ some t
    | some player ↦ some (disconnect n player t)
  ]
  step (ticks ranges now) t =
      elim (tick (server_host fl rnd marshal) ranges now (t.engine, t.random)) [
        | none ↦ none
        | some (e, s) ↦ some (record t { engine = e; random = s })
      ]

  -- The states that a hall comes to by happenings that `May` admits in the states that they find.
  pub data Reach (May : Happening F → Hall F S M → Type 0) (start : Hall F S M)
      : Hall F S M → Type 0 where
    here : Reach May start start
    next :
        {t u : Hall F S M} (x : Happening F)
        → Reach May start t
        → May x t
        → step x t ≡ some u
        → Reach May start u
