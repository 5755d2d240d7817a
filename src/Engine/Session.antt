-- ===== src/Engine/Session.antt =====
-- The methods that connections call: `New`, `NewForPlayers`, `Join`, `Leave`, `PlayerCount` and
-- `HandleInput`.
pub mod Cases
use nodefall.Base.{
  ℕ, String, Bool, true, false, not, ◌&&◌, Option, none, some, List, [], ◌∷◌, ◌++◌, length,
  if◌then◌else◌,
}
use nodefall.Base.Dict.{Dict, lookup, insert, erase}
use nodefall.World.Constants.{item_count, fire_rate, bullet_damage}
use nodefall.World.Player.{Player, new_player, move_player, can_shoot, record_shot}
use nodefall.World.Bullet.{new_bullet}
use nodefall.World.Item.{spawn_items}
use nodefall.World.Zone.{new_zone}
use nodefall.Engine.State.{
  Engine, Host, Input, is_waiting, is_live, is_zero, is_empty, random_spawn, waiting,
}

-- `e.allowedPlayers == nil || e.allowedPlayers[id]`: a missing key reads as false.
abbrev pub is_allowed : Option (Dict Bool) → String → Bool
is_allowed none id = true
is_allowed (some roster) id = elim (lookup id roster) [ none ↦ false | some allowed ↦ allowed ]

unfoldable pub roster_of : List String → Dict Bool
roster_of [] = []
roster_of (id ∷ ids) = insert id true (roster_of ids)

module _ {F S C M : Type 0} (h : Host F S C M) where
  -- `New`: the engine, and the state of the random source after the items are drawn.
  unfoldable pub new_engine : ℕ → S → Engine F C × S
  new_engine now s =
      let (items, t) = spawn_items h.float h.random item_count s in
      (
        record {
          players = [];
          clients = [];
          bullets = [];
          items = items;
          zone = new_zone h.float now;
          respawn_at = [];
          phase = waiting;
          wait_started = 0;
          ended_at = 0;
          winner = "";
          allowed_players = none;
        },
        t,
      )

  unfoldable pub new_for_players : List String → ℕ → S → Engine F C × S
  new_for_players ids now s =
      let (e, t) = new_engine now s in (record e { allowed_players = some (roster_of ids) }, t)

  -- The first player to join a waiting match starts the countdown.
  unfoldable pub start_countdown : ℕ → Engine F C → Engine F C
  start_countdown now e =
      if is_waiting e.phase && is_empty e.players && is_zero e.wait_started
      then record e { wait_started = now }
      else e

  -- The player and the client of one connection, filed under the client's ID.
  unfoldable pub admit : C → F → F → Engine F C → Engine F C
  admit c x y e =
      let id = h.transport.id c in
      record e {
        players = insert id (new_player h.float id x y) e.players;
        clients = insert id c e.clients;
      }

  -- The engine after `Join`, the random source, and whether the client was let in.
  unfoldable pub join : ℕ → C → Engine F C → S → Engine F C × S × Bool
  join now c e s =
      let (x, y, t) = random_spawn h.float h.random s in
      if not (is_allowed e.allowed_players (h.transport.id c))
      then (e, s, false)
      else (admit c x y (start_countdown now e), t, true)

  unfoldable pub leave : C → Engine F C → Engine F C
  leave c e =
      let id = h.transport.id c in
      record e {
        players = erase id e.players;
        clients = erase id e.clients;
        respawn_at = erase id e.respawn_at;
      }

  unfoldable pub player_count : Engine F C → ℕ
  player_count e = length e.players

  unfoldable pub steer : Player F → Input F → Player F
  steer p input = record (move_player h.float p input.dx input.dy) { angle = input.angle }

  -- The shot of a player who has moved.
  unfoldable pub shoot : ℕ → String → Player F → Input F → Engine F C → Engine F C
  shoot now id p input e = record e {
    players = insert id (record_shot p now) e.players;
    bullets = e.bullets ++ new_bullet h.float p.id p.x p.y input.angle bullet_damage ∷ [];
  }

  -- What a living player's input does in a live match.
  unfoldable pub act : ℕ → String → Player F → Input F → Engine F C → Engine F C
  act now id p input e =
      let moved = steer p input in
      if input.shoot && can_shoot moved fire_rate now
      then shoot now id moved input e
      else record e { players = insert id moved e.players }

  unfoldable pub handle_input : ℕ → C → Input F → Engine F C → Engine F C
  handle_input now c input e =
      let id = h.transport.id c in
      if not (is_live e.phase) then e else elim (lookup id e.players) [
        | none ↦ e
        | some p ↦ if not p.alive then e else act now id p input e
      ]
