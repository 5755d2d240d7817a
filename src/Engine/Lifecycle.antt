-- ===== src/Engine/Lifecycle.antt =====
-- The phases of a match: `Tick` and what it dispatches to.
use nodefall.Base.{
  ℕ, ◌+◌, ◌/◌, leb, String, not, ◌&&◌, ltb, ℤ, pos, ◌-ℤ◌, leb_ℤ, max_ℤ, pos_part, Option, none,
  some, [], ◌∷◌, if◌then◌else◌,
}
use nodefall.Base.Dict.{Dict, lookup, insert, keys, values}
use nodefall.Base.Loop.{for_each}
use nodefall.Runtime.Clock.{since, second}
use nodefall.World.Constants.{match_start_delay, reset_delay, item_count}
use nodefall.World.Player.{Player, respawn}
use nodefall.World.Item.{spawn_items}
use nodefall.World.Zone.{new_zone, shrink}
use nodefall.Engine.State.{
  Engine, Host, Phase, Ranges, Snapshot, is_waiting, is_zero, is_empty, random_spawn, waiting, live,
  ended,
}
use nodefall.Engine.Steps.{
  move_bullets, check_bullet_collisions, check_item_pickups, apply_zone_damage, process_respawns,
}

module _ {F : Type 0} where
  -- The loop of `checkMatchEnd`: how many are alive, and the last of them that the range met.
  unfoldable pub tally : Dict (Player F) → ℕ × String → ℕ × String
  tally [] acc = acc
  tally ((id, p) ∷ m) (count, last) = tally m (if p.alive then (count + 1, id) else (count, last))

module _ {F S C M : Type 0} (h : Host F S C M) where
  -- One player's respawn in the loop of `resetMatch`.
  unfoldable pub respawn_one : String → Engine F C × S → Engine F C × S
  respawn_one k (e, s) =
      let (x, y, t) = random_spawn h.float h.random s in
      elim (lookup k e.players) [
        | none ↦ (e, s)
        | some p ↦ (record e { players = insert k (respawn p x y) e.players }, t)
      ]

  -- What `resetMatch` clears before it respawns the players.
  unfoldable pub clear_match : ℕ → Engine F C × S → Engine F C × S
  clear_match now (e, s) =
      let (items, t) = spawn_items h.float h.random item_count s in
      (
        record e {
          bullets = [];
          items = items;
          zone = new_zone h.float now;
          respawn_at = [];
          winner = "";
          ended_at = 0;
        },
        t,
      )

  unfoldable pub reset_match : ℕ → Engine F C × S → Engine F C × S
  reset_match now st =
      let (e, s) = for_each respawn_one (keys st.0.players) (clear_match now st) in
      (record e { phase = waiting; wait_started = if is_empty e.players then 0 else now }, s)

  unfoldable pub check_match_end : ℕ → Engine F C × S → Engine F C × S
  check_match_end now (e, s) =
      let (count, last) = tally e.players (0, "") in
      if is_empty e.players then reset_match now (e, s) else if ltb 1 count then (e, s) else (
        record e { phase = ended; ended_at = now; winner = if leb count 0 then "" else last },
        s,
      )

  unfoldable pub tick_waiting : ℕ → Engine F C → Engine F C
  tick_waiting now e =
      if not (is_zero e.wait_started) && leb_ℤ (pos match_start_delay) (since now e.wait_started)
      then record e { phase = live }
      else e

  -- `tickLive` before `processRespawns`.
  unfoldable pub simulate : Ranges → ℕ → Engine F C → Engine F C
  simulate ranges now e =
      let e1 = record e { bullets = move_bullets h e.bullets } in
      let e2 = check_bullet_collisions h now ranges.by_bullet e1 in
      let e3 = check_item_pickups h ranges.by_item e2 in
      let e4 = record e3 { zone = (shrink h.float now e3.zone).0 } in apply_zone_damage h now e4

  unfoldable pub tick_live : Ranges → ℕ → Engine F C × S → Option (Engine F C × S)
  tick_live ranges now (e, s) = elim (process_respawns h now (simulate ranges now e, s)) [
    | none ↦ none
    | some st ↦ some (check_match_end now st)
  ]

  unfoldable pub tick_ended : ℕ → Engine F C × S → Engine F C × S
  tick_ended now (e, s) =
      if leb_ℤ (pos reset_delay) (since now e.ended_at) then reset_match now (e, s) else (e, s)

  -- `int(remaining/time.Second) + 1`; a negative rest counts as 0.
  unfoldable pub countdown : ℕ → Engine F C → ℤ
  countdown now e =
      if is_waiting e.phase && not (is_zero e.wait_started)
      then pos (
          pos_part (max_ℤ (pos 0) (pos match_start_delay -ℤ since now e.wait_started)) / second + 1)
      else pos 0

  unfoldable pub snapshot : ℕ → Engine F C → Snapshot F
  snapshot now e = record {
    phase = e.phase;
    countdown_seconds = countdown now e;
    winner = e.winner;
    players = values e.players;
    bullets = e.bullets;
    items = e.items;
    zone = e.zone;
  }

  unfoldable pub send_all : M → Dict C → Dict C
  send_all msg [] = []
  send_all msg ((k, c) ∷ m) = (k, h.transport.send msg c) ∷ send_all msg m

  unfoldable pub broadcast : ℕ → Engine F C → Engine F C
  broadcast now e = elim (h.marshal (snapshot now e)) [
    | none ↦ e
    | some msg ↦ record e { clients = send_all msg e.clients }
  ]

  -- The `switch` of `Tick`.
  unfoldable pub advance : Ranges → ℕ → Phase → Engine F C × S → Option (Engine F C × S)
  advance ranges now waiting (e, s) = some (tick_waiting now e, s)
  advance ranges now ended st = some (tick_ended now st)
  advance ranges now live st = tick_live ranges now st

  -- `none` is a panic.
  unfoldable pub tick : Ranges → ℕ → Engine F C × S → Option (Engine F C × S)
  tick ranges now st = elim (advance ranges now st.0.phase st) [
    | none ↦ none
    | some (e, s) ↦ some (broadcast now e, s)
  ]
