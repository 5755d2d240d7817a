-- ===== src/Tests/Match.antt =====
-- A match of two players, and the engine's theorems at it.
use nodefall.Base.{
  All, leb, ◌&&◌, ◌==◌, ◌<◌, ℕ, ◌≡◌, refl, ◌+◌, ◌*◌, true, Option, none, some, is_some, List, [],
  ◌∷◌, length, arith, ◌+ℤ◌, ◌-ℤ◌,
}
use nodefall.Base.Dict.{lookup, insert, erase, has}
use nodefall.Base.Loop.{Returned, for_each, try_each, any}
use nodefall.Runtime.Clock.{since, second}
use nodefall.World.Player.{
  Player, new_player, clamp_position, move_player, can_shoot, record_shot, apply_damage,
  apply_pickup, respawn,
}
use nodefall.World.Bullet.{new_bullet, move_bullet, hits}
use nodefall.World.Item.{new_item, draw_coordinate, spawn_item, spawn_items, collides_with}
use nodefall.World.Zone.{new_zone, shrink, is_outside, damage_if_outside}
use nodefall.Server.Client.{Client, send}
use nodefall.Engine.State.{Engine, Input, waiting, live, random_spawn}
use nodefall.Engine.Session.{
  roster_of, new_engine, new_for_players, start_countdown, admit, join, leave, steer, shoot, act,
  handle_input,
}
use nodefall.Engine.Steps.{
  first_match, settle, move_bullets, collide, check_bullet_collisions, pick_up, check_item_pickups,
  zone_damage, apply_zone_damage, respawn_due, process_respawns,
}
use nodefall.Engine.Lifecycle.{
  tally, respawn_one, clear_match, reset_match, check_match_end, tick_waiting, simulate, tick_live,
  tick_ended, countdown, snapshot, send_all, broadcast, advance, tick,
}
use nodefall.Engine.Invariant.{Inv}
use nodefall.Engine.Invariant.Lifecycle.{Survives}
use nodefall.Engine.Invariant.Run.{run-new_for_players-Survives}
use nodefall.Engine.Invariant.Reset.{IsFresh, reset_match-IsFresh}
use nodefall.Engine.Roster.{roster_only}
use nodefall.Engine.Verdict.{living, verdict, concluded, check_match_end-verdict}
use nodefall.Engine.FireRate.{fire_rate_limit}
use nodefall.Engine.Broadcast.{told, tick_tells}
use nodefall.Engine.Phases.{PhaseStep, tick_phase}
use nodefall.Engine.Respawn.{IsAlive, process_respawns_due}
use nodefall.Engine.Targets.{check_bullet_collisions_spares}
use nodefall.Tests.World.{veteran}
use nodefall.Engine.Run.{Event, joins, inputs, ticks, step, run}
use nodefall.World.Player.Position.{IsPlaced}
use nodefall.Engine.Everyone.Map.{everyone-IsPlaced}
use nodefall.Tests.Host.{host, in_order, tenths, tenths-IsFloat, counting-IsRandom, finite_all}

abbrev ann : Client ℕ
ann = record { id = "ann"; conn = 1; queued = [] }

abbrev bob : Client ℕ
bob = record { id = "bob"; conn = 2; queued = [] }

abbrev noon : ℕ
noon = 63900000000 * second

abbrev fire : Input ℕ
fire = record { dx = 0; dy = 0; angle = 0; shoot = true }

-- Both join, the countdown runs out, and one shoots.
abbrev script : List (Event ℕ (Client ℕ))
script =
    joins noon ann
    ∷ joins (noon + second) bob
    ∷ ticks in_order (noon + 4 * second)
    ∷ inputs (noon + 5 * second) ann fire
    ∷ ticks in_order (noon + 6 * second)
    ∷ []

abbrev opening : Engine ℕ (Client ℕ) × ℕ
opening = new_for_players host ("ann" ∷ "bob" ∷ []) noon 0

abbrev or_opening : Option (Engine ℕ (Client ℕ) × ℕ) → Engine ℕ (Client ℕ) × ℕ
or_opening none = opening
or_opening (some t) = t

played : Engine ℕ (Client ℕ) × ℕ
unfolding lookup insert erase has for_each try_each since new_player clamp_position move_player
    can_shoot record_shot apply_damage apply_pickup respawn new_bullet move_bullet hits new_item
    draw_coordinate spawn_item spawn_items collides_with new_zone shrink is_outside
    damage_if_outside send random_spawn roster_of new_engine new_for_players start_countdown admit
    join leave steer shoot act handle_input first_match settle move_bullets collide
    check_bullet_collisions pick_up check_item_pickups zone_damage apply_zone_damage respawn_due
    process_respawns tally respawn_one clear_match reset_match check_match_end tick_waiting simulate
    tick_live tick_ended countdown snapshot send_all broadcast advance tick step run ◌+ℤ◌ ◌-ℤ◌
played = or_opening (run host script opening)

-- The match is live, with one bullet in flight.
played_live : (played.0.phase ≡ live) × (length played.0.bullets ≡ 1)
unfolding played
played_live = (refl, refl)

run-new_for_players-Survives_example : Survives host (run host script opening)
run-new_for_players-Survives_example =
    run-new_for_players-Survives host ("ann" ∷ "bob" ∷ []) noon 0 script

some_opening :
    (o : Option (Engine ℕ (Client ℕ) × ℕ))
    → is_some o ≡ true
    → o ≡ some ((or_opening o).0, (or_opening o).1)
some_opening none there = cc
some_opening (some t) there = refl

Survives-Inv : (o : Option (Engine ℕ (Client ℕ) × ℕ)) → Survives host o → Inv (or_opening o).0
Survives-Inv none stop = absurd stop
Survives-Inv (some t) v = v

played_ran : run host script opening ≡ some (played.0, played.1)
unfolding played
played_ran = some_opening (run host script opening) refl

played-Inv : Inv played.0
unfolding played
played-Inv =
    Survives-Inv (run host script opening)
      (run-new_for_players-Survives host ("ann" ∷ "bob" ∷ []) noon 0 script)

roster_only_example : has "ann" ("ann" ∷ "bob" ∷ []) ≡ true
unfolding played
roster_only_example =
    roster_only host ("ann" ∷ "bob" ∷ []) noon 0 played.1 script played.0 "ann" played_ran refl

check_match_end-verdict_example :
    check_match_end host noon played
    ≡ concluded noon played.0 played.1 (verdict (living played.0.players))
unfolding played
check_match_end-verdict_example = check_match_end-verdict host noon played.0 played.1 refl

-- Ann shoots; then come a tick, Bob's shot and one more tick.
abbrev volley : List (Event ℕ (Client ℕ))
volley =
    ticks in_order (noon + 10 * second + 50000000)
    ∷ inputs (noon + 10 * second + 60000000) bob fire
    ∷ ticks in_order (noon + 10 * second + 100000000)
    ∷ []

abbrev shot : Engine ℕ (Client ℕ) × ℕ
shot = (handle_input host (noon + 10 * second) ann fire played.0, played.1)

fought : Engine ℕ (Client ℕ) × ℕ
unfolding played
fought = or_opening (run host volley shot)

fire_rate_limit_example :
    length (handle_input host (noon + 10 * second + 299999999) ann fire fought.0).bullets
    ≡ length fought.0.bullets
unfolding fought
fire_rate_limit_example =
    fire_rate_limit host (noon + 10 * second) (noon + 10 * second + 299999999) ann fire fire
      played.0 fought.0 played.1 fought.1 volley played-Inv refl (tt, (tt, (tt, tt)))
      (some_opening (run host volley shot) refl) (omega arith)

later : Engine ℕ (Client ℕ) × ℕ
unfolding played
later = or_opening (tick host in_order (noon + 7 * second) played)

tick_phase_example : PhaseStep (noon + 7 * second) played.0 later.0.phase
unfolding later
tick_phase_example =
    tick_phase host in_order (noon + 7 * second) played.0 later.0 played.1 later.1
      (some_opening (tick host in_order (noon + 7 * second) played) refl)

tick_tells_example :
    lookup "ann" later.0.clients
    ≡ told host
        (host.marshal (snapshot host (noon + 7 * second) later.0))
        (lookup "ann" played.0.clients)
unfolding later
tick_tells_example =
    tick_tells host in_order (noon + 7 * second) "ann" played.0 later.0 played.1 later.1
      (some_opening (tick host in_order (noon + 7 * second) played) refl)

abbrev or_veteran : Option (Player ℕ) → Player ℕ
or_veteran none = veteran
or_veteran (some p) = p

some_veteran : (o : Option (Player ℕ)) → is_some o ≡ true → o ≡ some (or_veteran o)
some_veteran none there = cc
some_veteran (some p) there = refl

abbrev shooter : Player ℕ
shooter = or_veteran (lookup "ann" played.0.players)

-- The bullet in flight is the shooter's own.
check_bullet_collisions_spares_example :
    lookup "ann" (check_bullet_collisions host noon (λ n ks. ks) played.0).players ≡ some shooter
unfolding played
check_bullet_collisions_spares_example =
    check_bullet_collisions_spares host noon (λ n ks. ks) played.0 "ann" shooter
      (some_veteran (lookup "ann" played.0.players) refl) (refl, tt)

reset_match-IsFresh_example :
    let after = (reset_match host noon played).0 in
    (after.phase ≡ waiting)
    × (after.bullets ≡ [])
    × (after.respawn_at ≡ [])
    × (is_some (lookup "bob" after.players) ≡ is_some (lookup "bob" played.0.players))
    × Returned IsFresh (lookup "bob" after.players)
unfolding played
reset_match-IsFresh_example = reset_match-IsFresh host noon played.0 played.1 "bob" played-Inv

-- The match played, with a respawn time for one player.
abbrev awaiting : Engine ℕ (Client ℕ)
awaiting = record played.0 { respawn_at = ("bob", noon) ∷ [] }

resumed : Engine ℕ (Client ℕ) × ℕ
unfolding played
resumed = or_opening (process_respawns host (noon + 3) (awaiting, 7))

process_respawns_due_example :
    (All (λ x. x.0 ≡ "bob" → noon + 3 < x.1) awaiting.respawn_at
      → lookup "bob" resumed.0.players ≡ lookup "bob" awaiting.players)
    × (any (λ x. x.0 == "bob" && leb x.1 (noon + 3)) awaiting.respawn_at ≡ true
        → IsAlive "bob" resumed.0)
unfolding resumed
process_respawns_due_example =
    process_respawns_due host (noon + 3) "bob" awaiting resumed.0 7 resumed.1
      (some_opening (process_respawns host (noon + 3) (awaiting, 7)) refl)

everyone-IsPlaced_example : IsPlaced tenths shooter
unfolding played
everyone-IsPlaced_example =
    everyone-IsPlaced host tenths-IsFloat counting-IsRandom ("ann" ∷ "bob" ∷ []) noon 0 played.1
      script played.0 "ann" shooter (tt, (tt, (tt, ((finite_all 0, finite_all 0), (tt, tt)))))
      played_ran (some_veteran (lookup "ann" played.0.players) refl)
