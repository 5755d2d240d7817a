-- ===== src/Engine/Steps.antt =====
-- The parts of `tickLive`, up to `processRespawns`.
use nodefall.Base.{ℕ, suc, ◌+◌, String, Bool, ltb, Option, none, some, List, [], ◌∷◌, if◌then◌else◌}
use nodefall.Base.Dict.{Dict, lookup, insert, erase, keys}
use nodefall.Base.Loop.{for_each, try_each}
use nodefall.World.Constants.{respawn_delay}
use nodefall.World.Player.{Player, apply_damage, apply_pickup, respawn}
use nodefall.World.Bullet.{Bullet, move_bullet, hits}
use nodefall.World.Item.{Item, collides_with}
use nodefall.World.Zone.{damage_if_outside}
use nodefall.Engine.State.{Engine, Host, random_spawn}

module _ {F : Type 0} where
  -- `for _, player := range e.players { if test(player) { …; break } }`: the key and the player at
  -- which the range over `ks` stops.
  unfoldable pub first_match :
      (Player F → Bool) → Dict (Player F) → List String → Option (String × Player F)
  first_match test players [] = none
  first_match test players (k ∷ ks) =
      let rest = first_match test players ks in
      elim (lookup k players) [ none ↦ rest | some p ↦ if test p then some (k, p) else rest ]

module _ {F C : Type 0} where
  -- A player hit by damage: the player is written back, and a death schedules the respawn.
  unfoldable pub settle : ℕ → String → Player F × Bool → Engine F C → Engine F C
  settle now k (q, died) e = record e {
    players = insert k q e.players;
    respawn_at = if died then insert q.id (now + respawn_delay) e.respawn_at else e.respawn_at;
  }

module _ {F S C M : Type 0} (h : Host F S C M) where
  unfoldable pub move_bullets : List (Bullet F) → List (Bullet F)
  move_bullets [] = []
  move_bullets (b ∷ bs) =
      let rest = move_bullets bs in
      let (moved, kept) = move_bullet h.float b in if kept then moved ∷ rest else rest

  -- The loop of `checkBulletCollisions` from the n-th bullet on: the bullets that remain, and the
  -- engine after the hits.
  unfoldable pub collide :
      ℕ
      → (ℕ → List String → List String)
      → ℕ
      → List (Bullet F)
      → Engine F C
      → List (Bullet F) × Engine F C
  collide now order n [] e = ([], e)
  collide now order n (b ∷ bs) e =
      elim (first_match (hits h.float b) e.players (order n (keys e.players))) [
        | none ↦ let (rest, e') = collide now order (suc n) bs e in (b ∷ rest, e')
        | some (k, p) ↦ collide now order (suc n) bs (settle now k (apply_damage p b.damage) e)
      ]

  unfoldable pub check_bullet_collisions :
      ℕ → (ℕ → List String → List String) → Engine F C → Engine F C
  check_bullet_collisions now order e =
      let (remaining, e') = collide now order 0 e.bullets e in record e' { bullets = remaining }

  -- The loop of `checkItemPickups` from the n-th item on.
  unfoldable pub pick_up :
      (ℕ → List String → List String) → ℕ → List (Item F) → Engine F C → List (Item F) × Engine F C
  pick_up order n [] e = ([], e)
  pick_up order n (item ∷ items) e =
      elim (first_match (collides_with h.float item) e.players (order n (keys e.players))) [
        | none ↦ let (rest, e') = pick_up order (suc n) items e in (item ∷ rest, e')
        | some (k, p) ↦
            pick_up order (suc n) items
              (record e { players = insert k (apply_pickup p item.type) e.players })
      ]

  unfoldable pub check_item_pickups : (ℕ → List String → List String) → Engine F C → Engine F C
  check_item_pickups order e =
      let (remaining, e') = pick_up order 0 e.items e in record e' { items = remaining }

  -- The body of the loop of `applyZoneDamage`.
  unfoldable pub zone_damage : ℕ → String → Engine F C → Engine F C
  zone_damage now k e = elim (lookup k e.players) [
    | none ↦ e
    | some p ↦ settle now k (damage_if_outside h.float e.zone p) e
  ]

  unfoldable pub apply_zone_damage : ℕ → Engine F C → Engine F C
  apply_zone_damage now e = for_each (zone_damage now) (keys e.players) e

  -- The body of the loop of `processRespawns`. `e.players[id]` of a missing player is nil, and the
  -- call of its method panics: `none`.
  unfoldable pub respawn_due : ℕ → String × ℕ → Engine F C × S → Option (Engine F C × S)
  respawn_due now (id, at) (e, s) =
      let (x, y, t) = random_spawn h.float h.random s in
      if ltb now at then some (e, s) else elim (lookup id e.players) [
        | none ↦ none
        | some p ↦ some (
          record e {
            players = insert id (respawn p x y) e.players;
            respawn_at = erase id e.respawn_at;
          },
          t,
        )
      ]

  unfoldable pub process_respawns : ℕ → Engine F C × S → Option (Engine F C × S)
  process_respawns now (e, s) = try_each (respawn_due now) e.respawn_at (e, s)
