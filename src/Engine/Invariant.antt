-- ===== src/Engine/Invariant.antt =====
-- What holds of an engine between two calls: each key's entries in the engine's maps fit together,
-- and every bullet in flight is fresh from a gun.
pub mod Slots
pub mod Steps
pub mod Respawns
pub mod Reset
pub mod Lifecycle
pub mod Run
use nodefall.Base.{
  ℕ, String, Bool, true, false, is_some, ◌≡◌, pos, ◌≤ℤ◌, ◌<ℤ◌, Option, none, some, All,
}
use nodefall.Base.Dict.{lookup}
use nodefall.World.Constants.{bullet_damage, bullet_life}
use nodefall.World.Player.{Player}
use nodefall.World.Player.Damage.{IsHealthy}
use nodefall.World.Bullet.{Bullet}
use nodefall.Engine.State.{Engine}
use nodefall.Engine.Session.{is_allowed}

-- What the engine knows of one key: its player, its respawn time, its client, and whether it may
-- join. A player is filed under its own ID, is healthy, has a client, is on the roster, and has a
-- respawn time if it is dead. Where there is no player there is no respawn time and no client.
abbrev pub Slot : {F C : Type 0} → String → Option (Player F) → Option ℕ → Option C → Bool → Type 0
Slot k none at client allowed = (at ≡ none) × (client ≡ none)
Slot k (some p) at client allowed =
    (p.id ≡ k)
    × IsHealthy p
    × (p.alive ≡ false → is_some at ≡ true)
    × (is_some client ≡ true)
    × (allowed ≡ true)

abbrev pub SlotOf : {F C : Type 0} → Engine F C → String → Type 0
SlotOf e k =
    Slot k (lookup k e.players) (lookup k e.respawn_at) (lookup k e.clients)
      (is_allowed e.allowed_players k)

abbrev pub IsLoaded : {F : Type 0} → Bullet F → Type 0
IsLoaded b = (b.damage ≡ bullet_damage) × (pos 0 <ℤ b.life) × (b.life ≤ℤ bullet_life)

pub record Inv {F C : Type 0} (e : Engine F C) : Type 0 where
  pub slots : (k : String) → SlotOf e k
  pub loaded : All IsLoaded e.bullets
