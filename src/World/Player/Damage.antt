-- ===== src/World/Player/Damage.antt =====
-- services/game/world/player.go: what damage and pickups do to a player's health.
use nodefall.Base.{
  ℕ, ◌+◌, ◌-◌, ◌≡◌, ◌&&◌, true, false, arith, ltb, leb, ℤ, pos, ◌+ℤ◌, ◌-ℤ◌, ◌≤ℤ◌, ◌<ℤ◌, String,
}
use nodefall.World.Constants.{player_start_hp, player_max_armour}
use nodefall.World.Player.{Player, apply_damage, apply_pickup, respawn}

-- Health and armour lie in their ranges, and a player is alive exactly with some health left.
pub record IsHealthy {F : Type 0} (p : Player F) : Type 0 where
  pub hp_nonneg : pos 0 ≤ℤ p.hp
  pub hp_le : p.hp ≤ℤ player_start_hp
  pub armour_nonneg : pos 0 ≤ℤ p.armour
  pub armour_le : p.armour ≤ℤ player_max_armour
  pub alive_hp : p.alive ≡ true → pos 0 <ℤ p.hp
  pub dead_hp : p.alive ≡ false → p.hp ≡ pos 0

module _ {F : Type 0} where
  pub apply_damage-IsHealthy :
      (p : Player F) (d : ℤ) → pos 0 ≤ℤ d → IsHealthy p → IsHealthy (apply_damage p d).0
  unfolding apply_damage ◌-ℤ◌
  apply_damage-IsHealthy p d nonneg h = ground arith

  pub apply_pickup-IsHealthy :
      (p : Player F) (t : String) → IsHealthy p → IsHealthy (apply_pickup p t)
  unfolding apply_pickup ◌+ℤ◌
  apply_pickup-IsHealthy p t h = ground arith

  pub respawn-IsHealthy : (p : Player F) (x y : F) → IsHealthy (respawn p x y)
  unfolding respawn
  respawn-IsHealthy p x y = ground arith

  -- Armour takes the damage first and health the rest, both down to 0; the player dies if no health
  -- is left, and this is reported.
  pub apply_damage_amounts :
      (p : Player F) (h a d : ℕ)
      → p.hp ≡ pos h
      → p.armour ≡ pos a
      → apply_damage p (pos d) ≡ (
        record p {
          hp = pos (h - (d - a));
          armour = pos (a - d);
          alive = ltb 0 (h - (d - a)) && p.alive;
        },
        leb (h - (d - a)) 0,
      )
  unfolding apply_damage ◌-ℤ◌
  apply_damage_amounts p h a d eh ea = ground arith

  -- Two hits in a row do what one hit of their sum does.
  pub apply_damage_twice :
      (p : Player F) (h a c d : ℕ)
      → p.hp ≡ pos h
      → p.armour ≡ pos a
      → apply_damage (apply_damage p (pos c)).0 (pos d) ≡ apply_damage p (pos (c + d))
  apply_damage_twice p h a c d eh ea = ground (
    arith,
    apply_damage_amounts p h a c eh ea,
    apply_damage_amounts p h a (c + d) eh ea,
    apply_damage_amounts (apply_damage p (pos c)).0 (h - (c - a)) (a - c) d,
  )
