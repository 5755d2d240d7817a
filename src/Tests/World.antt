-- ===== src/Tests/World.antt =====
-- The theorems about players and bullets at concrete inputs.
use nodefall.Base.{◌≡◌, refl, pos, is_some, true, false, ◌≢◌}
use nodefall.World.Player.{Player, apply_damage}
use nodefall.World.Player.Damage.{apply_damage_amounts}
use nodefall.World.Bullet.{new_bullet}
use nodefall.World.Bullet.Life.{fly, new_bullet_lifetime}
use nodefall.Tests.Host.{tenths}
use nodefall.Base.{ℕ}

-- A player with 30 armour and 40 health, near the upper edge of the map.
abbrev pub veteran : Player ℕ
veteran = record {
  id = "ann";
  x = 29000;
  y = 500;
  hp = pos 40;
  armour = pos 30;
  gun = "rifle";
  alive = true;
  angle = 0;
  last_shot = 0;
}

hurt_badly : (apply_damage veteran (pos 80)).1 ≡ true
unfolding apply_damage nodefall.Base.◌-ℤ◌
hurt_badly = refl

apply_damage_amounts_example :
    apply_damage veteran (pos 45)
    ≡ (record veteran { hp = pos 25; armour = pos 0; alive = true }, false)
apply_damage_amounts_example = apply_damage_amounts veteran 40 30 45 refl refl

new_bullet_lifetime_example :
    is_some (fly tenths 119 (new_bullet tenths "ann" 0 0 0 (pos 20))) ≡ true
new_bullet_lifetime_example = new_bullet_lifetime tenths "ann" 0 0 0 (pos 20) 119
