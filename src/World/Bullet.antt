-- ===== src/World/Bullet.antt =====
-- services/game/world/bullet.go.
pub mod Life
use nodefall.Base.{
  String, ◌==◌, Bool, true, false, not, ◌||◌, ℤ, pos, ◌-ℤ◌, ltb_ℤ, if◌then◌else◌, ◌+◌,
}
use nodefall.Runtime.Float.{Float}
use nodefall.World.Constants.{bullet_speed, bullet_life, bullet_radius, player_radius}
use nodefall.World.Player.{Player}

pub record Bullet (F : Type 0) : Type 0 where
  pub owner_id : String
  pub x : F
  pub y : F
  pub vx : F
  pub vy : F
  pub damage : ℤ
  pub life : ℤ

module _ {F : Type 0} (fl : Float F) where
  open fl use {of_tenths, add, sub, mul, hypot, cos, sin, le}

  unfoldable pub new_bullet : String → F → F → F → ℤ → Bullet F
  new_bullet owner_id x y angle damage = record {
    owner_id = owner_id;
    x = x;
    y = y;
    vx = mul (cos angle) (of_tenths bullet_speed);
    vy = mul (sin angle) (of_tenths bullet_speed);
    damage = damage;
    life = bullet_life;
  }

  -- `Move`: the moved bullet, and whether it is to be kept.
  unfoldable pub move_bullet : Bullet F → Bullet F × Bool
  move_bullet b =
      let moved = record b { x = add b.x b.vx; y = add b.y b.vy; life = b.life -ℤ pos 1 } in
      (moved, ltb_ℤ (pos 0) moved.life)

  unfoldable pub hits : Bullet F → Player F → Bool
  hits b p =
      if not p.alive || p.id == b.owner_id
      then false
      else le (hypot (sub b.x p.x) (sub b.y p.y)) (of_tenths (bullet_radius + player_radius))
