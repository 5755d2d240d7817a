-- ===== src/World/Player.antt =====
-- services/game/world/player.go. A method with a pointer receiver returns the new player;
-- `time.Now()` and `time.Since` read the clock argument `now`.
pub mod Damage
pub mod Position
use nodefall.Base.{
  ℕ, String, ◌==◌, Bool, true, false, ℤ, ◌+ℤ◌, ◌-ℤ◌, pos, leb_ℤ, eqb_ℤ, min_ℤ, max_ℤ, if◌then◌else◌,
}
use nodefall.Runtime.Float.{Float}
use nodefall.Runtime.Clock.{since}
use nodefall.World.Constants.{
  map_size, player_radius, player_speed, player_min_hp, player_start_hp, player_min_armour,
  player_max_armour, player_start_gun, armour_pickup_amount,
}
use Prim.Native.Nat.{◌-◌}

pub record Player (F : Type 0) : Type 0 where
  pub id : String
  pub x : F
  pub y : F
  pub hp : ℤ
  pub armour : ℤ
  pub gun : String
  pub alive : Bool
  pub angle : F
  pub last_shot : ℕ

module _ {F : Type 0} where
  -- The angle is Go's zero value, and so is the time of the last shot.
  unfoldable pub new_player : Float F → String → F → F → Player F
  new_player fl id x y = record {
    id = id;
    x = x;
    y = y;
    hp = player_start_hp;
    armour = player_min_armour;
    gun = player_start_gun;
    alive = true;
    angle = fl.of_tenths 0;
    last_shot = 0;
  }

  unfoldable pub absorb_with_armour : Player F → ℤ → Player F × ℤ
  absorb_with_armour p damage = if leb_ℤ p.armour player_min_armour then (p, damage) else (
    record p { armour = p.armour -ℤ min_ℤ damage p.armour },
    damage -ℤ min_ℤ damage p.armour,
  )

  -- Lowers the health, and reports whether that killed the player.
  unfoldable pub lose_health : Player F → ℤ → Player F × Bool
  lose_health p damage =
      let hp = max_ℤ player_min_hp (p.hp -ℤ damage) in
      if eqb_ℤ hp player_min_hp
      then (record p { hp = hp; alive = false }, true)
      else (record p { hp = hp }, false)

  unfoldable pub apply_damage : Player F → ℤ → Player F × Bool
  unfolding absorb_with_armour lose_health
  apply_damage p amount = let (q, rest) = absorb_with_armour p amount in lose_health q rest

  unfoldable pub respawn : Player F → F → F → Player F
  respawn p x y = record p {
    x = x;
    y = y;
    hp = player_start_hp;
    armour = player_min_armour;
    gun = player_start_gun;
    alive = true;
  }

  unfoldable pub can_shoot : Player F → ℕ → ℕ → Bool
  can_shoot p rate now = leb_ℤ (pos rate) (since now p.last_shot)

  unfoldable pub apply_pickup : Player F → String → Player F
  apply_pickup p item_type =
      if item_type == "armour"
      then record p { armour = min_ℤ (p.armour +ℤ armour_pickup_amount) player_max_armour }
      else record p { gun = item_type }

  unfoldable pub record_shot : Player F → ℕ → Player F
  record_shot p now = record p { last_shot = now }

module _ {F : Type 0} (fl : Float F) where
  open fl use {of_tenths, add, mul, max, min}

  unfoldable pub clamp_position : F → F
  clamp_position value =
      max (of_tenths player_radius) (min value (of_tenths (map_size - player_radius)))

  unfoldable pub move_player : Player F → F → F → Player F
  move_player p dx dy = record p {
    x = clamp_position (add p.x (mul dx (of_tenths player_speed)));
    y = clamp_position (add p.y (mul dy (of_tenths player_speed)));
  }
