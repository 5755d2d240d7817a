-- ===== src/World/Zone.antt =====
-- services/game/world/zone.go.
use nodefall.Base.{ℕ, ◌/◌, Bool, true, false, not, ◌||◌, pos, ltb_ℤ, if◌then◌else◌}
use nodefall.Runtime.Float.{Float}
use nodefall.Runtime.Clock.{since}
use nodefall.World.Constants.{
  map_size, zone_initial_radius, zone_shrink_interval, zone_shrink_amount, zone_min_radius,
  zone_damage_per_tick,
}
use nodefall.World.Player.{Player, apply_damage}

pub record Zone (F : Type 0) : Type 0 where
  pub x : F
  pub y : F
  pub radius : F
  pub last_shrink : ℕ

module _ {F : Type 0} (fl : Float F) where
  open fl use {of_tenths, sub, max, hypot, lt}

  unfoldable pub new_zone : ℕ → Zone F
  new_zone now = record {
    x = of_tenths (map_size / 2);
    y = of_tenths (map_size / 2);
    radius = of_tenths zone_initial_radius;
    last_shrink = now;
  }

  -- The zone after `Shrink`, and whether it shrank.
  unfoldable pub shrink : ℕ → Zone F → Zone F × Bool
  shrink now z =
      if ltb_ℤ (since now z.last_shrink) (pos zone_shrink_interval) then (z, false) else (
        record z {
          radius = max (of_tenths zone_min_radius) (sub z.radius (of_tenths zone_shrink_amount));
          last_shrink = now;
        },
        true,
      )

  unfoldable pub is_outside : Zone F → Player F → Bool
  is_outside z p = lt z.radius (hypot (sub p.x z.x) (sub p.y z.y))

  -- The player after `DamageIfOutside`, and whether it died.
  unfoldable pub damage_if_outside : Zone F → Player F → Player F × Bool
  damage_if_outside z p =
      if not p.alive || not (is_outside z p)
      then (p, false)
      else apply_damage p zone_damage_per_tick
