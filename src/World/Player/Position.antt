-- ===== src/World/Player/Position.antt =====
-- services/game/world/player.go: moves and the map's bounds.
use nodefall.Base.{ℕ, ◌-◌, ◌<◌, ◌≡◌, true, arith}
use nodefall.Runtime.Float.{Float, IsFloat}
use nodefall.World.Constants.{map_size, player_radius, player_speed}
use nodefall.World.Player.{Player, clamp_position, move_player}

module _ {F : Type 0} (fl : Float F) where
  open fl use {of_tenths, le, add, mul}

  -- A coordinate a player's radius away from both edges of the map.
  abbrev pub InMap : F → Type 0
  InMap v =
      (le (of_tenths player_radius) v ≡ true) × (le v (of_tenths (map_size - player_radius)) ≡ true)

  abbrev pub IsPlaced : Player F → Type 0
  IsPlaced p = InMap p.x × InMap p.y

  module _ (laws : IsFloat fl) where
    open laws use {
      tenths_finite, tenths_le, finite_num, finite_between, max_le, le_max, min_le, min_num,
      mul_num, add_num,
    }

    tenths_num : (n : ℕ) → n < 9007199254740992 → le (of_tenths n) (of_tenths n) ≡ true
    tenths_num n h = finite_num _ (tenths_finite n h)

    -- Whatever is no NaN is clamped into the map.
    pub clamp_position-InMap : (v : F) → le v v ≡ true → InMap (clamp_position fl v)
    unfolding clamp_position
    clamp_position-InMap v num = (
      le_max _ _ (tenths_num _ (omega arith)) (min_num _ _ num (tenths_num _ (omega arith))),
      max_le _ _ _ (tenths_le _ _ (omega arith)) (min_le _ _ num (tenths_num _ (omega arith))),
    )

    InMap-finite : (v : F) → InMap v → laws.finite v ≡ true
    InMap-finite v h =
        finite_between _ _ _ (tenths_finite _ (omega arith)) (tenths_finite _ (omega arith)) h.0 h.1

    step-InMap :
        (v d : F)
        → InMap v
        → laws.finite d ≡ true
        → InMap (clamp_position fl (add v (mul d (of_tenths player_speed))))
    step-InMap v d h fin = clamp_position-InMap _ (
        add_num _ _ (InMap-finite v h) (mul_num _ _ fin (tenths_finite player_speed (omega arith))))

    -- A move by finite amounts, however large, leaves a player who is in the map in the map.
    pub move_player-IsPlaced :
        (p : Player F) (dx dy : F)
        → IsPlaced p
        → laws.finite dx ≡ true
        → laws.finite dy ≡ true
        → IsPlaced (move_player fl p dx dy)
    unfolding move_player
    move_player-IsPlaced p dx dy h fx fy = (step-InMap p.x dx h.0 fx, step-InMap p.y dy h.1 fy)
