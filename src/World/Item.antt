-- ===== src/World/Item.antt =====
-- services/game/world/item.go.
use nodefall.Base.{
  ℕ, zero, suc, ◌+◌, ◌*◌, ◌-◌, String, Bool, false, not, List, [], ◌∷◌, length, get_or,
  if◌then◌else◌,
}
use nodefall.Runtime.Float.{Float}
use nodefall.Runtime.Random.{Random}
use nodefall.World.Constants.{map_size, item_radius, player_radius}
use nodefall.World.Player.{Player}

abbrev pub item_types : List String
item_types = "armour" ∷ "shotgun" ∷ "rifle" ∷ []

pub record Item (F : Type 0) : Type 0 where
  pub type : String
  pub x : F
  pub y : F

module _ {F : Type 0} (fl : Float F) where
  open fl use {of_tenths, add, sub, mul, hypot, le}

  unfoldable pub new_item : String → F → F → Item F
  new_item item_type x y = record { type = item_type; x = x; y = y }

  -- A dead player collides with nothing.
  unfoldable pub collides_with : Item F → Player F → Bool
  collides_with item p =
      if not p.alive
      then false
      else le (hypot (sub item.x p.x) (sub item.y p.y)) (of_tenths (item_radius + player_radius))

  module _ {S : Type 0} (rnd : Random F S) where
    -- One coordinate: `radius + rand.Float64()*(MapSize-2*radius)`.
    unfoldable pub draw_coordinate : ℕ → S → F × S
    draw_coordinate radius s =
        let (r, t) = rnd.float64 s in
        (add (of_tenths radius) (mul r (of_tenths (map_size - 2 * radius))), t)

    unfoldable pub spawn_item : S → Item F × S
    spawn_item s =
        let (i, s1) = rnd.intn (length item_types) s in
        let (x, s2) = draw_coordinate item_radius s1 in
        let (y, s3) = draw_coordinate item_radius s2 in (new_item (get_or item_types i "") x y, s3)

    unfoldable pub spawn_items : ℕ → S → List (Item F) × S
    spawn_items zero s = ([], s)
    spawn_items (suc count) s =
        let (item, t) = spawn_item s in let (items, u) = spawn_items count t in (item ∷ items, u)
