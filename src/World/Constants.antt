-- ===== src/World/Constants.antt =====
-- services/game/world/constants.go. Lengths and speeds are in tenths, since the source has 3.5;
-- durations are in nanoseconds.
use nodefall.Base.{ℕ, ◌*◌, ◌/◌, ℤ, pos, String}
use nodefall.Runtime.Clock.{millisecond, second}

abbrev pub map_size : ℕ
map_size = 30000

abbrev pub player_radius : ℕ
player_radius = 160

abbrev pub player_speed : ℕ
player_speed = 35

abbrev pub player_min_hp : ℤ
player_min_hp = pos 0

abbrev pub player_start_hp : ℤ
player_start_hp = pos 100

abbrev pub player_min_armour : ℤ
player_min_armour = pos 0

abbrev pub player_max_armour : ℤ
player_max_armour = pos 100

abbrev pub player_start_gun : String
player_start_gun = "pistol"

abbrev pub bullet_speed : ℕ
bullet_speed = 100

abbrev pub bullet_radius : ℕ
bullet_radius = 60

abbrev pub bullet_life : ℤ
bullet_life = pos 120

abbrev pub zone_initial_radius : ℕ
zone_initial_radius = map_size / 2

abbrev pub zone_shrink_amount : ℕ
zone_shrink_amount = 2000

abbrev pub zone_min_radius : ℕ
zone_min_radius = 1500

abbrev pub zone_damage_per_tick : ℤ
zone_damage_per_tick = pos 1

abbrev pub zone_shrink_interval : ℕ
zone_shrink_interval = 20 * second

abbrev pub item_radius : ℕ
item_radius = 180

abbrev pub item_count : ℕ
item_count = 35

abbrev pub armour_pickup_amount : ℤ
armour_pickup_amount = pos 50

abbrev pub fire_rate : ℕ
fire_rate = 300 * millisecond

abbrev pub bullet_damage : ℤ
bullet_damage = pos 20

abbrev pub match_start_delay : ℕ
match_start_delay = 3 * second

abbrev pub tick_rate : ℕ
tick_rate = 50 * millisecond

abbrev pub respawn_delay : ℕ
respawn_delay = 5 * second

abbrev pub reset_delay : ℕ
reset_delay = 8 * second
