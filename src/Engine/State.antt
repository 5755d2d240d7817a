-- ===== src/Engine/State.antt =====
-- The data of engine.go: `Client`, `Input`, `Phase`, `Snapshot` and `Engine`.
use nodefall.Base.{ℕ, leb, String, Bool, true, false, ℤ, Option, List, [], ◌∷◌}
use nodefall.Base.Dict.{Dict}
use nodefall.Runtime.Float.{Float}
use nodefall.Runtime.Random.{Random}
use nodefall.World.Constants.{player_radius}
use nodefall.World.Player.{Player}
use nodefall.World.Bullet.{Bullet}
use nodefall.World.Item.{Item, draw_coordinate}
use nodefall.World.Zone.{Zone}

-- The interface `Client`. `Send` may change what the client has queued, so it gives the client back.
pub record Transport (C M : Type 0) : Type 0 where
  pub id : C → String
  pub send : M → C → C

pub record Input (F : Type 0) : Type 0 where
  pub dx : F
  pub dy : F
  pub angle : F
  pub shoot : Bool

pub data Phase : Type 0 where
  waiting live ended : Phase

abbrev pub is_waiting : Phase → Bool
is_waiting waiting = true
is_waiting _ = false

abbrev pub is_live : Phase → Bool
is_live live = true
is_live _ = false

pub record Snapshot (F : Type 0) : Type 0 where
  pub phase : Phase
  pub countdown_seconds : ℤ
  pub winner : String
  pub players : List (Player F)
  pub bullets : List (Bullet F)
  pub items : List (Item F)
  pub zone : Zone F

-- `allowed_players` is `none` for the nil map; a time of 0 is the zero time.
pub record Engine (F C : Type 0) : Type 0 where
  pub players : Dict (Player F)
  pub clients : Dict C
  pub bullets : List (Bullet F)
  pub items : List (Item F)
  pub zone : Zone F
  pub respawn_at : Dict ℕ
  pub phase : Phase
  pub wait_started : ℕ
  pub ended_at : ℕ
  pub winner : String
  pub allowed_players : Option (Dict Bool)

abbrev pub is_zero : ℕ → Bool
is_zero t = leb t 0

abbrev pub is_empty {ℓ} : {A : Type ℓ} → List A → Bool
is_empty [] = true
is_empty (x ∷ xs) = false

-- What the engine calls and does not implement: float64, math/rand, the clients' transport, and
-- `json.Marshal`, which fails (`none`) on a snapshot that holds a NaN or an infinity.
pub record Host (F S C M : Type 0) : Type 0 where
  pub float : Float F
  pub random : Random F S
  pub transport : Transport C M
  pub marshal : Snapshot F → Option M

-- Go leaves the order of a `range` over a map open. Only the two loops that stop at the first match
-- depend on it: these orders say how the range made for the n-th bullet, or item, visits the keys.
pub record Ranges : Type 0 where
  pub by_bullet : ℕ → List String → List String
  pub by_item : ℕ → List String → List String

module _ {F S : Type 0} (fl : Float F) (rnd : Random F S) where
  -- `randomSpawn`.
  unfoldable pub random_spawn : S → F × F × S
  random_spawn s =
      let (x, t) = draw_coordinate fl rnd player_radius s in
      let (y, u) = draw_coordinate fl rnd player_radius t in (x, y, u)
