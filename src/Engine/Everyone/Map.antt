-- ===== src/Engine/Everyone/Map.antt =====
-- engine.go: where the players of a match can be.
use nodefall.Base.{ℕ, String, true, ◌≡◌, some, List, All, arith, subst, ℤ}
use nodefall.Base.Dict.{lookup, AllFound}
use nodefall.Base.Loop.{Returned}
use nodefall.Runtime.Float.{IsFloat}
use nodefall.Runtime.Random.{IsRandom}
use nodefall.World.Constants.{player_radius}
use nodefall.World.Player.{Player, apply_damage, apply_pickup, respawn, record_shot, new_player}
use nodefall.World.Player.Position.{InMap, IsPlaced, move_player-IsPlaced}
use nodefall.World.Item.{draw_coordinate}
use nodefall.Engine.State.{Engine, Host, Input, random_spawn}
use nodefall.Engine.Session.{steer, new_for_players}
use nodefall.Engine.Run.{Event, run}
use nodefall.Engine.Everyone.{Closed}
use nodefall.Engine.Everyone.Calls.{Suits, run-AllFound, new_for_players-AllFound}

module _ {F S C M : Type 0} (h : Host F S C M) (laws : IsFloat h.float)
    (draws : IsRandom h.float h.random) where
  -- What a decoded JSON number is: neither an infinity nor a NaN.
  abbrev pub IsFinite : Input F → Type 0
  IsFinite input = (laws.finite input.dx ≡ true) × (laws.finite input.dy ≡ true)

  draw_coordinate-InMap :
      (s : S) → InMap h.float (draw_coordinate h.float h.random player_radius s).0
  unfolding draw_coordinate
  draw_coordinate-InMap s =
      let r = (h.random.float64 s).0 in
      let low = draws.float64_ge s in
      let high = draws.float64_lt s in
      (
        laws.add_ge _ 16 (omega arith) (laws.scale_nonneg r 29680 (omega arith) low high),
        laws.add_le _ 16 2968 (omega arith) (laws.scale_le r 29680 (omega arith) low high),
      )

  random_spawn-InMap :
      (s : S) → let (x, y, t) = random_spawn h.float h.random s in InMap h.float x × InMap h.float y
  unfolding random_spawn
  random_spawn-InMap s = (draw_coordinate-InMap s, draw_coordinate-InMap _)

  apply_damage-IsPlaced :
      (p : Player F) (d : ℤ) → IsPlaced h.float p → IsPlaced h.float (apply_damage p d).0
  unfolding apply_damage
  apply_damage-IsPlaced p d placed = ground arith

  apply_pickup-IsPlaced :
      (p : Player F) (t : String) → IsPlaced h.float p → IsPlaced h.float (apply_pickup p t)
  unfolding apply_pickup
  apply_pickup-IsPlaced p t placed = ground arith

  IsPlaced-Closed : Closed h (IsPlaced h.float) IsFinite (λ id. Unit)
  unfolding respawn steer record_shot new_player
  IsPlaced-Closed = record {
    damaged = apply_damage-IsPlaced;
    equipped = apply_pickup-IsPlaced;
    respawned = λ p s placed. random_spawn-InMap s;
    steered = λ p input fine placed.
        move_player-IsPlaced h.float laws p input.dx input.dy placed fine.0 fine.1;
    shot = λ p now able placed. placed;
    arrived = λ id s comes. random_spawn-InMap s;
  }

  -- An input, if the call brings one, is finite.
  abbrev pub FineEvent : Event F C → Type 0
  FineEvent = Suits h IsFinite (λ id. Unit)

  -- Whatever is called on an engine made for a roster, as long as the inputs are finite numbers, every
  -- player in it stands a player's radius away from the edges of the map.
  pub everyone-IsPlaced :
      (ids : List String) (now : ℕ) (s t : S) (xs : List (Event F C)) (e : Engine F C) (k : String)
      (p : Player F)
      → All FineEvent xs
      → run h xs (new_for_players h ids now s) ≡ some (e, t)
      → lookup k e.players ≡ some p
      → IsPlaced h.float p
  everyone-IsPlaced ids now s t xs e k p fine ran there =
      let start = new_for_players h ids now s in
      let all : AllFound (IsPlaced h.float) e.players =
        subst (Returned (λ t. AllFound (IsPlaced h.float) t.0.players)) ran (
          run-AllFound h (IsPlaced h.float) IsPlaced-Closed xs start fine
            (new_for_players-AllFound h (IsPlaced h.float) IsPlaced-Closed ids now s)) in
      all k p there
