-- ===== src/Engine/Everyone.antt =====
-- engine.go: what holds of every player and of every client, through any calls.
pub mod Calls
pub mod Map
pub mod Clients
use nodefall.Base.{
  ℕ, suc, String, Bool, not, ◌||◌, true, false, ltb, ◌≡◌, ℤ, inl, inr, some, none, Option,
  Option-cases, List, [], ◌∷◌, if-cases,
}
use nodefall.Base.Dict.{Dict, lookup, keys, insert, AllFound, insert-AllFound}
use nodefall.Base.Loop.{for_each_inv, Returned, try_each-Returned}
use nodefall.World.Player.{
  Player, can_shoot, apply_damage, apply_pickup, respawn, record_shot, new_player,
}
use nodefall.World.Constants.{fire_rate, zone_damage_per_tick}
use nodefall.World.Bullet.{Bullet, hits}
use nodefall.World.Item.{Item, collides_with}
use nodefall.World.Zone.{damage_if_outside, is_outside}
use nodefall.Engine.State.{Engine, Host, Input, Ranges, random_spawn}
use nodefall.Engine.Session.{steer}
use nodefall.Engine.Steps.{
  first_match, settle, move_bullets, collide, check_bullet_collisions, pick_up, check_item_pickups,
  zone_damage, apply_zone_damage, respawn_due, process_respawns,
}
use nodefall.Engine.Lifecycle.{simulate}
use nodefall.Engine.Invariant.Slots.{first_match-found}

module _ {F S C M : Type 0} (h : Host F S C M) where
  -- A property of players that the engine's writes keep, for inputs that are `Fine` and if only players
  -- join whose ID `Comes`.
  pub record Closed (P : Player F → Type 0) (Fine : Input F → Type 0) (Comes : String → Type 0)
      : Type 0 where
    pub damaged : (p : Player F) (d : ℤ) → P p → P (apply_damage p d).0
    pub equipped : (p : Player F) (t : String) → P p → P (apply_pickup p t)
    pub respawned :
        (p : Player F) (s : S)
        → P p
        → let (x, y, t) = random_spawn h.float h.random s in P (respawn p x y)
    pub steered : (p : Player F) (input : Input F) → Fine input → P p → P (steer h p input)
    pub shot :
        (p : Player F) (now : ℕ) → can_shoot p fire_rate now ≡ true → P p → P (record_shot p now)
    pub arrived :
        (id : String) (s : S)
        → Comes id
        → let (x, y, t) = random_spawn h.float h.random s in P (new_player h.float id x y)

  module _ (P : Player F → Type 0) {Fine : Input F → Type 0} {Comes : String → Type 0}
      (closed : Closed P Fine Comes) where
    collide-AllFound :
        (now : ℕ) (order : ℕ → List String → List String) (n : ℕ) (bs : List (Bullet F))
        (e : Engine F C)
        → AllFound P e.players
        → AllFound P (collide h now order n bs e).1.players
    unfolding collide settle
    collide-AllFound now order n [] e each = each
    collide-AllFound now order n (b ∷ bs) e each =
        elim (Option-cases (first_match (hits h.float b) e.players (order n (keys e.players)))) [
          | inl miss ↦ rw (miss, collide) (collide-AllFound now order (suc n) bs e each)
          | inr ((k, p), hit) ↦
              let found = first_match-found _ e.players (order n (keys e.players)) k p hit in
              rw (hit, collide)
                (collide-AllFound now order (suc n) bs _ (
                  insert-AllFound P k _ e.players (closed.damaged p b.damage (each k p found.0))
                    each))
        ]

    pick_up-AllFound :
        (order : ℕ → List String → List String) (n : ℕ) (items : List (Item F)) (e : Engine F C)
        → AllFound P e.players
        → AllFound P (pick_up h order n items e).1.players
    unfolding pick_up
    pick_up-AllFound order n [] e each = each
    pick_up-AllFound order n (item ∷ items) e each =
        elim (Option-cases
          (first_match (collides_with h.float item) e.players (order n (keys e.players)))) [
            | inl miss ↦ rw (miss, pick_up) (pick_up-AllFound order (suc n) items e each)
            | inr ((k, p), hit) ↦
                let found = first_match-found _ e.players (order n (keys e.players)) k p hit in
                rw (hit, pick_up)
                  (pick_up-AllFound order (suc n) items _ (
                    insert-AllFound P k _ e.players (closed.equipped p item.type (each k p found.0))
                      each))
          ]

    zone_damage-AllFound :
        (now : ℕ) (k : String) (e : Engine F C)
        → AllFound P e.players
        → AllFound P (zone_damage h now k e).players
    unfolding zone_damage settle damage_if_outside
    zone_damage-AllFound now k e each = elim (Option-cases (lookup k e.players)) [
      | inl gone ↦ rw (gone, zone_damage) each
      | inr (p, there) ↦
          let good = each k p there in
          rw (there, zone_damage)
            (insert-AllFound P k _ e.players
              (if-cases {A = Player F × Bool} (λ r. P r.0)
                (not p.alive || not (is_outside h.float e.zone p)) (p, false)
                (apply_damage p zone_damage_per_tick) (λ spared. good)
                (λ hurt. closed.damaged p _ good))
              each)
    ]

    pub simulate-AllFound :
        (w : Ranges) (now : ℕ) (e : Engine F C)
        → AllFound P e.players
        → AllFound P (simulate h w now e).players
    unfolding simulate check_bullet_collisions check_item_pickups apply_zone_damage
    simulate-AllFound w now e each =
        let hit =
          collide-AllFound now w.by_bullet 0 (move_bullets h e.bullets)
            (record e { bullets = move_bullets h e.bullets }) each in
        let picked = pick_up-AllFound w.by_item 0 _ _ hit in
        for_each_inv (λ e. AllFound P e.players) (zone_damage h now) (zone_damage-AllFound now) _ _
          picked

    respawn_due-AllFound :
        (now : ℕ) (x : String × ℕ) (st : Engine F C × S)
        → AllFound P st.0.players
        → Returned (λ t. AllFound P t.0.players) (respawn_due h now x st)
    unfolding respawn_due
    respawn_due-AllFound now (id, at) (e, s) each =
        if-cases (Returned {S = Engine F C × S} (λ t. AllFound P t.0.players)) (ltb now at) _ _
          (λ early. each)
          (λ due. elim (Option-cases (lookup id e.players)) [
            | inl gone ↦ rw gone tt
            | inr (p, there) ↦
                rw there
                  (insert-AllFound P id _ e.players (closed.respawned p s (each id p there)) each)
          ])

    pub process_respawns-AllFound :
        (now : ℕ) (e : Engine F C) (s : S)
        → AllFound P e.players
        → Returned (λ t. AllFound P t.0.players) (process_respawns h now (e, s))
    unfolding process_respawns
    process_respawns-AllFound now e s each =
        try_each-Returned (λ t. AllFound P t.0.players) (respawn_due h now)
          (respawn_due-AllFound now) e.respawn_at (e, s) each
