-- ===== src/Engine/Frame.antt =====
-- What a live tick leaves alone: the simulation and the respawns write the players, the respawn
-- times, the bullets, the items and the zone, and nothing else.
use nodefall.Base.{
  ℕ, suc, String, some, none, ltb, Option, Option-cases, if-cases, List, [], ◌∷◌, inl, inr,
}
use nodefall.Base.Dict.{lookup, keys, Dict}
use nodefall.Base.Loop.{try_each, for_each_inv}
use nodefall.World.Player.{Player}
use nodefall.World.Bullet.{Bullet, hits}
use nodefall.World.Item.{Item, collides_with}
use nodefall.World.Zone.{Zone}
use nodefall.Engine.State.{Engine, Host, Ranges}
use nodefall.Engine.Steps.{
  first_match, settle, move_bullets, collide, check_bullet_collisions, pick_up, check_item_pickups,
  zone_damage, apply_zone_damage, respawn_due,
}
use nodefall.Engine.Lifecycle.{simulate}

module _ {F S C M : Type 0} (h : Host F S C M) (Q : Engine F C → Type 0)
    (frame : (e : Engine F C) (players : Dict (Player F)) (bullets : List (Bullet F))
        (items : List (Item F)) (zone : Zone F) (times : Dict ℕ)
      → Q e
      → Q (record e {
        players = players;
        bullets = bullets;
        items = items;
        zone = zone;
        respawn_at = times;
      })) where
  -- `Q` holds of the engine, unless the call panicked.
  abbrev pub Framed : Option (Engine F C × S) → Type 0
  Framed none = Unit
  Framed (some (e, s)) = Q e

  collide-Frame :
      (now : ℕ) (order : ℕ → List String → List String) (n : ℕ) (bs : List (Bullet F))
      (e : Engine F C)
      → Q e
      → Q (collide h now order n bs e).1
  unfolding collide settle
  collide-Frame now order n [] e k = k
  collide-Frame now order n (b ∷ bs) e k =
      elim (Option-cases (first_match (hits h.float b) e.players (order n (keys e.players)))) [
        | inl miss ↦ rw (miss, collide) (collide-Frame now order (suc n) bs e k)
        | inr (_, hit) ↦
            rw (hit, collide) (collide-Frame now order (suc n) bs _ (frame e _ _ _ _ _ k))
      ]

  pick_up-Frame :
      (order : ℕ → List String → List String) (n : ℕ) (items : List (Item F)) (e : Engine F C)
      → Q e
      → Q (pick_up h order n items e).1
  unfolding pick_up
  pick_up-Frame order n [] e k = k
  pick_up-Frame order n (item ∷ items) e k =
      elim (Option-cases
        (first_match (collides_with h.float item) e.players (order n (keys e.players)))) [
          | inl miss ↦ rw (miss, pick_up) (pick_up-Frame order (suc n) items e k)
          | inr (_, hit) ↦
              rw (hit, pick_up) (pick_up-Frame order (suc n) items _ (frame e _ _ _ _ _ k))
        ]

  zone_damage-Frame : (now : ℕ) (j : String) (e : Engine F C) → Q e → Q (zone_damage h now j e)
  unfolding zone_damage settle
  zone_damage-Frame now j e k = elim (Option-cases (lookup j e.players)) [
    | inl gone ↦ rw (gone, zone_damage) k
    | inr (p, there) ↦ rw (there, zone_damage) (frame e _ _ _ _ _ k)
  ]

  pub simulate-Frame : (w : Ranges) (now : ℕ) (e : Engine F C) → Q e → Q (simulate h w now e)
  unfolding simulate check_bullet_collisions check_item_pickups apply_zone_damage
  simulate-Frame w now e k =
      let moved : Engine F C = record e { bullets = move_bullets h e.bullets } in
      let hit = collide h now w.by_bullet 0 moved.bullets moved in
      let picked = pick_up h w.by_item 0 hit.1.items (record hit.1 { bullets = hit.0 }) in
      let hurt = collide-Frame now w.by_bullet 0 moved.bullets moved (frame e _ _ _ _ _ k) in
      let full =
        pick_up-Frame w.by_item 0 hit.1.items (record hit.1 { bullets = hit.0 })
          (frame hit.1 _ _ _ _ _ hurt) in
      for_each_inv Q (zone_damage h now) (zone_damage-Frame now) _ _ (frame picked.1 _ _ _ _ _ full)

  pub process_respawns-Frame :
      (now : ℕ) (xs : List (String × ℕ)) (e : Engine F C) (s : S)
      → Q e
      → Framed (try_each (respawn_due h now) xs (e, s))
  unfolding try_each respawn_due
  process_respawns-Frame now [] e s k = k
  process_respawns-Frame now ((id, at) ∷ xs) e s k =
      if-cases Rest (ltb now at) (some (e, s)) _ (λ early. process_respawns-Frame now xs e s k)
        (λ due. elim (Option-cases (lookup id e.players)) [
          | inl gone ↦ rw gone tt
          | inr (_, there) ↦ rw there (process_respawns-Frame now xs _ _ (frame e _ _ _ _ _ k))
        ])
    where
      Rest : Option (Engine F C × S) → Type 0
      Rest o = Framed (elim o [ none ↦ none | some t ↦ try_each (respawn_due h now) xs t ])
