-- ===== src/Engine/Invariant/Steps.antt =====
-- engine.go: the simulation steps of a live tick and the invariant.
use nodefall.Base.{
  ℕ, suc, String, true, false, ◌≡◌, ◌⊎◌, inl, inr, refl, sym, ◌∙◌, some, Option-cases, Bool-cases,
  arith, List, [], ◌∷◌, All, ℤ, pos, ◌-ℤ◌, ◌≤ℤ◌, not, ◌||◌,
}
use nodefall.Base.Dict.{lookup, keys}
use nodefall.Base.Loop.{for_each_inv}
use nodefall.World.Constants.{zone_damage_per_tick}
use nodefall.World.Player.{Player, apply_damage, apply_pickup}
use nodefall.World.Player.Damage.{IsHealthy, apply_damage-IsHealthy, apply_pickup-IsHealthy}
use nodefall.World.Bullet.{Bullet, move_bullet, hits}
use nodefall.World.Item.{Item, collides_with}
use nodefall.World.Zone.{Zone, is_outside, damage_if_outside}
use nodefall.Engine.State.{Engine, Host}
use nodefall.Engine.Steps.{
  first_match, settle, move_bullets, collide, check_bullet_collisions, pick_up, check_item_pickups,
  zone_damage, apply_zone_damage,
}
use nodefall.Engine.Invariant.{SlotOf, IsLoaded, Inv}
use nodefall.Engine.Invariant.Slots.{first_match-found, Slot-player, write-slots, settle-slots}

abbrev Slots : {F C : Type 0} → Engine F C → Type 0
Slots e = (k : String) → SlotOf e k

module _ {F : Type 0} where
  -- Damage leaves the ID alone, and a player it leaves dead died of it or was dead.
  apply_damage_report :
      (p : Player F) (d : ℤ)
      → ((apply_damage p d).0.id ≡ p.id)
        × ((apply_damage p d).0.alive ≡ false → ((apply_damage p d).1 ≡ true) ⊎ (p.alive ≡ false))
  unfolding apply_damage
  apply_damage_report p d = ground arith

  apply_pickup_alive :
      (p : Player F) (t : String)
      → ((apply_pickup p t).id ≡ p.id) × ((apply_pickup p t).alive ≡ p.alive)
  unfolding apply_pickup
  apply_pickup_alive p t = ground arith

module _ {F S C M : Type 0} (h : Host F S C M) where
  pub move_bullets-IsLoaded :
      (bs : List (Bullet F)) → All IsLoaded bs → All IsLoaded (move_bullets h bs)
  unfolding move_bullets move_bullet ◌-ℤ◌
  move_bullets-IsLoaded [] l = tt
  move_bullets-IsLoaded (b ∷ bs) l = ground (arith, move_bullets-IsLoaded bs l.1)

  damage-Slots :
      (now : ℕ) (k : String) (p : Player F) (d : ℤ) (e : Engine F C)
      → pos 0 ≤ℤ d
      → lookup k e.players ≡ some p
      → Slots e
      → Slots (settle now k (apply_damage p d) e)
  damage-Slots now k p d e nonneg at_k all =
      let (same, dead) = apply_damage_report p d in
      settle-slots now k e p (apply_damage p d).0 (apply_damage p d).1 at_k same
        (apply_damage-IsHealthy p d nonneg (Slot-player k e p at_k (all k)).1) dead all

  collide-Slots :
      (now : ℕ) (order : ℕ → List String → List String) (n : ℕ) (bs : List (Bullet F))
      (e : Engine F C)
      → All IsLoaded bs
      → Slots e
      → Slots (collide h now order n bs e).1 × All IsLoaded (collide h now order n bs e).0
  unfolding collide
  collide-Slots now order n [] e l all = (all, tt)
  collide-Slots now order n (b ∷ bs) e l all =
      elim (Option-cases (first_match (hits h.float b) e.players (order n (keys e.players)))) [
        | inl miss ↦
            let (s, rest) = collide-Slots now order (suc n) bs e l.1 all in
            rw (miss, collide) (s, (l.0, rest))
        | inr ((k, p), hit) ↦
            rw (hit, collide)
              (collide-Slots now order (suc n) bs _ l.1 (
                damage-Slots now k p b.damage e (rw l.0.0 (omega arith))
                  (first_match-found _ _ _ k p hit).0 all))
      ]

  pub check_bullet_collisions-Inv :
      (now : ℕ) (order : ℕ → List String → List String) (e : Engine F C)
      → Inv e
      → Inv (check_bullet_collisions h now order e)
  unfolding check_bullet_collisions
  check_bullet_collisions-Inv now order e v =
      let (s, l) = collide-Slots now order 0 e.bullets e v.loaded v.slots in
      record { slots = s; loaded = l }

  pick_up-Inv :
      (order : ℕ → List String → List String) (n : ℕ) (items : List (Item F)) (e : Engine F C)
      → Inv e
      → Inv (pick_up h order n items e).1
  unfolding pick_up
  pick_up-Inv order n [] e v = v
  pick_up-Inv order n (item ∷ items) e v =
      elim (Option-cases
        (first_match (collides_with h.float item) e.players (order n (keys e.players)))) [
          | inl miss ↦ rw (miss, pick_up) (pick_up-Inv order (suc n) items e v)
          | inr ((k, p), hit) ↦
              let at_k = (first_match-found _ _ _ k p hit).0 in
              let (same, alive) = apply_pickup_alive p item.type in
              rw (hit, pick_up)
                (pick_up-Inv order (suc n) items _ (record {
                  slots =
                      write-slots k e p (apply_pickup p item.type) at_k same
                        (apply_pickup-IsHealthy p item.type (Slot-player k e p at_k (v.slots k)).1)
                        (λ d. sym alive ∙ d) v.slots;
                  loaded = v.loaded;
                }))
        ]

  pub check_item_pickups-Inv :
      (order : ℕ → List String → List String) (e : Engine F C)
      → Inv e
      → Inv (check_item_pickups h order e)
  unfolding check_item_pickups
  check_item_pickups-Inv order e v =
      let w = pick_up-Inv order 0 e.items e v in record { slots = w.slots; loaded = w.loaded }

  damage_if_outside_report :
      (z : Zone F) (p : Player F)
      → IsHealthy p
      → ((damage_if_outside h.float z p).0.id ≡ p.id)
        × IsHealthy (damage_if_outside h.float z p).0
        × ((damage_if_outside h.float z p).0.alive ≡ false
            → ((damage_if_outside h.float z p).1 ≡ true) ⊎ (p.alive ≡ false))
  unfolding damage_if_outside
  damage_if_outside_report z p v =
      let (same, dead) = apply_damage_report p zone_damage_per_tick in
      let hurt = apply_damage-IsHealthy p zone_damage_per_tick (omega arith) v in
      elim (Bool-cases (not p.alive || not (is_outside h.float z p))) [
        | inl spared ↦ rw spared (refl, v, inr)
        | inr hit ↦ rw hit (same, hurt, dead)
      ]

  zone_damage-Inv : (now : ℕ) (k : String) (e : Engine F C) → Inv e → Inv (zone_damage h now k e)
  unfolding zone_damage settle
  zone_damage-Inv now k e v = elim (Option-cases (lookup k e.players)) [
    | inl none_there ↦ rw (none_there, zone_damage) v
    | inr (p, at_k) ↦
        let hurt = damage_if_outside h.float e.zone p in
        let (same, healthy, dead) =
          damage_if_outside_report e.zone p (Slot-player k e p at_k (v.slots k)).1 in
        rw (at_k, zone_damage)
          (record {
            slots = settle-slots now k e p hurt.0 hurt.1 at_k same healthy dead v.slots;
            loaded = v.loaded;
          })
  ]

  pub apply_zone_damage-Inv : (now : ℕ) (e : Engine F C) → Inv e → Inv (apply_zone_damage h now e)
  unfolding apply_zone_damage
  apply_zone_damage-Inv now e =
      for_each_inv Inv (zone_damage h now) (zone_damage-Inv now) (keys e.players) e
