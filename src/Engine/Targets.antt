-- ===== src/Engine/Targets.antt =====
-- engine.go: whom the bullets of `checkBulletCollisions` hurt.
use nodefall.Base.{
  ℕ, suc, String, ◌==◌, eq_iff, ◌≡◌, false, some, inl, inr, Option-cases, List, [], ◌∷◌, All, arith,
  ◌∙◌,
}
use nodefall.Base.Dict.{lookup, keys, lookup-insert_ne, Dict}
use nodefall.World.Player.{Player, apply_damage}
use nodefall.World.Bullet.{Bullet, hits}
use nodefall.Engine.State.{Engine, Host}
use nodefall.Engine.Steps.{first_match, settle, collide, check_bullet_collisions}
use nodefall.Engine.Invariant.Slots.{first_match-found}

module _ {F S C M : Type 0} (h : Host F S C M) where
  hit_another :
      (b : Bullet F) (players : Dict (Player F)) (ks : List String) (k j : String) (p q : Player F)
      → lookup k players ≡ some p
      → hits h.float b p ≡ false
      → first_match (hits h.float b) players ks ≡ some (j, q)
      → (j == k) ≡ false
  hit_another b players ks k j p q at_k safe hit =
      ground (arith, eq_iff j k, first_match-found (hits h.float b) players ks j q hit)

  collide_spares :
      (now : ℕ) (order : ℕ → List String → List String) (n : ℕ) (bs : List (Bullet F))
      (e : Engine F C) (k : String) (p : Player F)
      → lookup k e.players ≡ some p
      → All (λ b. hits h.float b p ≡ false) bs
      → lookup k (collide h now order n bs e).1.players ≡ some p
  unfolding collide
  collide_spares now order n [] e k p at_k safe = at_k
  collide_spares now order n (b ∷ bs) e k p at_k safe =
      elim (Option-cases (first_match (hits h.float b) e.players (order n (keys e.players)))) [
        | inl miss ↦ rw (miss, collide) (collide_spares now order (suc n) bs e k p at_k safe.1)
        | inr ((j, q), hit) ↦
            rw (hit, collide)
              (collide_spares now order (suc n) bs (settle now j (apply_damage q b.damage) e) k p
                (unfold settle in
                  (lookup-insert_ne j e.players k _
                      (hit_another b e.players _ k j p q at_k safe.0 hit)
                    ∙ at_k))
                safe.1)
      ]

  -- A player whom no bullet in flight hits comes out of the collisions unchanged, whatever order the
  -- players are visited in.
  pub check_bullet_collisions_spares :
      (now : ℕ) (order : ℕ → List String → List String) (e : Engine F C) (k : String) (p : Player F)
      → lookup k e.players ≡ some p
      → All (λ b. hits h.float b p ≡ false) e.bullets
      → lookup k (check_bullet_collisions h now order e).players ≡ some p
  unfolding check_bullet_collisions
  check_bullet_collisions_spares now order e k p at_k safe =
      collide_spares now order 0 e.bullets e k p at_k safe
