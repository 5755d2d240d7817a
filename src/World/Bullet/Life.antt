-- ===== src/World/Bullet/Life.antt =====
-- services/game/world/bullet.go: how long a bullet lives, and whom it can hit.
use nodefall.Base.{
  ℕ, zero, suc, ◌≡◌, ◌≢◌, refl, true, arith, Option, none, some, ℤ, is_some, pos, ◌-ℤ◌, eq_iff, ltb,
  if◌then◌else◌, String,
}
use nodefall.Runtime.Float.{Float}
use nodefall.World.Player.{Player}
use nodefall.World.Bullet.{Bullet, new_bullet, move_bullet, hits}

module _ {F : Type 0} (fl : Float F) where
  -- A bullet after n ticks; `none` once a move has said that it is to be removed.
  unfoldable pub fly : ℕ → Bullet F → Option (Bullet F)
  fly zero b = some b
  fly (suc n) b =
      let next = fly n (move_bullet fl b).0 in if (move_bullet fl b).1 then next else none

  fly_life : (n k : ℕ) (b : Bullet F) → b.life ≡ pos (suc k) → is_some (fly n b) ≡ ltb n (suc k)
  unfolding fly move_bullet ◌-ℤ◌
  fly_life zero k b e = ground arith
  fly_life (suc n) zero b e = ground arith
  fly_life (suc n) (suc k) b e = ground (arith, fly_life n k (move_bullet fl b).0)

  -- A bullet that is fired lives through 119 ticks, and the 120th removes it.
  pub new_bullet_lifetime :
      (owner : String) (x y angle : F) (damage : ℤ) (n : ℕ)
      → is_some (fly n (new_bullet fl owner x y angle damage)) ≡ ltb n 120
  unfolding new_bullet
  new_bullet_lifetime owner x y angle damage n = fly_life n 119 _ refl

  -- Only the living are hit, and nobody by a bullet of their own.
  pub hits_others :
      (b : Bullet F) (p : Player F) → hits fl b p ≡ true → (p.alive ≡ true) × (p.id ≢ b.owner_id)
  unfolding hits
  hits_others b p h = ground (arith, eq_iff p.id b.owner_id)
