-- ===== src/Engine/Respawn.antt =====
-- engine.go: whom `processRespawns` brings back.
use nodefall.Base.{
  ℕ, String, ◌==◌, Bool, true, false, ltb, leb, ◌&&◌, ◌≡◌, refl, Option, none, some, All, All-map,
  arith, ◌<◌, eq_iff, Option-cases, inl, inr, subst, ◌∙◌,
}
use nodefall.Base.Dict.{lookup, lookup-insert, lookup-insert_self}
use nodefall.Base.Loop.{try_each_inv, try_each_reaches, any}
use nodefall.World.Player.{Player, respawn}
use nodefall.Engine.State.{Engine, Host, random_spawn}
use nodefall.Engine.Steps.{respawn_due, process_respawns}

abbrev pub is_alive : {F : Type 0} → Option (Player F) → Bool
is_alive none = false
is_alive (some p) = p.alive

-- The player is in the match and alive.
abbrev pub IsAlive : {F C : Type 0} → String → Engine F C → Type 0
IsAlive k e = is_alive (lookup k e.players) ≡ true

module _ {F S C M : Type 0} (h : Host F S C M) where
  respawn_due-apart :
      (now : ℕ) (id k : String) (at : ℕ) (e e' : Engine F C) (s t : S)
      → (id ≡ k → now < at)
      → respawn_due h now (id, at) (e, s) ≡ some (e', t)
      → lookup k e'.players ≡ lookup k e.players
  unfolding respawn_due
  respawn_due-apart now id k at e e' s t early done = elim (Option-cases (lookup id e.players)) [
    | inl missing ↦ ground arith
    | inr (p, at_id) ↦
        let (x, y, u) = random_spawn h.float h.random s in
        ground (arith, eq_iff id k, lookup-insert id k (respawn p x y) e.players)
  ]

  respawn_due-IsAlive :
      (now : ℕ) (id k : String) (at : ℕ) (e e' : Engine F C) (s t : S)
      → IsAlive k e
      → respawn_due h now (id, at) (e, s) ≡ some (e', t)
      → IsAlive k e'
  unfolding respawn_due respawn
  respawn_due-IsAlive now id k at e e' s t alive done = elim (Option-cases (lookup id e.players)) [
    | inl missing ↦ ground arith
    | inr (p, at_id) ↦
        let (x, y, u) = random_spawn h.float h.random s in
        ground (arith, eq_iff id k, lookup-insert id k (respawn p x y) e.players)
  ]

  respawn_due-returns :
      (now : ℕ) (id : String) (at : ℕ) (e e' : Engine F C) (s t : S)
      → ltb now at ≡ false
      → respawn_due h now (id, at) (e, s) ≡ some (e', t)
      → IsAlive id e'
  unfolding respawn_due respawn
  respawn_due-returns now id at e e' s t due done = elim (Option-cases (lookup id e.players)) [
    | inl missing ↦ ground arith
    | inr (p, at_id) ↦
        let (x, y, u) = random_spawn h.float h.random s in
        ground (arith, lookup-insert_self id e.players (respawn p x y))
  ]

  -- `processRespawns` touches only players whose time has come: if no respawn time of a player is due,
  -- it leaves the player as they were. And it brings back everybody whose time has come: a player with
  -- a respawn time that is due is in the match and alive afterwards.
  pub process_respawns_due :
      (now : ℕ) (k : String) (e e' : Engine F C) (s t : S)
      → process_respawns h now (e, s) ≡ some (e', t)
      → (All (λ x. x.0 ≡ k → now < x.1) e.respawn_at → lookup k e'.players ≡ lookup k e.players)
        × (any (λ x. x.0 == k && leb x.1 now) e.respawn_at ≡ true → IsAlive k e')
  unfolding process_respawns
  process_respawns_due now k e e' s t done = (
    λ early.
        try_each_inv {A = String × ℕ} {S = Engine F C × S}
          (λ st. lookup k st.0.players ≡ lookup k e.players) (respawn_due h now) e.respawn_at
          (All-map e.respawn_at
            (λ x not_due st st' same step.
              respawn_due-apart now x.0 k x.1 st.0 st'.0 st.1 st'.1 not_due step ∙ same)
            early)
          (e, s) (e', t) refl done,
    λ due.
        try_each_reaches {A = String × ℕ} {S = Engine F C × S} (λ st. IsAlive k st.0)
          (λ x. x.0 == k && leb x.1 now) (respawn_due h now)
          (λ x st st' alive step.
            respawn_due-IsAlive now x.0 k x.1 st.0 st'.0 st.1 st'.1 alive step)
          (λ x st st' hit step.
            subst (λ i. IsAlive i st'.0) ((eq_iff x.0 k).0 (ground arith))
              (respawn_due-returns now x.0 x.1 st.0 st'.0 st.1 st'.1 (ground arith) step))
          e.respawn_at (e, s) (e', t) due done,
  )
