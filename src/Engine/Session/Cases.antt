-- ===== src/Engine/Session/Cases.antt =====
-- The case rule of `HandleInput`.
use nodefall.Base.{ℕ, ◌≡◌, false, not, some, inl, inr, Option-cases, if-cases}
use nodefall.Base.Dict.{lookup}
use nodefall.World.Player.{Player}
use nodefall.Engine.State.{Engine, Host, Input, is_live}
use nodefall.Engine.Session.{act, handle_input}

module _ {ℓ} {F S C M : Type 0} (h : Host F S C M) (P : Engine F C → Type ℓ) where
  -- The input is ignored, or the match is live and the sender is a living player of it.
  pub handle_input_cases :
      (now : ℕ) (c : C) (input : Input F) (e : Engine F C)
      → P e
      → ((p : Player F)
          → not (is_live e.phase) ≡ false
          → lookup (h.transport.id c) e.players ≡ some p
          → not p.alive ≡ false
          → P (act h now (h.transport.id c) p input e))
      → P (handle_input h now c input e)
  unfolding handle_input
  handle_input_cases now c input e ignored acts =
      if-cases P (not (is_live e.phase)) e _ (λ idle. ignored)
        (λ playing. elim (Option-cases (lookup (h.transport.id c) e.players)) [
          | inl unknown ↦ rw unknown ignored
          | inr (p, at_c) ↦
              rw at_c (
                if-cases P (not p.alive) e _ (λ dead. ignored) (λ alive. acts p playing at_c alive))
        ])
