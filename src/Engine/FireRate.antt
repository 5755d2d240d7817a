-- ===== src/Engine/FireRate.antt =====
-- engine.go: the shots of `HandleInput`.
use nodefall.Base.{
  ℕ, ◌+◌, ◌≤◌, ◌<◌, ℤ, String, true, ◌≡◌, ◌≢◌, refl, ◌&&◌, some, List, All, length, length-append,
  arith, subst, sym, ◌∙◌, if-cases, inl, inr, ◌⊎◌,
}
use mathlib.Core.Option.{some-injective}
use nodefall.Base.Dict.{lookup, lookup-insert_self, AllFound}
use nodefall.Base.Loop.{Returned}
use nodefall.Runtime.Clock.{since-ge}
use nodefall.World.Constants.{fire_rate}
use nodefall.World.Player.{
  Player, new_player, can_shoot, record_shot, move_player, apply_damage, apply_pickup, respawn,
}
use nodefall.Engine.State.{Engine, Host, Input}
use nodefall.Engine.Session.{is_allowed, steer, shoot, act, handle_input}
use nodefall.Engine.Session.Cases.{handle_input_cases}
use nodefall.Engine.Run.{Event, run}
use nodefall.Engine.Everyone.{Closed}
use nodefall.Engine.Everyone.Calls.{Suits, run-AllFound}
use nodefall.Engine.Invariant.{Slot, Inv}
use nodefall.Engine.Invariant.Lifecycle.{Survives}
use nodefall.Engine.Invariant.Run.{handle_input-Inv, run-Survives}

module _ {F S C M : Type 0} (h : Host F S C M) where
  -- How an input ends: no bullet is added, or one is and the sender's last shot is now.
  abbrev Outcome : ℕ → String → Engine F C → Engine F C → Type 0
  Outcome now k e e' =
      (length e'.bullets ≡ length e.bullets)
      ⊎ ((length e'.bullets ≡ length e.bullets + 1)
          × ((p : Player F) × (lookup k e'.players ≡ some p) × (p.last_shot ≡ now)))

  act-Outcome :
      (now : ℕ) (k : String) (p : Player F) (input : Input F) (e : Engine F C)
      → Outcome now k e (act h now k p input e)
  unfolding act
  act-Outcome now k p input e =
      if-cases (Outcome now k e) (input.shoot && can_shoot (steer h p input) fire_rate now) _ _
        (λ fires.
          unfold shoot record_shot in
          (inr (rw (length-append e.bullets) (refl), (_, lookup-insert_self k e.players _, refl))))
        (λ holds. inl refl)

  handle_input-Outcome :
      (now : ℕ) (c : C) (input : Input F) (e : Engine F C)
      → Outcome now (h.transport.id c) e (handle_input h now c input e)
  handle_input-Outcome now c input e =
      handle_input_cases h (Outcome now (h.transport.id c) e) now c input e (inl refl)
        (λ p _ _ _. act-Outcome now (h.transport.id c) p input e)

  -- A player whose last shot is too recent shoots nothing.
  act_too_soon :
      (now : ℕ) (k : String) (p : Player F) (input : Input F) (e : Engine F C)
      → now < p.last_shot + fire_rate
      → length (act h now k p input e).bullets ≡ length e.bullets
  unfolding act steer move_player can_shoot
  act_too_soon now k p input e soon =
      rw (since-ge now p.last_shot fire_rate (omega arith)) (ground arith)

  found_id :
      (e : Engine F C)
      → Inv e
      → (j : String) (p : Player F) → lookup j e.players ≡ some p
      → p.id ≡ j
  found_id e v j p found =
      let slot =
        subst
          (λ o.
            Slot j o (lookup j e.respawn_at) (lookup j e.clients) (is_allowed e.allowed_players j))
          found (v.slots j) in
      slot.0

  module _ (k : String) (t : ℕ) where
    -- The player with the ID `k` has not shot before the time t, nor is their last shot forgotten.
    HasShot : Player F → Type 0
    HasShot p = p.id ≡ k → t ≤ p.last_shot

    shot-HasShot :
        (p : Player F) (now : ℕ)
        → can_shoot p fire_rate now ≡ true
        → HasShot p
        → HasShot (record_shot p now)
    unfolding HasShot can_shoot record_shot
    shot-HasShot p now able had named =
        let before = had named in
        let passed = sym (since-ge now p.last_shot fire_rate (omega arith)) ∙ able in ground arith

    damaged-HasShot : (p : Player F) (d : ℤ) → HasShot p → HasShot (apply_damage p d).0
    unfolding HasShot apply_damage
    damaged-HasShot p d had named = ground (arith, had)

    equipped-HasShot : (p : Player F) (kind : String) → HasShot p → HasShot (apply_pickup p kind)
    unfolding HasShot apply_pickup
    equipped-HasShot p kind had named = ground (arith, had)

    HasShot-Closed : Closed h HasShot (λ input. Unit) (λ id. id ≢ k)
    unfolding HasShot respawn steer move_player new_player
    HasShot-Closed = record {
      damaged = damaged-HasShot;
      equipped = equipped-HasShot;
      respawned = λ p s had. had;
      steered = λ p input fine had. had;
      shot = shot-HasShot;
      arrived = λ id s other named. absurd (other named);
    }

    -- No call lets the player join.
    abbrev pub NotJoining : Event F C → Type 0
    NotJoining = Suits h (λ input. Unit) (λ id. id ≢ k)

  -- An input that fires leaves only players who have shot.
  fired-HasShot :
      (t : ℕ) (c : C) (i : Input F) (e : Engine F C)
      → Inv e
      → length (handle_input h t c i e).bullets ≡ length e.bullets + 1
      → AllFound (HasShot (h.transport.id c) t) (handle_input h t c i e).players
  unfolding HasShot
  fired-HasShot t c i e v fired j q found named =
      let k = h.transport.id c in
      let same : j ≡ k =
        sym (found_id (handle_input h t c i e) (handle_input-Inv h t c i e v) j q found) ∙ named in
      elim (handle_input-Outcome t c i e) [
        | inl held ↦ omega arith
        | inr (_, (p, at_c, shot)) ↦
            let one : p ≡ q = some-injective _ _ (
              sym at_c
              ∙ subst (λ x. lookup x (handle_input h t c i e).players ≡ some q) same found) in
            subst (λ r. t ≤ r.last_shot) one (rw shot (omega arith))
      ]

  -- In an engine that satisfies the invariant: once an input of a player has fired at the time t, and
  -- after any calls in which that player does not join anew and that do not panic, an input of theirs at
  -- a time before t + 300 ms fires nothing.
  pub fire_rate_limit :
      (t u : ℕ) (c : C) (i j : Input F) (e e' : Engine F C) (s s' : S) (xs : List (Event F C))
      → Inv e
      → length (handle_input h t c i e).bullets ≡ length e.bullets + 1
      → All (NotJoining (h.transport.id c) t) xs
      → run h xs (handle_input h t c i e, s) ≡ some (e', s')
      → u < t + fire_rate
      → length (handle_input h u c j e').bullets ≡ length e'.bullets
  unfolding HasShot
  fire_rate_limit t u c i j e e' s s' xs v fired calm went soon =
      let k = h.transport.id c in
      let all : AllFound (HasShot k t) e'.players =
        subst (Returned (λ r. AllFound (HasShot k t) r.0.players)) went (
          run-AllFound h (HasShot k t) (HasShot-Closed k t) xs (handle_input h t c i e, s) calm
            (fired-HasShot t c i e v fired)) in
      let kept : Inv e' =
        subst (Survives h) went
          (run-Survives h xs (handle_input h t c i e) s (handle_input-Inv h t c i e v)) in
      handle_input_cases h (λ r. length r.bullets ≡ length e'.bullets) u c j e' refl
        (λ p _ at_c _.
          let last = all k p at_c (found_id e' kept k p at_c) in
          act_too_soon u k p j e' (omega arith))
