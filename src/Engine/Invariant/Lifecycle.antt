-- ===== src/Engine/Invariant/Lifecycle.antt =====
-- engine.go: `Tick` and the invariant.
use nodefall.Base.{
  ℕ, String, Bool, ltb, leb_ℤ, pos, ◌≡◌, inl, inr, refl, some, none, is_some, Option, Option-cases,
  Bool-cases, arith, [], ◌∷◌, not, ◌&&◌, ◌∙◌,
}
use nodefall.Base.Dict.{Dict, lookup}
use nodefall.Runtime.Clock.{since}
use nodefall.World.Constants.{reset_delay, match_start_delay}
use nodefall.World.Player.{Player}
use nodefall.Engine.State.{Engine, Host, Ranges, Phase, waiting, live, ended, is_empty, is_zero}
use nodefall.Engine.Steps.{process_respawns, move_bullets}
use nodefall.Engine.Lifecycle.{
  tally, check_match_end, tick_waiting, simulate, tick_live, tick_ended, send_all, broadcast,
  snapshot, advance, tick,
}
use nodefall.Engine.Invariant.{Slot, Inv}
use nodefall.Engine.Invariant.Steps.{
  move_bullets-IsLoaded, check_bullet_collisions-Inv, check_item_pickups-Inv, apply_zone_damage-Inv,
}
use nodefall.Engine.Invariant.Respawns.{Continues, process_respawns-Continues}
use nodefall.Engine.Invariant.Reset.{reset_match-Inv}

module _ {F S C M : Type 0} (h : Host F S C M) where
  -- No panic, and the invariant.
  abbrev pub Survives : Option (Engine F C × S) → Type 0
  Survives none = ⊥
  Survives (some (e, s)) = Inv e

  pub simulate-Inv : (r : Ranges) (now : ℕ) (e : Engine F C) → Inv e → Inv (simulate h r now e)
  unfolding simulate
  simulate-Inv r now e v =
      let w1 : Inv (record e { bullets = move_bullets h e.bullets }) = record {
        slots = v.slots;
        loaded = move_bullets-IsLoaded h e.bullets v.loaded;
      } in
      let w2 = check_bullet_collisions-Inv h now r.by_bullet _ w1 in
      let w3 = check_item_pickups-Inv h r.by_item _ w2 in
      apply_zone_damage-Inv h now _ (record { slots = w3.slots; loaded = w3.loaded })

  check_match_end-Inv :
      (now : ℕ) (e : Engine F C) (s : S) → Inv e → Inv (check_match_end h now (e, s)).0
  unfolding check_match_end
  check_match_end-Inv now e s v = elim (Bool-cases (is_empty e.players)) [
    | inl empty ↦ rw (empty, check_match_end) (reset_match-Inv h now e s v)
    | inr some_there ↦ elim (Bool-cases (ltb 1 (tally e.players (0, "")).0)) [
      | inl fighting ↦ rw (some_there, fighting, check_match_end) v
      | inr over ↦
          rw (some_there, over, check_match_end) (record { slots = v.slots; loaded = v.loaded })
    ]
  ]

  tick_waiting-Inv : (now : ℕ) (e : Engine F C) → Inv e → Inv (tick_waiting h now e)
  unfolding tick_waiting
  tick_waiting-Inv now e v =
      elim (Bool-cases (
        not (is_zero e.wait_started) && leb_ℤ (pos match_start_delay) (since now e.wait_started))) [
          | inl start ↦ rw start (record { slots = v.slots; loaded = v.loaded })
          | inr wait ↦ rw wait v
        ]

  tick_ended-Inv : (now : ℕ) (e : Engine F C) (s : S) → Inv e → Inv (tick_ended h now (e, s)).0
  unfolding tick_ended
  tick_ended-Inv now e s v = elim (Bool-cases (leb_ℤ (pos reset_delay) (since now e.ended_at))) [
    | inl over ↦ rw over (reset_match-Inv h now e s v)
    | inr wait ↦ rw wait v
  ]

  tick_live-Survives :
      (r : Ranges) (now : ℕ) (e : Engine F C) (s : S) → Inv e → Survives (tick_live h r now (e, s))
  unfolding tick_live
  tick_live-Survives r now e s v =
      go (process_respawns h now (simulate h r now e, s))
        (process_respawns-Continues h now _ s (simulate-Inv r now e v))
    where
      go :
          (o : Option (Engine F C × S))
          → Continues h (simulate h r now e) o
          → Survives (elim o [ none ↦ none | some st ↦ some (check_match_end h now st) ])
      go none stop = stop
      go (some (e', s')) (w, _) = check_match_end-Inv now e' s' w

  advance-Survives :
      (r : Ranges) (now : ℕ) (p : Phase) (e : Engine F C) (s : S)
      → Inv e
      → Survives (advance h r now p (e, s))
  unfolding advance
  advance-Survives r now waiting e s v = tick_waiting-Inv now e v
  advance-Survives r now ended e s v = tick_ended-Inv now e s v
  advance-Survives r now live e s v = tick_live-Survives r now e s v

  lookup-send_all :
      (msg : M) (k : String) (m : Dict C)
      → is_some (lookup k (send_all h msg m)) ≡ is_some (lookup k m)
  unfolding send_all lookup
  lookup-send_all msg k [] = refl
  lookup-send_all msg k ((j, c) ∷ m) = ground (arith, lookup-send_all msg k m)

  pub Slot-client :
      (k : String) (o : Option (Player F)) (at : Option ℕ) (c c' : Option C) (allowed : Bool)
      → is_some c' ≡ is_some c
      → Slot k o at c allowed
      → Slot k o at c' allowed
  Slot-client k none at c none allowed e s = (s.0, refl)
  Slot-client k none at c (some x) allowed e (none_due, none_on) = ground arith
  Slot-client k (some p) at c c' allowed e (id, healthy, due, on, ok) =
      (id, healthy, due, e ∙ on, ok)

  broadcast-Inv : (now : ℕ) (e : Engine F C) → Inv e → Inv (broadcast h now e)
  unfolding broadcast
  broadcast-Inv now e v = elim (Option-cases (h.marshal (snapshot h now e))) [
    | inl failed ↦ rw (failed, broadcast) v
    | inr (msg, made) ↦
        rw (made, broadcast)
          (record {
            slots = λ k. Slot-client k _ _ _ _ _ (lookup-send_all msg k e.clients) (v.slots k);
            loaded = v.loaded;
          })
  ]

  -- A tick does not panic, and keeps the invariant.
  pub tick-Survives :
      (r : Ranges) (now : ℕ) (e : Engine F C) (s : S) → Inv e → Survives (tick h r now (e, s))
  unfolding tick
  tick-Survives r now e s v = go _ (advance-Survives r now e.phase e s v)
    where
      go :
          (o : Option (Engine F C × S))
          → Survives o
          → Survives (elim o [ none ↦ none | some (e, s) ↦ some (broadcast h now e, s) ])
      go none stop = stop
      go (some (e', s')) w = broadcast-Inv now e' w
