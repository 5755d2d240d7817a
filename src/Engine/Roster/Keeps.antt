-- ===== src/Engine/Roster/Keeps.antt =====
-- engine.go: the roster across the calls.
use nodefall.Base.{
  ℕ, Bool, ◌≡◌, some, none, ltb, leb_ℤ, pos, Option, if-cases, arith, List, [], ◌∷◌,
}
use nodefall.Base.Dict.{keys, Dict}
use nodefall.Base.Loop.{try_each, for_each_inv}
use nodefall.Runtime.Clock.{since}
use nodefall.World.Constants.{reset_delay}
use nodefall.World.Bullet.{Bullet}
use nodefall.World.Item.{Item}
use nodefall.Engine.State.{Engine, Host, Ranges, Phase, is_empty, waiting, live, ended}
use nodefall.Engine.Session.{start_countdown, admit, join, leave, shoot, act}
use nodefall.Engine.Session.Cases.{handle_input_cases}
use nodefall.Engine.Steps.{process_respawns}
use nodefall.Engine.Frame.{Framed, simulate-Frame, process_respawns-Frame}
use nodefall.World.Player.{Player}
use nodefall.World.Zone.{Zone}
use nodefall.Engine.Lifecycle.{
  respawn_one, clear_match, reset_match, check_match_end, tick_waiting, tick_live, tick_ended,
  tally, broadcast, advance, tick,
}
use nodefall.Engine.Run.{Event, joins, leaves, inputs, ticks, step, run}

module _ {F S C M : Type 0} (h : Host F S C M) (r : Option (Dict Bool)) where
  -- The engine has the roster `r`.
  abbrev pub Keeps : Engine F C → Type 0
  Keeps e = e.allowed_players ≡ r

  pub unframed :
      (e : Engine F C) (players : Dict (Player F)) (bullets : List (Bullet F))
      (items : List (Item F)) (zone : Zone F) (times : Dict ℕ)
      → Keeps e
      → Keeps (record e {
        players = players;
        bullets = bullets;
        items = items;
        zone = zone;
        respawn_at = times;
      })
  unframed e players bullets items zone times k = k

  abbrev pub Kept : Option (Engine F C × S) → Type 0
  Kept = Framed h Keeps unframed

  reset_match-Keeps :
      (now : ℕ) (e : Engine F C) (s : S) → Keeps e → Keeps (reset_match h now (e, s)).0
  unfolding reset_match clear_match
  reset_match-Keeps now e s k =
      for_each_inv (λ t. Keeps t.0) (respawn_one h)
        (λ j t kept. unfold respawn_one in (ground arith)) (keys e.players) _ k

  check_match_end-Keeps :
      (now : ℕ) (t : Engine F C × S) → Keeps t.0 → Keeps (check_match_end h now t).0
  unfolding check_match_end
  check_match_end-Keeps now (e, s) k =
      if-cases {A = Engine F C × S} (λ t. Keeps t.0) (is_empty e.players) _ _
        (λ empty. reset_match-Keeps now e s k)
        (λ there.
          if-cases {A = Engine F C × S} (λ t. Keeps t.0) (ltb 1 (tally e.players (0, "")).0) (e, s)
            _ (λ on. k) (λ over. k))

  Kept-map :
      (f : Engine F C × S → Engine F C × S)
      → ((t : Engine F C × S) → Keeps t.0 → Keeps (f t).0)
      → (o : Option (Engine F C × S)) → Kept o
      → Kept (elim o [ none ↦ none | some t ↦ some (f t) ])
  Kept-map f keep none k = tt
  Kept-map f keep (some t) k = keep t k

  advance-Keeps :
      (w : Ranges) (now : ℕ) (p : Phase) (e : Engine F C) (s : S)
      → Keeps e
      → Kept (advance h w now p (e, s))
  unfolding advance
  advance-Keeps w now waiting e s k = unfold tick_waiting in (ground arith)
  advance-Keeps w now ended e s k =
      unfold tick_ended in
      (if-cases {A = Engine F C × S} (λ t. Keeps t.0)
        (leb_ℤ (pos reset_delay) (since now e.ended_at)) _ (e, s)
        (λ over. reset_match-Keeps now e s k) (λ wait. k))
  advance-Keeps w now live e s k =
      unfold tick_live process_respawns in
      (Kept-map (check_match_end h now) (check_match_end-Keeps now) _ (
        process_respawns-Frame h Keeps unframed now _ _ s
          (simulate-Frame h Keeps unframed w now e k)))

  tick-Keeps :
      (w : Ranges) (now : ℕ) (e : Engine F C) (s : S) → Keeps e → Kept (tick h w now (e, s))
  unfolding tick broadcast
  tick-Keeps w now e s k =
      Kept-map (λ t. (broadcast h now t.0, t.1)) (λ t kept. ground arith) _
        (advance-Keeps w now e.phase e s k)

  step-Keeps : (x : Event F C) (e : Engine F C) (s : S) → Keeps e → Kept (step h x (e, s))
  unfolding step
  step-Keeps (joins now c) e s k = unfold join admit start_countdown in (ground arith)
  step-Keeps (leaves c) e s k = unfold leave in k
  step-Keeps (inputs now c input) e s k =
      handle_input_cases h Keeps now c input e k (λ p _ _ _. unfold act shoot in (ground arith))
  step-Keeps (ticks w now) e s k = tick-Keeps w now e s k

  pub run-Keeps :
      (xs : List (Event F C)) (e : Engine F C) (s : S) → Keeps e → Kept (run h xs (e, s))
  unfolding run try_each
  run-Keeps [] e s k = k
  run-Keeps (x ∷ xs) e s k = go _ (step-Keeps x e s k) (run-Keeps xs)
    where
      go :
          (o : Option (Engine F C × S))
          → Kept o
          → ((e : Engine F C) (s : S) → Keeps e → Kept (run h xs (e, s)))
          → Kept (elim o [ none ↦ none | some t ↦ try_each (step h) xs t ])
      go none kept rest = tt
      go (some (e', s')) kept rest = rest e' s' kept
