-- ===== src/Engine/Everyone/Calls.antt =====
-- engine.go: the calls of a match, and what holds of every player and of every client.
use nodefall.Base.{
  ℕ, String, Bool, ltb, ◌≡◌, inl, inr, some, none, Option, Option-cases, List, All, [], ◌∷◌,
  if-cases, subst, sym, leb_ℤ, pos, ◌&&◌, not, arith,
}
use nodefall.Base.Dict.{lookup, keys, AllFound, insert-AllFound, erase-AllFound}
use nodefall.Base.Loop.{for_each_inv, Returned, Returned-map, try_each}
use nodefall.Runtime.Clock.{since}
use nodefall.World.Constants.{reset_delay, fire_rate, match_start_delay}
use nodefall.World.Player.{Player, can_shoot}
use nodefall.Engine.State.{
  Engine, Host, Input, Ranges, Phase, waiting, live, ended, is_empty, is_zero,
}
use nodefall.Engine.Session.{
  is_allowed, start_countdown, admit, join, leave, steer, shoot, act, new_for_players, new_engine,
}
use nodefall.Engine.Session.Cases.{handle_input_cases}
use nodefall.Engine.Lifecycle.{
  tally, respawn_one, clear_match, reset_match, check_match_end, tick_waiting, tick_live,
  tick_ended, broadcast, advance, tick,
}
use nodefall.Engine.Run.{Event, joins, leaves, inputs, ticks, step, run}
use nodefall.Engine.Everyone.{Closed, simulate-AllFound, process_respawns-AllFound}

module _ {F S C M : Type 0} (h : Host F S C M) (Fine : Input F → Type 0)
    (Comes : String → Type 0) where
  -- The call brings an input, if one, that is fine, and a player, if one, who comes.
  abbrev pub Suits : Event F C → Type 0
  Suits (joins now c) = Comes (h.transport.id c)
  Suits (leaves c) = Unit
  Suits (inputs now c input) = Fine input
  Suits (ticks w now) = Unit

module _ {F S C M : Type 0} (h : Host F S C M) where
  module _ (P : Player F → Type 0) {Fine : Input F → Type 0} {Comes : String → Type 0}
      (closed : Closed h P Fine Comes) where
    reset_match-AllFound :
        (now : ℕ) (st : Engine F C × S)
        → AllFound P st.0.players
        → AllFound P (reset_match h now st).0.players
    unfolding reset_match clear_match respawn_one
    reset_match-AllFound now (e, s) each =
        for_each_inv (λ t. AllFound P t.0.players) (respawn_one h)
          (λ k t kept. respawned k t.0 t.1 kept) (keys e.players) _ each
      where
        respawned :
            (k : String) (e : Engine F C) (s : S)
            → AllFound P e.players
            → AllFound P (respawn_one h k (e, s)).0.players
        respawned k e s kept = elim (Option-cases (lookup k e.players)) [
          | inl gone ↦ rw (gone, respawn_one) kept
          | inr (p, there) ↦
              rw (there, respawn_one)
                (insert-AllFound P k _ e.players (closed.respawned p s (kept k p there)) kept)
        ]

    check_match_end-AllFound :
        (now : ℕ) (st : Engine F C × S)
        → AllFound P st.0.players
        → AllFound P (check_match_end h now st).0.players
    unfolding check_match_end
    check_match_end-AllFound now (e, s) each =
        if-cases {A = Engine F C × S} (λ t. AllFound P t.0.players) (is_empty e.players) _ _
          (λ empty. reset_match-AllFound now (e, s) each)
          (λ there.
            if-cases {A = Engine F C × S} (λ t. AllFound P t.0.players)
              (ltb 1 (tally e.players (0, "")).0) (e, s) _ (λ on. each) (λ over. each))

    advance-AllFound :
        (w : Ranges) (now : ℕ) (p : Phase) (st : Engine F C × S)
        → AllFound P st.0.players
        → Returned (λ t. AllFound P t.0.players) (advance h w now p st)
    unfolding advance
    advance-AllFound w now waiting (e, s) each =
        unfold tick_waiting in
        (if-cases {A = Engine F C} (λ e. AllFound P e.players)
          (not (is_zero e.wait_started) && leb_ℤ (pos match_start_delay) (since now e.wait_started))
          _ e (λ start. each) (λ wait. each))
    advance-AllFound w now ended (e, s) each =
        unfold tick_ended in
        (if-cases {A = Engine F C × S} (λ t. AllFound P t.0.players)
          (leb_ℤ (pos reset_delay) (since now e.ended_at)) _ (e, s)
          (λ over. reset_match-AllFound now (e, s) each) (λ linger. each))
    advance-AllFound w now live (e, s) each =
        unfold tick_live in
        (Returned-map (λ t. AllFound P t.0.players) (check_match_end h now)
          (check_match_end-AllFound now) _
          (process_respawns-AllFound h P closed now _ s
            (simulate-AllFound h P closed w now e each)))

    players-broadcast : (now : ℕ) (e : Engine F C) → (broadcast h now e).players ≡ e.players
    unfolding broadcast
    players-broadcast now e = ground arith

    tick-AllFound :
        (w : Ranges) (now : ℕ) (st : Engine F C × S)
        → AllFound P st.0.players
        → Returned (λ t. AllFound P t.0.players) (tick h w now st)
    unfolding tick
    tick-AllFound w now st each =
        Returned-map {S = Engine F C × S} (λ t. AllFound P t.0.players)
          (λ t. (broadcast h now t.0, t.1))
          (λ t kept. subst (AllFound P) (sym (players-broadcast now t.0)) kept) _
          (advance-AllFound w now st.0.phase st each)

    act-AllFound :
        (now : ℕ) (k : String) (p : Player F) (input : Input F) (e : Engine F C)
        → Fine input
        → lookup k e.players ≡ some p
        → AllFound P e.players
        → AllFound P (act h now k p input e).players
    unfolding act shoot
    act-AllFound now k p input e fine there each =
        let moved = closed.steered p input fine (each k p there) in
        if-cases {A = Engine F C} (λ e. AllFound P e.players)
          (input.shoot && can_shoot (steer h p input) fire_rate now) _ _
          (λ fires. insert-AllFound P k _ e.players (closed.shot _ now (ground arith) moved) each)
          (λ holds. insert-AllFound P k _ e.players moved each)

    players-start_countdown :
        (now : ℕ) (e : Engine F C) → (start_countdown h now e).players ≡ e.players
    unfolding start_countdown
    players-start_countdown now e = ground arith

    step-AllFound :
        (x : Event F C) (st : Engine F C × S)
        → Suits h Fine Comes x
        → AllFound P st.0.players
        → Returned (λ t. AllFound P t.0.players) (step h x st)
    unfolding step
    step-AllFound (joins now c) (e, s) fine each =
        unfold join admit in
        (if-cases {A = Engine F C × S × Bool} (λ r. AllFound P r.0.players)
          (not (is_allowed e.allowed_players (h.transport.id c))) _ _ (λ refused. each)
          (λ let_in.
            insert-AllFound P _ _ _ (closed.arrived _ s fine)
              (subst (AllFound P) (sym (players-start_countdown now e)) each)))
    step-AllFound (leaves c) (e, s) fine each = unfold leave in (erase-AllFound P _ e.players each)
    step-AllFound (inputs now c input) (e, s) fine each =
        handle_input_cases h (λ e. AllFound P e.players) now c input e each
          (λ p _ there _. act-AllFound now _ p input e fine there each)
    step-AllFound (ticks w now) st fine each = tick-AllFound w now st each

    -- If the calls suit, what holds of every player at the start holds of every
    -- player at the end.
    pub run-AllFound :
        (xs : List (Event F C)) (st : Engine F C × S)
        → All (Suits h Fine Comes) xs
        → AllFound P st.0.players
        → Returned (λ t. AllFound P t.0.players) (run h xs st)
    unfolding run try_each
    run-AllFound [] st fine each = each
    run-AllFound (x ∷ xs) st fine each =
        go (step h x st) (step-AllFound x st fine.0 each) (λ t kept. run-AllFound xs t fine.1 kept)
      where
        go :
            (o : Option (Engine F C × S))
            → Returned (λ t. AllFound P t.0.players) o
            → ((t : Engine F C × S)
                → AllFound P t.0.players
                → Returned (λ t. AllFound P t.0.players) (run h xs t))
            → Returned
                (λ t. AllFound P t.0.players)
                (elim o [ none ↦ none | some t ↦ try_each (step h) xs t ])
        go none r rest = tt
        go (some t) r rest = rest t r

    pub new_for_players-AllFound :
        (ids : List String) (now : ℕ) (s : S) → AllFound P (new_for_players h ids now s).0.players
    unfolding new_for_players new_engine lookup
    new_for_players-AllFound ids now s k p found = ground arith
