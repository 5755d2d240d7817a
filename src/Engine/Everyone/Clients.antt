-- ===== src/Engine/Everyone/Clients.antt =====
-- engine.go: the clients of a match, which only `Join`, `Leave` and the broadcasts write.
use nodefall.Base.{
  inl, inr, ℕ, String, Bool, not, ltb, leb_ℤ, pos, ◌≡◌, refl, sym, subst, some, none, Option,
  Option-cases, if-cases, arith, List, [], ◌∷◌, All,
}
use nodefall.Base.Dict.{Dict, Each, insert-Each, erase-Each}
use nodefall.Base.Loop.{for_each_inv, Returned, Returned-map, try_each, try_each_then}
use nodefall.Runtime.Clock.{since}
use nodefall.World.Constants.{reset_delay}
use nodefall.Engine.State.{Engine, Host, Input, Ranges, Phase, waiting, live, ended, is_empty}
use nodefall.Engine.Session.{
  is_allowed, start_countdown, admit, join, leave, shoot, act, handle_input,
}
use nodefall.Engine.Session.Cases.{handle_input_cases}
use nodefall.Engine.Steps.{process_respawns}
use nodefall.Engine.Frame.{Framed, simulate-Frame, process_respawns-Frame}
use nodefall.Engine.Lifecycle.{
  tally, respawn_one, reset_match, clear_match, check_match_end, tick_waiting, tick_live,
  tick_ended, snapshot, send_all, broadcast, advance, tick,
}
use nodefall.Engine.Run.{Event, joins, leaves, inputs, ticks, step, run}

module _ {F S C M : Type 0} (h : Host F S C M) where
  pub clients-handle_input :
      (now : ℕ) (c : C) (input : Input F) (e : Engine F C)
      → (handle_input h now c input e).clients ≡ e.clients
  clients-handle_input now c input e =
      handle_input_cases h (λ e'. e'.clients ≡ e.clients) now c input e refl
        (λ p _ _ _. unfold act shoot in (ground arith))

  pub clients-start_countdown :
      (now : ℕ) (e : Engine F C) → (start_countdown h now e).clients ≡ e.clients
  unfolding start_countdown
  clients-start_countdown now e = ground arith

  clients-respawn_one :
      (k : String) (e : Engine F C) (s : S) → (respawn_one h k (e, s)).0.clients ≡ e.clients
  unfolding respawn_one
  clients-respawn_one k e s = ground arith

  module _ (Q : Dict C → Type 0) where
    reset_match-Clients :
        (now : ℕ) (e : Engine F C) (s : S) → Q e.clients → Q (reset_match h now (e, s)).0.clients
    unfolding reset_match clear_match
    reset_match-Clients now e s q =
        for_each_inv (λ t. Q t.0.clients) (respawn_one h)
          (λ k t kept. subst Q (sym (clients-respawn_one k t.0 t.1)) kept) _ _ q

    check_match_end-Clients :
        (now : ℕ) (t : Engine F C × S) → Q t.0.clients → Q (check_match_end h now t).0.clients
    unfolding check_match_end
    check_match_end-Clients now (e, s) q =
        if-cases {A = Engine F C × S} (λ t. Q t.0.clients) (is_empty e.players) _ _
          (λ empty. reset_match-Clients now e s q)
          (λ there.
            if-cases {A = Engine F C × S} (λ t. Q t.0.clients) (ltb 1 (tally e.players (0, "")).0)
              (e, s) _ (λ on. q) (λ over. q))

    clients-tick_waiting : (now : ℕ) (e : Engine F C) → (tick_waiting h now e).clients ≡ e.clients
    unfolding tick_waiting
    clients-tick_waiting now e = ground arith

    -- A call that panics leaves nothing to speak of.
    framed :
        (o : Option (Engine F C × S))
        → Framed h (λ e. Q e.clients) (λ e ps bs is z ts k. k) o
        → Returned (λ t. Q t.0.clients) o
    framed none r = tt
    framed (some t) r = r

    -- The stages of a tick leave the clients as they are.
    pub advance-Clients :
        (w : Ranges) (now : ℕ) (p : Phase) (e : Engine F C) (s : S)
        → Q e.clients
        → Returned (λ t. Q t.0.clients) (advance h w now p (e, s))
    unfolding advance
    advance-Clients w now waiting e s q = subst Q (sym (clients-tick_waiting now e)) q
    advance-Clients w now ended e s q =
        unfold tick_ended in
        (if-cases {A = Engine F C × S} (λ t. Q t.0.clients)
          (leb_ℤ (pos reset_delay) (since now e.ended_at)) _ (e, s)
          (λ over. reset_match-Clients now e s q) (λ linger. q))
    advance-Clients w now live e s q =
        unfold tick_live process_respawns in
        (Returned-map {S = Engine F C × S} (λ t. Q t.0.clients) (check_match_end h now)
          (check_match_end-Clients now) _
          (framed _ (
            process_respawns-Frame h (λ e. Q e.clients) (λ e ps bs is z ts k. k) now _ _ s
              (simulate-Frame h (λ e. Q e.clients) (λ e ps bs is z ts k. k) w now e q))))

  module _ (Q : Dict C → Type 0) (sent : (msg : M) (m : Dict C) → Q m → Q (send_all h msg m)) where
    broadcast-Clients : (now : ℕ) (e : Engine F C) → Q e.clients → Q (broadcast h now e).clients
    unfolding broadcast
    broadcast-Clients now e q = elim (Option-cases (h.marshal (snapshot h now e))) [
      | inl failed ↦ rw (failed, broadcast) q
      | inr (msg, made) ↦ rw (made, broadcast) (sent msg e.clients q)
    ]

    -- A tick keeps what a broadcast keeps.
    pub tick-Clients :
        (w : Ranges) (now : ℕ) (st : Engine F C × S)
        → Q st.0.clients
        → Returned (λ t. Q t.0.clients) (tick h w now st)
    unfolding tick
    tick-Clients w now (e, s) q =
        Returned-map {S = Engine F C × S} (λ t. Q t.0.clients) (λ t. (broadcast h now t.0, t.1))
          (λ t kept. broadcast-Clients now t.0 kept) _ (advance-Clients Q w now e.phase e s q)

  module _ (R : C → Type 0) (sent : (msg : M) (c : C) → R c → R (h.transport.send msg c)) where
    pub send_all-Each : (msg : M) (m : Dict C) → Each R m → Each R (send_all h msg m)
    unfolding send_all
    send_all-Each msg [] each = tt
    send_all-Each msg ((k, c) ∷ m) (here, rest) = (sent msg c here, send_all-Each msg m rest)

    -- The client that joins, if one does, has the property.
    abbrev pub Brings : Event F C → Type 0
    Brings (joins now c) = R c
    Brings (leaves c) = Unit
    Brings (inputs now c input) = Unit
    Brings (ticks w now) = Unit

    step-Clients :
        (x : Event F C) (st : Engine F C × S)
        → Brings x
        → Each R st.0.clients
        → Returned (λ t. Each R t.0.clients) (step h x st)
    unfolding step
    step-Clients (joins now c) (e, s) fine each =
        unfold join admit in
        (if-cases {A = Engine F C × S × Bool} (λ r. Each R r.0.clients)
          (not (is_allowed e.allowed_players (h.transport.id c))) _ _ (λ refused. each)
          (λ let_in.
            insert-Each R _ _ _ fine (subst (Each R) (sym (clients-start_countdown now e)) each)))
    step-Clients (leaves c) (e, s) fine each = unfold leave in (erase-Each R _ e.clients each)
    step-Clients (inputs now c input) (e, s) fine each =
        subst (Each R) (sym (clients-handle_input now c input e)) each
    step-Clients (ticks w now) st fine each = tick-Clients (Each R) send_all-Each w now st each

    -- What holds of every client who joins, and is kept by what is sent, holds of every client.
    pub run-Clients :
        (xs : List (Event F C)) (st : Engine F C × S)
        → All Brings xs
        → Each R st.0.clients
        → Returned (λ t. Each R t.0.clients) (run h xs st)
    unfolding run try_each
    run-Clients [] st fine each = each
    run-Clients (x ∷ xs) st fine each =
        try_each_then {S = Engine F C × S} (λ t. Each R t.0.clients) (step h x st)
          (step-Clients x st fine.0 each) _ (λ t kept. run-Clients xs t fine.1 kept)
