-- ===== src/Engine/Invariant/Run.antt =====
-- engine.go: the invariant along a whole match, from `New` or `NewForPlayers` through any calls.
use nodefall.Base.{
  ℕ, String, Bool, true, ◌&&◌, ◌≡◌, inl, inr, refl, some, none, sym, ap, ◌∙◌, Option, Bool-cases,
  arith, List, [], ◌∷◌, All-append,
}
use nodefall.Base.Dict.{
  lookup, lookup-insert_self, lookup-insert_ne, lookup-erase_self, lookup-erase_ne,
}
use nodefall.Base.Loop.{try_each}
use nodefall.World.Constants.{fire_rate}
use nodefall.World.Player.{Player, new_player, move_player, record_shot, can_shoot}
use nodefall.World.Player.Damage.{IsHealthy}
use nodefall.World.Bullet.{new_bullet}
use nodefall.Engine.State.{Engine, Host, Input, is_waiting, is_empty, is_zero}
use nodefall.Engine.Session.{
  is_allowed, new_engine, new_for_players, start_countdown, admit, join, leave, steer, shoot, act,
  handle_input,
}
use nodefall.Engine.Session.Cases.{handle_input_cases}
use nodefall.Engine.Run.{Event, joins, leaves, inputs, ticks, step, run}
use nodefall.Engine.Invariant.{Slot, IsLoaded, Inv}
use nodefall.Engine.Invariant.Slots.{slots-change, Slot-player, write-slots}
use nodefall.Engine.Invariant.Lifecycle.{Survives, tick-Survives}

module _ {F S C M : Type 0} (h : Host F S C M) where
  new_player_fresh :
      (id : String) (x y : F) (at : Option ℕ) (c : C) {allowed : Bool}
      → allowed ≡ true
      → Slot id (some (new_player h.float id x y)) at (some c) allowed
  unfolding new_player
  new_player_fresh id x y at c ok = (refl, ground arith, λ dead. cc, refl, ok)

  start_countdown-Inv :
      (now : ℕ) (e : Engine F C)
      → Inv e
      → Inv (start_countdown h now e)
        × ((start_countdown h now e).allowed_players ≡ e.allowed_players)
  unfolding start_countdown
  start_countdown-Inv now e v =
      elim (Bool-cases (is_waiting e.phase && is_empty e.players && is_zero e.wait_started)) [
        | inl first ↦ rw first (record { slots = v.slots; loaded = v.loaded }, refl)
        | inr later ↦ rw later (v, refl)
      ]

  admit-Inv :
      (c : C) (x y : F) (e : Engine F C)
      → is_allowed e.allowed_players (h.transport.id c) ≡ true
      → Inv e
      → Inv (admit h c x y e)
  unfolding admit
  admit-Inv c x y e allowed v =
      let k = h.transport.id c in
      record {
        slots =
            slots-change k e (admit h c x y e)
              (record {
                players = λ j ne. lookup-insert_ne k e.players j _ ne;
                times = λ j ne. refl;
                clients = λ j ne. lookup-insert_ne k e.clients j c ne;
                roster = refl;
              })
              v.slots
              (rw (lookup-insert_self k e.players, lookup-insert_self k e.clients)
                (new_player_fresh k x y _ c allowed));
        loaded = v.loaded;
      }

  pub join-Inv : (now : ℕ) (c : C) (e : Engine F C) (s : S) → Inv e → Inv (join h now c e s).0
  unfolding join
  join-Inv now c e s v = elim (Bool-cases (is_allowed e.allowed_players (h.transport.id c))) [
    | inr refused ↦ rw refused v
    | inl allowed ↦
        let (w, same) = start_countdown-Inv now e v in
        rw allowed (admit-Inv c _ _ _ (ap (λ r. is_allowed r (h.transport.id c)) same ∙ allowed) w)
  ]

  pub leave-Inv : (c : C) (e : Engine F C) → Inv e → Inv (leave h c e)
  unfolding leave
  leave-Inv c e v =
      let k = h.transport.id c in
      record {
        slots =
            slots-change k e (leave h c e)
              (record {
                players = λ j ne. lookup-erase_ne k e.players j ne;
                times = λ j ne. lookup-erase_ne k e.respawn_at j ne;
                clients = λ j ne. lookup-erase_ne k e.clients j ne;
                roster = refl;
              })
              v.slots
              (rw (lookup-erase_self k e.players)
                (lookup-erase_self k e.respawn_at, lookup-erase_self k e.clients));
        loaded = v.loaded;
      }

  -- Moving, aiming and shooting leave ID, health and life alone.
  same_body :
      (now : ℕ) (p : Player F) (input : Input F)
      → let q = steer h p input in
        (q.id ≡ p.id)
        × (q.alive ≡ p.alive)
        × (IsHealthy p → IsHealthy q × IsHealthy (record_shot q now))
  unfolding steer move_player record_shot
  same_body now p input = ground arith

  act-Inv :
      (now : ℕ) (k : String) (p : Player F) (input : Input F) (e : Engine F C)
      → lookup k e.players ≡ some p
      → Inv e
      → Inv (act h now k p input e)
  unfolding act
  act-Inv now k p input e at_k v =
      let moved = steer h p input in
      let (id, alive, body) = same_body now p input in
      let (walked, shot) = body (Slot-player k e p at_k (v.slots k)).1 in
      elim (Bool-cases (input.shoot && can_shoot moved fire_rate now)) [
        | inl fires ↦ rw fires (
            unfold shoot record_shot in
            (record {
              slots =
                  write-slots k e p (record_shot moved now) at_k id shot (λ d. sym alive ∙ d)
                    v.slots;
              loaded =
                  All-append IsLoaded e.bullets _ v.loaded
                    (unfold new_bullet in ((refl, omega arith, omega arith), tt));
            }))
        | inr holds ↦ rw holds (record {
          slots = write-slots k e p moved at_k id walked (λ d. sym alive ∙ d) v.slots;
          loaded = v.loaded;
        })
      ]

  pub handle_input-Inv :
      (now : ℕ) (c : C) (input : Input F) (e : Engine F C)
      → Inv e
      → Inv (handle_input h now c input e)
  handle_input-Inv now c input e v =
      handle_input_cases h Inv now c input e v
        (λ p _ at_c _. act-Inv now (h.transport.id c) p input e at_c v)

  step-Survives : (x : Event F C) (e : Engine F C) (s : S) → Inv e → Survives h (step h x (e, s))
  unfolding step
  step-Survives (joins now c) e s v = join-Inv now c e s v
  step-Survives (leaves c) e s v = leave-Inv c e v
  step-Survives (inputs now c input) e s v = handle_input-Inv now c input e v
  step-Survives (ticks r now) e s v = tick-Survives h r now e s v

  -- No sequence of calls panics, and each leaves the invariant in place.
  pub run-Survives :
      (xs : List (Event F C)) (e : Engine F C) (s : S) → Inv e → Survives h (run h xs (e, s))
  unfolding run try_each
  run-Survives [] e s v = v
  run-Survives (x ∷ xs) e s v = go _ (step-Survives x e s v) (run-Survives xs)
    where
      go :
          (o : Option (Engine F C × S))
          → Survives h o
          → ((e : Engine F C) (s : S) → Inv e → Survives h (run h xs (e, s)))
          → Survives h (elim o [ none ↦ none | some t ↦ try_each (step h) xs t ])
      go none stop rest = stop
      go (some (e', s')) w rest = rest e' s' w

  pub new_for_players-Inv :
      (ids : List String) (now : ℕ) (s : S) → Inv (new_for_players h ids now s).0
  unfolding new_for_players new_engine lookup
  new_for_players-Inv ids now s = record { slots = λ k. (refl, refl); loaded = tt }

  -- An engine made for a roster survives whatever is called on it, in whatever order: no call panics,
  -- and the invariant holds at the end.
  pub run-new_for_players-Survives :
      (ids : List String) (now : ℕ) (s : S) (xs : List (Event F C))
      → Survives h (run h xs (new_for_players h ids now s))
  run-new_for_players-Survives ids now s xs =
      let (e, t) = new_for_players h ids now s in
      run-Survives xs e t (new_for_players-Inv ids now s)
