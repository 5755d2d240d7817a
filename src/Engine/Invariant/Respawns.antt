-- ===== src/Engine/Invariant/Respawns.antt =====
-- engine.go: `processRespawns` and the invariant.
use nodefall.Base.{
  ℕ, String, Bool, true, ltb, ◌≡◌, inl, inr, refl, some, none, is_some, Option, Option-cases,
  Bool-cases, arith, List, [], ◌∷◌, All, All-map,
}
use nodefall.Base.Dict.{
  lookup, insert, erase, lookup-insert, lookup-insert_self, lookup-insert_ne, lookup-erase_ne,
  entries-found, Dict,
}
use nodefall.Base.Loop.{try_each}
use nodefall.World.Player.{Player, respawn}
use nodefall.World.Player.Damage.{respawn-IsHealthy}
use nodefall.Engine.State.{Engine, Host}
use nodefall.Engine.Steps.{respawn_due, process_respawns}
use nodefall.Engine.Invariant.{Slot, SlotOf, Inv}
use nodefall.Engine.Invariant.Slots.{Slot-player, slots-change}

abbrev pub Present : {F C : Type 0} → Engine F C → String → Type 0
Present e k = is_some (lookup k e.players) ≡ true

module _ {F C : Type 0} where
  -- A respawned player needs no respawn time.
  pub respawn-slots :
      (k : String) (e : Engine F C) (p : Player F) (x y : F)
      → lookup k e.players ≡ some p
      → ((j : String) → SlotOf e j)
      → (j : String)
      → SlotOf
          (record e {
            players = insert k (respawn p x y) e.players;
            respawn_at = erase k e.respawn_at;
          })
          j
  unfolding respawn
  respawn-slots k e p x y at_k all =
      let (id, _, _, client, allowed) = Slot-player k e p at_k (all k) in
      slots-change k e
        (record e {
          players = insert k (respawn p x y) e.players;
          respawn_at = erase k e.respawn_at;
        })
        (record {
          players = λ j ne. lookup-insert_ne k e.players j _ ne;
          times = λ j ne. lookup-erase_ne k e.respawn_at j ne;
          clients = λ j ne. refl;
          roster = refl;
        })
        all
        (rw (lookup-insert_self k e.players)
          (id, respawn-IsHealthy p x y, λ d. cc, client, allowed))

module _ {F : Type 0} where
  Slot-scheduled :
      {C : Type 0} (k : String) (o : Option (Player F)) (at : Option ℕ) (c : Option C)
      (allowed : Bool)
      → Slot k o at c allowed
      → is_some at ≡ true
      → is_some o ≡ true
  Slot-scheduled k none at c allowed slot found = ground arith
  Slot-scheduled k (some p) at c allowed slot found = refl

  -- Writing a player who is there leaves everybody there.
  pub Present-write :
      (k j : String) (m : Dict (Player F)) (q : Player F)
      → is_some (lookup k m) ≡ true
      → is_some (lookup j m) ≡ true
      → is_some (lookup j (insert k q m)) ≡ true
  Present-write k j m q there h = ground (arith, lookup-insert k j q m)

module _ {F S C M : Type 0} (h : Host F S C M) where
  -- What a step of the loop comes to: no panic, the invariant, and nobody has gone.
  abbrev pub Continues : Engine F C → Option (Engine F C × S) → Type 0
  Continues e none = ⊥
  Continues e (some (e', s)) = Inv e' × ((k : String) → Present e k → Present e' k)

  respawn_due-Continues :
      (now : ℕ) (id : String) (at : ℕ) (e : Engine F C) (s : S)
      → Inv e
      → Present e id
      → Continues e (respawn_due h now (id, at) (e, s))
  unfolding respawn_due
  respawn_due-Continues now id at e s v there = elim (Bool-cases (ltb now at)) [
    | inl early ↦ rw (early, respawn_due) (v, λ k p. p)
    | inr due ↦ elim (Option-cases (lookup id e.players)) [
      | inl missing ↦ ground arith
      | inr (p, at_id) ↦
          rw (due, at_id, respawn_due)
            (
              record { slots = respawn-slots id e p _ _ at_id v.slots; loaded = v.loaded },
              λ k. Present-write id k e.players _ there,
            )
    ]
  ]

  Continues-mono :
      (e e' : Engine F C) (r : Option (Engine F C × S))
      → ((k : String) → Present e k → Present e' k)
      → Continues e' r
      → Continues e r
  Continues-mono e e' none keep c = c
  Continues-mono e e' (some (e'', s)) keep (v, on) = (v, λ k p. on k (keep k p))

  process-Continues :
      (now : ℕ) (entries : List (String × ℕ)) (e : Engine F C) (s : S)
      → Inv e
      → All (λ x. Present e x.0) entries
      → Continues e (try_each (respawn_due h now) entries (e, s))
  unfolding try_each
  process-Continues now [] e s v there = (v, λ k p. p)
  process-Continues now ((id, at) ∷ entries) e s v there =
      go (respawn_due h now (id, at) (e, s)) (respawn_due-Continues now id at e s v there.0)
        (process-Continues now entries)
    where
      go :
          (r : Option (Engine F C × S))
          → Continues e r
          → ((e' : Engine F C) (s' : S)
              → Inv e'
              → All (λ x. Present e' x.0) entries
              → Continues e' (try_each (respawn_due h now) entries (e', s')))
          → Continues e (elim r [ none ↦ none | some t ↦ try_each (respawn_due h now) entries t ])
      go none stop rest = stop
      go (some (e', s')) (v', keep) rest =
          Continues-mono e e' _ keep (rest e' s' v' (All-map entries (λ x. keep x.0) there.1))

  -- `processRespawns` does not panic, and keeps the invariant.
  pub process_respawns-Continues :
      (now : ℕ) (e : Engine F C) (s : S) → Inv e → Continues e (process_respawns h now (e, s))
  unfolding process_respawns
  process_respawns-Continues now e s v = process-Continues now e.respawn_at e s v (
      All-map e.respawn_at (λ x found. Slot-scheduled x.0 _ _ _ _ (v.slots x.0) found)
        (entries-found e.respawn_at))
