-- ===== src/Engine/Invariant/Slots.antt =====
-- How a change to one key's entries carries the slots of all keys along.
use nodefall.Base.{
  ℕ, String, ◌==◌, Bool, true, false, ◌≡◌, ◌⊎◌, inl, inr, refl, subst, ◌∙◌, some, String-cases,
  arith, List, [], ◌∷◌,
}
use nodefall.Base.Dict.{
  Dict, lookup, insert, lookup-insert_self, lookup-insert_ne, lookup-insert_at,
}
use nodefall.World.Player.{Player}
use nodefall.World.Player.Damage.{IsHealthy}
use nodefall.Engine.State.{Engine}
use nodefall.Engine.Session.{is_allowed}
use nodefall.Engine.Steps.{settle, first_match}
use nodefall.Engine.Invariant.{Slot, SlotOf}

module _ {F : Type 0} where
  pub first_match-found :
      (test : Player F → Bool) (players : Dict (Player F)) (ks : List String) (k : String)
      (p : Player F)
      → first_match test players ks ≡ some (k, p)
      → (lookup k players ≡ some p) × (test p ≡ true)
  unfolding first_match
  first_match-found test players [] k p h = ground arith
  first_match-found test players (j ∷ ks) k p h =
      ground (arith, first_match-found test players ks k p)

module _ {F C : Type 0} where
  -- Outside the key k nothing of a slot changed.
  pub record Elsewhere (k : String) (e e' : Engine F C) : Type 0 where
    pub players : (j : String) → (k == j) ≡ false → lookup j e'.players ≡ lookup j e.players
    pub times : (j : String) → (k == j) ≡ false → lookup j e'.respawn_at ≡ lookup j e.respawn_at
    pub clients : (j : String) → (k == j) ≡ false → lookup j e'.clients ≡ lookup j e.clients
    pub roster : e'.allowed_players ≡ e.allowed_players

  pub slots-change :
      (k : String) (e e' : Engine F C)
      → Elsewhere k e e'
      → ((j : String) → SlotOf e j)
      → SlotOf e' k
      → (j : String) → SlotOf e' j
  slots-change k e e' other all here j = elim (String-cases k j) [
    | inl same ↦ subst (SlotOf e') same here
    | inr (ne, _, _) ↦
        rw (other.players j ne, other.times j ne, other.clients j ne, other.roster) (all j)
  ]

  -- The slot of a player who is there.
  pub Slot-player :
      (k : String) (e : Engine F C) (p : Player F)
      → lookup k e.players ≡ some p
      → SlotOf e k
      → Slot k
          (some p)
          (lookup k e.respawn_at)
          (lookup k e.clients)
          (is_allowed e.allowed_players k)
  Slot-player k e p at_k =
      subst
        (λ o.
          Slot k o (lookup k e.respawn_at) (lookup k e.clients) (is_allowed e.allowed_players k))
        at_k

  -- Rewriting a player that is there, with the same ID and healthy.
  pub write-slots :
      (k : String) (e : Engine F C) (p q : Player F)
      → lookup k e.players ≡ some p
      → q.id ≡ p.id
      → IsHealthy q
      → (q.alive ≡ false → p.alive ≡ false)
      → ((j : String) → SlotOf e j)
      → (j : String) → SlotOf (record e { players = insert k q e.players }) j
  write-slots k e p q at_k same healthy dead all =
      let (id, _, due, client, allowed) = Slot-player k e p at_k (all k) in
      slots-change k e (record e { players = insert k q e.players })
        (record {
          players = λ j ne. lookup-insert_ne k e.players j q ne;
          times = λ j ne. refl;
          clients = λ j ne. refl;
          roster = refl;
        })
        all
        (rw (lookup-insert_self k e.players q)
          (same ∙ id, healthy, λ d. due (dead d), client, allowed))

  -- A player hit by damage that left it healthy, and that reported a death.
  pub settle-slots :
      (now : ℕ) (k : String) (e : Engine F C) (p q : Player F) (died : Bool)
      → lookup k e.players ≡ some p
      → q.id ≡ p.id
      → IsHealthy q
      → (q.alive ≡ false → (died ≡ true) ⊎ (p.alive ≡ false))
      → ((j : String) → SlotOf e j)
      → (j : String) → SlotOf (settle now k (q, died) e) j
  unfolding settle
  settle-slots now k e p q false at_k same healthy dead all =
      write-slots k e p q at_k same healthy (λ d. ground (arith, dead d)) all
  settle-slots now k e p q true at_k same healthy dead all =
      let (id, _, due, client, allowed) = Slot-player k e p at_k (all k) in
      slots-change k e (settle now k (q, true) e)
        (record {
          players = λ j ne. lookup-insert_ne k e.players j q ne;
          times = λ j ne. lookup-insert_ne q.id e.respawn_at j _ (rw (same ∙ id) ne);
          clients = λ j ne. refl;
          roster = refl;
        })
        all
        (rw (lookup-insert_self k e.players q) (
          same ∙ id,
          healthy,
          λ d. rw (lookup-insert_at k e.respawn_at q.id _ (same ∙ id)),
          client,
          allowed,
        ))
