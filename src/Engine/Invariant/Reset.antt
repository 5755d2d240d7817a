-- ===== src/Engine/Invariant/Reset.antt =====
-- engine.go: `resetMatch` and the invariant.
use nodefall.Base.{
  eq_iff, arith, ℕ, String, ◌==◌, Bool, true, false, ◌≡◌, inl, inr, refl, some, none, is_some,
  subst, ◌∙◌, Option, Option-cases, String-cases, List, [], ◌∷◌,
}
use nodefall.Base.Dict.{
  Dict, lookup-insert, lookup, insert, keys, has, has-keys, lookup-insert_self, lookup-insert_ne,
}
use nodefall.Base.Loop.{for_each, for_each_inv, Returned}
use nodefall.World.Player.{Player, respawn}
use nodefall.World.Player.Damage.{IsHealthy}
use nodefall.World.Constants.{player_start_hp, player_min_armour, player_start_gun}
use nodefall.Engine.State.{Engine, Host, waiting}
use nodefall.Engine.Session.{is_allowed}
use nodefall.Engine.Lifecycle.{respawn_one, clear_match, reset_match}
use nodefall.Engine.Invariant.{Slot, Inv}

-- A player as a match begins: alive, at full health, with no armour and the first gun.
abbrev pub IsFresh : {F : Type 0} → Player F → Type 0
IsFresh p =
    (p.alive ≡ true)
    × (p.hp ≡ player_start_hp)
    × (p.armour ≡ player_min_armour)
    × (p.gun ≡ player_start_gun)

IsFresh-IsHealthy : {F : Type 0} (p : Player F) → IsFresh p → IsHealthy p
IsFresh-IsHealthy p f = ground arith

-- A slot while the loop runs: a player whose turn is `pending` may still be dead.
abbrev Turn : {F C : Type 0} → String → Bool → Option (Player F) → Option C → Bool → Type 0
Turn k pending none client allowed = client ≡ none
Turn k pending (some p) client allowed =
    (p.id ≡ k) × (pending ≡ false → IsFresh p) × (is_some client ≡ true) × (allowed ≡ true)

abbrev TurnOf : {F C : Type 0} → List String → Engine F C → String → Type 0
TurnOf ks e j =
    Turn j (has j ks) (lookup j e.players) (lookup j e.clients) (is_allowed e.allowed_players j)

-- The loop with the keys `ks` still to come.
record Resetting {F C : Type 0} (ks : List String) (e : Engine F C) : Type 0 where
  turns : (j : String) → TurnOf ks e j
  no_times : e.respawn_at ≡ []
  no_bullets : e.bullets ≡ []

module _ {F C : Type 0} where
  Turn-none :
      (k : String) (b c : Bool) (o : Option (Player F)) (client : Option C) (allowed : Bool)
      → o ≡ none
      → Turn k b o client allowed
      → Turn k c o client allowed
  Turn-none k b c none client allowed e t = t
  Turn-none k b c (some p) client allowed e t = cc

  Slot-Turn :
      (k : String) (o : Option (Player F)) (at : Option ℕ) (client : Option C) (allowed : Bool)
      → Slot k o at client allowed
      → Turn k (is_some o) o client allowed
  Slot-Turn k none at client allowed s = s.1
  Slot-Turn k (some p) at client allowed (id, _, _, on, ok) = (id, λ f. cc, on, ok)

  Turn-Slot :
      (k : String) (o : Option (Player F)) (client : Option C) (allowed : Bool)
      → Turn k false o client allowed
      → Slot k o none client allowed
  Turn-Slot k none client allowed t = (refl, t)
  Turn-Slot k (some p) client allowed (id, back, on, ok) =
      (id, IsFresh-IsHealthy p (back refl), λ dead. cc ((back refl).0), on, ok)

  -- Another key's turn is over: this one is as pending as before.
  Turn-elsewhere :
      (k j : String) (ks : List String) (e : Engine F C) (o : Option (Player F))
      → (k == j) ≡ false
      → o ≡ lookup j e.players
      → TurnOf (k ∷ ks) e j
      → Turn j (has j ks) o (lookup j e.clients) (is_allowed e.allowed_players j)
  unfolding has
  Turn-elsewhere k j ks e o ne same t = rw same (rw ne at t)

  Turn-back :
      (k : String) (b c : Bool) (p : Player F) (x y : F) (client : Option C) (allowed : Bool)
      → Turn k b (some p) client allowed
      → Turn k c (some (respawn p x y)) client allowed
  unfolding respawn
  Turn-back k b c p x y client allowed (id, _, on, ok) = (id, λ _. (refl, refl, refl, refl), on, ok)

module _ {F S C M : Type 0} (h : Host F S C M) where
  -- A turn settles the key that it is about.
  respawn_one-turn :
      (k : String) (ks : List String) (e : Engine F C) (p : Player F) (x y : F) (j : String)
      → lookup k e.players ≡ some p
      → ((j : String) → TurnOf (k ∷ ks) e j)
      → TurnOf ks (record e { players = insert k (respawn p x y) e.players }) j
  respawn_one-turn k ks e p x y j at_k turns = elim (String-cases k j) [
    | inl same ↦
        subst (TurnOf ks (record e { players = insert k (respawn p x y) e.players })) same (
          rw (lookup-insert_self k e.players) (
            Turn-back k (has k (k ∷ ks)) _ p x y _ _ (
              subst
                (λ o.
                  Turn k (has k (k ∷ ks)) o (lookup k e.clients) (is_allowed e.allowed_players k))
                at_k (turns k))))
    | inr (ne, _, _) ↦ Turn-elsewhere k j ks e _ ne (lookup-insert_ne k e.players j _ ne) (turns j)
  ]

  respawn_one-Resetting :
      (k : String) (ks : List String) (e : Engine F C) (s : S)
      → Resetting (k ∷ ks) e
      → Resetting ks (respawn_one h k (e, s)).0
  unfolding respawn_one
  respawn_one-Resetting k ks e s r = elim (Option-cases (lookup k e.players)) [
    | inl gone ↦
        rw (gone, respawn_one)
          (record {
            turns = λ j. elim (String-cases k j) [
              | inl same ↦
                  Turn-none j _ _ _ _ _ (subst (λ i. lookup i e.players ≡ none) same gone)
                    (r.turns j)
              | inr (ne, _, _) ↦ Turn-elsewhere k j ks e _ ne refl (r.turns j)
            ];
            no_times = r.no_times;
            no_bullets = r.no_bullets;
          })
    | inr (p, at_k) ↦
        rw (at_k, respawn_one)
          (record {
            turns = λ j. respawn_one-turn k ks e p _ _ j at_k r.turns;
            no_times = r.no_times;
            no_bullets = r.no_bullets;
          })
  ]

  respawn_all-Resetting :
      (ks : List String) (e : Engine F C) (s : S)
      → Resetting ks e
      → Resetting [] (for_each (respawn_one h) ks (e, s)).0
  unfolding for_each
  respawn_all-Resetting [] e s r = r
  respawn_all-Resetting (k ∷ ks) e s r =
      let (e', s') = respawn_one h k (e, s) in
      respawn_all-Resetting ks e' s' (respawn_one-Resetting k ks e s r)

  reset_loop :
      (now : ℕ) (e : Engine F C) (s : S)
      → Inv e
      → Resetting [] (for_each (respawn_one h) (keys e.players) (clear_match h now (e, s))).0
  unfolding clear_match
  reset_loop now e s v =
      let (cleared, t) = clear_match h now (e, s) in
      respawn_all-Resetting (keys e.players) cleared t (record {
        turns = λ j. rw (has-keys j e.players) (Slot-Turn j _ _ _ _ (v.slots j));
        no_times = refl;
        no_bullets = refl;
      })

  pub reset_match-Inv :
      (now : ℕ) (e : Engine F C) (s : S) → Inv e → Inv (reset_match h now (e, s)).0
  unfolding reset_match lookup has
  reset_match-Inv now e s v =
      let done = reset_loop now e s v in
      record {
        slots = λ j. rw done.no_times (Turn-Slot j _ _ _ (done.turns j));
        loaded = rw done.no_bullets tt;
      }

  Turn-IsFresh :
      (k : String) (o : Option (Player F)) (client : Option C) (allowed : Bool)
      → Turn k false o client allowed
      → Returned IsFresh o
  Turn-IsFresh k none client allowed t = tt
  Turn-IsFresh k (some q) client allowed (_, back, _, _) = back refl

  -- A player written under a key that has one leaves the keys as they are.
  present-insert :
      (k j : String) (q p : Player F) (m : Dict (Player F))
      → lookup k m ≡ some p
      → is_some (lookup j (insert k q m)) ≡ is_some (lookup j m)
  present-insert k j q p m at_k = ground (arith, lookup-insert k j q m, eq_iff k j)

  -- A turn changes nobody's being in the match.
  respawn_one-present :
      (k j : String) (st : Engine F C × S)
      → is_some (lookup j (respawn_one h k st).0.players) ≡ is_some (lookup j st.0.players)
  unfolding respawn_one
  respawn_one-present k j (e, s) = elim (Option-cases (lookup k e.players)) [
    | inl gone ↦ rw (gone, respawn_one) refl
    | inr (p, at_k) ↦ rw (at_k, respawn_one) (present-insert k j _ p e.players at_k)
  ]

  reset_match-present :
      (now : ℕ) (e : Engine F C) (s : S) (k : String)
      → is_some (lookup k (reset_match h now (e, s)).0.players) ≡ is_some (lookup k e.players)
  unfolding reset_match clear_match
  reset_match-present now e s k =
      for_each_inv (λ t. is_some (lookup k t.0.players) ≡ is_some (lookup k e.players))
        (respawn_one h) (λ j t same. respawn_one-present j k t ∙ same) (keys e.players)
        (clear_match h now (e, s)) refl

  -- In an engine that satisfies the invariant, whether or not anybody is in the match: after `resetMatch`
  -- the match waits and has no bullets and no respawn times, and the same players are in it as before,
  -- each as a player is at the start of a match.
  pub reset_match-IsFresh :
      (now : ℕ) (e : Engine F C) (s : S) (k : String)
      → Inv e
      → let after = (reset_match h now (e, s)).0 in
        (after.phase ≡ waiting)
        × (after.bullets ≡ [])
        × (after.respawn_at ≡ [])
        × (is_some (lookup k after.players) ≡ is_some (lookup k e.players))
        × Returned IsFresh (lookup k after.players)
  unfolding reset_match has
  reset_match-IsFresh now e s k v =
      let done = reset_loop now e s v in
      (
        refl,
        done.no_bullets,
        done.no_times,
        reset_match-present now e s k,
        Turn-IsFresh k _ _ _ (done.turns k),
      )
