-- ===== src/Engine/Roster.antt =====
-- engine.go: who can be in a match made for a roster.
pub mod Keeps
use nodefall.Base.{
  ℕ, String, Bool, true, ◌≡◌, refl, sym, subst, ap, ◌∙◌, some, none, is_some, Option, arith, List,
  [], ◌∷◌,
}
use nodefall.Base.Dict.{lookup, lookup-insert, has}
use nodefall.World.Player.{Player}
use nodefall.Engine.State.{Engine, Host}
use nodefall.Engine.Session.{is_allowed, roster_of, new_for_players}
use nodefall.Engine.Run.{Event, run}
use nodefall.Engine.Invariant.{Slot, Inv}
use nodefall.Engine.Invariant.Lifecycle.{Survives}
use nodefall.Engine.Invariant.Run.{run-Survives, new_for_players-Inv}
use Keeps.{Kept, run-Keeps}

pub is_allowed-roster_of :
    (k : String) (ids : List String) → is_allowed (some (roster_of ids)) k ≡ has k ids
unfolding roster_of has lookup
is_allowed-roster_of k [] = refl
is_allowed-roster_of k (id ∷ ids) =
    ground (arith, lookup-insert id k true (roster_of ids), is_allowed-roster_of k ids)

Slot-allowed :
    {F C : Type 0} (k : String) (o : Option (Player F)) (at : Option ℕ) (c : Option C) (ok : Bool)
    → Slot k o at c ok
    → is_some o ≡ true
    → ok ≡ true
Slot-allowed k none at c ok slot there = cc
Slot-allowed k (some p) at c ok (_, _, _, _, allowed) there = allowed

module _ {F S C M : Type 0} (h : Host F S C M) where
  -- Whatever is called on an engine made for a roster, only players on the roster are ever in it.
  pub roster_only :
      (ids : List String) (now : ℕ) (s t : S) (xs : List (Event F C)) (e : Engine F C) (k : String)
      → run h xs (new_for_players h ids now s) ≡ some (e, t)
      → is_some (lookup k e.players) ≡ true
      → has k ids ≡ true
  roster_only ids now s t xs e k ran there =
      let (start, u) = new_for_players h ids now s in
      let kept : e.allowed_players ≡ some (roster_of ids) =
        subst (Kept h (some (roster_of ids))) ran
          (run-Keeps h (some (roster_of ids)) xs start u (unfold new_for_players in refl)) in
      let v : Inv e =
        subst (Survives h) ran (run-Survives h xs start u (new_for_players-Inv h ids now s)) in
      sym (is_allowed-roster_of k ids)
      ∙ ap (λ r. is_allowed r k) (sym kept)
      ∙ Slot-allowed k _ _ _ _ (v.slots k) there
