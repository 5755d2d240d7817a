-- ===== src/Engine/Verdict.antt =====
-- How a match ends: `checkMatchEnd` against a description by the list of the living.
use nodefall.Base.{
  ℕ, ◌+◌, String, ◌≡◌, false, ltb, leb, Option, none, some, List, [], ◌∷◌, length, arith,
  if◌then◌else◌,
}
use native.Mathlib.Nat.{zero-add}
use nodefall.Base.Dict.{Dict}
use nodefall.World.Player.{Player}
use nodefall.Engine.State.{Engine, Host, is_empty, ended}
use nodefall.Engine.Lifecycle.{tally, check_match_end}

module _ {F : Type 0} where
  -- Who is alive, in the order of the map.
  unfoldable pub living : Dict (Player F) → List String
  living [] = []
  living ((id, p) ∷ m) = let rest = living m in if p.alive then id ∷ rest else rest

-- Whether the match is over, and for whom: nobody wins if nobody is alive.
unfoldable pub verdict : List String → Option String
verdict [] = some ""
verdict (w ∷ []) = some w
verdict (v ∷ w ∷ ws) = none

last_of : List String → String → String
last_of [] w = w
last_of (v ∷ vs) w = last_of vs v

module _ {F S C : Type 0} where
  abbrev pub finish : ℕ → String → Engine F C → S → Engine F C × S
  finish now w e s = (record e { phase = ended; ended_at = now; winner = w }, s)

  -- The match and the random source after a verdict: `none` lets the match go on.
  unfoldable pub concluded : ℕ → Engine F C → S → Option String → Engine F C × S
  concluded now e s none = (e, s)
  concluded now e s (some w) = finish now w e s

tally-living :
    {F : Type 0} (m : Dict (Player F)) (n : ℕ) (w : String)
    → tally m (n, w) ≡ (n + length (living m), last_of (living m) w)
unfolding tally living last_of
tally-living [] n w = ground arith
tally-living ((id, p) ∷ m) n w = ground (arith, tally-living m (n + 1) id, tally-living m n w)

module _ {F S C M : Type 0} (h : Host F S C M) where
  end_by :
      (now : ℕ) (e : Engine F C) (s : S) (ws : List String)
      → (if ltb 1 (length ws)
          then (e, s)
          else finish now (if leb (length ws) 0 then "" else last_of ws "") e s)
        ≡ concluded now e s (verdict ws)
  unfolding verdict last_of concluded
  end_by now e s [] = ground arith
  end_by now e s (w ∷ []) = ground arith
  end_by now e s (v ∷ w ∷ ws) = ground arith

  -- With players in the match, `checkMatchEnd` ends it exactly when at most one is alive, and names
  -- the one who is; otherwise it changes nothing.
  pub check_match_end-verdict :
      (now : ℕ) (e : Engine F C) (s : S)
      → is_empty e.players ≡ false
      → check_match_end h now (e, s) ≡ concluded now e s (verdict (living e.players))
  unfolding check_match_end
  check_match_end-verdict now e s there =
      rw (there, tally-living e.players 0 "", zero-add) (end_by now e s (living e.players))
