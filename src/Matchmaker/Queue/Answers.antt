-- ===== src/Matchmaker/Queue/Answers.antt =====
-- queue.go: what `Status` tells after `Join` and `Leave`.
use nodefall.Base.{
  String, ◌==◌, eq_iff, eq_refl, false, ◌≡◌, refl, Option, none, some, List, [], ◌∷◌, ◌++◌, ◌||◌,
  arith, if◌then◌else◌, Bool-cases, inl, inr,
}
use nodefall.Base.Dict.{lookup, has}
use nodefall.Matchmaker.Queue.{
  Queue, QueueEntry, Status, matched, waiting, join, leave, remove_first, status,
}

pub has-append : (k : String) (xs ys : List String) → has k (xs ++ ys) ≡ (has k xs || has k ys)
unfolding has
has-append k [] ys = refl
has-append k (x ∷ xs) ys = ground (arith, has-append k xs ys)

pub has-remove_first_ne :
    (k id : String) (xs : List String) → (id == k) ≡ false → has k (remove_first id xs) ≡ has k xs
unfolding has remove_first
has-remove_first_ne k id [] ne = refl
has-remove_first_ne k id (x ∷ xs) ne =
    ground (arith, eq_iff x id, eq_iff x k, eq_iff id k, has-remove_first_ne k id xs ne)

-- What a player who calls `Join` is told next: the match, or to wait.
unfoldable pub told : Option QueueEntry → Status
told (some entry) = matched entry
told none = waiting

-- `Join` leaves a matched player matched, and makes every other player a waiting one; what anybody
-- else is told does not change.
pub status-join :
    (id k : String) (q : Queue)
    → status k (join id q) ≡ (if id == k then told (lookup k q.matched) else status k q)
unfolding status join told has
status-join id k q = elim (Bool-cases (id == k)) [
  | inl same ↦ ground (arith, eq_iff id k, eq_refl k, has-append k q.waiting (id ∷ []))
  | inr other ↦ ground (arith, eq_iff id k, has-append k q.waiting (id ∷ []))
]

-- `Leave` by one player changes nothing that another is told.
pub status-leave_ne :
    (id k : String) (q : Queue) → (id == k) ≡ false → status k (leave id q) ≡ status k q
unfolding status leave
status-leave_ne id k q ne = ground (arith, has-remove_first_ne k id q.waiting ne)
