-- ===== src/Matchmaker/Queue/Race.antt =====
-- queue.go: calls that arrive while a pass is under way.
use nodefall.Base.{
  String, true, false, ◌≡◌, refl, sym, ap, ◌∙◌, Option, none, some, is_some, List, [], ◌∷◌, ◌++◌,
  arith, inl, inr, Option-cases,
}
use nodefall.Base.Dict.{lookup, has, lookup-insert, Dict}
use nodefall.Base.Loop.{for_each, for_each_inv}
use nodefall.Matchmaker.Queue.{
  Queue, QueueEntry, Matchmaking, Call, joins, leaves, begins, concludes, join, leave, remove_first,
  begin, requeue, conclude, assign, Status, status, matched, start_pass, end_pass, step, run,
}
use nodefall.Matchmaker.Queue.Forming.{entry, formed, answer, answer-formed, queue_after}

abbrev pub idle : List String → Dict QueueEntry → Matchmaking
idle ws m = record { queue = record { waiting = ws; matched = m }; forming = none }

-- A player who calls `Join` during the pass that holds them waits twice once that pass fails.
pub rejoin_waits_twice :
    (a b : String) (rest : List String) (m : Dict QueueEntry) (match_id : String)
    → lookup a m ≡ none
    → has a rest ≡ false
    → run (begins ∷ joins a ∷ concludes match_id none ∷ []) (idle (a ∷ b ∷ rest) m)
      ≡ idle (a ∷ b ∷ rest ++ a ∷ []) m
unfolding run step start_pass end_pass begin join conclude requeue for_each
rejoin_waits_twice a b rest m match_id unmatched absent = ground arith

remove_first-absent : (k : String) (xs : List String) → has k xs ≡ false → remove_first k xs ≡ xs
unfolding has remove_first
remove_first-absent k [] absent = refl
remove_first-absent k (x ∷ xs) absent = ground (arith, remove_first-absent k xs)

run-undisturbed :
    (a b : String) (server : Option String) (rest : List String) (m : Dict QueueEntry)
    (match_id : String)
    → run (begins ∷ concludes match_id server ∷ []) (idle (a ∷ b ∷ rest) m) ≡ record {
      queue = formed match_id server a b rest (record { waiting = a ∷ b ∷ rest; matched = m });
      forming = none;
    }
unfolding run step start_pass end_pass begin conclude requeue for_each assign formed
run-undisturbed a b none rest m match_id = ground arith
run-undisturbed a b (some addr) rest m match_id = ground arith

-- One of the two players calls `Leave` during the pass that holds them.
run-leaves :
    (a b k : String) (server : Option String) (rest : List String) (m : Dict QueueEntry)
    (match_id : String)
    → has k rest ≡ false
    → run (begins ∷ leaves k ∷ concludes match_id server ∷ []) (idle (a ∷ b ∷ rest) m) ≡ record {
      queue = formed match_id server a b rest (record { waiting = a ∷ b ∷ rest; matched = m });
      forming = none;
    }
unfolding run step start_pass end_pass begin leave conclude requeue for_each assign formed
run-leaves a b k none rest m match_id absent = ground (arith, remove_first-absent k rest)
run-leaves a b k (some addr) rest m match_id absent = ground (arith, remove_first-absent k rest)

-- What a player of the pass is told once it has ended, with the queue as it was before.
abbrev pub told_held : String → Option String → String → Queue → Status
told_held match_id none k before = status k before
told_held match_id (some addr) k before = matched (entry match_id addr k)

answer-told_held :
    (a b k : String) (server : Option String) (q : Queue) (match_id : String)
    → has k (a ∷ b ∷ []) ≡ true
    → answer match_id server a b k q ≡ told_held match_id server k q
unfolding has answer
answer-told_held a b k none q match_id one = refl
answer-told_held a b k (some addr) q match_id one = ground arith

-- A player who calls `Leave` during the pass that holds them, and does not wait a second time, calls in
-- vain: everything ends as without the call. If a server accepts, the player is told the match, and if
-- none does, what they were told before, and the queue is as it was with them in it.
pub leave_lost :
    (a b k : String) (server : Option String) (rest : List String) (m : Dict QueueEntry)
    (match_id : String)
    → has k (a ∷ b ∷ []) ≡ true
    → has k rest ≡ false
    → let before : Queue = record { waiting = a ∷ b ∷ rest; matched = m } in
      let ended =
        run (begins ∷ leaves k ∷ concludes match_id server ∷ []) (idle (a ∷ b ∷ rest) m) in
      (ended ≡ run (begins ∷ concludes match_id server ∷ []) (idle (a ∷ b ∷ rest) m))
      × (ended.queue ≡ queue_after match_id server (a ∷ b ∷ rest) before)
      × (status k ended.queue ≡ told_held match_id server k before)
leave_lost a b k server rest m match_id one absent =
    let before : Queue = record { waiting = a ∷ b ∷ rest; matched = m } in
    let ended = run-leaves a b k server rest m match_id absent in
    (
      ended ∙ sym (run-undisturbed a b server rest m match_id),
      ap (λ x. x.queue) ended,
      ap (λ x. status k x.queue) ended
          ∙ answer-formed match_id server a b k rest before refl
          ∙ answer-told_held a b k server before match_id one,
    )

-- The player has a match.
abbrev pub HasMatch : String → Matchmaking → Type 0
HasMatch k m = is_some (lookup k m.queue.matched) ≡ true

HasMatch-assign :
    (k match_id addr : String) (players : List String) (q : Queue)
    → is_some (lookup k q.matched) ≡ true
    → is_some (lookup k (for_each (assign match_id addr) players q).matched) ≡ true
unfolding assign
HasMatch-assign k match_id addr players q =
    for_each_inv (λ r. is_some (lookup k r.matched) ≡ true) (assign match_id addr)
      (λ id r there. ground (arith, lookup-insert id k (entry match_id addr id) r.matched)) players
      q

step-HasMatch : (k : String) (x : Call) (m : Matchmaking) → HasMatch k m → HasMatch k (step x m)
unfolding step join leave start_pass begin end_pass
step-HasMatch k (joins id) m there = ground arith
step-HasMatch k (leaves id) m there = there
step-HasMatch k begins m there = ground arith
step-HasMatch k (concludes match_id none) m there = unfold conclude requeue in (ground arith)
step-HasMatch k (concludes match_id (some addr)) m there = elim (Option-cases m.forming) [
  | inl idle_now ↦ rw (idle_now, step) there
  | inr (players, held) ↦
      rw (held, step) (unfold conclude in (HasMatch-assign k match_id addr players m.queue there))
]

-- No call ever takes a match from a player: whoever was matched once is told so for good, and a new
-- `Join` does not queue them again.
pub matched_for_good :
    (k : String) (xs : List Call) (m : Matchmaking)
    → HasMatch k m
    → HasMatch k (run xs m) × (join k (run xs m).queue ≡ (run xs m).queue)
unfolding run
matched_for_good k xs m there =
    let still = for_each_inv (HasMatch k) step (step-HasMatch k) xs m there in
    (still, unfold join in (rw still))
