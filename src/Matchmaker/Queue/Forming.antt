-- ===== src/Matchmaker/Queue/Forming.antt =====
-- queue.go: one undisturbed pass of `tryFormMatch`.
use nodefall.Base.{
  String, ◌==◌, eq_iff, ◌≡◌, refl, ap, Option, none, some, List, [], ◌∷◌, ◌||◌, length, ◌<◌, arith,
  if◌then◌else◌,
}
use nodefall.Base.Dict.{insert, has, lookup-insert}
use nodefall.Base.Loop.{for_each}
use nodefall.Matchmaker.Queue.{
  Queue, QueueEntry, Status, matched, Instance, MatchResponse, status, begin, requeue, find_server,
  assign, conclude, try_form_match,
}

abbrev pub entry : String → String → String → QueueEntry
entry match_id addr id = record { player_id = id; match_id = match_id; server_addr = addr }

-- The queue whose first two players are `a` and `b`, after a pass with the given outcome.
unfoldable pub formed : String → Option String → String → String → List String → Queue → Queue
formed match_id none a b rest q = q
formed match_id (some addr) a b rest q = record {
  waiting = rest;
  matched = insert b (entry match_id addr b) (insert a (entry match_id addr a) q.matched);
}

-- If a server accepts, a pass matches the two players who wait longest and leaves the others waiting
-- in their order; if none does, it leaves the queue as it was.
pub try_form_match-formed :
    (start : Instance → Option MatchResponse) (instances : Option (List Instance))
    (match_id a b : String) (rest : List String) (q : Queue)
    → q.waiting ≡ a ∷ b ∷ rest
    → try_form_match start instances match_id q
      ≡ formed match_id (find_server start instances) a b rest q
unfolding try_form_match begin conclude requeue assign for_each formed
try_form_match-formed start instances match_id a b rest q e = ground arith

-- With fewer than two players waiting a pass does nothing.
pub try_form_match_few :
    (start : Instance → Option MatchResponse) (instances : Option (List Instance))
    (match_id : String) (q : Queue)
    → length q.waiting < 2
    → try_form_match start instances match_id q ≡ q
unfolding try_form_match begin
try_form_match_few start instances match_id q few = ground arith

-- What player `k` is told after a pass.
unfoldable pub answer : String → Option String → String → String → String → Queue → Status
answer match_id none a b k q = status k q
answer match_id (some addr) a b k q =
    if a == k || b == k then matched (entry match_id addr k) else status k q

pub answer-formed :
    (match_id : String) (server : Option String) (a b k : String) (rest : List String) (q : Queue)
    → q.waiting ≡ a ∷ b ∷ rest
    → status k (formed match_id server a b rest q) ≡ answer match_id server a b k q
unfolding formed answer status has
answer-formed match_id none a b k rest q e = refl
answer-formed match_id (some addr) a b k rest q e = ground (
  arith,
  eq_iff a k,
  eq_iff b k,
  lookup-insert a k (entry match_id addr a) q.matched,
  lookup-insert b k (entry match_id addr b) (insert a (entry match_id addr a) q.matched),
)

pub status-try_form_match :
    (start : Instance → Option MatchResponse) (instances : Option (List Instance))
    (match_id a b k : String) (rest : List String) (q : Queue)
    → q.waiting ≡ a ∷ b ∷ rest
    → status k (try_form_match start instances match_id q)
      ≡ answer match_id (find_server start instances) a b k q
status-try_form_match start instances match_id a b k rest q e =
    rw (try_form_match-formed start instances match_id a b rest q e)
      (answer-formed match_id (find_server start instances) a b k rest q e)

-- The queue after a pass, from the players who wait.
abbrev pub queue_after : String → Option String → List String → Queue → Queue
queue_after match_id server [] q = q
queue_after match_id server (a ∷ []) q = q
queue_after match_id server (a ∷ b ∷ rest) q = formed match_id server a b rest q

-- What player `k` is told after a pass, from the players who wait.
abbrev pub told_after : String → Option String → List String → String → Queue → Status
told_after match_id server [] k q = status k q
told_after match_id server (a ∷ []) k q = status k q
told_after match_id server (a ∷ b ∷ rest) k q = answer match_id server a b k q

-- After a pass with two or more players waiting that a server accepts, the two who wait longest are
-- told the same match and server and wait no longer, the others keep their order, and everybody else is
-- told what they were told before. Any other pass leaves the queue as it was, so everybody is.
pub pass_told :
    (start : Instance → Option MatchResponse) (instances : Option (List Instance))
    (match_id k : String) (q : Queue)
    → let server = find_server start instances in
      (try_form_match start instances match_id q ≡ queue_after match_id server q.waiting q)
      × (status k (try_form_match start instances match_id q)
          ≡ told_after match_id server q.waiting k q)
pass_told start instances match_id k q = go q.waiting refl
  where
    go :
        (ws : List String)
        → q.waiting ≡ ws
        → (try_form_match start instances match_id q
            ≡ queue_after match_id (find_server start instances) ws q)
          × (status k (try_form_match start instances match_id q)
              ≡ told_after match_id (find_server start instances) ws k q)
    go [] e =
        let same = try_form_match_few start instances match_id q (rw e (omega arith)) in
        (same, ap (status k) same)
    go (a ∷ []) e =
        let same = try_form_match_few start instances match_id q (rw e (omega arith)) in
        (same, ap (status k) same)
    go (a ∷ b ∷ rest) e = (
      try_form_match-formed start instances match_id a b rest q e,
      status-try_form_match start instances match_id a b k rest q e,
    )
