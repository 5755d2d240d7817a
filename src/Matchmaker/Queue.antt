-- ===== src/Matchmaker/Queue.antt =====
-- services/matchmaker/queue.go. The mutex makes each locked stretch one step. `tryFormMatch` unlocks
-- while it talks to Redis and to the game servers, so it is two steps: `begin` takes the players out,
-- `conclude` puts them into a match or back. What Redis and the servers answer is an argument.
pub mod Answers
pub mod Forming
pub mod Order
pub mod Race
use nodefall.Base.{
  ℕ, String, ◌==◌, Bool, ltb, Option, none, some, is_some, List, [], ◌∷◌, ◌++◌, length, take, drop,
  if◌then◌else◌,
}
use nodefall.Base.Dict.{Dict, lookup, insert, has}
use nodefall.Base.Loop.{for_each}
pub use nodefall.Registry.{Instance}

abbrev pub min_players_per_match : ℕ
min_players_per_match = 2

pub record QueueEntry : Type 0 where
  pub player_id : String
  pub match_id : String
  pub server_addr : String

pub record Queue : Type 0 where
  pub waiting : List String
  pub matched : Dict QueueEntry

-- The answer of `StartMatch`.
pub record MatchResponse : Type 0 where
  pub accepted : Bool
  pub server_addr : String

pub data Status : Type 0 where
  matched : QueueEntry → Status
  waiting not_queued : Status

unfoldable pub new_queue : Queue
new_queue = record { waiting = []; matched = [] }

unfoldable pub join : String → Queue → Queue
join id q =
    if is_some (lookup id q.matched)
    then q
    else if has id q.waiting
    then q
    else record q { waiting = q.waiting ++ id ∷ [] }

-- `append(q.waiting[:i], q.waiting[i+1:]...)` at the first place i that holds the ID.
unfoldable pub remove_first : String → List String → List String
remove_first id [] = []
remove_first id (x ∷ xs) = if x == id then xs else x ∷ remove_first id xs

unfoldable pub leave : String → Queue → Queue
leave id q = record q { waiting = remove_first id q.waiting }

unfoldable pub status : String → Queue → Status
status id q = elim (lookup id q.matched) [
  | some entry ↦ matched entry
  | none ↦ if has id q.waiting then waiting else not_queued
]

-- The first locked stretch of `tryFormMatch`: the players taken, and the queue without them.
unfoldable pub begin : Queue → Option (List String × Queue)
begin q =
    if ltb (length q.waiting) min_players_per_match
    then none
    else some (
      take min_players_per_match q.waiting,
      record q { waiting = drop min_players_per_match q.waiting },
    )

unfoldable pub requeue : List String → Queue → Queue
requeue players q = record q { waiting = players ++ q.waiting }

-- One instance is asked: `none` if dialing or the call failed.
unfoldable pub accepted_by : (Instance → Option MatchResponse) → Instance → Option String
accepted_by start inst = elim (start inst) [
  | none ↦ none
  | some resp ↦ if resp.accepted then some resp.server_addr else none
]

-- The loop over the instances: the address that the first one to accept gave.
unfoldable pub first_accepting : (Instance → Option MatchResponse) → List Instance → Option String
first_accepting start [] = none
first_accepting start (inst ∷ rest) =
    let later = first_accepting start rest in
    elim (accepted_by start inst) [ some addr ↦ some addr | none ↦ later ]

-- What the unlocked stretch comes to; `none` in place of the instances is an error of Redis.
unfoldable pub find_server :
    (Instance → Option MatchResponse) → Option (List Instance) → Option String
find_server start none = none
find_server start (some instances) = first_accepting start instances

unfoldable pub assign : String → String → String → Queue → Queue
assign match_id addr id q = record q {
  matched =
      insert id (record { player_id = id; match_id = match_id; server_addr = addr }) q.matched;
}

-- The second locked stretch: the players are matched, or are put back.
unfoldable pub conclude : List String → String → Option String → Queue → Queue
conclude players match_id none q = requeue players q
conclude players match_id (some addr) q = for_each (assign match_id addr) players q

-- A pass of `tryFormMatch` with no other call in between.
unfoldable pub try_form_match :
    (Instance → Option MatchResponse) → Option (List Instance) → String → Queue → Queue
try_form_match start instances match_id q = elim (begin q) [
  | none ↦ q
  | some (players, rest) ↦ conclude players match_id (find_server start instances) rest
]

-- The queue with the players that a pass holds, if one is under way. Only one goroutine makes passes.
pub record Matchmaking : Type 0 where
  pub queue : Queue
  pub forming : Option (List String)

pub data Call : Type 0 where
  joins leaves : String → Call
  begins : Call
  concludes : String → Option String → Call

-- The goroutine of `Run`: a pass begins only when the one before has concluded.
unfoldable pub start_pass : Matchmaking → Matchmaking
start_pass m = elim m.forming [
  | some players ↦ m
  | none ↦ elim (begin m.queue) [
    | none ↦ m
    | some (players, rest) ↦ record { queue = rest; forming = some players }
  ]
]

unfoldable pub end_pass : String → Option String → Matchmaking → Matchmaking
end_pass match_id server m = elim m.forming [
  | none ↦ m
  | some players ↦ record { queue = conclude players match_id server m.queue; forming = none }
]

unfoldable pub step : Call → Matchmaking → Matchmaking
step (joins id) m = record m { queue = join id m.queue }
step (leaves id) m = record m { queue = leave id m.queue }
step begins m = start_pass m
step (concludes match_id server) m = end_pass match_id server m

unfoldable pub run : List Call → Matchmaking → Matchmaking
run = for_each step
