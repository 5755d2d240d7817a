-- ===== src/Tests/Queue.antt =====
-- The matchmaker's theorems at concrete queues.
use nodefall.Base.{
  ◌≡◌, refl, String, true, Option, none, some, List, [], ◌∷◌, if◌then◌else◌, ◌==◌, ◌++◌,
}
use nodefall.Base.Dict.{lookup, has, Dict}
use nodefall.Base.Loop.{for_each}
use nodefall.Matchmaker.Queue.{
  Queue, QueueEntry, Instance, MatchResponse, Matchmaking, Call, joins, leaves, begins, concludes,
  join, status, new_queue, find_server, try_form_match, run,
}
use nodefall.Matchmaker.Queue.Forming.{entry, queue_after, told_after, pass_told}
use nodefall.Matchmaker.Queue.Order.{
  IsOrderly, Atomic, joining, leaving, passing, perform, undisturbed-IsOrderly, new_queue-IsOrderly,
}
use nodefall.Matchmaker.Queue.Race.{
  idle, told_held, HasMatch, rejoin_waits_twice, leave_lost, matched_for_good,
}

-- Ann has a match; Bob, Cy and Di wait.
abbrev with_ann : Dict QueueEntry
with_ann = ("ann", entry "m0" "host:1" "ann") ∷ []

abbrev trio : Queue
trio = record { waiting = "bob" ∷ "cy" ∷ "di" ∷ []; matched = with_ann }

abbrev near : Instance
near = record { id = "near"; grpc_addr = "near:9" }

abbrev far : Instance
far = record { id = "far"; grpc_addr = "far:9" }

-- The first server cannot be reached, the second one accepts.
start : Instance → Option MatchResponse
start inst =
    if inst.id == "near" then none else some (record { accepted = true; server_addr = "far:8" })

pass_told_example :
    let server = find_server start (some (near ∷ far ∷ [])) in
    (try_form_match start (some (near ∷ far ∷ [])) "m1" trio
      ≡ queue_after "m1" server ("bob" ∷ "cy" ∷ "di" ∷ []) trio)
    × (status "cy" (try_form_match start (some (near ∷ far ∷ [])) "m1" trio)
        ≡ told_after "m1" server ("bob" ∷ "cy" ∷ "di" ∷ []) "cy" trio)
pass_told_example = pass_told start (some (near ∷ far ∷ [])) "m1" "cy" trio

abbrev evening : List Atomic
evening =
    joining "ann"
    ∷ joining "bob"
    ∷ joining "bob"
    ∷ leaving "cy"
    ∷ passing start (some (far ∷ [])) "m1"
    ∷ joining "ann"
    ∷ []

undisturbed-IsOrderly_example : IsOrderly (for_each perform evening new_queue)
undisturbed-IsOrderly_example = undisturbed-IsOrderly evening new_queue new_queue-IsOrderly

rejoin_waits_twice_example :
    run (begins ∷ joins "bob" ∷ concludes "m1" none ∷ []) (idle ("bob" ∷ "cy" ∷ "di" ∷ []) with_ann)
    ≡ idle ("bob" ∷ "cy" ∷ ("di" ∷ []) ++ "bob" ∷ []) with_ann
unfolding lookup has
rejoin_waits_twice_example = rejoin_waits_twice "bob" "cy" ("di" ∷ []) with_ann "m1" refl refl

abbrev far_addr : Option String
far_addr = some "far:8"

abbrev left : Matchmaking
left =
    run (begins ∷ leaves "cy" ∷ concludes "m1" far_addr ∷ [])
      (idle ("bob" ∷ "cy" ∷ "di" ∷ []) with_ann)

leave_lost_example :
    let before : Queue = record { waiting = "bob" ∷ "cy" ∷ "di" ∷ []; matched = with_ann } in
    (left ≡ run (begins ∷ concludes "m1" far_addr ∷ []) (idle ("bob" ∷ "cy" ∷ "di" ∷ []) with_ann))
    × (left.queue ≡ queue_after "m1" far_addr ("bob" ∷ "cy" ∷ "di" ∷ []) before)
    × (status "cy" left.queue ≡ told_held "m1" far_addr "cy" before)
unfolding has
leave_lost_example = leave_lost "bob" "cy" "cy" far_addr ("di" ∷ []) with_ann "m1" refl refl

abbrev afterwards : List Call
afterwards = leaves "ann" ∷ begins ∷ joins "ann" ∷ concludes "m1" (some "far:8") ∷ []

matched_for_good_example :
    HasMatch "ann" (run afterwards (idle trio.waiting with_ann))
    × (join "ann" (run afterwards (idle trio.waiting with_ann)).queue
        ≡ (run afterwards (idle trio.waiting with_ann)).queue)
unfolding lookup
matched_for_good_example = matched_for_good "ann" afterwards (idle trio.waiting with_ann) refl
