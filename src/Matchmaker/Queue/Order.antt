-- ===== src/Matchmaker/Queue/Order.antt =====
-- queue.go: the order of the waiting players under calls and undisturbed passes.
use nodefall.Base.{
  String, ◌==◌, eq_iff, true, false, ◌≡◌, refl, Option, none, some, is_some, List, [], ◌∷◌, ◌++◌,
  arith, inl, inr, if-cases, String-cases, subst, sym, ap, ◌∙◌,
}
use nodefall.Base.Dict.{lookup, has, insert, lookup-insert}
use nodefall.Matchmaker.Queue.{
  Queue, join, leave, remove_first, try_form_match, find_server, Instance, MatchResponse, new_queue,
}
use nodefall.Base.Loop.{for_each, for_each_inv}
use nodefall.Matchmaker.Queue.Forming.{entry, formed, try_form_match-formed, try_form_match_few}
use nodefall.Matchmaker.Queue.Answers.{has-append}

abbrev pub IsDistinct : List String → Type 0
IsDistinct [] = Unit {0}
IsDistinct (x ∷ xs) = (has x xs ≡ false) × IsDistinct xs

pub record IsOrderly (q : Queue) : Type 0 where
  pub distinct : IsDistinct q.waiting
  pub apart : (k : String) → has k q.waiting ≡ true → is_some (lookup k q.matched) ≡ false

IsDistinct-snoc :
    (id : String) (xs : List String)
    → has id xs ≡ false
    → IsDistinct xs
    → IsDistinct (xs ++ id ∷ [])
unfolding has
IsDistinct-snoc id [] new d = (refl, tt)
IsDistinct-snoc id (x ∷ xs) new d = (
  ground (arith, has-append x xs (id ∷ []), eq_iff x id, eq_iff id x),
  IsDistinct-snoc id xs (ground arith) d.1,
)

join-IsOrderly : (id : String) (q : Queue) → IsOrderly q → IsOrderly (join id q)
unfolding join has
join-IsOrderly id q v =
    if-cases IsOrderly (is_some (lookup id q.matched)) q _ (λ there. v)
      (λ unmatched.
        if-cases IsOrderly (has id q.waiting) q _ (λ waits. v)
          (λ new. record {
            distinct = IsDistinct-snoc id q.waiting new v.distinct;
            apart =
                λ k there. ground (arith, v.apart k, has-append k q.waiting (id ∷ []), eq_iff id k);
          }))

has-remove_first_le :
    (k id : String) (xs : List String) → has k xs ≡ false → has k (remove_first id xs) ≡ false
unfolding has remove_first
has-remove_first_le k id [] h = refl
has-remove_first_le k id (x ∷ xs) h = ground (arith, has-remove_first_le k id xs)

IsDistinct-remove_first :
    (id : String) (xs : List String) → IsDistinct xs → IsDistinct (remove_first id xs)
unfolding remove_first
IsDistinct-remove_first id [] d = tt
IsDistinct-remove_first id (x ∷ xs) d =
    ground (arith, has-remove_first_le x id xs d.0, IsDistinct-remove_first id xs d.1)

leave-IsOrderly : (id : String) (q : Queue) → IsOrderly q → IsOrderly (leave id q)
unfolding leave
leave-IsOrderly id q v = record {
  distinct = IsDistinct-remove_first id q.waiting v.distinct;
  apart = λ k there. ground (arith, v.apart k, has-remove_first_le k id q.waiting);
}

has-differs :
    (k a : String) (xs : List String) → has k xs ≡ true → has a xs ≡ false → (a == k) ≡ false
has-differs k a xs there absent = elim (String-cases a k) [
  | inl same ↦ cc (sym absent ∙ ap (λ i. has i xs) same ∙ there)
  | inr (ne, _, _) ↦ ne
]

formed-IsOrderly :
    (match_id : String) (server : Option String) (a b : String) (rest : List String) (q : Queue)
    → q.waiting ≡ a ∷ b ∷ rest
    → IsOrderly q
    → IsOrderly (formed match_id server a b rest q)
unfolding formed has
formed-IsOrderly match_id none a b rest q e v = v
formed-IsOrderly match_id (some addr) a b rest q e v =
    let d = subst IsDistinct e v.distinct in
    record {
      distinct = d.1.1;
      apart = λ k there. ground (
        arith,
        v.apart k,
        d.0,
        d.1.0,
        has-differs k a rest there,
        has-differs k b rest there,
        eq_iff a k,
        eq_iff b k,
        lookup-insert a k (entry match_id addr a) q.matched,
        lookup-insert b k (entry match_id addr b) (insert a (entry match_id addr a) q.matched),
      );
    }

-- A pass that no call disturbs keeps the queue orderly.
try_form_match-IsOrderly :
    (start : Instance → Option MatchResponse) (instances : Option (List Instance))
    (match_id : String) (q : Queue) (ws : List String)
    → q.waiting ≡ ws
    → IsOrderly q
    → IsOrderly (try_form_match start instances match_id q)
try_form_match-IsOrderly start instances match_id q [] e v =
    rw (try_form_match_few start instances match_id q (rw e (omega arith))) v
try_form_match-IsOrderly start instances match_id q (a ∷ []) e v =
    rw (try_form_match_few start instances match_id q (rw e (omega arith))) v
try_form_match-IsOrderly start instances match_id q (a ∷ b ∷ rest) e v =
    rw (try_form_match-formed start instances match_id a b rest q e)
      (formed-IsOrderly match_id (find_server start instances) a b rest q e v)

-- A call, or a pass with no call in between.
pub data Atomic : Type 0 where
  joining leaving : String → Atomic
  passing : (Instance → Option MatchResponse) → Option (List Instance) → String → Atomic

unfoldable pub perform : Atomic → Queue → Queue
perform (joining id) q = join id q
perform (leaving id) q = leave id q
perform (passing start instances match_id) q = try_form_match start instances match_id q

perform-IsOrderly : (x : Atomic) (q : Queue) → IsOrderly q → IsOrderly (perform x q)
unfolding perform
perform-IsOrderly (joining id) q v = join-IsOrderly id q v
perform-IsOrderly (leaving id) q v = leave-IsOrderly id q v
perform-IsOrderly (passing start instances match_id) q v =
    try_form_match-IsOrderly start instances match_id q q.waiting refl v

-- From an orderly queue, as the new one is, calls and undisturbed passes in any order lead to orderly
-- queues: nobody waits twice, and nobody waits who has a match.
pub undisturbed-IsOrderly :
    (xs : List Atomic) (q : Queue) → IsOrderly q → IsOrderly (for_each perform xs q)
undisturbed-IsOrderly xs q = for_each_inv IsOrderly perform perform-IsOrderly xs q

pub new_queue-IsOrderly : IsOrderly new_queue
unfolding new_queue has
new_queue-IsOrderly = record { distinct = tt; apart = λ k there. cc }
