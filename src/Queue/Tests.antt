-- ===== src/Queue/Tests.antt =====
-- Queues of capacity two, three and four at concrete inputs.
use cell.Base.{ℕ, ◌+◌, ◌-◌, ◌%◌, ◌^◌, ◌≤◌, ◌<◌, ◌≡◌, ◌≢◌, refl, true, false, arith, inl}
use cell.Base.{none, some, List, [], ◌∷◌, ◌++◌, length, get_elem?}
use cell.Queue.{SpscQueue, returned, pushed, new, push, pop, drop, is_empty, is_full}
use cell.Queue.Fifo
use cell.Queue.Fifo.{Op, put, get, accepted, rejected, got}
use cell.Queue.Refine.{
  Holds, push_reply, pop_reply, run, new-Holds, push_refines, pop_refines, run_refines,
  is_empty-is_full,
}
use cell.Queue.Drop.{drop-Holds}
use cell.Queue.Wrap.{wrap_overwrites}
use cell.Queue.Threads.{System, Producer, Consumer, produce, consume, Reach, here, next}
use cell.Queue.Threads.{Produce, Consume}
use cell.Queue.Threads.Safety.{received_in_order, never_broken, no_race}

-- 8, then 9, round the end of the buffer.
abbrev wrapped : SpscQueue ℕ
wrapped = record { buffer = some 9 ∷ none ∷ none ∷ some 8 ∷ []; head = 5; tail = 3 }

wrapped-Holds : Holds 4 3 wrapped (8 ∷ 9 ∷ [])
wrapped-Holds = record {
  pos = omega arith;
  word = omega arith;
  slots = refl;
  first = refl;
  last = refl;
  room = omega arith;
  stored = (refl, (refl, tt));
}

push_refines_example :
    (push_reply {T = ℕ} (push 4 wrapped 7).0 ≡ accepted)
    × Holds 4 3 (push 4 wrapped 7).1 (8 ∷ 9 ∷ 7 ∷ [])
unfolding Fifo.step
push_refines_example = push_refines 4 7 (inl refl) wrapped-Holds

pop_refines_example :
    (pop_reply {T = ℕ} (pop 4 wrapped).0 ≡ got (some 8)) × Holds 4 4 (pop 4 wrapped).1 (9 ∷ [])
unfolding Fifo.step
pop_refines_example = pop_refines 4 (8 ∷ 9 ∷ []) (inl refl) wrapped-Holds

-- The test `queue_is_bounded_and_non_blocking` of the harness.
abbrev script : List (Op ℕ)
script = put 10 ∷ put 20 ∷ put 30 ∷ get ∷ put 30 ∷ get ∷ get ∷ get ∷ []

run-script :
    run 2 (new 2) script
    ≡ accepted
      ∷ accepted
      ∷ rejected
      ∷ got (some 10)
      ∷ accepted
      ∷ got (some 20)
      ∷ got (some 30)
      ∷ got none
      ∷ []
unfolding run push pop new
run-script = refl

run_refines_example : run 2 (new 2) script ≡ Fifo.run 2 [] script
run_refines_example =
    run_refines 2 script 0 (new 2) [] (inl refl) (new-Holds 2 (omega arith) (omega arith))

drop-Holds_example :
    (q : SpscQueue ℕ) × (drop 4 wrapped ≡ (8 ∷ 9 ∷ [], returned q)) × (is_empty q ≡ true)
drop-Holds_example = drop-Holds 4 (8 ∷ 9 ∷ []) (inl refl) wrapped-Holds

is_empty-is_full_example : (is_empty wrapped ≡ false) × (is_full 4 wrapped ≡ false)
is_empty-is_full_example = is_empty-is_full 4 (8 ∷ 9 ∷ []) wrapped-Holds

-- Two values in a ring of three whose next counter is 2 ^ 64.
abbrev at_wrap : SpscQueue ℕ
at_wrap = record { buffer = some 6 ∷ none ∷ some 5 ∷ []; head = 0; tail = 2 ^ 64 - 2 }

at_wrap-Holds : Holds 3 (2 ^ 64 - 2) at_wrap (5 ∷ 6 ∷ [])
at_wrap-Holds = record {
  pos = omega arith;
  word = omega arith;
  slots = refl;
  first = refl;
  last = refl;
  room = omega arith;
  stored = (refl, (refl, tt));
}

wrap_overwrites_example :
    ((push 3 at_wrap 7).0 ≡ returned pushed)
    × ((j : ℕ) × (j < 2)
        × (get_elem? (push 3 at_wrap 7).1.buffer ((2 ^ 64 - 2 + j) % 3) ≡ some (some 7)))
wrap_overwrites_example =
    wrap_overwrites 3 (5 ∷ 6 ∷ []) 7 at_wrap-Holds (omega arith) (omega arith) (omega arith)

-- The producer has sent 7 and is about to write 8, the consumer is about to read 7.
abbrev both_inside : System ℕ
both_inside = record {
  memory = record {
    buffer = some 7 ∷ none ∷ [];
    head = 1;
    tail = 0;
    pushed = 1;
    popped = 0;
    seen_tail = 0;
    seen_head = 1;
    sent = 7 ∷ [];
    received = [];
  };
  producer = Producer.got_tail 8 1 0;
  consumer = Consumer.got_head 0 1;
}

one_sent : (s : System ℕ) × Reach 2 s
one_sent = (
  _,
  next
      (next
        (next (next here (produce (Produce.load_head 7)))
          (produce (Produce.load_tail 0 (omega arith) (omega arith))))
        (produce (Produce.write (omega arith))))
      (produce Produce.store_head),
)

reach_both_inside : Reach 2 both_inside
unfolding one_sent
reach_both_inside =
    next
      (next
        (next (next one_sent.1 (consume Consume.load_tail))
          (consume (Consume.load_head 1 (omega arith) (omega arith))))
        (produce (Produce.load_head 8)))
      (produce (Produce.load_tail 0 (omega arith) (omega arith)))

received_in_order_example : (waiting : List ℕ) × (7 ∷ [] ≡ [] ++ waiting) × (length waiting ≤ 2)
received_in_order_example = received_in_order 2 refl (omega arith) (omega arith) reach_both_inside

never_broken_example : both_inside.consumer ≢ Consumer.broken
never_broken_example = never_broken 2 refl (omega arith) (omega arith) reach_both_inside

no_race_example : 1 % 2 ≢ 0 % 2
no_race_example =
    no_race 2 refl (omega arith) (omega arith) reach_both_inside refl (omega arith) refl
      (omega arith)
