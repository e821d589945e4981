-- ===== src/Queue/Refine.antt =====
-- A queue behaves as the bounded first-in first-out list of the values that it holds.
use cell.Base.{ℕ, suc, subst, ◌+◌, ◌-◌, ◌%◌, ◌≤◌, ◌<◌, ◌≡◌, refl, ◌≢◌, arith, ◌==◌}
use cell.Base.{
  Option, none, some, List, [], ◌∷◌, ◌++◌, ap, sym, ◌∙◌, length, length-append, get_elem?, set,
}
use cell.Base.{get_elem?-set_self, length-set, length-replicate, u64_mod, add64, sub64}
use native.Mathlib.Nat.{mod-lt}
use native.Mathlib.Decide.{ℕ_discrete}
use mathlib.Core.Path.{ap₂}
use cell.Queue.{
  SpscQueue, Call, returned, panicked, undefined, PushResult, pushed, queue_full, new, push, pop,
  is_empty, is_full, publish,
}
use cell.Queue.Fifo
use cell.Queue.Fifo.{Op, put, get, Reply, accepted, rejected, got, fault}
use cell.Queue.Layout.{
  IsUnwrapped, wrapped_index, IsUnwrapped-le, slots_differ, Stored, Stored-set, Stored-append,
}

-- What a client sees of a call.
module _ {ℓ} {T : Type ℓ} where
  abbrev pub push_reply : Call PushResult → Reply T
  push_reply (returned pushed) = accepted
  push_reply (returned queue_full) = rejected
  push_reply panicked = fault
  push_reply undefined = fault

  abbrev pub pop_reply : Call (Option T) → Reply T
  pop_reply (returned x) = got x
  pop_reply panicked = fault
  pop_reply undefined = fault

module _ {ℓ} {T : Type ℓ} (cap : ℕ) where
  -- The queue `q` holds `items`, the oldest of which was pushed after `k` others.
  pub record Holds (k : ℕ) (q : SpscQueue T) (items : List T) : Type ℓ where
    pub pos : 0 < cap
    pub word : cap < u64_mod
    pub slots : length q.buffer ≡ cap
    pub first : q.tail ≡ k % u64_mod
    pub last : q.head ≡ (k + length items) % u64_mod
    pub room : length items ≤ cap
    pub stored : Stored cap q.buffer k items

  pub new-Holds : 0 < cap → cap < u64_mod → Holds 0 (new cap) []
  unfolding new
  new-Holds p w = record {
    pos = p;
    word = w;
    slots = length-replicate cap none;
    first = refl;
    last = refl;
    room = omega arith;
    stored = tt;
  }

  module _ {k : ℕ} {q : SpscQueue T} {items : List T} (h : Holds k q items) where
    open h use {pos, word, slots, first, last, room, stored}

    -- The wrapping difference of the counters is the number of values held.
    pub used : sub64 q.head q.tail ≡ length items
    used = omega arith

    head_index : IsUnwrapped cap (k + length items) → q.head % cap ≡ (k + length items) % cap
    head_index u = ap (λ (t : ℕ). t % cap) last ∙ wrapped_index cap (k + length items) u

    tail_index : IsUnwrapped cap k → q.tail % cap ≡ k % cap
    tail_index u = ap (λ (t : ℕ). t % cap) first ∙ wrapped_index cap k u

    pub publish-Holds :
        (x : T)
        → IsUnwrapped cap (k + length items)
        → length items ≢ cap
        → Holds k (publish cap q x) (items ++ (x ∷ []))
    publish-Holds x u free = record {
      pos = pos;
      word = word;
      slots = length-set q.buffer (q.head % cap) (some x) ∙ slots;
      first = first;
      last = omega (arith, length-append items (x ∷ []));
      room = omega (arith, length-append items (x ∷ []));
      stored =
          Stored-append cap _ k items x
            (Stored-set cap q.buffer k (q.head % cap) (some x) items
              (λ j less e.
                slots_differ cap k j (length items) less (omega arith) (sym (head_index u) ∙ e))
              stored)
            (ap (λ (t : ℕ). get_elem? (set q.buffer (q.head % cap) (some x)) t) (sym (head_index u))
              ∙ get_elem?-set_self q.buffer (q.head % cap) (some x)
                  (omega (arith, mod-lt q.head pos)));
    }

  pub push_full :
      {k : ℕ} {q : SpscQueue T} {items : List T} (x : T)
      → Holds k q items
      → length items ≡ cap
      → push cap q x ≡ (returned queue_full, q)
  unfolding push
  push_full {q} x h full = ground (arith, used h, h.pos)

  pub push_free :
      {k : ℕ} {q : SpscQueue T} {items : List T} (x : T)
      → Holds k q items
      → length items ≢ cap
      → push cap q x ≡ (returned pushed, publish cap q x)
  unfolding push
  push_free {q} x h free = ground (arith, used h, h.pos)

  pub pop_empty : {k : ℕ} {q : SpscQueue T} → Holds k q [] → pop cap q ≡ (returned none, q)
  unfolding pop
  pop_empty {k} {q} h = ground (arith, h.pos, used h)

  abbrev pub popped : SpscQueue T → SpscQueue T
  popped q = record q { buffer = set q.buffer (q.tail % cap) none; tail = add64 q.tail 1 }

  pub pop_first :
      {k : ℕ} {q : SpscQueue T} {x : T} {items : List T}
      → IsUnwrapped cap k
      → Holds k q (x ∷ items)
      → pop cap q ≡ (returned (some x), popped q)
  unfolding pop
  pop_first {k} {q} u h =
      ground (arith, h.pos, h.first, h.last, h.room, h.word, tail_index h u, h.stored.0)

  pub popped-Holds :
      {k : ℕ} {q : SpscQueue T} {x : T} {items : List T}
      → IsUnwrapped cap k
      → Holds k q (x ∷ items)
      → Holds (suc k) (popped q) items
  popped-Holds {k} {q} {items} u h = record {
    pos = h.pos;
    word = h.word;
    slots = length-set q.buffer (q.tail % cap) none ∙ h.slots;
    first = omega (arith, h.first);
    last = h.last ∙ ap (λ (t : ℕ). t % u64_mod) (omega arith);
    room = omega (arith, h.room);
    stored =
        Stored-set cap q.buffer (suc k) (q.tail % cap) none items
          (λ j less e. slots_differ cap k 0 (suc j) (omega arith) (omega (arith, h.room)) (
            ap (λ (t : ℕ). t % cap) (omega arith)
            ∙ sym e
            ∙ tail_index h u
            ∙ ap (λ (t : ℕ). t % cap) (omega arith)))
          h.stored.1;
  }

  exec : Op T → SpscQueue T → Reply T × SpscQueue T
  exec (put x) q = let (r, q') = push cap q x in (push_reply r, q')
  exec get q = let (r, q') = pop cap q in (pop_reply r, q')

  -- A client's calls in order, with what each returns.
  unfoldable pub run : SpscQueue T → List (Op T) → List (Reply T)
  unfolding exec
  run q [] = []
  run q (op ∷ ops) = let (r, q') = exec op q in r ∷ run q' ops

  -- `push` on a queue that holds `items`, where the capacity divides 2 ^ 64 or no counter has
  -- wrapped: it is refused exactly if there are `cap` of them, and the queue then holds the same;
  -- else the value becomes the last of the items.
  pub push_refines :
      {k : ℕ} {q : SpscQueue T} {items : List T} (x : T)
      → IsUnwrapped cap (k + length items)
      → Holds k q items
      → let (r, q') = push cap q x in
        let (r', items') = Fifo.step cap items (put x) in (push_reply r ≡ r') × Holds k q' items'
  push_refines {k} {q} {items} x u h = elim (ℕ_discrete (length items) cap) [
    | yes full ↦ rw (push_full x h full, Fifo.step-full cap items x full) (refl, h)
    | no free ↦
        rw (push_free x h free, Fifo.step-free cap items x free) (refl, publish-Holds h x u free)
  ]

  -- `pop` on a queue that holds `items`, where the capacity divides 2 ^ 64 or no counter has wrapped,
  -- returns `None` exactly if there are none, and else the oldest, which it takes out.
  pub pop_refines :
      {k : ℕ} {q : SpscQueue T} (items : List T)
      → IsUnwrapped cap (k + length items)
      → Holds k q items
      → let (r, q') = pop cap q in
        let (r', items') = Fifo.step cap items get in
        (pop_reply r ≡ r') × Holds (k + length items - length items') q' items'
  unfolding Fifo.step
  pop_refines {k} {q} [] u h = rw (pop_empty h) (refl, subst (λ t. Holds t q []) (omega arith) h)
  pop_refines {k} {q} (x ∷ items) u h =
      let earlier : IsUnwrapped cap k = IsUnwrapped-le cap _ k u (omega arith) in
      rw (pop_first earlier h)
        (refl, subst (λ t. Holds t (popped q) items) (omega arith) (popped-Holds earlier h))

  -- No sequence of calls tells a queue from the bounded list of the items that it holds, if the
  -- capacity divides 2 ^ 64 or no counter wraps before or during the calls.
  pub run_refines :
      (ops : List (Op T)) (k : ℕ) (q : SpscQueue T) (items : List T)
      → IsUnwrapped cap (k + length items + length ops)
      → Holds k q items
      → run q ops ≡ Fifo.run cap items ops
  unfolding run Fifo.run
  run_refines [] k q items u h = refl
  run_refines (put x ∷ ops) k q items u h =
      let one = push_refines x (IsUnwrapped-le cap _ _ u (omega arith)) h in
      ap₂ ◌∷◌ one.0 (
        run_refines ops k _ _
          (IsUnwrapped-le cap _ _ u (omega (arith, Fifo.length-step-put cap items x))) one.1)
  run_refines (get ∷ ops) k q items u h =
      let one = pop_refines items (IsUnwrapped-le cap _ _ u (omega arith)) h in
      ap₂ ◌∷◌ one.0 (
        run_refines ops _ _ _
          (IsUnwrapped-le cap _ _ u (omega (arith, Fifo.length-step-get cap items))) one.1)

  -- On a queue that holds `items`, `is_empty` and `is_full` tell whether there are none of them and
  -- whether there are `cap` of them.
  pub is_empty-is_full :
      {k : ℕ} {q : SpscQueue T} (items : List T)
      → Holds k q items
      → (is_empty q ≡ (length items == 0)) × (is_full cap q ≡ (length items == cap))
  unfolding is_empty is_full
  is_empty-is_full {k} {q} items h = ground (arith, h.first, h.last, h.room, h.word, used h)
