-- ===== src/Queue/Threads/Moves.antt =====
-- Each access of a thread keeps the items of the queue in place and the other thread's facts true.
use cell.Base.{ℕ, ◌%◌, ◌^◌, ◌≡◌, refl, sym, ap, ◌∙◌, arith}
use cell.Base.{some, [], ◌∷◌, ◌++◌, length, length-append}
use cell.Base.{get_elem?, set, get_elem?-set_self}
use native.Mathlib.Nat.{mod-lt}
use mathlib.Core.List.{append_assoc}
use cell.Queue.Threads.{Shared, Producer, Consumer, Produce, Consume}
use cell.Queue.Threads.Inv.{ProducerInv, ConsumerInv, Counts, Items, Inv}
use cell.Queue.Threads.Inv.{Produce-Counts, Consume-Counts}
use cell.Queue.Threads.Slots.{
  Available-set, Available-append, slot_of_head, has_room, has_item, head_slot_free, first_item,
  rest_kept, written_kept,
}

module _ {T : Type 0} (cap : ℕ) (divides : 2 ^ 64 % cap ≡ 0) where
  Produce-Items :
      {m m' : Shared T} {p p' : Producer T} {k : Consumer T}
      → Counts cap m
      → ProducerInv cap m p
      → Items cap m k
      → Produce cap m p m' p'
      → Items cap m' k
  Produce-Items c i q (Produce.load_head item) = q
  Produce-Items c i q (Produce.load_tail n lo hi) = record {
    items = q.items;
    in_order = q.in_order;
    number = q.number;
    stored = q.stored;
  }
  Produce-Items c i q (Produce.full e) = q
  Produce-Items {m} {k} c i q (Produce.write {item} {head} ne) = record {
    items = q.items;
    in_order = q.in_order;
    number = q.number;
    stored =
        Available-set cap k m.buffer m.popped (head % cap) (some item) q.items
          (head_slot_free cap divides c q i.0 (has_room cap divides c i.0 i.1 ne)) q.stored;
  }
  Produce-Items {m} {k} c i q (Produce.store_head {item}) = record {
    items = q.items ++ (item ∷ []);
    in_order = ap (λ l. l ++ (item ∷ [])) q.in_order ∙ append_assoc m.received q.items (item ∷ []);
    number = omega (arith, q.number, length-append q.items (item ∷ []));
    stored =
        Available-append cap k m.buffer m.popped q.items item q.stored
          (ap (λ (t : ℕ). get_elem? m.buffer (t % cap)) (sym q.number) ∙ i.2);
  }

  Consume-Items :
      {m m' : Shared T} {k k' : Consumer T}
      → Counts cap m
      → ConsumerInv cap m k
      → Items cap m k
      → Consume cap m k m' k'
      → Items cap m' k'
  Consume-Items c i q Consume.load_tail = record {
    items = q.items;
    in_order = q.in_order;
    number = q.number;
    stored = q.stored;
  }
  Consume-Items c i q (Consume.load_head n lo hi) = record {
    items = q.items;
    in_order = q.in_order;
    number = q.number;
    stored = q.stored;
  }
  Consume-Items c i q (Consume.empty e) = record {
    items = q.items;
    in_order = q.in_order;
    number = q.number;
    stored = q.stored;
  }
  Consume-Items {m} c i q (Consume.read {tail} {head} item ne e) =
      let (y, rest, split, slot, s) =
        first_item cap divides q.items c i.0 (has_item cap divides c i.0 i.1 ne) q.number
          q.stored in
      record {
        items = q.items;
        in_order = q.in_order;
        number = q.number;
        stored = (
          rest,
          split ∙ ap (λ a. a ∷ rest) (cc (slot, e)),
          rest_kept cap divides rest c i.0 (omega (arith, q.number, ap (length {0}) split)) s,
        );
      }
  Consume-Items c i q (Consume.read_nothing ne e) = record {
    items = q.items;
    in_order = q.in_order;
    number = q.number;
    stored = q.stored;
  }
  Consume-Items {m} c i q (Consume.store_tail {item}) =
      let (rest, split, s) = q.stored in
      record {
        items = rest;
        in_order =
            q.in_order
            ∙ ap (λ l. m.received ++ l) split
            ∙ sym (append_assoc m.received (item ∷ []) rest);
        number = omega (arith, q.number, ap (length {0}) split);
        stored = s;
      }

  Produce-own :
      {m m' : Shared T} {p p' : Producer T}
      → Counts cap m
      → ProducerInv cap m p
      → Produce cap m p m' p'
      → ProducerInv cap m' p'
  Produce-own c i (Produce.load_head item) = refl
  Produce-own c i (Produce.load_tail n lo hi) = (i, refl)
  Produce-own c i (Produce.full e) = tt
  Produce-own {m} c i (Produce.write {item} {head} ne) = (
    i.0,
    has_room cap divides c i.0 i.1 ne,
    ap (λ (t : ℕ). get_elem? (set m.buffer (head % cap) (some item)) t)
          (sym (slot_of_head cap divides c i.0))
        ∙ get_elem?-set_self m.buffer (head % cap) (some item)
            (omega (arith, c.slots, mod-lt head c.pos)),
  )
  Produce-own c i Produce.store_head = tt

  -- The facts of a thread that the other one moves past.
  Produce-other :
      {m m' : Shared T} {p p' : Producer T} (k : Consumer T)
      → ConsumerInv cap m k
      → Produce cap m p m' p'
      → ConsumerInv cap m' k
  Produce-other k i (Produce.load_head item) = i
  Produce-other k i (Produce.load_tail n lo hi) = i
  Produce-other k i (Produce.full e) = i
  Produce-other k i (Produce.write ne) = i
  Produce-other k i Produce.store_head = i

  Consume-own :
      {m m' : Shared T} {k k' : Consumer T}
      → Counts cap m
      → ConsumerInv cap m k
      → Items cap m k
      → Consume cap m k m' k'
      → ConsumerInv cap m' k'
  Consume-own c i q Consume.load_tail = refl
  Consume-own c i q (Consume.load_head n lo hi) = (i, refl)
  Consume-own c i q (Consume.empty e) = tt
  Consume-own c i q (Consume.read item ne e) = (i.0, has_item cap divides c i.0 i.1 ne)
  Consume-own c i q (Consume.read_nothing ne none_there) =
      let (y, rest, split, slot, s) =
        first_item cap divides q.items c i.0 (has_item cap divides c i.0 i.1 ne) q.number
          q.stored in
      none_there y slot
  Consume-own c i q Consume.store_tail = tt

  Consume-other :
      {m m' : Shared T} {k k' : Consumer T} (p : Producer T)
      → Counts cap m
      → ProducerInv cap m p
      → ConsumerInv cap m k
      → Consume cap m k m' k'
      → ProducerInv cap m' p
  Consume-other p c i j Consume.load_tail = i
  Consume-other p c i j (Consume.load_head n lo hi) = i
  Consume-other p c i j (Consume.empty e) = i
  Consume-other p c i j (Consume.read item ne e) =
      written_kept cap divides p c j.0
        (omega (arith, has_item cap divides c j.0 j.1 ne, c.seen_head_le)) i
  Consume-other p c i j (Consume.read_nothing ne e) = i
  Consume-other p c i j Consume.store_tail = i

  pub Produce-Inv :
      {m m' : Shared T} {p p' : Producer T} {k : Consumer T}
      → Inv cap m p k
      → Produce cap m p m' p'
      → Inv cap m' p' k
  Produce-Inv {k} v move = record {
    counts = Produce-Counts cap v.counts v.producing move;
    queue = Produce-Items v.counts v.producing v.queue move;
    producing = Produce-own v.counts v.producing move;
    consuming = Produce-other k v.consuming move;
  }

  pub Consume-Inv :
      {m m' : Shared T} {p : Producer T} {k k' : Consumer T}
      → Inv cap m p k
      → Consume cap m k m' k'
      → Inv cap m' p k'
  Consume-Inv {p} v move = record {
    counts = Consume-Counts cap v.counts v.consuming move;
    queue = Consume-Items v.counts v.consuming v.queue move;
    producing = Consume-other p v.counts v.producing v.consuming move;
    consuming = Consume-own v.counts v.consuming v.queue move;
  }
