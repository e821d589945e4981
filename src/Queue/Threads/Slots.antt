-- ===== src/Queue/Threads/Slots.antt =====
-- Which slots the threads use: the producer's next slot holds no item, the consumer's the first.
use cell.Base.{ℕ, suc, ◌+◌, ◌-◌, ◌%◌, ◌^◌, ◌<◌, ◌≡◌, ◌≢◌, refl, sym, ap, ◌∙◌, arith, inl}
use cell.Base.{Option, none, some, List, [], ◌∷◌, ◌++◌, length}
use cell.Base.{get_elem?, set, get_elem?-set_ne, u64_mod, sub64}
use cell.Queue.Layout.{wrapped_index, slots_differ, Stored, Stored-set, Stored-append}
use cell.Queue.Threads.{Shared, Producer, Consumer}
use cell.Queue.Threads.Inv.{ProducerInv, ConsumerInv, Available, Counts, Items}

module _ {T : Type 0} (cap : ℕ) where
  -- A write to a slot of none of the items.
  pub Available-set :
      (c : Consumer T) (buf : List (Option T)) (k i : ℕ) (v : Option T) (items : List T)
      → ((j : ℕ) → j < length items → i ≢ (k + j) % cap)
      → Available cap c buf k items
      → Available cap c (set buf i v) k items
  Available-set (Consumer.took item tail) buf k i v items away (rest, e, s) = (
    rest,
    e,
    Stored-set cap buf (suc k) i v rest
        (λ j less p.
          away (suc j) (omega (arith, ap (length {0}) e))
            (p ∙ ap (λ (t : ℕ). t % cap) (omega arith)))
        s,
  )
  Available-set Consumer.outside buf k i v items away s = Stored-set cap buf k i v items away s
  Available-set (Consumer.got_tail t) buf k i v items away s = Stored-set cap buf k i v items away s
  Available-set (Consumer.got_head t h) buf k i v items away s =
      Stored-set cap buf k i v items away s
  Available-set Consumer.broken buf k i v items away s = Stored-set cap buf k i v items away s

  pub Available-append :
      (c : Consumer T) (buf : List (Option T)) (k : ℕ) (items : List T) (x : T)
      → Available cap c buf k items
      → get_elem? buf ((k + length items) % cap) ≡ some (some x)
      → Available cap c buf k (items ++ (x ∷ []))
  Available-append (Consumer.took item tail) buf k items x (rest, e, s) last = (
    rest ++ (x ∷ []),
    ap (λ l. l ++ (x ∷ [])) e,
    Stored-append cap buf (suc k) rest x s
        (ap (λ (t : ℕ). get_elem? buf (t % cap)) (omega (arith, ap (length {0}) e)) ∙ last),
  )
  Available-append Consumer.outside buf k items x s last = Stored-append cap buf k items x s last
  Available-append (Consumer.got_tail t) buf k items x s last =
      Stored-append cap buf k items x s last
  Available-append (Consumer.got_head t h) buf k items x s last =
      Stored-append cap buf k items x s last
  Available-append Consumer.broken buf k items x s last = Stored-append cap buf k items x s last

module _ {T : Type 0} (cap : ℕ) (divides : 2 ^ 64 % cap ≡ 0) where
  pub slot_of_head : {m : Shared T} {h : ℕ} → Counts cap m → h ≡ m.head → h % cap ≡ m.pushed % cap
  slot_of_head {m} {h} c e =
      ap (λ (t : ℕ). t % cap) (e ∙ c.head_word) ∙ wrapped_index cap m.pushed (inl divides)

  pub slot_of_tail : {m : Shared T} {t : ℕ} → Counts cap m → t ≡ m.tail → t % cap ≡ m.popped % cap
  slot_of_tail {m} {t} c e =
      ap (λ (t : ℕ). t % cap) (e ∙ c.tail_word) ∙ wrapped_index cap m.popped (inl divides)

  -- The producer's test passes only where there is room.
  pub has_room :
      {m : Shared T} {head tail : ℕ}
      → Counts cap m
      → head ≡ m.head
      → tail ≡ m.seen_tail % u64_mod
      → sub64 head tail ≢ cap
      → m.pushed < m.seen_tail + cap
  has_room c eh et ne = omega arith

  -- The consumer's test passes only where there is an item.
  pub has_item :
      {m : Shared T} {head tail : ℕ}
      → Counts cap m
      → tail ≡ m.tail
      → head ≡ m.seen_head % u64_mod
      → tail ≢ head
      → m.popped < m.seen_head
  has_item c et eh ne = omega arith

  -- No item lies in the slot of the next one.
  pub head_slot_free :
      {m : Shared T} {k : Consumer T} {head : ℕ}
      → Counts cap m
      → (q : Items cap m k) → head ≡ m.head
      → m.pushed < m.seen_tail + cap
      → (j : ℕ) → j < length q.items
      → head % cap ≢ (m.popped + j) % cap
  head_slot_free {m} c q e room j less p =
      slots_differ cap m.popped j (length q.items) less (omega (arith, q.number))
        (ap (λ (t : ℕ). t % cap) (sym q.number) ∙ sym (slot_of_head c e) ∙ p)

  -- The slot that the consumer reads holds the first of the items.
  pub first_item :
      {m : Shared T} {tail : ℕ} (items : List T)
      → Counts cap m
      → tail ≡ m.tail
      → m.popped < m.seen_head
      → m.pushed ≡ m.popped + length items
      → Stored cap m.buffer m.popped items
      → (y : T) × (rest : List T) × (items ≡ y ∷ rest)
        × (get_elem? m.buffer (tail % cap) ≡ some (some y))
        × Stored cap m.buffer (suc m.popped) rest
  first_item [] c e less number s = absurd (omega (arith, c.seen_head_le))
  first_item {m} (y ∷ rest) c e less number s =
      (y, rest, refl, ap (λ (t : ℕ). get_elem? m.buffer t) (slot_of_tail c e) ∙ s.0, s.1)

  -- Emptying the slot of the first item changes no other.
  pub rest_kept :
      {m : Shared T} {tail : ℕ} (rest : List T)
      → Counts cap m
      → tail ≡ m.tail
      → m.pushed ≡ m.popped + suc (length rest)
      → Stored cap m.buffer (suc m.popped) rest
      → Stored cap (set m.buffer (tail % cap) none) (suc m.popped) rest
  rest_kept {m} {tail} rest c e number s =
      Stored-set cap m.buffer (suc m.popped) (tail % cap) none rest
        (λ j less p.
          slots_differ cap m.popped 0 (suc j) (omega arith) (omega (arith, c.room, c.seen_tail_le))
            (ap (λ (t : ℕ). t % cap) (omega arith)
              ∙ sym p
              ∙ slot_of_tail c e
              ∙ ap (λ (t : ℕ). t % cap) (omega arith)))
        s

  -- A value that the producer has written stays until it is published.
  pub written_kept :
      {m : Shared T} {tail : ℕ} (p : Producer T)
      → Counts cap m
      → tail ≡ m.tail
      → m.popped < m.pushed
      → ProducerInv cap m p
      → ProducerInv cap (record m { buffer = set m.buffer (tail % cap) none }) p
  written_kept {m} {tail} (Producer.wrote item head) c e less i = (
    i.0,
    i.1,
    get_elem?-set_ne m.buffer none (λ same.
          slots_differ cap m.popped 0 (m.pushed - m.popped) (omega arith)
            (omega (arith, c.seen_tail_le))
            (ap (λ (t : ℕ). t % cap) (omega arith)
              ∙ sym same
              ∙ slot_of_tail c e
              ∙ ap (λ (t : ℕ). t % cap) (omega arith)))
        ∙ i.2,
  )
  written_kept Producer.outside c e less i = i
  written_kept (Producer.got_head item head) c e less i = i
  written_kept (Producer.got_tail item head tail) c e less i = i

  -- The slot about to be written is not the one about to be read.
  pub own_slots_differ :
      {m : Shared T} (item : T) {head tail tail' head' : ℕ}
      → Counts cap m
      → ProducerInv cap m (Producer.got_tail item head tail)
      → sub64 head tail ≢ cap
      → ConsumerInv cap m (Consumer.got_head tail' head')
      → tail' ≢ head'
      → head % cap ≢ tail' % cap
  own_slots_differ {m} item c i ne j ne' same =
      let less : m.popped < m.seen_head = has_item c j.0 j.1 ne' in
      let room : m.pushed < m.seen_tail + cap = has_room c i.0 i.1 ne in
      slots_differ cap m.popped 0 (m.pushed - m.popped) (omega (arith, c.seen_head_le))
        (omega (arith, c.seen_tail_le))
        (ap (λ (t : ℕ). t % cap) (omega (arith, c.seen_head_le))
          ∙ sym (slot_of_head c i.0)
          ∙ same
          ∙ slot_of_tail c j.0
          ∙ ap (λ (t : ℕ). t % cap) (omega arith))
