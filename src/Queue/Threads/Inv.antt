-- ===== src/Queue/Threads/Inv.antt =====
-- What holds between the memory and the two threads at every point of an interleaving.
use cell.Base.{ℕ, suc, ◌+◌, ◌%◌, ◌≤◌, ◌<◌, ◌≡◌, arith}
use cell.Base.{Option, none, some, List, ◌∷◌, ◌++◌, length, length-set}
use cell.Base.{get_elem?}
use cell.Base.{u64_mod}
use cell.Queue.Layout.{Stored}
use cell.Queue.Threads.{Shared, Producer, Consumer, Produce, Consume}

-- The message type is at the lowest level here, so that facts on numbers and on values mix.
module _ {T : Type 0} (cap : ℕ) where
  abbrev pub ProducerFacts : ℕ → ℕ → ℕ → List (Option T) → Producer T → Type 0
  ProducerFacts h pushed seen buf Producer.outside = Unit
  ProducerFacts h pushed seen buf (Producer.got_head item head) = head ≡ h
  ProducerFacts h pushed seen buf (Producer.got_tail item head tail) =
      (head ≡ h) × (tail ≡ seen % u64_mod)
  ProducerFacts h pushed seen buf (Producer.wrote item head) =
      (head ≡ h) × (pushed < seen + cap) × (get_elem? buf (pushed % cap) ≡ some (some item))

  abbrev pub ConsumerFacts : ℕ → ℕ → ℕ → Consumer T → Type 0
  ConsumerFacts t popped seen Consumer.outside = Unit
  ConsumerFacts t popped seen (Consumer.got_tail tail) = tail ≡ t
  ConsumerFacts t popped seen (Consumer.got_head tail head) = (tail ≡ t) × (head ≡ seen % u64_mod)
  ConsumerFacts t popped seen (Consumer.took item tail) = (tail ≡ t) × (popped < seen)
  ConsumerFacts t popped seen Consumer.broken = ⊥

  -- What the producer's locals say about `head`, the counts and the buffer.
  abbrev pub ProducerInv : Shared T → Producer T → Type 0
  ProducerInv m = ProducerFacts m.head m.pushed m.seen_tail m.buffer

  abbrev pub ConsumerInv : Shared T → Consumer T → Type 0
  ConsumerInv m = ConsumerFacts m.tail m.popped m.seen_head

  -- The slots of the items that are pushed and not popped. A value that the consumer has taken is
  -- counted among them until its call returns.
  abbrev pub Available : Consumer T → List (Option T) → ℕ → List T → Type 0
  Available (Consumer.took item tail) buf k items =
      (rest : List T) × (items ≡ item ∷ rest) × Stored cap buf (suc k) rest
  Available _ buf k items = Stored cap buf k items

  -- The numbers of the memory: they do not depend on where the threads stand.
  pub record Counts (m : Shared T) : Type 0 where
    pub pos : 0 < cap
    pub word : cap < u64_mod
    pub slots : length m.buffer ≡ cap
    pub head_word : m.head ≡ m.pushed % u64_mod
    pub tail_word : m.tail ≡ m.popped % u64_mod
    pub seen_tail_le : m.seen_tail ≤ m.popped
    pub room : m.pushed ≤ m.seen_tail + cap
    pub seen_head_ge : m.popped ≤ m.seen_head
    pub seen_head_le : m.seen_head ≤ m.pushed

  -- The items in the queue account for what was sent and has not been received.
  pub record Items (m : Shared T) (c : Consumer T) : Type 0 where
    pub items : List T
    pub in_order : m.sent ≡ m.received ++ items
    pub number : m.pushed ≡ m.popped + length items
    pub stored : Available c m.buffer m.popped items

  pub record Inv (m : Shared T) (p : Producer T) (c : Consumer T) : Type 0 where
    pub counts : Counts m
    pub queue : Items m c
    pub producing : ProducerInv m p
    pub consuming : ConsumerInv m c

  pub Produce-Counts :
      {m m' : Shared T} {p p' : Producer T}
      → Counts m
      → ProducerInv m p
      → Produce cap m p m' p'
      → Counts m'
  Produce-Counts c i (Produce.load_head item) = c
  Produce-Counts c i (Produce.load_tail n lo hi) = omega arith
  Produce-Counts c i (Produce.full e) = c
  Produce-Counts {m} c i (Produce.write {item} {head} ne) =
      omega (arith, length-set m.buffer (head % cap) (some item))
  Produce-Counts c i Produce.store_head = omega arith

  pub Consume-Counts :
      {m m' : Shared T} {k k' : Consumer T}
      → Counts m
      → ConsumerInv m k
      → Consume cap m k m' k'
      → Counts m'
  Consume-Counts c i Consume.load_tail = c
  Consume-Counts c i (Consume.load_head n lo hi) = omega arith
  Consume-Counts c i (Consume.empty e) = c
  Consume-Counts {m} c i (Consume.read {tail} item ne e) =
      omega (arith, length-set {0} m.buffer (tail % cap) none)
  Consume-Counts c i (Consume.read_nothing ne e) = c
  Consume-Counts c i Consume.store_tail = omega arith
