-- ===== src/Queue/Threads.antt =====
-- `push_inner` and `pop_inner` on two threads, a shared access at a time, in any interleaving. Each
-- thread alone writes its own counter and loads it with `Relaxed`. A load of the other thread's
-- counter may return an old value, though none older than one that the thread has seen (the
-- coherence of one atomic). The `Acquire` load that sees a counter sees the slots written before
-- the `Release` store of it, so slots are read from one memory.
pub mod Inv
pub mod Slots
pub mod Moves
pub mod Safety
use cell.Base.{ℕ, suc, ◌+◌, ◌%◌, ◌≤◌, ◌≡◌, ◌≢◌, Option, none, some, List, [], ◌∷◌, ◌++◌}
use cell.Base.{get_elem?, set, replicate, u64_mod, add64, sub64}

-- `pushed` and `popped` count the stores to `head` and to `tail`: the value of a counter after its
-- n-th store is n modulo 2 ^ 64. `seen_tail` and `seen_head` are how far the producer and the
-- consumer have seen the other's counter. `sent` and `received` list the values of the calls that
-- have returned.
pub record Shared {ℓ} (T : Type ℓ) : Type ℓ where
  pub buffer : List (Option T)
  pub head : ℕ
  pub tail : ℕ
  pub pushed : ℕ
  pub popped : ℕ
  pub seen_tail : ℕ
  pub seen_head : ℕ
  pub sent : List T
  pub received : List T

-- Where the producer stands in `push_inner`, with the locals that are live there.
pub data Producer {ℓ} (T : Type ℓ) : Type ℓ where
  outside : Producer T
  got_head : (item : T) (head : ℕ) → Producer T
  got_tail : (item : T) (head tail : ℕ) → Producer T
  wrote : (item : T) (head : ℕ) → Producer T

-- Where the consumer stands in `pop_inner`. `broken` follows a read that Rust leaves undefined.
pub data Consumer {ℓ} (T : Type ℓ) : Type ℓ where
  outside : Consumer T
  got_tail : (tail : ℕ) → Consumer T
  got_head : (tail head : ℕ) → Consumer T
  took : (item : T) (tail : ℕ) → Consumer T
  broken : Consumer T

pub record System {ℓ} (T : Type ℓ) : Type ℓ where
  pub memory : Shared T
  pub producer : Producer T
  pub consumer : Consumer T

module _ {ℓ} {T : Type ℓ} (cap : ℕ) where
  -- One step of the producer, from memory `m` and its place to those after it.
  pub data Produce (m : Shared T) : Producer T → Shared T → Producer T → Type ℓ where
    load_head : (item : T) → Produce m Producer.outside m (Producer.got_head item m.head)
    load_tail :
        {item : T} {head : ℕ} (n : ℕ)
        → m.seen_tail ≤ n
        → n ≤ m.popped
        → Produce m
            (Producer.got_head item head)
            (record m { seen_tail = n })
            (Producer.got_tail item head (n % u64_mod))
    full :
        {item : T} {head tail : ℕ}
        → sub64 head tail ≡ cap
        → Produce m (Producer.got_tail item head tail) m Producer.outside
    write :
        {item : T} {head tail : ℕ}
        → sub64 head tail ≢ cap
        → Produce m
            (Producer.got_tail item head tail)
            (record m { buffer = set m.buffer (head % cap) (some item) })
            (Producer.wrote item head)
    store_head :
        {item : T} {head : ℕ}
        → Produce m
            (Producer.wrote item head)
            (record m { head = add64 head 1; pushed = suc m.pushed; sent = m.sent ++ (item ∷ []) })
            Producer.outside

  -- One step of the consumer.
  pub data Consume (m : Shared T) : Consumer T → Shared T → Consumer T → Type ℓ where
    load_tail : Consume m Consumer.outside m (Consumer.got_tail m.tail)
    load_head :
        {tail : ℕ} (n : ℕ)
        → m.seen_head ≤ n
        → n ≤ m.pushed
        → Consume m
            (Consumer.got_tail tail)
            (record m { seen_head = n })
            (Consumer.got_head tail (n % u64_mod))
    empty :
        {tail head : ℕ} → tail ≡ head → Consume m (Consumer.got_head tail head) m Consumer.outside
    read :
        {tail head : ℕ} (item : T)
        → tail ≢ head
        → get_elem? m.buffer (tail % cap) ≡ some (some item)
        → Consume m
            (Consumer.got_head tail head)
            (record m { buffer = set m.buffer (tail % cap) none })
            (Consumer.took item tail)
    read_nothing :
        {tail head : ℕ}
        → tail ≢ head
        → ((item : T) → get_elem? m.buffer (tail % cap) ≢ some (some item))
        → Consume m (Consumer.got_head tail head) m Consumer.broken
    store_tail :
        {item : T} {tail : ℕ}
        → Consume m
            (Consumer.took item tail)
            (record m {
              tail = add64 tail 1;
              popped = suc m.popped;
              received = m.received ++ (item ∷ []);
            })
            Consumer.outside

  pub data Step (s : System T) : System T → Type ℓ where
    produce :
        {m : Shared T} {p : Producer T}
        → Produce s.memory s.producer m p
        → Step s (record s { memory = m; producer = p })
    consume :
        {m : Shared T} {c : Consumer T}
        → Consume s.memory s.consumer m c
        → Step s (record s { memory = m; consumer = c })

  -- `SpscQueue::new` and the two handles of `split`, neither in a call.
  abbrev pub start : System T
  start = record {
    memory = record {
      buffer = replicate cap none;
      head = 0;
      tail = 0;
      pushed = 0;
      popped = 0;
      seen_tail = 0;
      seen_head = 0;
      sent = [];
      received = [];
    };
    producer = Producer.outside;
    consumer = Consumer.outside;
  }

  pub data Reach : System T → Type ℓ where
    here : Reach start
    next : {s t : System T} → Reach s → Step s t → Reach t
