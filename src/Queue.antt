-- ===== src/Queue.antt =====
-- crates/cell-queue/src/lib.rs: the bounded single-producer single-consumer ring `SpscQueue`,
-- each call taken as one step. `Queue.Threads` splits the calls into their shared accesses.
pub mod Fifo
pub mod Layout
pub mod Refine
pub mod Drop
pub mod Wrap
pub mod Threads
mod Tests
use cell.Base.{ℕ, zero, suc, ◌+◌, ◌%◌, ◌==◌, ◌&&◌, if◌then◌else◌}
use cell.Base.{Bool, true, false, Option, none, some, List, [], ◌∷◌}
use cell.Base.{get_elem?, set, replicate, add64, sub64}

-- What a call comes to: it returns, an `assert!` stops it, or it does what Rust leaves undefined,
-- which is a read of a slot that holds no value or an index past the array.
pub data Call {ℓ} (A : Type ℓ) : Type ℓ where
  returned : A → Call A
  panicked undefined : Call A

-- `Result<(), QueueFull>`
pub data PushResult : Type 0 where
  pushed queue_full : PushResult

-- A slot of `[MaybeUninit<T>; CAP]` is `none` where it holds no value that may be read.
pub record SpscQueue {ℓ} (T : Type ℓ) : Type ℓ where
  pub buffer : List (Option T)
  pub head : ℕ
  pub tail : ℕ

pub is_empty {ℓ} : {T : Type ℓ} → SpscQueue T → Bool
is_empty q = q.head == q.tail

module _ {ℓ} {T : Type ℓ} (cap : ℕ) where
  unfoldable pub new : SpscQueue T
  new = record { buffer = replicate cap none; head = 0; tail = 0 }

  -- The write of the slot, and the store that publishes it.
  abbrev pub publish : SpscQueue T → T → SpscQueue T
  publish q item = record q {
    buffer = set q.buffer (q.head % cap) (some item);
    head = add64 q.head 1;
  }

  pub push_inner : SpscQueue T → T → Call PushResult × SpscQueue T
  push_inner q item =
      if cap == 0
      then (panicked, q)
      else if sub64 q.head q.tail == cap
      then (returned queue_full, q)
      else (returned pushed, publish q item)

  pub push : SpscQueue T → T → Call PushResult × SpscQueue T
  unfolding push_inner
  push q item = push_inner q item

  -- `assume_init_read` moves the value out of the slot.
  abbrev pub take_slot : SpscQueue T → Option (Option T) → Call (Option T) × SpscQueue T
  take_slot q none = (undefined, q)
  take_slot q (some none) = (undefined, q)
  take_slot q (some (some item)) = (
    returned (some item),
    record q { buffer = set q.buffer (q.tail % cap) none; tail = add64 q.tail 1 },
  )

  pub pop_inner : SpscQueue T → Call (Option T) × SpscQueue T
  pop_inner q =
      if cap == 0
      then (panicked, q)
      else if q.tail == q.head
      then (returned none, q)
      else take_slot q (get_elem? q.buffer (q.tail % cap))

  pub pop : SpscQueue T → Call (Option T) × SpscQueue T
  unfolding pop_inner
  pop q = pop_inner q

  pub is_full : SpscQueue T → Bool
  is_full q = sub64 q.head q.tail == cap

  -- `while self.pop().is_some() {}`, with the values that are dropped, oldest first, and how the
  -- loop ends. Each round shortens the queue, so `cap + 1` rounds are enough.
  pub drop_loop : ℕ → SpscQueue T → List T × Call (SpscQueue T)
  unfolding pop
  drop_loop zero q = ([], undefined)
  drop_loop (suc fuel) q =
      let (out, q') = pop q in
      let (items, end) = drop_loop fuel q' in
      elim out [
        | returned (some item) ↦ (item ∷ items, end)
        | returned none ↦ ([], returned q')
        | panicked ↦ ([], panicked)
        | undefined ↦ ([], undefined)
      ]

  pub drop : SpscQueue T → List T × Call (SpscQueue T)
  unfolding drop_loop
  drop q = drop_loop (suc cap) q
