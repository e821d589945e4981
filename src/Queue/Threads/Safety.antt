-- ===== src/Queue/Threads/Safety.antt =====
-- What holds however the two threads interleave.
use cell.Base.{ℕ, ◌%◌, ◌^◌, ◌≤◌, ◌<◌, ◌≡◌, ◌≢◌, refl, arith}
use cell.Base.{none, List, [], ◌++◌, length, length-replicate}
use cell.Base.{sub64}
use cell.Queue.Threads.{
  Producer, Consumer, System, Step, produce, consume, start, Reach, here, next,
}
use cell.Queue.Threads.Inv.{Inv}
use cell.Queue.Threads.Moves.{Produce-Inv, Consume-Inv}
use cell.Queue.Threads.Slots.{own_slots_differ}

module _ {T : Type 0} (cap : ℕ) (divides : 2 ^ 64 % cap ≡ 0) (pos : 0 < cap)
    (word : cap < 2 ^ 64) where
  start-Inv : Inv {T = T} cap (start cap).memory Producer.outside Consumer.outside
  start-Inv = record {
    counts = record {
      pos = pos;
      word = word;
      slots = length-replicate cap none;
      head_word = refl;
      tail_word = refl;
      seen_tail_le = omega arith;
      room = omega arith;
      seen_head_ge = omega arith;
      seen_head_le = omega arith;
    };
    queue = record { items = []; in_order = refl; number = omega arith; stored = tt };
    producing = tt;
    consuming = tt;
  }

  Step-Inv :
      {s t : System T}
      → Step cap s t
      → Inv cap s.memory s.producer s.consumer
      → Inv cap t.memory t.producer t.consumer
  Step-Inv (produce move) v = Produce-Inv cap divides v move
  Step-Inv (consume move) v = Consume-Inv cap divides v move

  pub Reach-Inv : {s : System T} → Reach cap s → Inv cap s.memory s.producer s.consumer
  Reach-Inv here = start-Inv
  Reach-Inv (next r st) = Step-Inv st (Reach-Inv r)

  -- For a capacity from 1 that is below 2 ^ 64 and divides it: in every interleaving the values
  -- received are the first of the values sent, in their order, each once, and at most `cap` of those
  -- sent are still to be received.
  pub received_in_order :
      {s : System T}
      → Reach cap s
      → (waiting : List T) × (s.memory.sent ≡ s.memory.received ++ waiting) × (length waiting ≤ cap)
  received_in_order {s} r =
      let v = Reach-Inv r in
      (
        v.queue.items,
        v.queue.in_order,
        omega (arith, v.queue.number, v.counts.room, v.counts.seen_tail_le),
      )

  -- For a capacity from 1 that is below 2 ^ 64 and divides it, the consumer never reads a slot that
  -- holds no value, in any interleaving.
  pub never_broken : {s : System T} → Reach cap s → s.consumer ≢ Consumer.broken
  never_broken {s} r e = rw e at (Reach-Inv r).consuming

  -- For a capacity from 1 that is below 2 ^ 64 and divides it: when the producer is about to write a
  -- slot and the consumer about to read one, they are different slots, so the two never race.
  pub no_race :
      {s : System T} {item : T} {h t t' h' : ℕ}
      → Reach cap s
      → s.producer ≡ Producer.got_tail item h t
      → sub64 h t ≢ cap
      → s.consumer ≡ Consumer.got_head t' h'
      → t' ≢ h'
      → h % cap ≢ t' % cap
  no_race {s} {item} r ep room ec some_item same =
      let v = Reach-Inv r in
      own_slots_differ cap divides item v.counts (rw ep at v.producing) room (rw ec at v.consuming)
        some_item same
