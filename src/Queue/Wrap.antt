-- ===== src/Queue/Wrap.antt =====
-- What becomes of a capacity that does not divide 2 ^ 64 when a counter wraps.
use cell.Base.{◌*◌, ◌/◌, ℕ, ◌+◌, ◌-◌, ◌%◌, ◌^◌, ◌<◌, ◌≡◌, refl, ◌≢◌, arith}
use cell.Base.{some, List, ap, sym, ◌∙◌, length, get_elem?, set}
use cell.Base.{get_elem?-set_self}
use native.Mathlib.Nat.{mod-lt, div-add-mod', mul-mod_left, zero-mod}
use cell.Queue.{SpscQueue, returned, pushed, push}
use cell.Queue.Refine.{Holds, push_free}

module _ {ℓ} {T : Type ℓ} (cap : ℕ) where
  -- A capacity that does not divide 2 ^ 64 breaks the ring when the head counter reaches 2 ^ 64: on a
  -- queue with one slot free and exactly 2 ^ 64 values pushed so far, a `push` is accepted and
  -- overwrites the slot of a value that is still in the queue.
  pub wrap_overwrites :
      {k : ℕ} {q : SpscQueue T} (items : List T) (x : T)
      → Holds cap k q items
      → k + length items ≡ 2 ^ 64
      → length items + 1 ≡ cap
      → 2 ^ 64 % cap ≢ 0
      → let (r, q') = push cap q x in
        (r ≡ returned pushed)
        × ((j : ℕ) × (j < length items) × (get_elem? q'.buffer ((k + j) % cap) ≡ some (some x)))
  wrap_overwrites {k} {q} items x h full one odd = rw (push_free cap x h (omega arith)) (
    refl,
    (
      cap - 1 - 2 ^ 64 % cap,
      omega (arith, mod-lt (2 ^ 64) h.pos),
      ap (λ (t : ℕ). get_elem? (set q.buffer (q.head % cap) (some x)) t) same
          ∙ get_elem?-set_self q.buffer (q.head % cap) (some x)
              (omega (arith, h.slots, mod-lt q.head h.pos)),
    ),
  )
    where
      start : q.head ≡ 0
      start = omega (arith, h.last)

      round : (k + (cap - 1 - 2 ^ 64 % cap)) ≡ 2 ^ 64 / cap * cap
      round = omega (arith, div-add-mod' (2 ^ 64) cap, mod-lt (2 ^ 64) h.pos)

      same : (k + (cap - 1 - 2 ^ 64 % cap)) % cap ≡ q.head % cap
      same =
          ap (λ (t : ℕ). t % cap) round
          ∙ mul-mod_left (2 ^ 64 / cap) cap
          ∙ sym (zero-mod cap)
          ∙ ap (λ (t : ℕ). t % cap) (sym start)
