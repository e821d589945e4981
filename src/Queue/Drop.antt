-- ===== src/Queue/Drop.antt =====
-- `Drop for SpscQueue`: the loop ends and drops what is left.
use cell.Base.{ℕ, zero, suc, subst, ◌+◌, ◌<◌, ◌≡◌, refl, arith}
use cell.Base.{true, List, [], ◌∷◌, length}
use cell.Queue.{SpscQueue, returned, is_empty, drop, drop_loop}
use cell.Queue.Layout.{IsUnwrapped, IsUnwrapped-le}
use cell.Queue.Refine.{Holds, pop_empty, pop_first, popped, popped-Holds}

module _ {ℓ} {T : Type ℓ} (cap : ℕ) where
  drop_loop-Holds :
      (items : List T) (k : ℕ) (q : SpscQueue T) (fuel : ℕ)
      → length items < fuel
      → IsUnwrapped cap (k + length items)
      → Holds cap k q items
      → (q' : SpscQueue T) × (drop_loop cap fuel q ≡ (items, returned q'))
        × Holds cap (k + length items) q' []
  unfolding drop_loop
  drop_loop-Holds items k q zero less u h = elim less [ ]
  drop_loop-Holds [] k q (suc fuel) less u h = (
    q,
    rw (pop_empty cap h, drop_loop) (rw (pop_empty cap h) refl),
    subst (λ t. Holds cap t q []) (omega arith) h,
  )
  drop_loop-Holds (x ∷ items) k q (suc fuel) less u h =
      let earlier : IsUnwrapped cap k = IsUnwrapped-le cap _ k u (omega arith) in
      let (q', e, h') =
        drop_loop-Holds items (suc k) (popped cap q) fuel (omega arith)
          (IsUnwrapped-le cap _ _ u (omega arith)) (popped-Holds cap earlier h) in
      (
        q',
        rw (pop_first cap earlier h, drop_loop) (rw (pop_first cap earlier h, e) refl),
        subst (λ t. Holds cap t q' []) (omega arith) h',
      )

  -- `drop` ends, and drops each value that the queue holds once, oldest first, and no other, where
  -- the capacity divides 2 ^ 64 or no counter has wrapped.
  pub drop-Holds :
      {k : ℕ} {q : SpscQueue T} (items : List T)
      → IsUnwrapped cap (k + length items)
      → Holds cap k q items
      → (q' : SpscQueue T) × (drop cap q ≡ (items, returned q')) × (is_empty q' ≡ true)
  unfolding drop is_empty
  drop-Holds {k} {q} items u h =
      let (q', e, h') = drop_loop-Holds items k q (suc cap) (omega (arith, h.room)) u h in
      (q', e, ground (arith, h'.first, h'.last))
