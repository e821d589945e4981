-- ===== src/Queue/Fifo.antt =====
-- What the queue promises: a first-in first-out list of at most `cap` values.
use cell.Base.{
  ℕ, ◌==◌, ◌≡◌, ◌≢◌, ◌+◌, ◌≤◌, arith, if◌then◌else◌, Option, none, some, List, [], ◌∷◌, ◌++◌,
  length, length-append,
}

-- A client's calls, and what it sees of each.
pub data Op {ℓ} (T : Type ℓ) : Type ℓ where
  put : T → Op T
  get : Op T

pub data Reply {ℓ} (T : Type ℓ) : Type ℓ where
  accepted rejected : Reply T
  got : Option T → Reply T
  fault : Reply T

module _ {ℓ} {T : Type ℓ} where
  unfoldable pub step : ℕ → List T → Op T → Reply T × List T
  step cap items (put x) =
      if length items == cap then (rejected, items) else (accepted, items ++ (x ∷ []))
  step cap [] get = (got none, [])
  step cap (x ∷ items) get = (got (some x), items)

  unfoldable pub run : ℕ → List T → List (Op T) → List (Reply T)
  run cap items [] = []
  run cap items (op ∷ ops) = let (r, items') = step cap items op in r ∷ run cap items' ops

  pub step-full :
      (cap : ℕ) (items : List T) (x : T)
      → length items ≡ cap
      → step cap items (put x) ≡ (rejected, items)
  unfolding step
  step-full cap items x full = ground arith

  pub step-free :
      (cap : ℕ) (items : List T) (x : T)
      → length items ≢ cap
      → step cap items (put x) ≡ (accepted, items ++ (x ∷ []))
  unfolding step
  step-free cap items x free = ground arith

  pub length-step-put :
      (cap : ℕ) (items : List T) (x : T) → length (step cap items (put x)).1 ≤ length items + 1
  unfolding step
  length-step-put cap items x = ground (arith, length-append items (x ∷ []))

  pub length-step-get : (cap : ℕ) (items : List T) → length (step cap items get).1 ≤ length items
  unfolding step
  length-step-get cap [] = omega arith
  length-step-get cap (x ∷ items) = omega arith
