-- ===== src/Kernel/Sum.antt =====
-- The tensor of main.rs: the BSP writes ones, and the AP's sum of them is exact.
use cell.Base.{
  ℕ, zero, suc, ◌+◌, ◌*◌, ◌^◌, ◌≤◌, ◌<◌, ◌≡◌, refl, ap, ◌∙◌, arith, true, ◌==◌, if◌then◌else◌,
}
use cell.Kernel.{sum_loop}
use cell.Kernel.State.{F32}
use cell.Kernel.Start.{fill_loop}

-- What IEEE 754 says of the numbers that a `f32` holds exactly.
pub record IsExact {F : Type 0} (float : F32 F) : Type 0 where
  pub zero_is : float.float_zero ≡ float.of_usize 0
  pub add_one :
      (n : ℕ) → n < 2 ^ 24 → float.add (float.of_usize n) float.float_one ≡ float.of_usize (suc n)
  pub eq_self : (n : ℕ) → n ≤ 2 ^ 24 → float.eq (float.of_usize n) (float.of_usize n) ≡ true

module _ {F : Type 0} (float : F32 F) where
  -- The loop writes nothing below its place.
  fill_below :
      (n place a : ℕ) (memory : ℕ → F) → a < place → fill_loop float n place memory a ≡ memory a
  unfolding fill_loop
  fill_below zero place a memory h = refl
  fill_below (suc n) place a memory h = fill_below n (place + 4) a _ (omega arith) ∙ skipped
    where
      skipped : (if a == place then float.float_one else memory a) ≡ memory a
      skipped = ground arith

  fill_there :
      (n i place : ℕ) (memory : ℕ → F)
      → i < n
      → fill_loop float n place memory (place + 4 * i) ≡ float.float_one
  unfolding fill_loop
  fill_there zero i place memory h = absurd (omega arith)
  fill_there (suc n) zero place memory h =
      fill_below n (place + 4) (place + 4 * 0) _ (omega arith) ∙ written
    where
      written :
          (if place + 4 * 0 == place then float.float_one else memory (place + 4 * 0))
          ≡ float.float_one
      written = ground arith
  fill_there (suc n) (suc i) place memory h =
      ap (fill_loop float n (place + 4) _) {y = place + 4 + 4 * i} (omega arith)
      ∙ fill_there n i (place + 4) _ (omega arith)

  module _ (exact : IsExact float) where
    sum_of_ones :
        (n so_far place : ℕ) (memory : ℕ → F)
        → so_far + n ≤ 2 ^ 24
        → ((i : ℕ) → i < n → memory (place + 4 * i) ≡ float.float_one)
        → sum_loop float n place (float.of_usize so_far) memory ≡ float.of_usize (so_far + n)
    unfolding sum_loop
    sum_of_ones zero so_far place memory small ones = ap float.of_usize (omega arith)
    sum_of_ones (suc n) so_far place memory small ones =
        ap (λ x. sum_loop float n (place + 4) (float.add (float.of_usize so_far) x) memory)
          (ap memory {x = place} {y = place + 4 * 0} (omega arith) ∙ ones 0 (omega arith))
        ∙ ap (λ x. sum_loop float n (place + 4) x memory) (exact.add_one so_far (omega arith))
        ∙ sum_of_ones n (suc so_far) (place + 4) memory (omega arith)
            (λ i h. ap memory {y = place + 4 * suc i} (omega arith) ∙ ones (suc i) (omega arith))
        ∙ ap float.of_usize (omega arith)

    -- Of `n` ones the sum is `n`, for as many as a `f32` counts.
    pub sum_loop-fill_loop :
        (n place : ℕ) (memory : ℕ → F)
        → n ≤ 2 ^ 24
        → sum_loop float n place float.float_zero (fill_loop float n place memory)
          ≡ float.of_usize n
    sum_loop-fill_loop n place memory small =
        ap (λ x. sum_loop float n place x (fill_loop float n place memory)) exact.zero_is
        ∙ sum_of_ones n 0 place (fill_loop float n place memory) (omega arith)
            (λ i h. fill_there n i place memory h)
        ∙ ap float.of_usize (omega arith)
