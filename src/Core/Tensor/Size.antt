-- ===== src/Core/Tensor/Size.antt =====
-- The number of elements and of bytes of a tensor.
use cell.Base.{ℕ, zero, suc, ◌+◌, ◌*◌, ◌%◌, ◌-◌, ◌≤◌, ◌<◌, min, ◌≡◌, refl, ap, ◌∙◌, arith, u64_mod}
use cell.Base.{none, some, List, [], ◌∷◌, length, take, drop, get_elem?}
use native.Mathlib.Nat.{mul-mod_left, mul-div_cancel, mul_assoc}
use native.Mathlib.Decide.{dec_le, dec_lt}
use cell.Core.{TraceContext}
use cell.Core.Tensor.{
  DType, size_in_bytes, TensorShape, saturating_mul, total_loop, total_elements, new_chunk,
  MutableChunk, freeze, as_slice, as_mut_slice, deconstruct,
}

abbrev pub product : List ℕ → ℕ
product [] = 1
product (x ∷ xs) = x * product xs

abbrev pub max_usize : ℕ
max_usize = u64_mod - 1

-- A saturated factor gives the saturated product.
saturating_mul-min : (t d : ℕ) → saturating_mul (min t max_usize) d ≡ min (t * d) max_usize
saturating_mul-min t zero = omega arith
saturating_mul-min t (suc d) = elim (dec_le t max_usize) [
  | yes small ↦ ap (λ (k : ℕ). min (k * suc d) max_usize) (omega arith)
  | no big ↦ ground arith
]

size_in_bytes-pos : (dtype : DType) → 0 < size_in_bytes dtype
unfolding size_in_bytes
size_in_bytes-pos dtype = ground arith

get_elem?-drop {ℓ} :
    {A : Type ℓ} (xs : List A) (i : ℕ)
    → i < length xs
    → (x : A) × (get_elem? xs i ≡ some x) × (drop i xs ≡ x ∷ drop (suc i) xs)
get_elem?-drop [] i h = absurd (omega arith)
get_elem?-drop (x ∷ xs) zero h = (x, refl, refl)
get_elem?-drop (x ∷ xs) (suc i) h = get_elem?-drop xs i (omega arith)

get_elem?-none {ℓ} : {A : Type ℓ} (xs : List A) (i : ℕ) → length xs ≤ i → get_elem? xs i ≡ none
get_elem?-none [] i h = refl
get_elem?-none (x ∷ xs) zero h = absurd (omega arith)
get_elem?-none (x ∷ xs) (suc i) h = get_elem?-none xs i (omega arith)

module _ (dims : List ℕ) where
  total_loop-step :
      (left index total d : ℕ)
      → get_elem? dims index ≡ some d
      → total_loop dims (suc left) index total
        ≡ total_loop dims left (suc index) (saturating_mul total d)
  unfolding total_loop
  total_loop-step left index total d there =
      rw (there, total_loop)
        (ap (λ (k : ℕ). total_loop dims left k (saturating_mul total d)) (omega arith))

  total_loop-product :
      (left index t : ℕ)
      → index + left ≤ length dims
      → total_loop dims left index (min t max_usize)
        ≡ some (min (t * product (take left (drop index dims))) max_usize)
  total_loop-product zero index t h =
      unfold total_loop in ap (λ (k : ℕ). some (min k max_usize)) {y = t * 1} (omega arith)
  total_loop-product (suc left) index t h =
      let (d, there, split) = get_elem?-drop dims index (omega arith) in
      total_loop-step left index (min t max_usize) d there
      ∙ ap (total_loop dims left (suc index)) (saturating_mul-min t d)
      ∙ total_loop-product left (suc index) (t * d) (omega arith)
      ∙ rw split (ap (λ (k : ℕ). some (min k max_usize)) (mul_assoc t d _))

  total_loop-none :
      (left index total : ℕ)
      → index ≤ length dims
      → length dims < index + left
      → total_loop dims left index total ≡ none
  total_loop-none zero index total at h = absurd (omega arith)
  total_loop-none (suc left) index total at h = elim (dec_lt index (length dims)) [
    | yes less ↦
        let (d, there, split) = get_elem?-drop dims index less in
        total_loop-step left index total d there
        ∙ total_loop-none left (suc index) (saturating_mul total d) (omega arith) (omega arith)
    | no past ↦ unfold total_loop in rw (get_elem?-none dims index (omega arith), total_loop) refl
  ]

-- The product of the first `rank` dimensions, saturated; an index panic if there are fewer.
pub total_elements_lem :
    (shape : TensorShape)
    → (shape.rank ≤ length shape.dims
        → total_elements shape ≡ some (min (product (take shape.rank shape.dims)) max_usize))
      × (length shape.dims < shape.rank → total_elements shape ≡ none)
unfolding total_elements
total_elements_lem shape = (
  λ fits.
      total_loop-product shape.dims shape.rank 0 1 (omega arith)
      ∙ ap (λ (k : ℕ). some (min k max_usize)) (omega arith),
  λ short. total_loop-none shape.dims shape.rank 0 1 (omega arith) (omega arith),
)

-- A chunk whose byte length fits in 64 bits and whose address is aligned, once created and frozen,
-- reads back, as elements of its own type, as the
-- whole buffer where it was: as many elements as its shape has. Deconstruction returns the
-- frame and the trace that it was created with.
pub as_slice-freeze :
    (context : TraceContext) (phys virt align n : ℕ) (shape : TensorShape) (dtype : DType)
    → total_elements shape ≡ some n
    → n * size_in_bytes dtype < u64_mod
    → virt % align ≡ 0
    → (c : MutableChunk) × (new_chunk context phys virt shape dtype ≡ some c)
      × (as_mut_slice c ≡ record { start = virt; count = n * size_in_bytes dtype })
      × (as_slice (size_in_bytes dtype) align (freeze c)
          ≡ some (record { start = virt; count = n }))
      × (deconstruct (freeze c) ≡ (context, phys))
unfolding new_chunk as_slice freeze deconstruct as_mut_slice
as_slice-freeze context phys virt align n shape dtype total small aligned = (
  record {
    context = context;
    shape = shape;
    dtype = dtype;
    phys_addr = phys;
    virt_ptr = virt;
    byte_len = n * size_in_bytes dtype;
  },
  ground (arith, total),
  refl,
  ground (
    arith,
    mul-mod_left n (size_in_bytes dtype),
    mul-div_cancel n (size_in_bytes-pos dtype),
    aligned,
  ),
  refl,
)
