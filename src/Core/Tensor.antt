-- ===== src/Core/Tensor.antt =====
-- crates/cell-core/src/tensor.rs: tensor descriptors. The typestates `MutableState` and `Ready` are
-- two record types; a buffer is the address `virt_ptr` of its bytes.
pub mod Size
use cell.Base.{
  ℕ, zero, suc, ◌+◌, ◌*◌, ◌/◌, ◌%◌, ◌-◌, ◌≤◌, min, u64_mod, ltb, ◌==◌, ◌&&◌, if◌then◌else◌,
}
use cell.Base.{Option, none, some, List, [], ◌∷◌, get_elem?}
use cell.Core.{TraceContext}

pub data DType : Type 0 where
  f32 f16 bf16 i8 u8 : DType

unfoldable pub size_in_bytes : DType → ℕ
size_in_bytes DType.f32 = 4
size_in_bytes DType.f16 = 2
size_in_bytes DType.bf16 = 2
size_in_bytes DType.i8 = 1
size_in_bytes DType.u8 = 1

-- `dims : [usize; 4]` as a list.
pub record TensorShape : Type 0 where
  pub dims : List ℕ
  pub rank : ℕ

unfoldable pub new_1d : ℕ → TensorShape
new_1d len = record { dims = len ∷ 0 ∷ 0 ∷ 0 ∷ []; rank = 1 }

unfoldable pub new_2d : ℕ → ℕ → TensorShape
new_2d rows cols = record { dims = rows ∷ cols ∷ 0 ∷ 0 ∷ []; rank = 2 }

unfoldable pub new_3d : ℕ → ℕ → ℕ → TensorShape
new_3d batch sequence depth = record { dims = batch ∷ sequence ∷ depth ∷ 0 ∷ []; rank = 3 }

unfoldable pub new_4d : ℕ → ℕ → ℕ → ℕ → TensorShape
new_4d batch channels height width = record {
  dims = batch ∷ channels ∷ height ∷ width ∷ [];
  rank = 4;
}

-- `usize::saturating_mul`
abbrev pub saturating_mul : ℕ → ℕ → ℕ
saturating_mul a b = min (a * b) (u64_mod - 1)

-- The loop at `index` with `left` rounds to go; `none` is the panic of an index past the array.
pub total_loop : List ℕ → ℕ → ℕ → ℕ → Option ℕ
total_loop dims zero index total = some total
total_loop dims (suc left) index total = elim (get_elem? dims index) [
  | none ↦ none
  | some dim ↦ total_loop dims left (index + 1) (saturating_mul total dim)
]

unfoldable pub total_elements : TensorShape → Option ℕ
unfolding total_loop
total_elements shape = total_loop shape.dims shape.rank 0 1

pub record MutableChunk : Type 0 where
  pub context : TraceContext
  pub shape : TensorShape
  pub dtype : DType
  pub phys_addr : ℕ
  pub virt_ptr : ℕ
  pub byte_len : ℕ

pub record ReadyChunk : Type 0 where
  pub context : TraceContext
  pub shape : TensorShape
  pub dtype : DType
  pub phys_addr : ℕ
  pub virt_ptr : ℕ
  pub byte_len : ℕ

-- The multiplication is checked in the debug profile, in which the runner builds the kernel:
-- `none` is its overflow panic.
unfoldable pub new_chunk : TraceContext → ℕ → ℕ → TensorShape → DType → Option MutableChunk
new_chunk context phys_addr virt_ptr shape dtype = elim (total_elements shape) [
  | none ↦ none
  | some total ↦
      if ltb (total * size_in_bytes dtype) u64_mod
      then some (record {
        context = context;
        shape = shape;
        dtype = dtype;
        phys_addr = phys_addr;
        virt_ptr = virt_ptr;
        byte_len = total * size_in_bytes dtype;
      })
      else none
]

unfoldable pub freeze : MutableChunk → ReadyChunk
freeze c = record {
  context = c.context;
  shape = c.shape;
  dtype = c.dtype;
  phys_addr = c.phys_addr;
  virt_ptr = c.virt_ptr;
  byte_len = c.byte_len;
}

-- A slice is where it starts and how many elements it has.
pub record Slice : Type 0 where
  pub start : ℕ
  pub count : ℕ

unfoldable pub as_mut_slice : MutableChunk → Slice
as_mut_slice c = record { start = c.virt_ptr; count = c.byte_len }

-- `as_slice::<T>` for a type of the given size and alignment; `none` is a failed assertion.
unfoldable pub as_slice : ℕ → ℕ → ReadyChunk → Option Slice
as_slice size align c =
    if (size == size_in_bytes c.dtype) && (c.byte_len % size == 0) && (c.virt_ptr % align == 0)
    then some (record { start = c.virt_ptr; count = c.byte_len / size })
    else none

unfoldable pub deconstruct : ReadyChunk → TraceContext × ℕ
deconstruct c = (c.context, c.phys_addr)
