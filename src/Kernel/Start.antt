-- ===== src/Kernel/Start.antt =====
-- crates/cell-baremetal/src/main.rs: `_start` up to the start of the application processor. A halt
-- is `none`.
use cell.Base.{
  ℕ, zero, suc, ◌+◌, ◌/◌, ◌==◌, Bool, true, false, not, ◌||◌, if◌then◌else◌, Option, none, some,
  List, [], ◌∷◌,
}
use cell.Core.Tensor.{DType, new_1d, new_chunk, as_mut_slice, freeze}
use cell.Queue
use cell.Pmm.{
  BitmapPmm, PhysicalFrame, EntryFields, address, checked_add, initialize, allocate, free,
}
use cell.Kernel.State.{tensor_elements, F32, waiting_ap, starting, Kernel, trace_context}

infixl 5 ◌>>=◌
abbrev pub ◌>>=◌ {ℓ κ} : {A : Type ℓ} {B : Type κ} → Option A → (A → Option B) → Option B
none >>= f = none
some a >>= f = f a

-- What the boot loader answers to the requests: the memory map, the offset of the direct map, and
-- the local APIC ids of the processors with that of the BSP.
pub record Responses (Entry : Type 0) : Type 0 where
  pub memory_map : Option (List Entry)
  pub hhdm : Option ℕ
  pub cpus : Option (List ℕ × ℕ)

-- `allocate_frame` or halt.
unfoldable pub allocated_or_halt :
    Option PhysicalFrame × BitmapPmm → Option (PhysicalFrame × BitmapPmm)
allocated_or_halt (none, pmm) = none
allocated_or_halt (some frame, pmm) = some (frame, pmm)

-- `free_frame` or halt.
unfoldable pub freed_or_halt : Bool × BitmapPmm → Option BitmapPmm
freed_or_halt (false, pmm) = none
freed_or_halt (true, pmm) = some pmm

-- Some processor is not the BSP.
unfoldable pub has_other_cpu : List ℕ → ℕ → Bool
has_other_cpu [] bsp_id = false
has_other_cpu (id ∷ ids) bsp_id = not (id == bsp_id) || has_other_cpu ids bsp_id

module _ {F : Type 0} (float : F32 F) where
  -- `for bytes in tensor.as_mut_slice().chunks_exact_mut(4) { bytes.copy_from_slice(&one) }`
  unfoldable pub fill_loop : ℕ → ℕ → (ℕ → F) → ℕ → F
  fill_loop zero place memory = memory
  fill_loop (suc left) place memory =
      fill_loop left (place + 4) (λ a. if a == place then float.float_one else memory a)

  -- The state before the two cores run, once the last queue is empty and no flag is set.
  unfoldable pub prepare :
      {Entry : Type 0}
      → EntryFields Entry
      → Responses Entry
      → BitmapPmm
      → (ℕ → F)
      → Option (Kernel F)
  prepare fields responses pmm memory = do
    entries ← responses.memory_map
    let (stats, booted) = initialize fields pmm entries
    (probe, probed) ← allocated_or_halt (allocate booted)
    returned ← freed_or_halt (free probed probe)
    offset ← responses.hhdm
    (frame, owned) ← allocated_or_halt (allocate returned)
    virtual ← checked_add offset (address frame)
    tensor ←
        new_chunk (trace_context 100) (address frame) virtual (new_1d tensor_elements) DType.f32
    let bytes = as_mut_slice tensor
    (ids, bsp_id) ← responses.cpus
    if has_other_cpu ids bsp_id
        then some (record {
          bsp = waiting_ap (freeze tensor);
          ap = starting;
          inter_core_queue = Queue.new 16;
          completion_queue = Queue.new 32;
          tensor_queue = Queue.new 2;
          ap_ready = false;
          ap_processed = 0;
          tensor_complete = false;
          tensor_sum_bits = 0;
          pmm = owned;
          memory = fill_loop (bytes.count / 4) bytes.start memory;
        })
        else none
