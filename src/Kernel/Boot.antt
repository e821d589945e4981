-- ===== src/Kernel/Boot.antt =====
-- `_start` of main.rs on a machine with a free frame and a second processor: it prepares the cores.
use cell.Base.{
  ℕ, ◌+◌, ◌%◌, ◌^◌, ◌<◌, ◌≡◌, refl, sym, ◌∙◌, subst, arith, Bool, true, false, u64_mod, lt→ltb,
  Option, none, some, List,
}
use cell.Core.Tensor.{
  DType, new_1d, new_chunk, as_mut_slice, freeze, as_slice, total_elements, size_in_bytes,
  MutableChunk, ReadyChunk,
}
use cell.Queue
use cell.Queue.Refine.{new-Holds}
use cell.Pmm.{
  BitmapPmm, PhysicalFrame, EntryFields, max_frames, address, checked_add, initialize, allocate,
  free,
}
use cell.Pmm.Valid.{IsValid, is_free, usable-lt}
use cell.Pmm.Count.{count_pos}
use cell.Pmm.Boot.{IsCovered, initialize_lem}
use cell.Pmm.Cycle.{
  Agrees, Agrees-trans, free-allocate, free-allocate-IsValid, allocate-held, allocate-some,
  from_address-address, address-lt, address-aligned,
}
use cell.Kernel.State.{tensor_elements, F32, waiting_ap, starting, Kernel, trace_context}
use cell.Kernel.Start.{
  Responses, allocated_or_halt, freed_or_halt, has_other_cpu, fill_loop, prepare,
}
use cell.Kernel.Sum.{IsExact, sum_loop-fill_loop}
use cell.Kernel.Views.{segment}
use cell.Kernel.Invariant.{IsRunning, IsPrepared}
use cell.Kernel.Measure.{left}

-- A machine that answers: some frame below 4 GiB lies whole in usable memory, the direct map starts
-- at a page and has room for 4 GiB, and there is a processor beside the BSP.
pub record IsMachine {Entry : Type 0} (fields : EntryFields Entry) (responses : Responses Entry)
    : Type 0 where
  pub entries : List Entry
  pub map_is : responses.memory_map ≡ some entries
  pub frame : ℕ
  pub covered : IsCovered fields entries frame
  pub offset : ℕ
  pub hhdm_is : responses.hhdm ≡ some offset
  pub aligned : offset % 4096 ≡ 0
  pub room : offset + 2 ^ 32 < u64_mod
  pub ids : List ℕ
  pub bsp_id : ℕ
  pub cpus_is : responses.cpus ≡ some (ids, bsp_id)
  pub other : has_other_cpu ids bsp_id ≡ true

module _ {F : Type 0} (float : F32 F) where
  abbrev pub tensor_at : ℕ → ℕ → MutableChunk
  tensor_at phys virtual = record {
    context = trace_context 100;
    shape = new_1d tensor_elements;
    dtype = DType.f32;
    phys_addr = phys;
    virt_ptr = virtual;
    byte_len = 4096;
  }

  new_tensor :
      (phys virtual : ℕ)
      → new_chunk (trace_context 100) phys virtual (new_1d tensor_elements) DType.f32
        ≡ some (tensor_at phys virtual)
  unfolding new_chunk total_elements new_1d size_in_bytes
  new_tensor phys virtual = refl

  tensor_slice :
      (phys virtual : ℕ)
      → virtual % 4 ≡ 0
      → as_slice 4 4 (freeze (tensor_at phys virtual))
        ≡ some (record { start = virtual; count = tensor_elements })
  unfolding as_slice freeze size_in_bytes
  tensor_slice phys virtual aligned = ground arith

  -- The state that `prepare` ends in.
  abbrev prepared_at : ℕ → ℕ → BitmapPmm → (ℕ → F) → Kernel F
  prepared_at phys virtual pmm memory = record {
    bsp = waiting_ap (freeze (tensor_at phys virtual));
    ap = starting;
    inter_core_queue = Queue.new 16;
    completion_queue = Queue.new 32;
    tensor_queue = Queue.new 2;
    ap_ready = false;
    ap_processed = 0;
    tensor_complete = false;
    tensor_sum_bits = 0;
    pmm = pmm;
    memory = fill_loop float 1024 virtual memory;
  }

  prepared_IsRunning :
      (tensor : ReadyChunk) (frame : PhysicalFrame) (pmm : BitmapPmm) (memory : ℕ → F)
      (k : Kernel F)
      → k ≡ record {
        bsp = waiting_ap tensor;
        ap = starting;
        inter_core_queue = Queue.new 16;
        completion_queue = Queue.new 32;
        tensor_queue = Queue.new 2;
        ap_ready = false;
        ap_processed = 0;
        tensor_complete = false;
        tensor_sum_bits = 0;
        pmm = pmm;
        memory = memory;
      }
      → IsRunning float tensor frame pmm memory k × (left k ≡ 62)
  unfolding segment
  prepared_IsRunning tensor frame pmm memory k e =
      subst (λ x. IsRunning float tensor frame pmm memory x × (left x ≡ 62)) (sym e)
        (
          record {
            bsp_at = refl;
            ap_at = refl;
            packets = (omega arith, new-Holds 16 (omega arith) (omega arith));
            results = (omega arith, new-Holds 32 (omega arith) (omega arith));
            tensors = new-Holds 2 (omega arith) (omega arith);
            ready = refl;
            complete = refl;
            stored = refl;
            frames = refl;
            kept = refl;
          },
          refl,
        )

allocated_or_halt_lem :
    (r : Option PhysicalFrame × BitmapPmm) (frame : PhysicalFrame)
    → r.0 ≡ some frame
    → allocated_or_halt r ≡ some (frame, r.1)
unfolding allocated_or_halt
allocated_or_halt_lem (none, pmm) frame e = absurd (cc (e))
allocated_or_halt_lem (some f, pmm) frame e = cc (e)

freed_or_halt_lem : (r : Bool × BitmapPmm) → r.0 ≡ true → freed_or_halt r ≡ some r.1
unfolding freed_or_halt
freed_or_halt_lem (true, pmm) e = refl
freed_or_halt_lem (false, pmm) e = absurd (cc (e))

checked_add_lem : (a b : ℕ) → a + b < u64_mod → checked_add a b ≡ some (a + b)
unfolding checked_add
checked_add_lem a b h = simp (lt→ltb (a + b) u64_mod h)

module _ {F : Type 0} (float : F32 F) (exact : IsExact float) {Entry : Type 0}
    (fields : EntryFields Entry) (responses : Responses Entry) (pmm : BitmapPmm) (memory : ℕ → F)
    (machine : IsMachine fields responses) where
  abbrev pub booted : BitmapPmm
  booted = (initialize fields pmm machine.entries).1

  pub booted-IsValid : IsValid booted
  booted-IsValid = (initialize_lem fields pmm machine.entries).0

  pub some_free : 0 < booted.free_frames
  some_free =
      let (v, covered, all_free, counted, same) = initialize_lem fields pmm machine.entries in
      let usable = (covered machine.frame).1 machine.covered in
      omega (
        arith,
        v.free_count,
        count_pos max_frames machine.frame (is_free booted) (usable-lt booted machine.frame usable)
            (all_free machine.frame ∙ usable),
      )

  abbrev pub probe : PhysicalFrame
  probe = (allocate-some booted booted-IsValid some_free).0

  pub probe_is : (allocate booted).0 ≡ some probe
  probe_is = (allocate-some booted booted-IsValid some_free).1

  abbrev pub returned : BitmapPmm
  returned = (free (allocate booted).1 probe).1

  pub returned-IsValid : IsValid returned
  returned-IsValid = free-allocate-IsValid booted probe booted-IsValid probe_is

  pub probe_cycle : ((free (allocate booted).1 probe).0 ≡ true) × Agrees booted returned
  probe_cycle = free-allocate booted probe booted-IsValid probe_is

  pub still_free : 0 < returned.free_frames
  still_free = omega (arith, some_free, probe_cycle.1.free_frames_same)

  abbrev pub frame : PhysicalFrame
  frame = (allocate-some returned returned-IsValid still_free).0

  frame_is : (allocate returned).0 ≡ some frame
  frame_is = (allocate-some returned returned-IsValid still_free).1

  abbrev pub owned : BitmapPmm
  owned = (allocate returned).1

  abbrev pub virtual : ℕ
  virtual = machine.offset + address frame

  low_address : address frame < 2 ^ 32
  low_address = address-lt frame (allocate-held returned frame returned-IsValid frame_is).1

  prepare-is :
      prepare float fields responses pmm memory
      ≡ some (prepared_at float (address frame) virtual owned memory)
  unfolding prepare as_mut_slice
  prepare-is = simp (
    machine.map_is,
    allocated_or_halt_lem (allocate booted) probe probe_is,
    freed_or_halt_lem (free (allocate booted).1 probe) probe_cycle.0,
    machine.hhdm_is,
    allocated_or_halt_lem (allocate returned) frame frame_is,
    checked_add_lem machine.offset (address frame) (omega (arith, machine.room, low_address)),
    new_tensor float (address frame) virtual,
    machine.cpus_is,
    machine.other,
  )

  abbrev pub tensor : ReadyChunk
  tensor = freeze (tensor_at float (address frame) virtual)

  prepared-IsPrepared : IsPrepared float tensor frame owned (fill_loop float 1024 virtual memory)
  unfolding freeze
  prepared-IsPrepared =
      let (v, inside, used, held) = allocate-held returned frame returned-IsValid frame_is in
      record {
        slice =
            tensor_slice float (address frame) virtual
              (omega (arith, machine.aligned, address-aligned frame inside));
        phys = (from_address-address frame inside).0;
        summed = sum_loop-fill_loop float exact tensor_elements virtual memory (omega arith);
        exact = exact.eq_self tensor_elements (omega arith);
        valid = v;
        usable = used;
        held = held;
      }

  -- The state that the cores start from.
  pub cores_start :
      (k : Kernel F) × (prepare float fields responses pmm memory ≡ some k)
      × IsPrepared float tensor frame owned (fill_loop float 1024 virtual memory)
      × IsRunning float tensor frame owned (fill_loop float 1024 virtual memory) k
      × (left k ≡ 62)
      × Agrees booted (free owned frame).1
  cores_start =
      let k = prepared_at float (address frame) virtual owned memory in
      let (running, moves) =
        prepared_IsRunning float tensor frame owned (fill_loop float 1024 virtual memory) k refl in
      (
        k,
        prepare-is,
        prepared-IsPrepared,
        running,
        moves,
        Agrees-trans probe_cycle.1 (free-allocate returned frame returned-IsValid frame_is).1,
      )
