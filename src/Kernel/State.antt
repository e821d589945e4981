-- ===== src/Kernel/State.antt =====
-- crates/cell-baremetal/src/main.rs: what the two cores of the kernel work on, and where they stand.
use cell.Base.{ℕ, ◌+◌, Bool, ◌&&◌, ◌==◌, if◌then◌else◌, List, [], ◌∷◌}
use cell.Core.{
  TraceContext, WorkResult, completed, failed, RawPayload, ValidatorCapability, is_empty, validate,
}
use cell.Core.Tensor.{ReadyChunk}
use cell.Queue.{SpscQueue}
use cell.Supervisor.{Supervisor, observe, failure_count}
use cell.Pmm.{BitmapPmm}

abbrev pub packet_count : ℕ
packet_count = 10

abbrev pub tensor_elements : ℕ
tensor_elements = 1024

-- The operations of `f32` that the code uses.
pub record F32 (F : Type 0) : Type 0 where
  pub float_zero : F
  pub float_one : F
  pub add : F → F → F
  pub of_usize : ℕ → F
  pub to_bits : F → ℕ
  pub eq : F → F → Bool

-- What the BSP has counted of the completions.
pub record Collected : Type 0 where
  pub reports : ℕ
  pub succeeded : ℕ
  pub failures : ℕ
  pub supervisor : Supervisor

-- Where the BSP stands. `batch_completed` and `invariant_failed` are the two last messages, and
-- `halted` any earlier halt or panic.
pub data Bsp : Type 0 where
  waiting_ap : ReadyChunk → Bsp
  sending : ℕ → ReadyChunk → Bsp
  sending_tensor : ReadyChunk → Bsp
  waiting_tensor : Bsp
  collecting : Collected → Bsp
  batch_completed invariant_failed : Collected → Bsp
  halted : Bsp

-- What the AP has found of the tensor.
pub record Reduced (F : Type 0) : Type 0 where
  pub context : TraceContext
  pub phys_addr : ℕ
  pub sum : F

-- Where the AP stands, the loops' tests and the shared accesses apart. `done` has the test by which
-- it chose its last message; `stopped` is a panic.
pub data Ap (F : Type 0) : Type 0 where
  starting working : Ap F
  answering : WorkResult → Ap F
  counting : Ap F
  reducing : Ap F
  storing freeing : Reduced F → Ap F
  completing : Reduced F → Bool → Ap F
  done : Bool → Ap F
  stopped : Ap F

pub record Kernel (F : Type 0) : Type 0 where
  pub bsp : Bsp
  pub ap : Ap F
  pub inter_core_queue : SpscQueue RawPayload
  pub completion_queue : SpscQueue WorkResult
  pub tensor_queue : SpscQueue ReadyChunk
  pub ap_ready : Bool
  pub ap_processed : ℕ
  pub tensor_complete : Bool
  pub tensor_sum_bits : ℕ
  pub pmm : BitmapPmm
  -- the numbers in memory, by the address of their four bytes
  pub memory : ℕ → F

abbrev pub trace_context : ℕ → TraceContext
trace_context trace_id = record { trace_id = trace_id; timestamp = trace_id; origin_node = 0 }

-- `b"CELL data"`
abbrev pub cell_data : List ℕ
cell_data = b'C' ∷ b'E' ∷ b'L' ∷ b'L' ∷ b' ' ∷ b'd' ∷ b'a' ∷ b't' ∷ b'a' ∷ []

unfoldable pub payload_of : ℕ → List ℕ
payload_of trace_id = if trace_id == 4 then [] else cell_data

abbrev pub ap_verifier : ValidatorCapability
ap_verifier = record { token = 0xCE112021 }

-- What the AP makes of a packet.
unfoldable pub process : RawPayload → WorkResult
process raw =
    if is_empty raw
    then failed raw.context 1 "Corrupted payload in AP1"
    else completed (validate raw ap_verifier).context

unfoldable pub collect : Collected → WorkResult → Collected
collect c (completed context) = record c { reports = c.reports + 1; succeeded = c.succeeded + 1 }
collect c (failed context node_id reason) = record c {
  reports = c.reports + 1;
  failures = c.failures + 1;
  supervisor = (observe packet_count c.supervisor (failed context node_id reason)).1;
}

-- The test of the last message.
unfoldable pub finish : Collected → Bsp
finish c =
    if (c.succeeded == 9) && (c.failures == 1) && (failure_count c.supervisor == 1)
    then batch_completed c
    else invariant_failed c

pub data Core : Type 0 where
  bsp_core ap_core : Core
