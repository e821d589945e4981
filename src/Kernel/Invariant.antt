-- ===== src/Kernel/Invariant.antt =====
-- Where the two cores of main.rs may stand together, and what the queues between them hold.
use cell.Base.{ℕ, suc, ◌-◌, ◌≤◌, ◌<◌, ◌≡◌, Bool, true, false, if◌then◌else◌, some, [], ◌∷◌}
use cell.Core.Tensor.{ReadyChunk, as_slice}
use cell.Queue.{SpscQueue}
use cell.Queue.Refine.{Holds}
use cell.Pmm.{BitmapPmm, PhysicalFrame, is_usable, is_allocated, from_address, free}
use cell.Pmm.Valid.{IsValid}
use cell.Kernel.{sum_loop}
use cell.Kernel.State.{
  tensor_elements, F32, Collected, Bsp, waiting_ap, sending, sending_tensor, waiting_tensor,
  collecting, batch_completed, invariant_failed, halted, Reduced, Ap, starting, working, answering,
  counting, reducing, storing, freeing, completing, done, stopped, Kernel,
}
use cell.Kernel.Views.{Carries}
use cell.Kernel.Packets.{packet_of, result_of, collected}

-- The packets that the BSP has sent, and the results that it has read.
abbrev pub sent_of : Bsp → ℕ
sent_of (waiting_ap t) = 0
sent_of (sending n t) = n - 1
sent_of _ = 10

abbrev pub read_of : Bsp → ℕ
read_of (collecting c) = c.reports
read_of (batch_completed c) = c.reports
read_of (invariant_failed c) = c.reports
read_of _ = 0

abbrev pub has_sent_tensor : Bsp → Bool
has_sent_tensor (waiting_ap t) = false
has_sent_tensor (sending n t) = false
has_sent_tensor (sending_tensor t) = false
has_sent_tensor _ = true

module _ {F : Type 0} where
  -- The packets that the AP has taken, and the results that it has sent, when it has counted `n`.
  abbrev pub taken_of : Ap F → ℕ → ℕ
  taken_of (answering r) n = suc n
  taken_of counting n = suc n
  taken_of _ n = n

  abbrev pub answered_of : Ap F → ℕ → ℕ
  answered_of counting n = suc n
  answered_of _ n = n

  abbrev pub has_started : Ap F → Bool
  has_started starting = false
  has_started _ = true

  abbrev pub has_tensor : Ap F → Bool
  has_tensor (storing r) = true
  has_tensor (freeing r) = true
  has_tensor (completing r b) = true
  has_tensor (done b) = true
  has_tensor _ = false

  abbrev pub has_stored : Ap F → Bool
  has_stored (freeing r) = true
  has_stored (completing r b) = true
  has_stored (done b) = true
  has_stored _ = false

  abbrev pub has_freed : Ap F → Bool
  has_freed (completing r b) = true
  has_freed (done b) = true
  has_freed _ = false

  abbrev pub is_done : Ap F → Bool
  is_done (done b) = true
  is_done _ = false

-- The queue of one tensor, by whether it has been sent and whether it has been received.
abbrev pub TensorAt : ReadyChunk → Bool → Bool → SpscQueue ReadyChunk → Type 0
TensorAt tensor false false q = Holds 2 0 q []
TensorAt tensor true false q = Holds 2 0 q (tensor ∷ [])
TensorAt tensor true true q = Holds 2 1 q []
TensorAt tensor false true q = ⊥

-- The BSP has counted the first results, in their order.
abbrev pub CollectedAt : Collected → Type 0
CollectedAt c = (c ≡ collected c.reports) × (c.reports ≤ 10)

abbrev pub BspAt : ReadyChunk → Bsp → Bool → Type 0
BspAt tensor (waiting_ap t) ap_done = t ≡ tensor
BspAt tensor (sending n t) ap_done = (t ≡ tensor) × (1 ≤ n) × (n ≤ 11)
BspAt tensor (sending_tensor t) ap_done = t ≡ tensor
BspAt tensor waiting_tensor ap_done = Unit {0}
BspAt tensor (collecting c) ap_done = CollectedAt c × (ap_done ≡ true)
BspAt tensor (batch_completed c) ap_done = (c ≡ collected 10) × (ap_done ≡ true)
BspAt tensor (invariant_failed c) ap_done = ⊥
BspAt tensor halted ap_done = ⊥

module _ {F : Type 0} (float : F32 F) (tensor : ReadyChunk) (frame : PhysicalFrame)
    (pmm : BitmapPmm) (memory : ℕ → F) where
  -- What `_start` has prepared: a tensor of ones in a frame that it owns.
  pub record IsPrepared : Type 0 where
    pub slice :
        as_slice 4 4 tensor ≡ some (record { start = tensor.virt_ptr; count = tensor_elements })
    pub phys : from_address tensor.phys_addr ≡ frame
    pub summed :
        sum_loop float tensor_elements tensor.virt_ptr float.float_zero memory
        ≡ float.of_usize tensor_elements
    pub exact : float.eq (float.of_usize tensor_elements) (float.of_usize tensor_elements) ≡ true
    pub valid : IsValid pmm
    pub usable : is_usable pmm frame.number ≡ true
    pub held : is_allocated pmm frame.number ≡ true

  abbrev pub found : Reduced F
  found = record {
    context = tensor.context;
    phys_addr = tensor.phys_addr;
    sum = float.of_usize tensor_elements;
  }

  abbrev pub ApAt : Ap F → ℕ → Type 0
  ApAt starting n = n ≡ 0
  ApAt working n = n ≤ 10
  ApAt (answering r) n = (n < 10) × (r ≡ result_of (suc n))
  ApAt counting n = n < 10
  ApAt reducing n = n ≡ 10
  ApAt (storing r) n = (n ≡ 10) × (r ≡ found)
  ApAt (freeing r) n = (n ≡ 10) × (r ≡ found)
  ApAt (completing r b) n = (n ≡ 10) × (r ≡ found) × (b ≡ true)
  ApAt (done b) n = (n ≡ 10) × (b ≡ true)
  ApAt stopped n = ⊥

  -- The kernel with its cores at these places.
  pub record IsAt (bsp : Bsp) (ap : Ap F) (k : Kernel F) : Type 0 where
    pub bsp_at : BspAt tensor bsp (is_done ap)
    pub ap_at : ApAt ap k.ap_processed
    pub packets : Carries packet_of 16 k.inter_core_queue (taken_of ap k.ap_processed) (sent_of bsp)
    pub results :
        Carries result_of 32 k.completion_queue (read_of bsp) (answered_of ap k.ap_processed)
    pub tensors : TensorAt tensor (has_sent_tensor bsp) (has_tensor ap) k.tensor_queue
    pub ready : k.ap_ready ≡ has_started ap
    pub complete : k.tensor_complete ≡ is_done ap
    pub stored :
        k.tensor_sum_bits
        ≡ (if has_stored ap then float.to_bits (float.of_usize tensor_elements) else 0)
    pub frames : k.pmm ≡ (if has_freed ap then (free pmm frame).1 else pmm)
    pub kept : k.memory ≡ memory

  abbrev pub IsRunning : Kernel F → Type 0
  IsRunning k = IsAt k.bsp k.ap k
