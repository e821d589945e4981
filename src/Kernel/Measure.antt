-- ===== src/Kernel/Measure.antt =====
-- How far the two cores of main.rs are from the end of the batch, and where a core waits.
use cell.Base.{ℕ, ◌+◌, ◌-◌, ◌*◌, ◌<◌, ◌≡◌, false}
use cell.Kernel.State.{
  Bsp, waiting_ap, sending, sending_tensor, waiting_tensor, collecting, batch_completed, Ap,
  starting, working, answering, counting, reducing, storing, freeing, completing, done, Kernel,
}
use cell.Kernel.Invariant.{sent_of, has_sent_tensor}

-- The moves that a core has left, at most.
abbrev pub bsp_left : Bsp → ℕ
bsp_left (waiting_ap t) = 26
bsp_left (sending n t) = 25 - n
bsp_left (sending_tensor t) = 13
bsp_left waiting_tensor = 12
bsp_left (collecting c) = 11 - c.reports
bsp_left _ = 0

abbrev pub ap_left : {F : Type 0} → Ap F → ℕ → ℕ
ap_left starting n = 36
ap_left working n = 5 + 3 * (10 - n)
ap_left (answering r) n = 4 + 3 * (10 - n)
ap_left counting n = 3 + 3 * (10 - n)
ap_left reducing n = 4
ap_left (storing r) n = 3
ap_left (freeing r) n = 2
ap_left (completing r b) n = 1
ap_left _ n = 0

abbrev pub left : {F : Type 0} → Kernel F → ℕ
left k = bsp_left k.bsp + ap_left k.ap k.ap_processed

-- The BSP spins, or has ended its batch.
abbrev pub BspWaits : {F : Type 0} → Bsp → Kernel F → Type 0
BspWaits (waiting_ap t) k = k.ap_ready ≡ false
BspWaits waiting_tensor k = k.tensor_complete ≡ false
BspWaits (batch_completed c) k = Unit {0}
BspWaits _ k = ⊥

-- The AP spins, since there is nothing in its queue, or has ended.
abbrev pub ApWaits : {F : Type 0} → Ap F → Kernel F → Type 0
ApWaits working k = (k.ap_processed < 10) × (sent_of k.bsp ≡ k.ap_processed)
ApWaits reducing k = has_sent_tensor k.bsp ≡ false
ApWaits (done b) k = Unit {0}
ApWaits _ k = ⊥
