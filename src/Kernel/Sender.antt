-- ===== src/Kernel/Sender.antt =====
-- The moves of the BSP in main.rs that send, which keep the two cores in step; each brings it
-- forward or waits.
use cell.Base.{
  ℕ, suc, ◌+◌, ◌-◌, ◌<◌, ◌≡◌, ◌⊎◌, inl, inr, refl, sym, subst, arith, true, false, ltb, [], ◌∷◌,
  Bool-cases, lt→ltb,
}
use cell.Core.Tensor.{ReadyChunk}
use cell.Queue.{SpscQueue, publish}
use cell.Queue.Refine.{Holds}
use cell.Pmm.{BitmapPmm, PhysicalFrame}
use cell.Kernel.{bsp_move, send_packet, sent_packet, sent_tensor}
use cell.Kernel.State.{
  packet_count, F32, Bsp, waiting_ap, sending, sending_tensor, waiting_tensor, Ap, Kernel,
}
use cell.Kernel.Views.{Carries, push-Carries, push_room}
use cell.Kernel.Packets.{packet_of, raw_payload-packet_of}
use cell.Kernel.Invariant.{
  sent_of, read_of, has_sent_tensor, taken_of, is_done, has_tensor, TensorAt, BspAt, IsAt,
  IsRunning,
}
use cell.Kernel.Measure.{bsp_left, ap_left, left, BspWaits}

module _ {F : Type 0} (float : F32 F) (tensor : ReadyChunk) (frame : PhysicalFrame)
    (pmm : BitmapPmm) (memory : ℕ → F) where
  abbrev At : Bsp → Ap F → Kernel F → Type 0
  At = IsAt float tensor frame pmm memory

  abbrev Running : Kernel F → Type 0
  Running = IsRunning float tensor frame pmm memory

  -- A move of the BSP from one of its places.
  abbrev pub BspMoved : Bsp → Kernel F → Type 0
  BspMoved b k =
      (Running (bsp_move float b k)
        × (left (bsp_move float b k) < bsp_left b + ap_left k.ap k.ap_processed))
      ⊎ ((bsp_move float b k ≡ k) × BspWaits b k)

  -- A change of place alone, between places that have sent and read as much.
  pub turn :
      {b : Bsp} {k : Kernel F} (b' : Bsp)
      → At b k.ap k
      → BspAt tensor b' (is_done k.ap)
      → sent_of b' ≡ sent_of b
      → read_of b' ≡ read_of b
      → has_sent_tensor b' ≡ has_sent_tensor b
      → Running (record k { bsp = b' })
  turn b' i here sent read sent_tensor = record {
    bsp_at = here;
    ap_at = i.ap_at;
    packets = rw sent i.packets;
    results = rw read i.results;
    tensors = rw sent_tensor i.tensors;
    ready = i.ready;
    complete = i.complete;
    stored = i.stored;
    frames = i.frames;
    kept = i.kept;
  }

  pub went :
      (b : Bsp) (k k' : Kernel F)
      → bsp_move float b k ≡ k'
      → Running k'
      → left k' < bsp_left b + ap_left k.ap k.ap_processed
      → BspMoved b k
  went b k k' e r less = inl (
      subst (λ k''. Running k'' × (left k'' < bsp_left b + ap_left k.ap k.ap_processed)) (sym e)
        (r, less))

  pub bsp_waiting_ap :
      (t : ReadyChunk) (k : Kernel F) → At (waiting_ap t) k.ap k → BspMoved (waiting_ap t) k
  bsp_waiting_ap t k i = elim (Bool-cases k.ap_ready) [
    | inl ready ↦
        went (waiting_ap t) k (record k { bsp = sending 1 t }) (unfold bsp_move in simp (ready))
          (turn (sending 1 t) i (i.bsp_at, omega arith, omega arith) refl refl refl) (omega arith)
    | inr not_ready ↦ inr (unfold bsp_move in simp (not_ready), not_ready)
  ]

  pub bsp_sending_last :
      (n : ℕ) (t : ReadyChunk) (k : Kernel F)
      → At (sending n t) k.ap k
      → 10 < n
      → BspMoved (sending n t) k
  bsp_sending_last n t k i last =
      let (same, low, high) = i.bsp_at in
      went (sending n t) k (record k { bsp = sending_tensor t })
        (unfold bsp_move in simp (lt→ltb packet_count n last))
        (turn (sending_tensor t) i same (omega arith) refl refl) (omega arith)

  pub bsp_sending_packet :
      (n : ℕ) (t : ReadyChunk) (k : Kernel F)
      → At (sending (suc n) t) k.ap k
      → n < 10
      → BspMoved (sending (suc n) t) k
  bsp_sending_packet n t k i more =
      let (same, low, high) = i.bsp_at in
      let sent : suc n - 1 ≡ n = omega arith in
      let (accepted, packets) =
        push-Carries packet_of 16 refl
          (subst (Carries packet_of 16 k.inter_core_queue (taken_of k.ap k.ap_processed)) sent
            i.packets)
          (omega arith) in
      went (sending (suc n) t) k
        (record k {
          bsp = sending (suc n + 1) t;
          inter_core_queue = publish 16 k.inter_core_queue (packet_of (suc n));
        })
        (unfold bsp_move send_packet sent_packet in
          simp (not_last n more, raw_payload-packet_of, accepted))
        (record {
          bsp_at = (same, omega arith, omega arith);
          ap_at = i.ap_at;
          packets =
              subst (Carries packet_of 16 _ (taken_of k.ap k.ap_processed)) (omega arith) packets;
          results = i.results;
          tensors = i.tensors;
          ready = i.ready;
          complete = i.complete;
          stored = i.stored;
          frames = i.frames;
          kept = i.kept;
        })
        (omega arith)
    where
      not_last : (m : ℕ) → m < 10 → ltb packet_count (suc m) ≡ false
      not_last m h = ground arith

  pub bsp_sending_tensor :
      (t : ReadyChunk) (k : Kernel F) → At (sending_tensor t) k.ap k → BspMoved (sending_tensor t) k
  bsp_sending_tensor t k i =
      let empty = not_received k.ap k.tensor_queue i.tensors in
      let (accepted, holds) = push_room 2 refl t empty.1 (omega arith) in
      went (sending_tensor t) k
        (record k { bsp = waiting_tensor; tensor_queue = publish 2 k.tensor_queue t })
        (unfold bsp_move sent_tensor in simp (accepted))
        (record {
          bsp_at = tt;
          ap_at = i.ap_at;
          packets = i.packets;
          results = i.results;
          tensors =
              subst (λ received. TensorAt tensor true received (publish 2 k.tensor_queue t))
                (sym empty.0)
                (subst (λ c. Holds 2 0 (publish 2 k.tensor_queue t) (c ∷ [])) i.bsp_at holds);
          ready = i.ready;
          complete = i.complete;
          stored = i.stored;
          frames = i.frames;
          kept = i.kept;
        })
        (omega arith)
    where
      not_received :
          (a : Ap F) (q : SpscQueue ReadyChunk)
          → TensorAt tensor false (has_tensor a) q
          → (has_tensor a ≡ false) × Holds 2 0 q []
      not_received a q at = elim (Bool-cases (has_tensor a)) [
        | inl received ↦ absurd (subst (λ b. TensorAt tensor false b q) received at)
        | inr waiting ↦ (waiting, subst (λ b. TensorAt tensor false b q) waiting at)
      ]
