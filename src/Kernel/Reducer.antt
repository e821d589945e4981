-- ===== src/Kernel/Reducer.antt =====
-- The moves of the AP in main.rs from its count of the packets on, and all of them together.
use cell.Base.{
  ℕ, suc, ◌+◌, ◌≡◌, inl, inr, refl, sym, ap, ◌∙◌, subst, arith, Bool, true, false, ◌&&◌, Bool-cases,
}
use cell.Core.Tensor.{ReadyChunk, deconstruct}
use cell.Queue.Refine.{popped, pop_empty}
use cell.Pmm.{BitmapPmm, PhysicalFrame, free, from_address}
use cell.Pmm.Release.{free_lem}
use cell.Kernel.{ap_move, got_tensor, reduce}
use cell.Kernel.State.{
  tensor_elements, F32, Reduced, Bsp, waiting_ap, sending, sending_tensor, waiting_tensor,
  collecting, batch_completed, invariant_failed, halted, Ap, starting, working, answering, counting,
  reducing, storing, freeing, completing, done, stopped, Kernel,
}
use cell.Kernel.Views.{Carries, pop-some}
use cell.Kernel.Packets.{packet_of, result_of}
use cell.Kernel.Invariant.{
  sent_of, read_of, has_sent_tensor, TensorAt, BspAt, ApAt, IsAt, IsRunning, IsPrepared, found,
}
use cell.Kernel.Worker.{ApMoved, went, ap_starting, ap_working, ap_answering}

module _ {F : Type 0} (float : F32 F) (tensor : ReadyChunk) (frame : PhysicalFrame)
    (pmm : BitmapPmm) (memory : ℕ → F) (prepared : IsPrepared float tensor frame pmm memory) where
  abbrev At : Bsp → Ap F → Kernel F → Type 0
  At = IsAt float tensor frame pmm memory

  abbrev Running : Kernel F → Type 0
  Running = IsRunning float tensor frame pmm memory

  abbrev Place : Ap F → ℕ → Type 0
  Place = ApAt float tensor frame pmm memory

  ap_counting :
      (k : Kernel F)
      → At k.bsp counting k
      → ApMoved float tensor frame pmm memory prepared counting k
  ap_counting k i =
      let next : k.ap_processed + 1 ≡ suc k.ap_processed = omega arith in
      went float tensor frame pmm memory prepared counting k
        (record k { ap = working; ap_processed = k.ap_processed + 1 }) (unfold ap_move in refl)
        (record {
          bsp_at = i.bsp_at;
          ap_at = omega (arith, i.ap_at);
          packets =
              subst (λ n. Carries packet_of 16 k.inter_core_queue n (sent_of k.bsp)) (sym next)
                i.packets;
          results =
              subst (Carries result_of 32 k.completion_queue (read_of k.bsp)) (sym next) i.results;
          tensors = i.tensors;
          ready = i.ready;
          complete = i.complete;
          stored = i.stored;
          frames = i.frames;
          kept = i.kept;
        })
        (omega (arith, i.ap_at))

  -- A change of the AP's place behind the tensor, with what else it writes.
  ap_reducing :
      (k : Kernel F)
      → At k.bsp reducing k
      → ApMoved float tensor frame pmm memory prepared reducing k
  ap_reducing k i = elim (Bool-cases (has_sent_tensor k.bsp)) [
    | inr unsent ↦
        let empty =
          pop_empty 2 (subst (λ s. TensorAt tensor s false k.tensor_queue) unsent i.tensors) in
        inr ((unfold ap_move got_tensor in simp (empty)), unsent)
    | inl sent ↦
        let (got, holds) =
          pop-some 2 refl (subst (λ s. TensorAt tensor s false k.tensor_queue) sent i.tensors) in
        went float tensor frame pmm memory prepared reducing k
          (record k {
            ap = storing (found float tensor frame pmm memory);
            tensor_queue = popped 2 k.tensor_queue;
          })
          ((unfold ap_move got_tensor reduce deconstruct in
            simp (got, prepared.slice, i.kept, prepared.summed)))
          (record {
            bsp_at = i.bsp_at;
            ap_at = (i.ap_at, refl);
            packets = i.packets;
            results = i.results;
            tensors =
                subst (λ s. TensorAt tensor s true (popped 2 k.tensor_queue)) (sym sent) holds;
            ready = i.ready;
            complete = i.complete;
            stored = i.stored;
            frames = i.frames;
            kept = i.kept;
          })
          (omega arith)
  ]

  ap_storing :
      (r : Reduced F) (k : Kernel F)
      → At k.bsp (storing r) k
      → ApMoved float tensor frame pmm memory prepared (storing r) k
  ap_storing r k i =
      went float tensor frame pmm memory prepared (storing r) k
        (record k { ap = freeing r; tensor_sum_bits = float.to_bits r.sum })
        (unfold ap_move in refl)
        (record {
          bsp_at = i.bsp_at;
          ap_at = i.ap_at;
          packets = i.packets;
          results = i.results;
          tensors = i.tensors;
          ready = i.ready;
          complete = i.complete;
          stored = ap (λ x. float.to_bits x.sum) i.ap_at.1;
          frames = i.frames;
          kept = i.kept;
        })
        (omega arith)

  released : (free pmm frame).0 ≡ true
  released = (free_lem pmm frame prepared.valid).0 ∙ ground (arith, prepared.usable, prepared.held)

  ap_freeing :
      (r : Reduced F) (k : Kernel F)
      → At k.bsp (freeing r) k
      → ApMoved float tensor frame pmm memory prepared (freeing r) k
  ap_freeing r k i =
      let same : free k.pmm (from_address r.phys_addr) ≡ free pmm frame =
        ap (λ m. free m (from_address r.phys_addr)) i.frames
        ∙ ap (λ x. free pmm (from_address x.phys_addr)) i.ap_at.1
        ∙ ap (free pmm) prepared.phys in
      went float tensor frame pmm memory prepared (freeing r) k
        (record k { ap = completing r true; pmm = (free pmm frame).1 })
        ((unfold ap_move in simp (same, released)))
        (record {
          bsp_at = i.bsp_at;
          ap_at = (i.ap_at.0, i.ap_at.1, refl);
          packets = i.packets;
          results = i.results;
          tensors = i.tensors;
          ready = i.ready;
          complete = i.complete;
          stored = i.stored;
          frames = refl;
          kept = i.kept;
        })
        (omega arith)

  -- The end of the AP changes nothing that the BSP stands on.
  ended : (b : Bsp) → BspAt tensor b false → BspAt tensor b true
  ended (waiting_ap t) at = at
  ended (sending n t) at = at
  ended (sending_tensor t) at = at
  ended waiting_tensor at = at
  ended (collecting c) at = (at.0, refl)
  ended (batch_completed c) at = (at.0, refl)
  ended (invariant_failed c) at = at
  ended halted at = at

  ap_completing :
      (r : Reduced F) (b : Bool) (k : Kernel F)
      → At k.bsp (completing r b) k
      → ApMoved float tensor frame pmm memory prepared (completing r b) k
  ap_completing r b k i =
      let (all, r_is, b_is) = i.ap_at in
      let good : (b && float.eq r.sum (float.of_usize tensor_elements)) ≡ true =
        ap (λ x. x && float.eq r.sum (float.of_usize tensor_elements)) b_is
        ∙ ap (λ x. float.eq x.sum (float.of_usize tensor_elements)) r_is
        ∙ prepared.exact in
      went float tensor frame pmm memory prepared (completing r b) k
        (record k { ap = done true; tensor_complete = true })
        ((unfold ap_move in ap (λ x. record k { ap = done x; tensor_complete = true }) good))
        (record {
          bsp_at = ended k.bsp i.bsp_at;
          ap_at = (all, refl);
          packets = i.packets;
          results = i.results;
          tensors = i.tensors;
          ready = i.ready;
          complete = refl;
          stored = i.stored;
          frames = i.frames;
          kept = i.kept;
        })
        (omega arith)

  -- A move of the AP keeps the cores in step, and brings the batch nearer its end; or it changes
  -- nothing, since nothing is in the AP's queue or it has ended.
  pub ap_move_lem :
      (a : Ap F) (k : Kernel F) → At k.bsp a k → ApMoved float tensor frame pmm memory prepared a k
  ap_move_lem starting k i = ap_starting float tensor frame pmm memory prepared k i
  ap_move_lem working k i = ap_working float tensor frame pmm memory prepared k i
  ap_move_lem (answering r) k i = ap_answering float tensor frame pmm memory prepared r k i
  ap_move_lem counting k i = ap_counting k i
  ap_move_lem reducing k i = ap_reducing k i
  ap_move_lem (storing r) k i = ap_storing r k i
  ap_move_lem (freeing r) k i = ap_freeing r k i
  ap_move_lem (completing r b) k i = ap_completing r b k i
  ap_move_lem (done b) k i = inr ((unfold ap_move in refl), tt)
  ap_move_lem stopped k i = absurd i.ap_at
