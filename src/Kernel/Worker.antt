-- ===== src/Kernel/Worker.antt =====
-- The moves of the AP in main.rs that answer packets, which keep the two cores in step; each brings
-- it forward or waits.
use cell.Base.{
  ℕ, suc, ◌+◌, ◌<◌, ◌≡◌, ◌⊎◌, inl, inr, refl, sym, ap, ◌∙◌, subst, arith, true, false, ltb, lt→ltb,
}
use native.Mathlib.Decide.{dec_lt}
use cell.Core.{WorkResult}
use cell.Core.Tensor.{ReadyChunk}
use cell.Queue.{publish}
use cell.Queue.Refine.{popped}
use cell.Pmm.{BitmapPmm, PhysicalFrame}
use cell.Kernel.{ap_move, got_packet, sent_result}
use cell.Kernel.State.{
  packet_count, F32, Bsp, Ap, starting, working, answering, counting, reducing, Kernel, process,
}
use cell.Kernel.Views.{Carries, push-Carries, pop-Carries, empty-Carries}
use cell.Kernel.Packets.{packet_of, result_of, process-packet_of}
use cell.Kernel.Invariant.{sent_of, ApAt, IsAt, IsRunning, IsPrepared}
use cell.Kernel.Measure.{bsp_left, ap_left, left, ApWaits}

module _ {F : Type 0} (float : F32 F) (tensor : ReadyChunk) (frame : PhysicalFrame)
    (pmm : BitmapPmm) (memory : ℕ → F) (prepared : IsPrepared float tensor frame pmm memory) where
  abbrev At : Bsp → Ap F → Kernel F → Type 0
  At = IsAt float tensor frame pmm memory

  abbrev Running : Kernel F → Type 0
  Running = IsRunning float tensor frame pmm memory

  abbrev Place : Ap F → ℕ → Type 0
  Place = ApAt float tensor frame pmm memory

  -- A move of the AP from one of its places.
  abbrev pub ApMoved : Ap F → Kernel F → Type 0
  ApMoved a k =
      (Running (ap_move float a k)
        × (left (ap_move float a k) < bsp_left k.bsp + ap_left a k.ap_processed))
      ⊎ ((ap_move float a k ≡ k) × ApWaits a k)

  pub went :
      (a : Ap F) (k k' : Kernel F)
      → ap_move float a k ≡ k'
      → Running k'
      → left k' < bsp_left k.bsp + ap_left a k.ap_processed
      → ApMoved a k
  went a k k' e r less = inl (
      subst (λ k''. Running k'' × (left k'' < bsp_left k.bsp + ap_left a k.ap_processed)) (sym e)
        (r, less))

  pub ap_starting : (k : Kernel F) → At k.bsp starting k → ApMoved starting k
  ap_starting k i =
      went starting k (record k { ap_ready = true; ap = working }) (unfold ap_move in refl)
        (record {
          bsp_at = i.bsp_at;
          ap_at = omega (arith, i.ap_at);
          packets = i.packets;
          results = i.results;
          tensors = i.tensors;
          ready = refl;
          complete = i.complete;
          stored = i.stored;
          frames = i.frames;
          kept = i.kept;
        })
        (omega (arith, i.ap_at))

  pub ap_working : (k : Kernel F) → At k.bsp working k → ApMoved working k
  ap_working k i = elim (dec_lt k.ap_processed 10) [
    | no all ↦
        went working k (record k { ap = reducing })
          (unfold ap_move in simp (not_below k.ap_processed all))
          (record {
            bsp_at = i.bsp_at;
            ap_at = omega (arith, i.ap_at);
            packets = i.packets;
            results = i.results;
            tensors = i.tensors;
            ready = i.ready;
            complete = i.complete;
            stored = i.stored;
            frames = i.frames;
            kept = i.kept;
          })
          (omega (arith, i.ap_at))
    | yes more ↦ elim (dec_lt k.ap_processed (sent_of k.bsp)) [
      | yes there ↦
          let (got, packets) = pop-Carries packet_of 16 refl i.packets there in
          went working k
            (record k {
              ap = answering (process (packet_of (suc k.ap_processed)));
              inter_core_queue = popped 16 k.inter_core_queue;
            })
            (unfold ap_move got_packet in simp (lt→ltb k.ap_processed packet_count more, got))
            (record {
              bsp_at = i.bsp_at;
              ap_at = (more, process-packet_of (suc k.ap_processed));
              packets = packets;
              results = i.results;
              tensors = i.tensors;
              ready = i.ready;
              complete = i.complete;
              stored = i.stored;
              frames = i.frames;
              kept = i.kept;
            })
            (omega arith)
      | no none_there ↦
          let e : sent_of k.bsp ≡ k.ap_processed = omega (arith, i.packets.0) in
          let empty =
            empty-Carries packet_of 16 refl
              (subst (Carries packet_of 16 k.inter_core_queue k.ap_processed) e i.packets) in
          inr (
            (unfold ap_move got_packet in simp (lt→ltb k.ap_processed packet_count more, empty)),
            (more, e),
          )
    ]
  ]
    where
      not_below : (n : ℕ) → ¬ (n < 10) → ltb n packet_count ≡ false
      not_below n h = ground arith

  pub ap_answering :
      (r : WorkResult) (k : Kernel F) → At k.bsp (answering r) k → ApMoved (answering r) k
  ap_answering r k i =
      let (more, r_is) = i.ap_at in
      let (accepted, results) = push-Carries result_of 32 refl i.results (omega arith) in
      let sent_out = publish 32 k.completion_queue (result_of (suc k.ap_processed)) in
      went (answering r) k (record k { ap = counting; completion_queue = sent_out })
        (ap (λ x. ap_move float (answering x) k) r_is
          ∙ (unfold ap_move sent_result in simp (accepted)))
        (record {
          bsp_at = i.bsp_at;
          ap_at = more;
          packets = i.packets;
          results = results;
          tensors = i.tensors;
          ready = i.ready;
          complete = i.complete;
          stored = i.stored;
          frames = i.frames;
          kept = i.kept;
        })
        (omega arith)
