-- ===== src/Kernel/Collector.antt =====
-- The moves of the BSP in main.rs from its wait for the tensor on, and all of them together.
use cell.Base.{
  ℕ, zero, suc, ◌<◌, ◌≡◌, inl, inr, refl, sym, ap, ◌∙◌, subst, arith, true, false, ltb, Bool-cases,
  lt→ltb,
}
use native.Mathlib.Decide.{dec_lt}
use cell.Core.Tensor.{ReadyChunk}
use cell.Queue.Refine.{popped}
use cell.Pmm.{BitmapPmm, PhysicalFrame}
use cell.Kernel.{bsp_move, got_result}
use cell.Kernel.State.{
  packet_count, F32, Collected, Bsp, waiting_ap, sending, sending_tensor, waiting_tensor,
  collecting, batch_completed, invariant_failed, halted, Ap, starting, working, answering, counting,
  reducing, storing, freeing, completing, done, stopped, Kernel, collect, finish,
}
use cell.Kernel.Views.{pop-Carries}
use cell.Kernel.Packets.{result_of, collected, reports-collected, collect-collected, collected_all}
use cell.Kernel.Invariant.{answered_of, is_done, ApAt, IsAt, IsRunning}
use cell.Kernel.Sender.{
  BspMoved, turn, went, bsp_waiting_ap, bsp_sending_last, bsp_sending_packet, bsp_sending_tensor,
}

module _ {F : Type 0} (float : F32 F) (tensor : ReadyChunk) (frame : PhysicalFrame)
    (pmm : BitmapPmm) (memory : ℕ → F) where
  abbrev At : Bsp → Ap F → Kernel F → Type 0
  At = IsAt float tensor frame pmm memory

  abbrev Running : Kernel F → Type 0
  Running = IsRunning float tensor frame pmm memory

  bsp_waiting_tensor :
      (k : Kernel F)
      → At waiting_tensor k.ap k
      → BspMoved float tensor frame pmm memory waiting_tensor k
  bsp_waiting_tensor k i = elim (Bool-cases k.tensor_complete) [
    | inl complete ↦
        went float tensor frame pmm memory waiting_tensor k
          (record k { bsp = collecting (collected 0) })
          (unfold bsp_move collected in simp (complete))
          (turn float tensor frame pmm memory (collecting (collected 0)) i
            (
              (ap collected (sym (reports-collected 0)), omega (arith, reports-collected 0)),
              sym i.complete ∙ complete,
            )
            refl (reports-collected 0) refl)
          (omega (arith, reports-collected 0))
    | inr not_complete ↦ inr (unfold bsp_move in simp (not_complete), not_complete)
  ]

  bsp_collecting :
      (c : Collected) (k : Kernel F)
      → At (collecting c) k.ap k
      → BspMoved float tensor frame pmm memory (collecting c) k
  bsp_collecting c k i = elim (dec_lt c.reports 10) [
    | yes more ↦
        let (counted, ended) = i.bsp_at in
        let all = done_all k.ap k.ap_processed i.ap_at ended in
        let (got, results) = pop-Carries result_of 32 refl i.results (omega (arith, all)) in
        let c' = collect c (result_of (suc c.reports)) in
        let count : c'.reports ≡ suc c.reports =
          ap (λ d. d.reports) (collect-collected c counted.0) ∙ reports-collected (suc c.reports) in
        went float tensor frame pmm memory (collecting c) k
          (record k { bsp = collecting c'; completion_queue = popped 32 k.completion_queue })
          (unfold bsp_move got_result in simp (lt→ltb c.reports packet_count more, got))
          (record {
            bsp_at = (
              (collect-collected c counted.0 ∙ ap collected (sym count), omega (arith, count)),
              ended,
            );
            ap_at = i.ap_at;
            packets = i.packets;
            results = rw count results;
            tensors = i.tensors;
            ready = i.ready;
            complete = i.complete;
            stored = i.stored;
            frames = i.frames;
            kept = i.kept;
          })
          (omega (arith, count))
    | no last ↦
        let (counted, ended) = i.bsp_at in
        let ten : c.reports ≡ 10 = omega (arith, counted.1) in
        let c_is : c ≡ collected 10 = counted.0 ∙ ap collected ten in
        went float tensor frame pmm memory (collecting c) k (record k { bsp = batch_completed c })
          (unfold bsp_move in
            simp (not_below c.reports last) (ap (λ b. record k { bsp = b }) (finished c c_is)))
          (turn float tensor frame pmm memory (batch_completed c) i (c_is, ended) refl refl refl)
          (omega arith)
  ]
    where
      done_all :
          (a : Ap F) (n : ℕ)
          → ApAt float tensor frame pmm memory a n
          → is_done a ≡ true
          → answered_of a n ≡ 10
      done_all (done b) n at e = at.0
      done_all starting n at e = cc
      done_all working n at e = cc
      done_all (answering r) n at e = cc
      done_all counting n at e = cc
      done_all reducing n at e = cc
      done_all (storing r) n at e = cc
      done_all (freeing r) n at e = cc
      done_all (completing r b) n at e = cc
      done_all stopped n at e = cc

      not_below : (n : ℕ) → ¬ (n < 10) → ltb n packet_count ≡ false
      not_below n h = ground arith

      finished : (d : Collected) → d ≡ collected 10 → finish d ≡ batch_completed d
      finished d e = subst (λ x. finish x ≡ batch_completed x) (sym e) collected_all.0

  -- A move of the BSP keeps the cores in step, and brings the batch nearer its end; or it changes
  -- nothing, since the BSP waits or has ended.
  pub bsp_move_lem :
      (b : Bsp) (k : Kernel F) → At b k.ap k → BspMoved float tensor frame pmm memory b k
  bsp_move_lem (waiting_ap t) k i = bsp_waiting_ap float tensor frame pmm memory t k i
  bsp_move_lem (sending zero t) k i = absurd (omega (arith, i.bsp_at.1))
  bsp_move_lem (sending (suc n) t) k i = elim (dec_lt n 10) [
    | yes more ↦ bsp_sending_packet float tensor frame pmm memory n t k i more
    | no last ↦ bsp_sending_last float tensor frame pmm memory (suc n) t k i (omega arith)
  ]
  bsp_move_lem (sending_tensor t) k i = bsp_sending_tensor float tensor frame pmm memory t k i
  bsp_move_lem waiting_tensor k i = bsp_waiting_tensor k i
  bsp_move_lem (collecting c) k i = bsp_collecting c k i
  bsp_move_lem (batch_completed c) k i = inr (unfold bsp_move in refl, tt)
  bsp_move_lem (invariant_failed c) k i = absurd i.bsp_at
  bsp_move_lem halted k i = absurd i.bsp_at
