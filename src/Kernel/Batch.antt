-- ===== src/Kernel/Batch.antt =====
-- The run of the kernel of main.rs from its start to the message of each core.
use cell.Base.{
  ℕ, ◌<◌, ◌≡◌, sym, ap, ◌∙◌, subst, arith, Bool, true, false, some, List, length, if◌then◌else◌,
}
use cell.Supervisor.{find_trace}
use cell.Core.Tensor.{ReadyChunk}
use cell.Pmm.{BitmapPmm, PhysicalFrame, EntryFields, initialize, free}
use cell.Pmm.Cycle.{Agrees}
use cell.Kernel.{run}
use cell.Kernel.State.{
  Core, tensor_elements, F32, Collected, Bsp, collecting, batch_completed, invariant_failed, halted,
  Ap, done, stopped, Kernel, trace_context,
}
use cell.Kernel.Packets.{collected, collected_all, reports-collected}
use cell.Kernel.Invariant.{BspAt, ApAt, IsRunning, has_stored, has_freed}
use cell.Kernel.Progress.{AreRounds, in_turn, IsEnded, run-IsRunning, rounds-IsEnded}
use cell.Kernel.Start.{Responses, fill_loop, prepare}
use cell.Kernel.Sum.{IsExact}
use cell.Kernel.Boot.{IsMachine, cores_start, tensor, frame, owned, virtual}

-- The report of the whole batch: nine traces succeeded, and trace 4, which had no data, failed at
-- node 1.
pub record IsReport (c : Collected) : Type 0 where
  pub reports : c.reports ≡ 10
  pub succeeded : c.succeeded ≡ 9
  pub failures : c.failures ≡ 1
  pub trace_4 :
      find_trace c.supervisor 4
      ≡ some
          (record { context = trace_context 4; node_id = 1; reason = "Corrupted payload in AP1" })

-- The last words of the two cores, and what they leave.
pub record IsCompleted {F : Type 0} (float : F32 F) (booted : BitmapPmm) (k : Kernel F)
    : Type 0 where
  pub report : (c : Collected) × (k.bsp ≡ batch_completed c) × IsReport c
  pub tensor_freed : k.ap ≡ done true
  pub sum : k.tensor_sum_bits ≡ float.to_bits (float.of_usize tensor_elements)
  pub frames : Agrees booted k.pmm

-- The BSP has not panicked, halted early or found the batch other than expected; and what it has
-- counted are the results of the first traces, each once and in order.
abbrev pub IsSoundBsp : Bsp → Type 0
IsSoundBsp halted = ⊥
IsSoundBsp (invariant_failed c) = ⊥
IsSoundBsp (collecting c) = c ≡ collected c.reports
IsSoundBsp _ = Unit {0}

-- The AP has not panicked, and has not reported a failure.
abbrev pub IsSoundAp : {F : Type 0} → Ap F → Type 0
IsSoundAp stopped = ⊥
IsSoundAp (done false) = ⊥
IsSoundAp _ = Unit {0}

collected-IsReport : IsReport (collected 10)
collected-IsReport = record {
  reports = reports-collected 10;
  succeeded = collected_all.1;
  failures = collected_all.2;
  trace_4 = collected_all.3;
}

sound_bsp : (t : ReadyChunk) (b : Bsp) (ended : Bool) → BspAt t b ended → IsSoundBsp b
sound_bsp t halted ended at = at
sound_bsp t (invariant_failed c) ended at = at
sound_bsp t (collecting c) ended at = at.0.0
sound_bsp t _ ended at = tt

sound_ap :
    {F : Type 0} (float : F32 F) (t : ReadyChunk) (f : PhysicalFrame) (pmm : BitmapPmm)
    (memory : ℕ → F) (a : Ap F) (n : ℕ)
    → ApAt float t f pmm memory a n
    → IsSoundAp a
sound_ap float t f pmm memory stopped n at = at
sound_ap float t f pmm memory (done false) n at = absurd (cc (at.1))
sound_ap float t f pmm memory _ n at = tt

sound_at :
    {F : Type 0} {float : F32 F} {t : ReadyChunk} {f : PhysicalFrame} {pmm : BitmapPmm}
    {memory : ℕ → F} {k : Kernel F}
    → IsRunning float t f pmm memory k
    → IsSoundBsp k.bsp × IsSoundAp k.ap
sound_at {float} {t} {f} {pmm} {memory} {k} i =
    (sound_bsp t k.bsp _ i.bsp_at, sound_ap float t f pmm memory k.ap k.ap_processed i.ap_at)

module _ {F : Type 0} (float : F32 F) (exact : IsExact float) {Entry : Type 0}
    (fields : EntryFields Entry) (responses : Responses Entry) (pmm : BitmapPmm) (memory : ℕ → F)
    (machine : IsMachine fields responses) where
  IsCompleted-at :
      (k : Kernel F)
      → IsEnded k
      → IsRunning float
          (tensor float exact fields responses pmm memory machine)
          (frame float exact fields responses pmm memory machine)
          (owned float exact fields responses pmm memory machine)
          (fill_loop float 1024 (virtual float exact fields responses pmm memory machine) memory)
          k
      → Agrees
          (initialize fields pmm machine.entries).1
          (free
            (owned float exact fields responses pmm memory machine)
            (frame float exact fields responses pmm memory machine)).1
      → IsCompleted float (initialize fields pmm machine.entries).1 k
  IsCompleted-at k (bsp_end, ap_end) running agrees = record {
    report = (collected 10, bsp_end, collected-IsReport);
    tensor_freed = ap_end;
    sum =
        running.stored
        ∙ ap (λ a. if has_stored a then float.to_bits (float.of_usize tensor_elements) else 0)
            ap_end;
    frames =
        subst (Agrees (initialize fields pmm machine.entries).1)
          (sym (
            running.frames
            ∙ ap
                (λ a.
                  if has_freed a
                  then (free (owned float exact fields responses pmm memory machine)
                      (frame float exact fields responses pmm memory machine)).1
                  else owned float exact fields responses pmm memory machine)
                ap_end))
          agrees;
  }

  -- On a machine that answers, with exact numbers, the start prepares the two cores; and every
  -- schedule of theirs in which there are at least 63 rounds, where in a round each core moves once
  -- or more, has the same end: the BSP reports nine successes and the failure of trace 4, the AP has
  -- summed 1024 ones and given their frame back, and each frame and counter of the allocator is as
  -- it was when the memory map had been read.
  pub batch_completes :
      (rounds : List (List Core))
      → AreRounds rounds
      → 62 < length rounds
      → (k : Kernel F) × (prepare float fields responses pmm memory ≡ some k)
        × IsCompleted float (initialize fields pmm machine.entries).1 (run float (in_turn rounds) k)
  batch_completes rounds fair enough =
      let (k, starts, prepared, running, moves, agrees) =
        cores_start float exact fields responses pmm memory machine in
      (
        k,
        starts,
        IsCompleted-at (run float (in_turn rounds) k)
            (rounds-IsEnded float _ _ _ _ prepared rounds k fair (omega (arith, moves)) running)
            (run-IsRunning float _ _ _ _ prepared (in_turn rounds) k running) agrees,
      )

  -- On a machine that answers, with exact numbers, the start prepares the two cores, and no
  -- schedule of theirs brings either to a panic, an early halt or an error; and while the BSP
  -- collects, it has counted the results of the first traces, each once and in order.
  pub stays_sound :
      (cores : List Core)
      → (k : Kernel F) × (prepare float fields responses pmm memory ≡ some k)
        × IsSoundBsp (run float cores k).bsp
        × IsSoundAp (run float cores k).ap
  stays_sound cores =
      let (k, starts, prepared, running, moves, agrees) =
        cores_start float exact fields responses pmm memory machine in
      let sound = sound_at (run-IsRunning float _ _ _ _ prepared cores k running) in
      (k, starts, sound.0, sound.1)
