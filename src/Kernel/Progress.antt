-- ===== src/Kernel/Progress.antt =====
-- Schedules of the two cores of main.rs: what any of them keeps, and which of them end the batch.
use cell.Base.{
  ℕ, ◌<◌, ◌≡◌, ◌⊎◌, inl, inr, refl, sym, ap, ◌∙◌, subst, arith, true, List, [], ◌∷◌, ◌++◌, length,
}
use cell.Core.Tensor.{ReadyChunk}
use cell.Pmm.{BitmapPmm, PhysicalFrame}
use cell.Kernel.{move, run}
use cell.Kernel.State.{
  Core, bsp_core, ap_core, F32, Bsp, waiting_ap, sending, sending_tensor, waiting_tensor,
  collecting, batch_completed, invariant_failed, halted, Ap, starting, working, answering, counting,
  reducing, storing, freeing, completing, done, stopped, Kernel,
}
use cell.Kernel.Packets.{collected}
use cell.Kernel.Invariant.{IsAt, IsRunning, IsPrepared, sent_of, has_sent_tensor}
use cell.Kernel.Measure.{bsp_left, ap_left, left, BspWaits, ApWaits}
use cell.Kernel.Collector.{bsp_move_lem}
use cell.Kernel.Reducer.{ap_move_lem}

-- A schedule in which the core moves.
abbrev pub Moves : Core → List Core → Type 0
Moves core [] = ⊥
Moves core (c ∷ cores) = (c ≡ core) ⊎ Moves core cores

-- Rounds: in each of them both cores move, in any order and as often as they like.
abbrev pub AreRounds : List (List Core) → Type 0
AreRounds [] = Unit {0}
AreRounds (cores ∷ rounds) = Moves bsp_core cores × Moves ap_core cores × AreRounds rounds

abbrev pub in_turn : List (List Core) → List Core
in_turn [] = []
in_turn (cores ∷ rounds) = cores ++ in_turn rounds

-- The BSP has reported the whole batch as expected, and the AP its tensor.
abbrev pub IsEnded : {F : Type 0} → Kernel F → Type 0
IsEnded k = (k.bsp ≡ batch_completed (collected 10)) × (k.ap ≡ done true)

abbrev Waits : {F : Type 0} → Core → Kernel F → Type 0
Waits bsp_core k = BspWaits k.bsp k
Waits ap_core k = ApWaits k.ap k

abbrev AllWait : {F : Type 0} → List Core → Kernel F → Type 0
AllWait [] k = Unit {0}
AllWait (c ∷ cores) k = Waits c k × AllWait cores k

Waits-there :
    {F : Type 0} (k : Kernel F) (core : Core) (cores : List Core)
    → AllWait cores k
    → Moves core cores
    → Waits core k
Waits-there k core [] all moves = absurd moves
Waits-there k core (c ∷ cores) all (inl e) = subst (λ x. Waits x k) e all.0
Waits-there k core (c ∷ cores) all (inr later) = Waits-there k core cores all.1 later

module _ {F : Type 0} (float : F32 F) (tensor : ReadyChunk) (frame : PhysicalFrame)
    (pmm : BitmapPmm) (memory : ℕ → F) (prepared : IsPrepared float tensor frame pmm memory) where
  abbrev Running : Kernel F → Type 0
  Running = IsRunning float tensor frame pmm memory

  abbrev Progress : List Core → Kernel F → Kernel F → Type 0
  Progress cores k k' = Running k' × ((left k' < left k) ⊎ ((k' ≡ k) × AllWait cores k))

  move_lem :
      (core : Core) (k : Kernel F)
      → Running k
      → Running (move float core k)
        × ((left (move float core k) < left k) ⊎ ((move float core k ≡ k) × Waits core k))
  unfolding move
  move_lem bsp_core k r = elim (bsp_move_lem float tensor frame pmm memory k.bsp k r) [
    | inl on ↦ (on.0, inl on.1)
    | inr stays ↦ (subst Running (sym stays.0) r, inr stays)
  ]
  move_lem ap_core k r = elim (ap_move_lem float tensor frame pmm memory prepared k.ap k r) [
    | inl on ↦ (on.0, inl on.1)
    | inr stays ↦ (subst Running (sym stays.0) r, inr stays)
  ]

  run_lem : (cores : List Core) (k : Kernel F) → Running k → Progress cores k (run float cores k)
  unfolding run
  run_lem [] k r = (r, inr (refl, tt))
  run_lem (c ∷ cores) k r =
      let (r', first) = move_lem c k r in
      let (r'', rest) = run_lem cores (move float c k) r' in (r'', both first rest)
    where
      both :
          {k1 k2 : Kernel F}
          → (left k1 < left k) ⊎ ((k1 ≡ k) × Waits c k)
          → (left k2 < left k1) ⊎ ((k2 ≡ k1) × AllWait cores k1)
          → (left k2 < left k) ⊎ ((k2 ≡ k) × (Waits c k × AllWait cores k))
      both (inl less) (inl less') = inl (omega arith)
      both (inl less) (inr (same, waits)) = inl (omega (arith, ap left same))
      both (inr (same, waits)) (inl less') = inl (omega (arith, ap left same))
      both (inr (same, waits)) (inr (same', waits')) =
          inr (same' ∙ same, (waits, subst (AllWait cores) same waits'))

  -- Where both cores wait, the batch has ended.
  both_wait :
      (b : Bsp) (a : Ap F) (k : Kernel F)
      → k.bsp ≡ b
      → k.ap ≡ a
      → IsAt float tensor frame pmm memory b a k
      → BspWaits b k
      → ApWaits a k
      → IsEnded k
  both_wait (waiting_ap t) starting k eb ea i wb wa = absurd wa
  both_wait (waiting_ap t) _ k eb ea i wb wa = absurd (cc (i.ready, wb))
  both_wait (sending n t) a k eb ea i wb wa = absurd wb
  both_wait (sending_tensor t) a k eb ea i wb wa = absurd wb
  both_wait waiting_tensor starting k eb ea i wb wa = absurd wa
  both_wait waiting_tensor working k eb ea i wb wa =
      absurd (omega (arith, wa.0, wa.1, ap sent_of eb))
  both_wait waiting_tensor (answering r) k eb ea i wb wa = absurd wa
  both_wait waiting_tensor counting k eb ea i wb wa = absurd wa
  both_wait waiting_tensor reducing k eb ea i wb wa = absurd (cc (wa, ap has_sent_tensor eb))
  both_wait waiting_tensor (storing r) k eb ea i wb wa = absurd wa
  both_wait waiting_tensor (freeing r) k eb ea i wb wa = absurd wa
  both_wait waiting_tensor (completing r d) k eb ea i wb wa = absurd wa
  both_wait waiting_tensor (done d) k eb ea i wb wa = absurd (cc (i.complete, wb))
  both_wait waiting_tensor stopped k eb ea i wb wa = absurd wa
  both_wait (collecting c) a k eb ea i wb wa = absurd wb
  both_wait (batch_completed c) (done d) k eb ea i wb wa =
      (eb ∙ ap batch_completed i.bsp_at.0, ea ∙ ap done i.ap_at.1)
  both_wait (batch_completed c) _ k eb ea i wb wa = absurd (cc (i.bsp_at.1))
  both_wait (invariant_failed c) a k eb ea i wb wa = absurd wb
  both_wait halted a k eb ea i wb wa = absurd wb

  -- A round brings the batch nearer its end, or the batch has ended.
  round_lem :
      (cores : List Core) (k : Kernel F)
      → Moves bsp_core cores
      → Moves ap_core cores
      → Running k
      → (left (run float cores k) < left k) ⊎ IsEnded (run float cores k)
  round_lem cores k bsp_moves ap_moves r = elim (run_lem cores k r).1 [
    | inl less ↦ inl less
    | inr (same, waits) ↦ inr (
        subst IsEnded (sym same) (
          both_wait k.bsp k.ap k refl refl r (Waits-there k bsp_core cores waits bsp_moves)
            (Waits-there k ap_core cores waits ap_moves)))
  ]

  ended_left : (k : Kernel F) → IsEnded k → left k ≡ 0
  ended_left k e = omega (arith, ap bsp_left e.0, ap (λ a. ap_left a k.ap_processed) e.1)

  -- What has ended stays so.
  run-IsEnded :
      (cores : List Core) (k : Kernel F) → Running k → IsEnded k → IsEnded (run float cores k)
  run-IsEnded cores k r e = elim (run_lem cores k r).1 [
    | inl less ↦ absurd (omega (arith, ended_left k e))
    | inr (same, waits) ↦ subst IsEnded (sym same) e
  ]

  run-append :
      (cores rest : List Core) (k : Kernel F)
      → run float (cores ++ rest) k ≡ run float rest (run float cores k)
  unfolding run
  run-append [] rest k = refl
  run-append (c ∷ cores) rest k = run-append cores rest (move float c k)

  -- From a state that the kernel may be in, whatever the cores do, it stays in such a state.
  pub run-IsRunning : (cores : List Core) (k : Kernel F) → Running k → Running (run float cores k)
  run-IsRunning cores k r = (run_lem cores k r).0

  -- More rounds than the moves that are left end the batch.
  pub rounds-IsEnded :
      (rounds : List (List Core)) (k : Kernel F)
      → AreRounds rounds
      → left k < length rounds
      → Running k
      → IsEnded (run float (in_turn rounds) k)
  rounds-IsEnded [] k fair enough r = absurd (omega arith)
  rounds-IsEnded (cores ∷ rounds) k (bsp_moves, ap_moves, fair) enough r =
      let r' = run-IsRunning cores k r in
      subst IsEnded (sym (run-append cores (in_turn rounds) k))
        (elim (round_lem cores k bsp_moves ap_moves r) [
          | inl less ↦ rounds-IsEnded rounds (run float cores k) fair (omega arith) r'
          | inr ended ↦ run-IsEnded (in_turn rounds) (run float cores k) r' ended
        ])
