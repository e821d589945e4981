-- ===== src/Kernel/Tests.antt =====
-- The theorems on the kernel of main.rs at one machine, with the natural numbers for `f32`.
use cell.Base.{
  ℕ, zero, suc, ◌+◌, ◌≡◌, inl, inr, refl, arith, true, ◌==◌, some, List, [], ◌∷◌, replicate,
}
use cell.Pmm.{EntryFields, initialize, new}
use cell.Kernel.{run}
use cell.Kernel.State.{Core, bsp_core, ap_core, F32, Kernel}
use cell.Kernel.Progress.{AreRounds, in_turn}
use cell.Kernel.Start.{Responses, has_other_cpu, prepare}
use cell.Kernel.Sum.{IsExact}
use cell.Kernel.Boot.{IsMachine}
use cell.Kernel.Batch.{IsCompleted, IsSoundBsp, IsSoundAp, batch_completes, stays_sound}

abbrev whole_numbers : F32 ℕ
whole_numbers = record {
  float_zero = 0;
  float_one = 1;
  add = λ a b. a + b;
  of_usize = λ n. n;
  to_bits = λ n. n;
  eq = λ a b. a == b;
}

whole_numbers-IsExact : IsExact whole_numbers
whole_numbers-IsExact = record {
  zero_is = refl;
  add_one = λ n h. omega arith;
  eq_self = λ n h. ground arith;
}

-- An entry is its base and its length, and every entry is usable.
abbrev span_fields : EntryFields (ℕ × ℕ)
span_fields = record { base = λ e. e.0; length = λ e. e.1; is_usable_type = λ e. true }

abbrev two_cpus : Responses (ℕ × ℕ)
two_cpus = record {
  memory_map = some ((0x1000, 0x4000) ∷ []);
  hhdm = some 0xFFFF800000000000;
  cpus = some (0 ∷ 1 ∷ [], 0);
}

two_cpus-IsMachine : IsMachine span_fields two_cpus
unfolding has_other_cpu
two_cpus-IsMachine = record {
  entries = (0x1000, 0x4000) ∷ [];
  map_is = refl;
  frame = 2;
  covered = inl (
    refl,
    record { low = omega arith; from_base = omega arith; to_end = omega arith; fits = omega arith },
  );
  offset = 0xFFFF800000000000;
  hhdm_is = refl;
  aligned = refl;
  room = omega arith;
  ids = 0 ∷ 1 ∷ [];
  bsp_id = 0;
  cpus_is = refl;
  other = refl;
}

abbrev no_ones : ℕ → ℕ
no_ones a = 0

-- 63 rounds in which the AP moves twice as often as the BSP.
abbrev fast_ap : List (List Core)
fast_ap = replicate 63 (ap_core ∷ bsp_core ∷ ap_core ∷ [])

replicate-AreRounds : (n : ℕ) → AreRounds (replicate n (ap_core ∷ bsp_core ∷ ap_core ∷ []))
replicate-AreRounds zero = tt
replicate-AreRounds (suc n) = (inr (inl refl), inl refl, replicate-AreRounds n)

batch_completes_example :
    (k : Kernel ℕ) × (prepare whole_numbers span_fields two_cpus new no_ones ≡ some k)
    × IsCompleted whole_numbers
        (initialize span_fields new two_cpus-IsMachine.entries).1
        (run whole_numbers (in_turn fast_ap) k)
batch_completes_example =
    batch_completes whole_numbers whole_numbers-IsExact span_fields two_cpus new no_ones
      two_cpus-IsMachine fast_ap (replicate-AreRounds 63) (omega arith)

stays_sound_example :
    (k : Kernel ℕ) × (prepare whole_numbers span_fields two_cpus new no_ones ≡ some k)
    × IsSoundBsp (run whole_numbers (bsp_core ∷ ap_core ∷ bsp_core ∷ []) k).bsp
    × IsSoundAp (run whole_numbers (bsp_core ∷ ap_core ∷ bsp_core ∷ []) k).ap
stays_sound_example =
    stays_sound whole_numbers whole_numbers-IsExact span_fields two_cpus new no_ones
      two_cpus-IsMachine (bsp_core ∷ ap_core ∷ bsp_core ∷ [])
