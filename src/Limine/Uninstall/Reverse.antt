-- ===== src/Limine/Uninstall/Reverse.antt =====
-- `reverse_uninstall_data` puts the newest entry first.
use cell.Base.{ℕ, zero, suc, ◌+◌, ◌-◌, ◌≤◌, ◌<◌}
use cell.Base.{◌≡◌, refl, ap, ◌∙◌, arith, u64_mod, sub64}
use native.Mathlib.Decide.{dec_lt}
use cell.Limine.Tool.{Tool, UninstallData}
use cell.Limine.Device.{update}
use cell.Limine.Uninstall.{reverse_loop, reverse_uninstall_data, no_data}

sub64-suc : (n : ℕ) → suc n < u64_mod → sub64 (suc n) 1 ≡ n
sub64-suc n h = omega arith

-- With `left` rounds to go, only the entries below `left` are still written.
reverse_loop-above :
    (left i : ℕ) (entries rev : ℕ → UninstallData)
    → left < u64_mod
    → (k : ℕ) → left ≤ k
    → reverse_loop left i (sub64 left 1) entries rev k ≡ rev k
unfolding reverse_loop
reverse_loop-above zero i entries rev word k above = refl
reverse_loop-above (suc left) i entries rev word k above =
    ap (λ (j : ℕ). reverse_loop left (i + 1) (sub64 j 1) entries (update rev j (entries i)) k)
      (sub64-suc left word)
    ∙ reverse_loop-above left (i + 1) entries (update rev left (entries i)) (omega arith) k
        (omega arith)
    ∙ ground arith

reverse_loop_lem :
    (left i : ℕ) (entries rev : ℕ → UninstallData)
    → left < u64_mod
    → (k : ℕ) → k < left
    → reverse_loop left i (sub64 left 1) entries rev k ≡ entries (i + (left - 1 - k))
unfolding reverse_loop
reverse_loop_lem zero i entries rev word k h = absurd (omega arith)
reverse_loop_lem (suc left) i entries rev word k h =
    ap (λ (j : ℕ). reverse_loop left (i + 1) (sub64 j 1) entries (update rev j (entries i)) k)
      (sub64-suc left word)
    ∙ elim (dec_lt k left) [
      | yes low ↦
          reverse_loop_lem left (i + 1) entries (update rev left (entries i)) (omega arith) k low
          ∙ ap entries (omega arith)
      | no top ↦
          reverse_loop-above left (i + 1) entries (update rev left (entries i)) (omega arith) k
            (omega arith)
          ∙ ground (arith, ap entries (first top))
    ]
  where
    first : ¬ (k < left) → i ≡ i + (suc left - 1 - k)
    first top = omega arith

-- `reverse_uninstall_data`, on fewer than 2 ^ 64 entries: the entry at each place of those that
-- count is then the one that stood as far from the end.
pub reverse_uninstall_data_lem :
    (t : Tool)
    → t.uninstall_data_i < u64_mod
    → (k : ℕ) → k < t.uninstall_data_i
    → (reverse_uninstall_data t).uninstall_data k ≡ t.uninstall_data (t.uninstall_data_i - 1 - k)
unfolding reverse_uninstall_data
reverse_uninstall_data_lem t word k h =
    ground (arith, reverse_loop_lem t.uninstall_data_i 0 t.uninstall_data no_data word k h)
