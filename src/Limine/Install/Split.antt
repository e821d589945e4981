-- ===== src/Limine/Install/Split.antt =====
-- How `bios_install` halves stage 2.
use cell.Base.{ℕ, ◌+◌, ◌-◌, ◌*◌, ◌/◌, ◌%◌, ◌^◌, ◌<◌, ◌≤◌, ◌≡◌, refl, arith}
use cell.Base.{sub64, add64}
use native.Mathlib.Decide.{ℕ_discrete}
use cell.Limine.Install.Stage2.{default_split}

sectors : (n : ℕ) → 512 ≤ n → n < 2 ^ 16 → add64 (sub64 n 512) 511 ≡ n - 1
sectors n long short = omega arith

size_a-eq :
    (n : ℕ)
    → 1024 ≤ n
    → n < 2 ^ 16
    → (default_split n).size_a ≡ (n - 1) / 512 / 2 * 512 + (n - 1) / 512 % 2 * 512
unfolding default_split
size_a-eq n long short = elim (ℕ_discrete ((n - 1) / 512 % 2) 0) [
  | yes even ↦ ground (arith, sectors n (omega arith) short)
  | no odd ↦ ground (arith, sectors n (omega arith) short)
]

size_b-eq : (n : ℕ) → 1024 ≤ n → n < 2 ^ 16 → (default_split n).size_b ≡ (n - 1) / 512 / 2 * 512
unfolding default_split
size_b-eq n long short = omega (arith, sectors n (omega arith) short)

sizes-eq :
    (n : ℕ)
    → ((default_split n).stage2_size ≡ sub64 n 512)
      × ((default_split n).loc_a ≡ 512)
      × ((default_split n).loc_b ≡ 512 + (default_split n).size_a)
unfolding default_split
sizes-eq n = (refl, refl, refl)

-- An image between 1 KiB and 64 KiB long: the first half is whole sectors, the rest of stage 2 is
-- not longer than the second half, the halves follow each other after the boot sector, and no
-- `uint16_t` has wrapped.
pub default_split_lem :
    (n : ℕ)
    → 1024 ≤ n
    → n < 2 ^ 16
    → ((default_split n).stage2_size ≡ n - 512)
      × ((default_split n).size_a ≤ n - 512)
      × ((default_split n).size_a % 512 ≡ 0)
      × (n - 512 ≤ (default_split n).size_a + (default_split n).size_b)
      × ((default_split n).loc_a ≡ 512)
      × ((default_split n).loc_b ≡ 512 + (default_split n).size_a)
default_split_lem n long short =
    let (size, a, b) = sizes-eq n in
    (
      omega (arith, size),
      omega (arith, size_a-eq n long short),
      omega (arith, size_a-eq n long short),
      omega (arith, size_a-eq n long short, size_b-eq n long short),
      a,
      b,
    )
