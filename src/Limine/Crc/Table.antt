-- ===== src/Limine/Crc/Table.antt =====
-- Each entry of the table is the division of its index by the polynomial, a bit at a time.
use cell.Base.{
  ℕ, zero, suc, ◌+◌, ◌/◌, ◌%◌, ◌<◌, bit_xor, ◌==◌, ◌&&◌, if◌then◌else◌, Bool, true, ◌≡◌, refl,
  ==_iff, arith,
}
use cell.Limine.Crc.{entry, crc32}

-- One bit of the division by 0xedb88320, the reflected CRC-32 polynomial.
abbrev pub divide_bit : ℕ → ℕ
divide_bit r = if r % 2 == 1 then bit_xor (r / 2) 0xedb88320 else r / 2

unfoldable pub divide_bits : ℕ → ℕ → ℕ
divide_bits zero r = r
divide_bits (suc n) r = divide_bits n (divide_bit r)

all_below : ℕ → (ℕ → Bool) → Bool
all_below zero p = true
all_below (suc n) p = p n && all_below n p

all_below_lem : (n : ℕ) (p : ℕ → Bool) (x : ℕ) → all_below n p ≡ true → x < n → p x ≡ true
unfolding all_below
all_below_lem zero p x h small = absurd (omega arith)
all_below_lem (suc n) p x h small = ground (arith, all_below_lem n p x)

checked : all_below 256 (λ i. entry i == divide_bits 8 i) ≡ true
unfolding all_below entry divide_bits
checked = refl

-- The entry at each index below 256 is what eight steps of the division by the reflected
-- polynomial 0xedb88320 make of the index.
pub entry-divide_bits : (i : ℕ) → i < 256 → entry i ≡ divide_bits 8 i
entry-divide_bits i small = (==_iff _ _).0 (all_below_lem 256 _ i checked small)

-- The check value of CRC-32: that of the text "123456789".
check_value : crc32 (λ j. j + 0x31) 9 ≡ 0xcbf43926
unfolding crc32 cell.Limine.Crc.crc_loop cell.Limine.Crc.crc_byte entry
check_value = refl
