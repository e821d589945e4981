-- ===== src/Limine/Chs/Decode.antt =====
-- What a BIOS reads in the three bytes of `lba2chs`.
use cell.Base.{ℕ, ◌+◌, ◌-◌, ◌*◌, ◌/◌, ◌%◌, ◌≤◌, ◌<◌, bit_and, bit_or, ltb, leb, false}
use cell.Base.{◌≡◌, refl, ap, ◌∙◌, arith}
use cell.Base.Bits.{bit_and_3, bit_and_63, bit_and_shift, bit_or_shift, bit_or_comm}
use cell.Limine.Chs.{Chs, lba2chs, too_big}

-- Head in byte 0, sector in the low six bits of byte 1, cylinder in its two high bits and byte 2.
abbrev pub decode : Chs → ℕ
decode chs =
    let cylinder = chs.c2 + chs.c1 / 64 * 256 in (cylinder * 255 + chs.c0) * 63 + chs.c1 % 64 - 1

high_bits : (x : ℕ) → bit_and x 0xc0 ≡ x / 64 % 4 * 64
high_bits x = bit_and_shift 6 x 3 ∙ ap (λ (y : ℕ). y * 64) (bit_and_3 (x / 64))

-- The byte that the cylinder and the sector share.
shared_byte :
    (high sector : ℕ)
    → bit_or (bit_and high 0xc0) (bit_and sector 0x3f) ≡ sector % 64 + high / 64 % 4 * 64
shared_byte high sector =
    ap (λ (x : ℕ). bit_or x (bit_and sector 0x3f)) (high_bits high)
    ∙ ap (bit_or (high / 64 % 4 * 64)) (bit_and_63 sector)
    ∙ bit_or_comm (high / 64 % 4 * 64) (sector % 64)
    ∙ bit_or_shift 6 (sector % 64) (high / 64 % 4) (omega arith)

lba2chs-small :
    (lba : ℕ)
    → lba < 63 * 255 * 1024
    → lba2chs lba ≡ record {
      c0 = lba / 63 % 255;
      c1 = lba % 63 + 1 + lba / 16065 / 256 * 64;
      c2 = lba / 16065 % 256;
    }
unfolding lba2chs
lba2chs-small lba h =
    let near : ltb (63 * 255 * 1024) lba ≡ false = ground arith in
    let below : leb 1024 (lba / 16065) ≡ false = ground arith in
    let head : lba / 63 % 255 % 256 ≡ lba / 63 % 255 = omega arith in
    let shared : bit_or (bit_and (lba / 16065 / 4) 0xc0) (bit_and (lba % 63 + 1) 0x3f)
        ≡ lba % 63 + 1 + lba / 16065 / 256 * 64 =
      shared_byte (lba / 16065 / 4) (lba % 63 + 1) ∙ omega arith in
    rw (near, below, head, shared) refl

decode-parts :
    (lba : ℕ)
    → lba < 63 * 255 * 1024
    → decode (record {
      c0 = lba / 63 % 255;
      c1 = lba % 63 + 1 + lba / 16065 / 256 * 64;
      c2 = lba / 16065 % 256;
    })
      ≡ lba
decode-parts lba h = omega arith

-- Below 1024 cylinders the three bytes give the address back; from there on they are fixed.
pub decode-lba2chs :
    (lba : ℕ)
    → (lba < 63 * 255 * 1024 → decode (lba2chs lba) ≡ lba)
      × (63 * 255 * 1024 ≤ lba → lba2chs lba ≡ too_big)
unfolding lba2chs
decode-lba2chs lba =
    ((λ h. ap decode (lba2chs-small lba h) ∙ decode-parts lba h), (λ h. ground arith))
