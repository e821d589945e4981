-- ===== src/Limine/Chs.antt =====
-- Disk geometry and partition types in limine.c: `lba2chs` and `gpt2mbr_type`.
pub mod Decode
use cell.Base.{
  ℕ, zero, suc, ◌+◌, ◌-◌, ◌*◌, ◌/◌, ◌%◌, ◌^◌, bit_and, bit_or, ltb, leb, ◌==◌, ◌&&◌, if◌then◌else◌,
}
use cell.Base.{Option, none, some, List, [], ◌∷◌, Bool, true, false}

-- `uint8_t chs[3]`
pub record Chs : Type 0 where
  pub c0 : ℕ
  pub c1 : ℕ
  pub c2 : ℕ

-- "a standard value", at `lba_too_big`.
abbrev pub too_big : Chs
too_big = record { c0 = 0xfe; c1 = 0xff; c2 = 0xff }

unfoldable pub lba2chs : ℕ → Chs
lba2chs lba =
    let cylinder = lba / (255 * 63) in
    let head = lba / 63 % 255 in
    let sector = lba % 63 + 1 in
    if ltb (63 * 255 * 1024) lba then too_big else if leb 1024 cylinder then too_big else record {
      c0 = head % 2 ^ 8;
      c1 = bit_or (bit_and (cylinder / 2 ^ 2) 0xc0) (bit_and sector 0x3f);
      c2 = cylinder % 2 ^ 8;
    }

pub record TypeConv : Type 0 where
  pub gpt_type1 : ℕ
  pub gpt_type2 : ℕ
  pub mbr_type : ℕ

abbrev pub gpt2mbr_type_conv_table : List TypeConv
gpt2mbr_type_conv_table =
    record { gpt_type1 = 0x11d2f81fc12a7328; gpt_type2 = 0x3bc93ec9a0004bba; mbr_type = 0xef }
    ∷ record { gpt_type1 = 0x4433b9e5ebd0a0a2; gpt_type2 = 0xc79926b7b668c087; mbr_type = 0x07 }
    ∷ record { gpt_type1 = 0x11aa000048465300; gpt_type2 = 0xacec4365300011aa; mbr_type = 0xaf }
    ∷ []

-- The loop of `gpt2mbr_type`; `none` is its `-1`.
unfoldable pub find_type : List TypeConv → ℕ → ℕ → Option ℕ
find_type [] gpt_type1 gpt_type2 = none
find_type (c ∷ rest) gpt_type1 gpt_type2 =
    let later = find_type rest gpt_type1 gpt_type2 in
    if (c.gpt_type1 == gpt_type1) && (c.gpt_type2 == gpt_type2) then some c.mbr_type else later

abbrev pub gpt2mbr_type : ℕ → ℕ → Option ℕ
gpt2mbr_type = find_type gpt2mbr_type_conv_table
