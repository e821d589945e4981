-- ===== src/Limine/Gpt/Convert.antt =====
-- The conversion of a GPT to an MBR in `bios_install`.
use cell.Base.{
  ℕ, zero, suc, ◌+◌, ◌-◌, ◌*◌, ◌%◌, ◌^◌, ltb, ◌==◌, ◌&&◌, if◌then◌else◌, Bool, true, false,
}
use cell.Base.{Option, none, some, List, [], ◌∷◌, ◌++◌, length, add64, sub64, mul64}
use cell.Limine.Tool.{M, pure, fail, undefined_behaviour, ◌>>=◌, ◌>>◌}
use cell.Limine.Device.{blank, device_read, device_write}
use cell.Limine.Endian.{w32, w64, store, endswap, field}
use cell.Limine.Chs.{Chs, lba2chs, gpt2mbr_type}
use cell.Limine.Gpt.{
  Host, Options, entry_size, alternate_lba, partition_entry_lba, number_of_partition_entries,
}
use cell.Limine.Gpt.{size_of_partition_entry, has_text, is_unused, for_loop}
use cell.Limine.Gpt.Probe.{Gpt}

-- "CD001"
abbrev pub cd001 : List ℕ
cd001 = 67 ∷ 68 ∷ 48 ∷ 48 ∷ 49 ∷ []

-- An element of `part_to_conv`.
pub record PartToConv : Type 0 where
  pub lba_start : ℕ
  pub lba_end : ℕ
  pub chs_start : Chs
  pub chs_end : Chs
  pub mbr_type : ℕ

abbrev typed : ℕ → ℕ → Option ℕ → Option PartToConv
typed first last none = none
typed first last (some mbr_type) = some (record {
  lba_start = first;
  lba_end = last;
  chs_start = lba2chs first;
  chs_end = lba2chs last;
  mbr_type = mbr_type;
})

-- What one used entry is converted to; `none` where the code gives the conversion up.
unfoldable pub convert_entry : Bool → (ℕ → ℕ) → Option PartToConv
convert_entry big e =
    let first = field big w64 e 32 in
    let last = field big w64 e 40 in
    if ltb (2 ^ 32 - 1) first
    then none
    else if ltb (2 ^ 32 - 1) last
    then none
    else typed first last (gpt2mbr_type (field big w64 e 0) (field big w64 e 8))

-- Where entry `i` of the primary table is on the device.
abbrev pub entry_at : Bool → Gpt → ℕ → ℕ
entry_at big g i =
    add64 (mul64 (partition_entry_lba big g.header) g.lb_size)
      (mul64 i (size_of_partition_entry big g.header))

abbrev pub add_part :
    List PartToConv
    → Option PartToConv
    → (List PartToConv → M (Option (List PartToConv)))
    → M (Option (List PartToConv))
add_part parts none rest = pure none
add_part parts (some part) rest = rest (parts ++ (part ∷ []))

-- The loop over the entries, with `left` to go; `none` is its `goto no_mbr_conv`. `part_to_conv` has
-- four elements, and a fifth is stored to, which is undefined, before their number is tested.
unfoldable pub gather : Bool → Gpt → ℕ → ℕ → List PartToConv → M (Option (List PartToConv))
unfolding convert_entry
gather big g zero i parts = pure (some parts)
gather big g (suc left) i parts =
    let rest = gather big g left (i + 1) in
    device_read (entry_at big g i) entry_size >>= λ e.
    if is_unused big e
    then rest parts
    else if ltb (2 ^ 32 - 1) (field big w64 e 32)
    then pure none
    else if length parts == 4
    then undefined_behaviour
    else add_part parts (convert_entry big e) rest

abbrev pub chs_bytes : Chs → ℕ → ℕ
chs_bytes chs j = if j == 0 then chs.c0 else if j == 1 then chs.c1 else chs.c2

-- Field at byte `offset` of MBR partition entry `i`.
abbrev pub mbr_field : ℕ → ℕ → ℕ
mbr_field i offset = add64 (0x1be + i * 16) offset

unfoldable pub write_entry : Bool → PartToConv → ℕ → M (Unit {0})
write_entry big part i =
    let lba_start = endswap big w64 part.lba_start % 2 ^ 32 in
    let sect_count = endswap big w64 (add64 (sub64 part.lba_end part.lba_start) 1) % 2 ^ 32 in
    do
      device_write (λ j. part.mbr_type) (mbr_field i 0x04) 1
      device_write (store big w32 lba_start) (mbr_field i 0x08) 4
      device_write (store big w32 sect_count) (mbr_field i 0x0c) 4
      device_write (chs_bytes part.chs_start) (mbr_field i 1) 3
      device_write (chs_bytes part.chs_end) (mbr_field i 5) 3

unfoldable pub write_entries : Bool → List PartToConv → ℕ → M (Unit {0})
write_entries big [] i = pure tt
write_entries big (part ∷ parts) i = write_entry big part i >> write_entries big parts (i + 1)

-- From "Nuke the GPTs" on.
unfoldable pub write_mbr : Host → Gpt → List PartToConv → M (Unit {0})
write_mbr host g parts =
    let alternate = alternate_lba host.bigendian g.header in
    do
      if host.available g.lb_size then pure tt else fail
      for_loop 34 0 (λ i. device_write blank (mul64 i g.lb_size) g.lb_size)
      for_loop 33 0
          (λ i. device_write blank (mul64 (add64 (sub64 alternate 32) i) g.lb_size) g.lb_size)
      for_loop 4 0 (λ i. device_write (λ j. host.rand i) (add64 0x1b8 i) 1)
      write_entries host.bigendian parts 0

abbrev pub write_if : Host → Gpt → Option (List PartToConv) → M Bool
write_if host g none = pure true
write_if host g (some parts) = write_mbr host g parts >> pure false

-- The value of `gpt` at `no_mbr_conv`.
unfoldable pub convert : Host → Options → Gpt → M Bool
convert host options g =
    let big = host.bigendian in
    if g.gpt && options.gpt2mbr_allowed
    then (do
      iso_signature ← device_read 32769 5
      if has_text cd001 iso_signature 0
          then gather big g (number_of_partition_entries big g.header) 0 [] >>= write_if host g
          else pure true)
    else pure g.gpt
