-- ===== src/Limine/Install/Stage2.antt =====
-- Where `bios_install` puts stage 2 of the boot loader.
use cell.Base.{
  ℕ, zero, suc, ◌+◌, ◌-◌, ◌*◌, ◌/◌, ◌%◌, ◌^◌, ltb, leb, ◌==◌, ◌||◌, bit_and, if◌then◌else◌, Bool,
}
use cell.Base.{Option, none, some, add64, sub64, mul64, u64_mod}
use cell.Limine.Tool.{M, pure, fail, undefined_behaviour, ◌>>=◌, ◌>>◌, patch}
use cell.Limine.Device.{blank, device_read, device_write}
use cell.Limine.Endian.{w32, w64, store, endswap, field}
use cell.Limine.Crc.{crc32}
use cell.Limine.Gpt.{
  Host, Options, header_size, entry_size, alternate_lba, partition_entry_lba,
  number_of_partition_entries,
}
use cell.Limine.Gpt.{size_of_partition_entry, is_unused, for_loop}
use cell.Limine.Gpt.Probe.{Gpt}
use cell.Limine.Gpt.Convert.{entry_at}

-- `stage2_size`, `stage2_size_a`, `stage2_size_b` (two `uint16_t`), `stage2_loc_a` and
-- `stage2_loc_b`.
pub record Stage2 : Type 0 where
  pub stage2_size : ℕ
  pub size_a : ℕ
  pub size_b : ℕ
  pub loc_a : ℕ
  pub loc_b : ℕ

-- "Default split of stage2 for MBR (consecutive in post MBR gap)"
unfoldable pub default_split : ℕ → Stage2
default_split image_size =
    let stage2_size = sub64 image_size 512 in
    let sects = add64 stage2_size (512 - 1) / 512 in
    let a = (sects / 2 * 512 + (if sects % 2 == 0 then 0 else 512)) % 2 ^ 16 in
    record {
      stage2_size = stage2_size;
      size_a = a;
      size_b = sects / 2 * 512 % 2 ^ 16;
      loc_a = 512;
      loc_b = 512 + a;
    }

-- `x & ~(lb_size - 1)`
abbrev pub align_down : ℕ → ℕ → ℕ
align_down lb_size x = bit_and x (u64_mod - 1 - (lb_size - 1))

-- The two halves in the partition that starts at `first` (in logical blocks).
unfoldable pub in_partition : ℕ → ℕ → Stage2 → Stage2
in_partition lb_size first s =
    let loc_a = mul64 first lb_size in
    let loc_b = add64 loc_a s.size_a in
    record s {
      loc_a = loc_a;
      loc_b =
          if bit_and loc_b (lb_size - 1) == 0
          then loc_b
          else align_down lb_size (add64 loc_b lb_size);
    }

-- With a partition index: `number` is `partition_num` before it is decremented, a `uint32_t`.
unfoldable pub use_partition : Host → Gpt → ℕ → Stage2 → M Stage2
unfolding in_partition
use_partition host g number s =
    let big = host.bigendian in
    let partition_num = (number + 2 ^ 32 - 1) % 2 ^ 32 in
    let at =
      add64 (mul64 (partition_entry_lba big g.header) g.lb_size)
        (partition_num * size_of_partition_entry big g.header % 2 ^ 32) in
    if ltb (number_of_partition_entries big g.header) partition_num then fail else (do
      e ← device_read at entry_size
      let first : ℕ = field big w64 e 32
      let last : ℕ = field big w64 e 40
      if is_unused big e || ltb (mul64 (add64 (sub64 last first) 1) g.lb_size) 32768
          then fail
          else pure (in_partition g.lb_size first s))

-- The loop over the entries: the last used one, as `max_partition_entry_used + 1`.
unfoldable pub count_used : Bool → Gpt → ℕ → ℕ → ℕ → M ℕ
count_used big g zero i used = pure used
count_used big g (suc left) i used =
    let rest = count_used big g left (i + 1) in
    device_read (entry_at big g i) entry_size >>= λ e.
    if is_unused big e then rest used else rest (if leb used i then i + 1 else used)

-- `header.field = value`, of the field of `n` bytes at `offset`.
abbrev pub set_field : (ℕ → ℕ) → ℕ → ℕ → (ℕ → ℕ) → ℕ → ℕ
set_field header offset n bytes = patch header offset n bytes

-- A header for `count` entries, of which the array has the given checksum. The count is a
-- `size_t`, of which the field takes 32 bits.
unfoldable pub new_header : Bool → ℕ → ℕ → (ℕ → ℕ) → ℕ → ℕ
new_header big crc count header =
    let h₁ = set_field header 88 4 (store big w32 (endswap big w32 crc)) in
    let h₂ = set_field h₁ 80 4 (store big w32 (endswap big w64 count % 2 ^ 32)) in
    let h₃ = set_field h₂ 16 4 blank in
    set_field h₃ 16 4 (store big w32 (endswap big w32 (crc32 h₃ 92)))

-- The last logical blocks of the 32 that the entries of a table have.
abbrev pub embed_at : Bool → ℕ → (ℕ → ℕ) → ℕ → ℕ
embed_at big lb_size header size =
    align_down lb_size (sub64 (mul64 (add64 (partition_entry_lba big header) 32) lb_size) size)

-- What is written to a table that is cut down to `count` entries, `used` of them used: entries of
-- zeros from the buffer `empty` of `empty_size` bytes. To read past its end is undefined.
unfoldable pub clear_entries : Bool → ℕ → (ℕ → ℕ) → ℕ → ℕ → ℕ → M (Unit {0})
clear_entries big lb_size header empty_size used count =
    let size = size_of_partition_entry big header in
    for_loop (count - used) used (λ i.
      if ltb empty_size size
      then undefined_behaviour
      else device_write blank
          (add64 (mul64 (partition_entry_lba big header) lb_size) (mul64 i size)) size)

-- The rest of the embedding, for the new number of entries. `empty` has the size of an entry of the
-- primary table, for both loops; the null pointer of a `calloc` that fails, which is not tested, is
-- a buffer of no bytes.
unfoldable pub shrink_tables : Host → Gpt → ℕ → ℕ → M (Unit {0})
shrink_tables host g used count =
    let big = host.bigendian in
    let array_size = mul64 count (size_of_partition_entry big g.header) in
    let size = size_of_partition_entry big g.header in
    let empty_size = if host.available size then size else 0 in
    do
      clear_entries big g.lb_size g.header empty_size used count
      clear_entries big g.lb_size g.secondary empty_size used count
      if host.available array_size then pure tt else fail
      partition_array ← device_read (mul64 (partition_entry_lba big g.header) g.lb_size) array_size
      let crc : ℕ = crc32 partition_array array_size
      device_write (new_header big crc count g.header) g.lb_size header_size
      device_write (new_header big crc count g.secondary)
          (mul64 g.lb_size (alternate_lba big (new_header big crc count g.header))) header_size

-- "Attempting GPT embedding". The division by an entry size of 0 is undefined.
unfoldable pub embed : Host → Gpt → Stage2 → M Stage2
embed host g s =
    let big = host.bigendian in
    let size = size_of_partition_entry big g.header in
    let loc_a = embed_at big g.lb_size g.header s.size_a in
    let loc_b = embed_at big g.lb_size g.secondary s.size_b in
    let array_lbs = sub64 (loc_a / g.lb_size) (partition_entry_lba big g.header) in
    let count = mul64 array_lbs (g.lb_size / size) in
    do
      used ← count_used big g (number_of_partition_entries big g.header) 0 0
      if size == 0 then undefined_behaviour else pure tt
      if leb (2 ^ 63) count || ltb count used then fail else pure tt
      shrink_tables host g used count
      pure (record s { loc_a = loc_a; loc_b = loc_b })

abbrev pub place_gpt : Host → Gpt → Option ℕ → Stage2 → M Stage2
place_gpt host g none s = embed host g s
place_gpt host g (some number) s = use_partition host g number s

unfoldable pub place : Host → Options → Gpt → Bool → M Stage2
place host options g gpt =
    let s = default_split host.image_size in
    if gpt then place_gpt host g options.part_ndx s else pure s
