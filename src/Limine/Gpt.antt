-- ===== src/Limine/Gpt.antt =====
-- GUID partition tables in limine.c: the layout of their structures, the probe for one, and the
-- conversion of the table of a hybrid ISO image to an MBR.
pub mod Probe
pub mod Convert
use cell.Base.{
  ℕ, zero, suc, ◌+◌, ◌-◌, ◌*◌, ◌%◌, ◌^◌, ltb, leb, ◌==◌, ◌&&◌, not, if◌then◌else◌, Bool, true,
  false,
}
use cell.Base.{Option, none, some, List, [], ◌∷◌, u64_mod}
use cell.Limine.Tool.{M, pure, ◌>>=◌, ◌>>◌, patch}
use cell.Limine.Endian.{Width, w32, w64, bytes_of, store, endswap, field}

-- What the code relies on that is not in limine.c: the host's byte order, the generated image of
-- the boot loader, the values of `rand` and which sizes `malloc` can give.
pub record Host : Type 0 where
  pub bigendian : Bool
  pub image : ℕ → ℕ
  pub image_size : ℕ
  pub rand : ℕ → ℕ
  pub available : ℕ → Bool

-- The options of `bios_install`; `part_ndx` is the number that `sscanf` reads from its text.
pub record Options : Type 0 where
  pub force_mbr : Bool
  pub gpt2mbr_allowed : Bool
  pub part_ndx : Option ℕ

-- `sizeof` and field offsets of `struct gpt_table_header` and `struct gpt_entry`.
abbrev pub header_size : ℕ
header_size = 96

abbrev pub entry_size : ℕ
entry_size = 128

-- `ENDSWAP` of a header's fields.
module _ (big : Bool) (header : ℕ → ℕ) where
  abbrev pub alternate_lba : ℕ
  alternate_lba = field big w64 header 32

  abbrev pub partition_entry_lba : ℕ
  partition_entry_lba = field big w64 header 72

  abbrev pub number_of_partition_entries : ℕ
  number_of_partition_entries = field big w32 header 80

  abbrev pub size_of_partition_entry : ℕ
  size_of_partition_entry = field big w32 header 84

-- `strncmp` and `memcmp` against a text without a zero byte, at `at` in a buffer.
unfoldable pub has_text : List ℕ → (ℕ → ℕ) → ℕ → Bool
has_text [] buffer at = true
has_text (c ∷ text) buffer at = (buffer at == c) && has_text text buffer (at + 1)

-- `unique_partition_guid` is all zero. The byte order does not matter for that.
unfoldable pub is_unused : Bool → (ℕ → ℕ) → Bool
is_unused big e = (field big w64 e 16 == 0) && (field big w64 e 24 == 0)

-- `for (i = …; …; i++)` with `left` rounds to go, where the body may leave by `goto cleanup`.
unfoldable pub for_loop : ℕ → ℕ → (ℕ → M (Unit {0})) → M (Unit {0})
for_loop zero i body = pure tt
for_loop (suc left) i body = body i >> for_loop left (i + 1) body
