-- ===== src/Limine/Install/Mbr.antt =====
-- "Do all sanity checks on MBR" in `bios_install`.
use cell.Base.{
  ℕ, ◌+◌, ltb, ◌==◌, ◌&&◌, ◌||◌, not, bit_and, if◌then◌else◌, Bool, true, false, List, [], ◌∷◌,
}
use cell.Limine.Tool.{M, pure, fail, ◌>>=◌, ◌>>◌}
use cell.Limine.Device.{blank, device_read, device_write}
use cell.Limine.Endian.{w16, w32, store, field, endswap}
use cell.Limine.Gpt.{has_text}

-- `mbr` and `any_active`.
pub record Checks : Type 0 where
  pub mbr : Bool
  pub any_active : Bool

-- The boot flag at `at`: `mbr` and the flag that stands there afterwards.
unfoldable pub check_flag : Bool → ℕ → ℕ → Bool → M (Bool × ℕ)
check_flag force_mbr at hint8 mbr =
    if not (hint8 == 0x00) && not (hint8 == 0x80)
    then (if force_mbr
        then device_write (λ j. bit_and hint8 0x80) at 1 >> pure (mbr, bit_and hint8 0x80)
        else pure (false, hint8))
    else pure (mbr, hint8)

-- `goto part_too_low` is a failure.
unfoldable pub check_start : Bool → ℕ → M (Unit {0})
check_start big at = device_read (at + 4) 1 >>= λ hint8.
    if not (hint8 0 == 0x00)
    then (do
      hint32 ← device_read (at + 8) 4
      if ltb (field big w32 hint32 0) 63 then fail else pure tt)
    else pure tt

-- The checks of the partition entry at `at`.
unfoldable pub check_slot : Bool → Bool → ℕ → Checks → M Checks
unfolding check_flag check_start
check_slot big force_mbr at checks = device_read at 1 >>= λ hint8.
    check_flag force_mbr at (hint8 0) checks.mbr >>= λ (mbr, flag).
    check_start big at
    >> pure (record { mbr = mbr; any_active = checks.any_active || not (bit_and flag 0x80 == 0) })

-- A signature of a file system at `at`, over which `wiped` zero bytes are written if forced.
unfoldable pub check_text : Bool → List ℕ → ℕ → ℕ → ℕ → Checks → M Checks
check_text force_mbr text at size wiped checks = device_read at size >>= λ hintc.
    if has_text text hintc 0
    then (if force_mbr
        then device_write blank at wiped >> pure checks
        else pure (record checks { mbr = false }))
    else pure checks

-- The magic number of ext2 at 1080.
unfoldable pub check_magic : Bool → Bool → Checks → M Checks
check_magic big force_mbr checks = device_read 1080 2 >>= λ hint16.
    if field big w16 hint16 0 == 0xef53
    then (if force_mbr
        then device_write (store big w16 (endswap big w16 0)) 1080 2 >> pure checks
        else pure (record checks { mbr = false }))
    else pure checks

-- "_ECH_FS_", "NTFS", "FAT" and "FAT32"
abbrev pub ech_fs : List ℕ
ech_fs = 95 ∷ 69 ∷ 67 ∷ 72 ∷ 95 ∷ 70 ∷ 83 ∷ 95 ∷ []

abbrev pub ntfs : List ℕ
ntfs = 78 ∷ 84 ∷ 70 ∷ 83 ∷ []

abbrev pub fat : List ℕ
fat = 70 ∷ 65 ∷ 84 ∷ []

abbrev pub fat32 : List ℕ
fat32 = 70 ∷ 65 ∷ 84 ∷ 51 ∷ 50 ∷ []

unfoldable pub check_slots : Bool → Bool → M Checks
unfolding check_slot
check_slots big force_mbr =
    check_slot big force_mbr 446 (record { mbr = true; any_active = false })
    >>= check_slot big force_mbr 462
    >>= check_slot big force_mbr 478
    >>= check_slot big force_mbr 494

unfoldable pub check_file_systems : Bool → Bool → Checks → M Checks
unfolding check_text check_magic
check_file_systems big force_mbr checks =
    check_text force_mbr ech_fs 4 8 8 checks
    >>= check_text force_mbr ntfs 3 4 4
    >>= check_text force_mbr fat 54 3 5
    >>= check_text force_mbr fat 82 3 5
    >>= check_text force_mbr fat32 3 5 5
    >>= check_magic big force_mbr

-- Partition 1 is made active if none is.
unfoldable pub set_active : Checks → M Bool
set_active checks =
    if checks.mbr && not checks.any_active
    then device_write (λ j. 0x80) 446 1 >> pure checks.mbr
    else pure checks.mbr

-- All the checks, where there is no GPT; the value of `mbr`.
unfoldable pub check_mbr : Bool → Bool → M Bool
unfolding check_slots check_file_systems set_active
check_mbr big force_mbr =
    check_slots big force_mbr >>= check_file_systems big force_mbr >>= set_active
