-- ===== src/Limine/Enroll/Tests.antt =====
-- Runs of `enroll_config` of limine.c on an executable of 300 bytes with the signature at byte 20.
use cell.Base.{
  ℕ, ◌+◌, ◌-◌, leb, ltb, ◌&&◌, if◌then◌else◌, true, false, [], ◌∷◌, none, some, ◌≡◌, refl, arith,
}
use cell.Limine.Tool.{patch}
use cell.Limine.Enroll.{sign_at, find_checksum, search_loop, rounds, enroll_config}
use cell.Limine.Enroll.Run.{Executable, enroll_file}
use cell.Limine.Enroll.Calls.{EnrollOutcome}
use cell.Limine.Enroll.Outcome.{enroll_file_lem}
use cell.Limine.Enroll.Again.{enroll_config-again}
use cell.Limine.Enroll.Success.{Enrolled, enroll_file-Enrolled}

abbrev signed : ℕ → ℕ
signed i = if leb 20 i && ltb i 46 then sign_at (i - 20) else 0

abbrev a_checksum : ℕ → ℕ
a_checksum j = 97

abbrev signed_file : Executable
signed_file = record {
  bootloader_file = record { content = signed; size = 300; pos = 0 };
  buffered = none;
  faults = [];
  reached = 60;
}

abbrev no_memory : ℕ → ℕ
no_memory j = 0

-- The call of `fwrite` fails, which is the sixth that can, and 60 bytes have reached the disk.
abbrev full_disk : Executable
full_disk = record signed_file { faults = false ∷ false ∷ false ∷ false ∷ false ∷ true ∷ [] }

enroll_file_lem_example :
    EnrollOutcome no_memory
      (some a_checksum)
      full_disk
      (enroll_file no_memory (some a_checksum) full_disk)
enroll_file_lem_example =
    enroll_file_lem no_memory (some a_checksum) full_disk (omega arith) (omega arith)

fails_to_write :
    ((enroll_file no_memory (some a_checksum) full_disk).0 ≡ false)
    × ((enroll_file no_memory (some a_checksum) full_disk).1.bootloader_file.content 59 ≡ 97)
    × ((enroll_file no_memory (some a_checksum) full_disk).1.bootloader_file.content 60 ≡ 0)
unfolding enroll_file enroll_config find_checksum search_loop rounds
fails_to_write = (refl, refl, refl)

-- `fclose` fails, and the exit code is success.
abbrev full_at_close : Executable
full_at_close = record signed_file {
  faults = false ∷ false ∷ false ∷ false ∷ false ∷ false ∷ true ∷ [];
}

fails_to_close :
    ((enroll_file no_memory (some a_checksum) full_at_close).0 ≡ true)
    × ((enroll_file no_memory (some a_checksum) full_at_close).1.bootloader_file.content 60 ≡ 0)
unfolding enroll_file enroll_config find_checksum search_loop rounds
fails_to_close = (refl, refl)

finds : find_checksum 300 (λ j. if ltb j 300 then signed (0 + j) else 0) ≡ some 46
unfolding find_checksum search_loop rounds
finds = refl

enroll_file-Enrolled_example :
    Enrolled (some a_checksum) signed_file 46 (enroll_file no_memory (some a_checksum) signed_file)
enroll_file-Enrolled_example =
    enroll_file-Enrolled no_memory (some a_checksum) signed_file 46 refl (omega arith) (omega arith)
      finds

abbrev with_checksum : ℕ → ℕ
with_checksum = patch signed 46 128 a_checksum

enrolls_first : enroll_config 300 signed (some a_checksum) ≡ some with_checksum
unfolding enroll_config find_checksum search_loop rounds
enrolls_first = refl

enroll_config-again_example : enroll_config 300 with_checksum none ≡ enroll_config 300 signed none
enroll_config-again_example = enroll_config-again 300 signed (some a_checksum) none enrolls_first
