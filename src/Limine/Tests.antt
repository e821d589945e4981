-- ===== src/Limine/Tests.antt =====
-- Runs of the device layer of limine.c on a small image, and the instances of its theorems.
use cell.Base.{
  List, ◌∷◌, leb, ◌&&◌, ◌^◌, ℕ, ◌+◌, ◌*◌, ◌-◌, ◌%◌, ◌≤◌, ◌<◌, ltb, if◌then◌else◌, true, false, none,
  some, [],
}
use cell.Base.{◌≡◌, refl, ap, arith, inl, inr, ◌⊎◌}
use cell.Limine.Tool.{Tool, cache_clean, set_pos, fread_cache, fwrite_cache}
use cell.Limine.Endian.{endswap, load, load_le, w32}
use cell.Limine.Gpt.{Host, Options}
use cell.Limine.Install.Gpt.{IsHost}
use cell.Limine.Install.Stage2.{default_split}
use cell.Limine.Install.Split.{default_split_lem}
use cell.Base.{◌++◌, ◌==◌}
use cell.Limine.Tool.{patch}
use cell.Limine.Enroll.{
  sign_at, sign_length, enroll_config, find_checksum, search_loop, rounds, checksum_or_zeros,
}
use cell.Limine.Enroll.Search.{IsMatched, enroll_config_lem}
use cell.Limine.Args.{InstallArgs, scanned, enroll_options, remove_arg, shift_args, install_option}
use cell.Limine.Args.Texts.{
  Text, same_text, enroll_command, quiet_option, reset_option, data_file_option,
}
use cell.Limine.Args.Scan.{install_option-data_file}
use cell.Limine.Crc.{entry}
use cell.Limine.Crc.Table.{divide_bits, entry-divide_bits}
use cell.Base.{ltb→lt}
use cell.Limine.Endian.Swap.{endswap-load}
use cell.Limine.Chs.{lba2chs, too_big}
use cell.Limine.Chs.Decode.{decode, decode-lba2chs}
use cell.Limine.Device.{
  blank, device_init, device_write, save_old, count_entry, device_read, read_loop, read_part,
  write_loop, write_part, device_cache_block, device_flush_cache, write_back, fill_cache,
}
use cell.Limine.Device.View.{IsReady, view}
use cell.Limine.Device.Read.{ReadOk, device_read_lem}
use cell.Limine.Device.Journal.{Written, Refused, device_write_lem}
use cell.Limine.Device.Init.{Unread, IsFresh, Initialised, device_init_lem}
use cell.Limine.Uninstall.{undo_work, no_data, uninstall, reverse_uninstall_data}
use cell.Limine.Uninstall.Reverse.{reverse_uninstall_data_lem}
use cell.Limine.Uninstall.Restore.{IsUndoable, Restored, uninstall_lem}
use cell.Limine.Uninstall.Work.{begun, has_written, stopped}
use cell.Limine.Uninstall.Rollback.{RolledBack, undo_work_lem}

-- An image of 1024 bytes.
abbrev image : Tool
image = record {
  device = record { content = λ i. i % 251; size = 1024; pos = 0 };
  faults = [];
  cache_state = cache_clean;
  cached_block = 0;
  cache = λ j. j % 251;
  block_size = 512;
  uninstalling = false;
  uninstall_data = no_data;
  uninstall_data_i = 0;
  undefined = false;
}

image-IsReady : IsReady image
image-IsReady = record {
  calm = refl;
  sized = omega arith;
  small = omega arith;
  cached = inl (omega arith);
  coherent = λ _ _ j h. ap (λ (x : ℕ). x % 251) (omega arith);
}

image-IsFresh : IsFresh image
image-IsFresh = record {
  ready = image-IsReady;
  clean = refl;
  no_entries = refl;
  not_uninstalling = refl;
}

device_init_lem_example :
    (512 ≤ 1024 → Initialised image (device_init image))
    × (1024 < 512 → Unread image (device_init image))
device_init_lem_example = device_init_lem {t = image} refl (omega arith) refl refl

device_read_lem_example : ReadOk image blank 500 100 0 (device_read 500 100 image)
device_read_lem_example = device_read_lem 500 100 image-IsReady (omega arith)

abbrev ones : ℕ → ℕ
ones j = 1

device_write_lem_example :
    Written image ones 510 4 (device_write ones 510 4 image)
    ⊎ Refused image 510 4 (device_write ones 510 4 image)
device_write_lem_example = device_write_lem ones 510 4 image-IsReady refl (omega arith, omega arith)

-- The image with four bytes over the end of its first block written.
abbrev overwritten : Tool
overwritten = (device_write ones 510 4 image).1

writes : device_write ones 510 4 image ≡ (some tt, overwritten)
unfolding device_write save_old count_entry device_read read_loop read_part write_loop write_part
    device_cache_block device_flush_cache write_back fill_cache set_pos fread_cache fwrite_cache
writes = refl

-- The write is seen at once, and reaches the device once another block is wanted.
written_bytes :
    (view overwritten 509 ≡ 7)
    × (view overwritten 510 ≡ 1)
    × (view overwritten 513 ≡ 1)
    × (overwritten.device.content 511 ≡ 1)
    × (overwritten.device.content 513 ≡ 11)
unfolding device_write save_old count_entry device_read read_loop read_part write_loop write_part
    device_cache_block device_flush_cache write_back fill_cache set_pos fread_cache fwrite_cache
written_bytes = (refl, refl, refl, refl, refl)

undo_work_lem_example : RolledBack image (undo_work overwritten)
undo_work_lem_example =
    undo_work_lem image-IsFresh
      (stopped (has_written ones 510 4 (omega arith, omega arith) writes begun))

endswap-load_example : endswap true w32 (load true w32 (λ j. j + 1)) ≡ load_le 4 (λ j. j + 1)
endswap-load_example = endswap-load true w32 (λ j. j + 1)

decode-lba2chs_example :
    (1000000 < 63 * 255 * 1024 → decode (lba2chs 1000000) ≡ 1000000)
    × (63 * 255 * 1024 ≤ 1000000 → lba2chs 1000000 ≡ too_big)
decode-lba2chs_example = decode-lba2chs 1000000

-- A journal of two entries, the second over a part of the first.
abbrev journaled : Tool
journaled = record image {
  uninstall_data = λ k.
      if ltb k 1
      then record { bytes = ones; loc = 510; count = 4 }
      else record { bytes = λ j. 2; loc = 512; count = 1 };
  uninstall_data_i = 2;
  undefined = false;
}

journaled-IsUndoable : IsUndoable journaled
journaled-IsUndoable = record {
  calm = refl;
  sized = omega arith;
  small = omega arith;
  entries_inside = λ k h. inr (ground arith);
}

uninstall_lem_example : Restored journaled (uninstall journaled)
uninstall_lem_example = uninstall_lem journaled-IsUndoable

reverse_uninstall_data_lem_example :
    (reverse_uninstall_data journaled).uninstall_data 0 ≡ journaled.uninstall_data (2 - 1 - 0)
reverse_uninstall_data_lem_example =
    reverse_uninstall_data_lem journaled (omega arith) 0 (omega arith)

abbrev no_install : InstallArgs
no_install = record {
  device_name = none;
  part_ndx = none;
  force_mbr = false;
  gpt2mbr_allowed = true;
  uninstall_mode = false;
  uninstall_file = none;
  quiet = false;
}

abbrev host : Host
host = record {
  bigendian = false;
  image = λ j. 0x90;
  image_size = 19250;
  rand = λ i. 4;
  available = λ n. ltb n (2 ^ 32);
}

host-IsHost : IsHost host
host-IsHost = record {
  allocated = λ n given. omega (arith, ltb→lt n (2 ^ 32) given);
  long = omega arith;
  short = omega arith;
}

abbrev options : Options
options = record { force_mbr = false; gpt2mbr_allowed = true; part_ndx = none }

default_split_lem_example :
    ((default_split 19250).stage2_size ≡ 19250 - 512)
    × ((default_split 19250).size_a ≤ 19250 - 512)
    × ((default_split 19250).size_a % 512 ≡ 0)
    × (19250 - 512 ≤ (default_split 19250).size_a + (default_split 19250).size_b)
    × ((default_split 19250).loc_a ≡ 512)
    × ((default_split 19250).loc_b ≡ 512 + (default_split 19250).size_a)
default_split_lem_example = default_split_lem 19250 (omega arith) (omega arith)

entry-divide_bits_example : entry 77 ≡ divide_bits 8 77
entry-divide_bits_example = entry-divide_bits 77 (omega arith)

-- An executable of 300 bytes with the signature at byte 20.
abbrev executable : ℕ → ℕ
executable i = if leb 20 i && ltb i 46 then sign_at (i - 20) else 0

abbrev enrolled : ℕ → ℕ
enrolled = patch executable 46 128 (λ j. 97)

enrolls : enroll_config 300 executable (some (λ j. 97)) ≡ some enrolled
unfolding enroll_config find_checksum search_loop rounds
enrolls = refl

enroll_config_lem_example :
    (loc : ℕ) × (find_checksum 300 executable ≡ some loc)
    × IsMatched executable sign_length loc
    × (loc + 128 ≤ 300)
    × ((i : ℕ) → i < 128 → enrolled (loc + i) ≡ checksum_or_zeros (some (λ j. 97)) i)
    × ((i : ℕ) → (i < loc) ⊎ (loc + 128 ≤ i) → enrolled i ≡ executable i)
enroll_config_lem_example =
    enroll_config_lem 300 executable (some (λ j. 97)) (omega arith) (omega arith) enrolls

-- A signature that follows another `+` is not found.
misses : find_checksum 300 (λ i. if i == 19 then 43 else executable i) ≡ none
unfolding find_checksum search_loop rounds
misses = refl

-- In `enroll-config --quiet --reset file` the second option is not seen.
abbrev skipped_args : List Text
skipped_args = enroll_command ∷ quiet_option ∷ reset_option ∷ (102 ∷ []) ∷ []

skips :
    enroll_options 4 1 (record { argv = skipped_args; quiet = false; reset = false })
    ≡ scanned (record {
      argv = enroll_command ∷ reset_option ∷ (102 ∷ []) ∷ [];
      quiet = true;
      reset = false;
    })
unfolding enroll_options remove_arg shift_args same_text
skips = refl

install_option-data_file_example :
    install_option (λ _. true) (data_file_option ++ (117 ∷ [])) no_install
    ≡ scanned (record no_install { uninstall_file = some (61 ∷ 117 ∷ []) })
install_option-data_file_example = install_option-data_file (λ _. true) (117 ∷ []) no_install
