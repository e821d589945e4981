-- ===== src/Limine/Install/Tests.antt =====
-- Runs of `bios_install` of limine.c that succeed, on a blank device.
use cell.Base.{
  ℕ, ◌+◌, ◌^◌, ltb, Bool, true, false, [], List, Option, none, some, ◌≡◌, refl, ap, arith, ltb→lt,
}
use cell.Limine.Tool.{Tool, UninstallData, cache_clean}
use cell.Limine.Gpt.{Host, Options}
use cell.Limine.Install.Gpt.{IsHost}
use cell.Limine.Uninstall.Rollback.{RolledBack}
use cell.Limine.Uninstall.Reloaded.{Reread, load_uninstall_data-store_uninstall_data}
use cell.Limine.Install.Outcome.{DoneOrUndone, bios_install_lem}
use cell.Limine.Install.Later.{bios_uninstall-bios_install}
use cell.Limine.Tool.{set_pos, fread_cache, fwrite_cache}
use cell.Limine.Device.{
  init_guesses, device_init, write_back, device_flush_cache, fill_cache, device_cache_block,
  read_part, read_loop, device_read, write_part, write_loop, save_old, count_entry, device_write,
}
use cell.Limine.Endian.{
  endswap16, endswap32, endswap64, endswap, load_le, load_be, load, store, field,
}
use cell.Limine.Uninstall.{reverse_loop, reverse_uninstall_data, undo, undo_loop, uninstall}
use cell.Limine.Uninstall.Store.{
  bytes_to_list, fwrite_bytes, fread_bytes, store_entry, store_entries, store_uninstall_data,
  load_entry, load_entries, load_uninstall_data, bios_uninstall,
}
use cell.Limine.Gpt.{has_text, is_unused, for_loop}
use cell.Limine.Gpt.Probe.{probe, check_secondary}
use cell.Limine.Gpt.Convert.{convert_entry, gather, write_entry, write_entries, write_mbr, convert}
use cell.Limine.Install.Mbr.{
  check_flag, check_start, check_slot, check_text, check_magic, check_slots, check_file_systems,
  set_active, check_mbr,
}
use cell.Limine.Install.Stage2.{
  default_split, in_partition, use_partition, count_used, new_header, clear_entries, shrink_tables,
  embed, place,
}
use cell.Limine.Install.Write.{write_stages, check_table, install, bios_install}

abbrev no_data : ℕ → UninstallData
no_data k = record { bytes = λ x. 0; loc = 0; count = 0 }

abbrev blank_disk : Tool
blank_disk = record {
  device = record { content = λ x. 0; size = 32768; pos = 0 };
  faults = [];
  cache_state = cache_clean;
  cached_block = 0;
  cache = λ x. 0;
  block_size = 512;
  uninstalling = false;
  uninstall_data = no_data;
  uninstall_data_i = 0;
  undefined = false;
}

-- The image has a stage 1 and two halves of stage 2 of one sector each.
abbrev small_host : Host
small_host = record {
  bigendian = false;
  image = λ j. 0x90;
  image_size = 1536;
  rand = λ i. 4;
  available = λ n. ltb n (2 ^ 32);
}

small_host-IsHost : IsHost small_host
small_host-IsHost = record {
  allocated = λ n given. omega (arith, ltb→lt n (2 ^ 32) given);
  long = omega arith;
  short = omega arith;
}

abbrev plain_options : Options
plain_options = record { force_mbr = false; gpt2mbr_allowed = true; part_ndx = none }

abbrev installed : Bool × Tool
installed = bios_install small_host plain_options blank_disk

installs : installed ≡ (true, installed.1)
unfolding set_pos fread_cache fwrite_cache init_guesses device_init write_back device_flush_cache
    fill_cache device_cache_block read_part read_loop device_read write_part write_loop save_old
    count_entry device_write endswap16 endswap32 endswap64 endswap load_le load_be load store field
    reverse_loop reverse_uninstall_data undo undo_loop uninstall bytes_to_list fwrite_bytes
    fread_bytes store_entry store_entries store_uninstall_data load_entry load_entries
    load_uninstall_data bios_uninstall has_text is_unused for_loop probe check_secondary
    convert_entry gather write_entry write_entries write_mbr convert check_flag check_start
    check_slot check_text check_magic check_slots check_file_systems set_active check_mbr
    default_split in_partition use_partition count_used new_header clear_entries shrink_tables embed
    place write_stages check_table install bios_install
installs = ap (λ (ok : Bool). (ok, installed.1)) succeeds
  where
    succeeds : (installed).0 ≡ true
    succeeds = refl

abbrev the_file : Option (List ℕ) → List ℕ
the_file none = []
the_file (some file) = file

abbrev is_written : Option (List ℕ) → Bool
is_written none = false
is_written (some file) = true

is_written-some : (o : Option (List ℕ)) → is_written o ≡ true → o ≡ some (the_file o)
is_written-some none e = absurd (cc e)
is_written-some (some file) e = refl

abbrev stored : Option (List ℕ) × Tool
stored = store_uninstall_data false installed.1

stores : stored ≡ (some (the_file stored.0), stored.1)
unfolding set_pos fread_cache fwrite_cache init_guesses device_init write_back device_flush_cache
    fill_cache device_cache_block read_part read_loop device_read write_part write_loop save_old
    count_entry device_write endswap16 endswap32 endswap64 endswap load_le load_be load store field
    reverse_loop reverse_uninstall_data undo undo_loop uninstall bytes_to_list fwrite_bytes
    fread_bytes store_entry store_entries store_uninstall_data load_entry load_entries
    load_uninstall_data bios_uninstall has_text is_unused for_loop probe check_secondary
    convert_entry gather write_entry write_entries write_mbr convert check_flag check_start
    check_slot check_text check_magic check_slots check_file_systems set_active check_mbr
    default_split in_partition use_partition count_used new_header clear_entries shrink_tables embed
    place write_stages check_table install bios_install
stores = ap (λ (file : Option (List ℕ)). (file, stored.1)) (is_written-some stored.0 written)
  where
    written : is_written stored.0 ≡ true
    written = refl

-- The program is started again.
abbrev started_again : Tool
started_again = record blank_disk { device = record (installed.1.device) { pos = 0 } }

bios_uninstall-bios_install_example :
    RolledBack blank_disk (bios_uninstall false (some (the_file stored.0)) started_again)
bios_uninstall-bios_install_example =
    bios_uninstall-bios_install small_host plain_options blank_disk installed.1 stored.1
      started_again (the_file stored.0) small_host-IsHost refl (omega arith) refl refl installs
      stores refl refl refl

-- Two entries.
abbrev two_entries : Tool
two_entries = record blank_disk {
  uninstall_data = λ k. record { bytes = λ j. j + k; loc = 510; count = 4 };
  uninstall_data_i = 2;
}

abbrev stored_two : Option (List ℕ) × Tool
stored_two = store_uninstall_data true two_entries

stores_two : stored_two ≡ (some (the_file stored_two.0), stored_two.1)
unfolding store_uninstall_data store_entries store_entry fwrite_bytes bytes_to_list store
stores_two =
    ap (λ (file : Option (List ℕ)). (file, stored_two.1)) (is_written-some stored_two.0 written)
  where
    written : is_written stored_two.0 ≡ true
    written = refl

load_uninstall_data-store_uninstall_data_example :
    Reread two_entries blank_disk (load_uninstall_data true (the_file stored_two.0) blank_disk)
load_uninstall_data-store_uninstall_data_example =
    load_uninstall_data-store_uninstall_data true two_entries stored_two.1 blank_disk
      (the_file stored_two.0) refl (omega arith) (λ k h. (omega arith, omega arith)) stores_two refl

-- A device that has no room for stage 2 of a larger image.
abbrev small_disk : Tool
small_disk = record blank_disk { device = record { content = λ x. 0; size = 8192; pos = 0 } }

abbrev large_host : Host
large_host = record small_host { image_size = 19250 }

large_host-IsHost : IsHost large_host
large_host-IsHost = record {
  allocated = small_host-IsHost.allocated;
  long = omega arith;
  short = omega arith;
}

fails_defined :
    ((bios_install large_host plain_options small_disk).0 ≡ false)
    × ((bios_install large_host plain_options small_disk).1.undefined ≡ false)
unfolding set_pos fread_cache fwrite_cache init_guesses device_init write_back device_flush_cache
    fill_cache device_cache_block read_part read_loop device_read write_part write_loop save_old
    count_entry device_write endswap16 endswap32 endswap64 endswap load_le load_be load store field
    reverse_loop reverse_uninstall_data undo undo_loop uninstall bytes_to_list fwrite_bytes
    fread_bytes store_entry store_entries store_uninstall_data load_entry load_entries
    load_uninstall_data bios_uninstall has_text is_unused for_loop probe check_secondary
    convert_entry gather write_entry write_entries write_mbr convert check_flag check_start
    check_slot check_text check_magic check_slots check_file_systems set_active check_mbr
    default_split in_partition use_partition count_used new_header clear_entries shrink_tables embed
    place write_stages check_table install bios_install
fails_defined = (refl, refl)

bios_install_lem_example :
    DoneOrUndone small_disk (bios_install large_host plain_options small_disk)
bios_install_lem_example =
    bios_install_lem large_host plain_options small_disk large_host-IsHost refl (omega arith) refl
      refl fails_defined.1
