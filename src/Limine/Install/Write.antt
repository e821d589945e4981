-- ===== src/Limine/Install/Write.antt =====
-- The writes of `bios_install`, and the whole of it after the options are read.
use cell.Base.{◌+◌, if◌then◌else◌, Bool, true, false, Option, none, some, sub64}
use cell.Limine.Tool.{Tool, M, pure, fail, ◌>>=◌, ◌>>◌}
use cell.Limine.Device.{device_init, device_read, device_write, device_flush_cache}
use cell.Limine.Endian.{w16, w64, store, endswap}
use cell.Limine.Uninstall.{reverse_uninstall_data, undo_work}
use cell.Limine.Gpt.{Host, Options}
use cell.Limine.Gpt.Probe.{probe, lb_guesses, check_secondary}
use cell.Limine.Gpt.Convert.{convert}
use cell.Limine.Install.Mbr.{check_mbr}
use cell.Limine.Install.Stage2.{Stage2, place}

-- From "Save original timestamp" on.
unfoldable pub write_stages : Host → Stage2 → M (Unit {0})
write_stages host s =
    let big = host.bigendian in
    do
      timestamp ← device_read 218 6
      orig_mbr ← device_read 440 70
      device_write host.image 0 512
      device_write (λ j. host.image (512 + j)) s.loc_a s.size_a
      device_write (λ j. host.image (512 + s.size_a + j)) s.loc_b (sub64 s.stage2_size s.size_a)
      device_write (store big w16 (endswap big w16 s.size_a)) (0x1a4 + 0) 2
      device_write (store big w16 (endswap big w16 s.size_b)) (0x1a4 + 2) 2
      device_write (store big w64 (endswap big w64 s.loc_a)) (0x1a4 + 4) 8
      device_write (store big w64 (endswap big w64 s.loc_b)) (0x1a4 + 12) 8
      device_write timestamp 218 6
      device_write orig_mbr 440 70
      device_flush_cache

-- "Could not determine if the device has a valid partition table."
unfoldable pub check_table : Host → Options → Bool → M (Unit {0})
check_table host options gpt =
    if gpt
    then pure tt
    else (check_mbr host.bigendian options.force_mbr >>= λ mbr. if mbr then pure tt else fail)

-- Everything between `device_init` and `cleanup`.
unfoldable pub install : Host → Options → M (Unit {0})
install host options = do
  found ← probe options lb_guesses
  g ← check_secondary host found
  gpt ← convert host options g
  check_table host options gpt
  s ← place host options g gpt
  write_stages host s

-- `cleanup`: whether the exit code is `EXIT_SUCCESS`, and the tool at the end. After undefined
-- behaviour the program is not known to get there.
abbrev pub cleanup : Option (Unit {0}) × Tool → Bool × Tool
cleanup (some _, t) = (true, reverse_uninstall_data t)
cleanup (none, t) = (false, if t.undefined then t else (undo_work t).1)

abbrev pub after_init : Host → Options → Option (Unit {0}) × Tool → Bool × Tool
after_init host options (some _, t) = cleanup (install host options t)
after_init host options (none, t) = (false, t)

-- `bios_install`, without `--uninstall`, on an open device.
unfoldable pub bios_install : Host → Options → Tool → Bool × Tool
bios_install host options t = after_init host options (device_init t)
