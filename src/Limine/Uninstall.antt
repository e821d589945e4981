-- ===== src/Limine/Uninstall.antt =====
-- Undoing an installation in limine.c: `reverse_uninstall_data` and `uninstall`, as the cleanup of
-- `bios_install` calls them.
pub mod Reverse
pub mod Restore
pub mod Work
pub mod Kept
pub mod Made
pub mod Rollback
pub mod Store
pub mod Encode
pub mod Saved
pub mod Loaded
pub mod Reloaded
use cell.Base.{ℕ, zero, suc, ◌+◌, ltb, if◌then◌else◌, Bool, true, false, Option, none, some, sub64}
use cell.Limine.Tool.{Tool, CacheState, cache_clean, UninstallData}
use cell.Limine.Device.{no_block, update, blank, device_flush_cache, device_write}

-- `for (i = 0, j = uninstall_data_i - 1; i < uninstall_data_i; i++, j--)`: what the rest of the
-- loop leaves in `uninstall_data_rev`, with `j` a `size_t`. The first argument is the number of
-- rounds left.
unfoldable pub reverse_loop :
    ℕ → ℕ → ℕ → (ℕ → UninstallData) → (ℕ → UninstallData) → ℕ → UninstallData
reverse_loop zero i j entries rev = rev
reverse_loop (suc left) i j entries rev =
    reverse_loop left (i + 1) (sub64 j 1) entries (update rev j (entries i))

-- `uninstall_data_rev` before the loop, as C initialises it.
abbrev pub no_data : ℕ → UninstallData
no_data k = record { bytes = blank; loc = 0; count = 0 }

-- `reverse_uninstall_data`, with the `memcpy` of the first `uninstall_data_i` entries.
unfoldable pub reverse_uninstall_data : Tool → Tool
reverse_uninstall_data t =
    let rev =
      reverse_loop t.uninstall_data_i 0 (sub64 t.uninstall_data_i 1) t.uninstall_data no_data in
    record t {
      uninstall_data = λ k. if ltb k t.uninstall_data_i then rev k else t.uninstall_data k;
    }

-- `print_write_fail` and `print_cache_flush_fail`.
pub record Warnings : Type 0 where
  pub write_fail : Bool
  pub cache_flush_fail : Bool

abbrev pub no_warnings : Warnings
no_warnings = record { write_fail = false; cache_flush_fail = false }

abbrev pub forget_cache : Tool → Tool
forget_cache t = record t { cache_state = cache_clean; cached_block = no_block }

-- The second round of the loop `while (!_device_write(...))`, where `retry` is set.
abbrev pub retried : Warnings → Option (Unit {0}) × Tool → Warnings × Tool
retried w (some _, t) = (w, t)
retried w (none, t) = (record w { write_fail = true }, t)

abbrev pub flushed : Warnings → Option (Unit {0}) × Tool → Warnings × Tool
flushed w (some _, t) = (w, t)
flushed w (none, t) = (record w { cache_flush_fail = true }, t)

abbrev pub retry : UninstallData → Warnings × Tool → Warnings × Tool
retry ud (w, t) = retried w (device_write ud.bytes ud.loc ud.count (forget_cache t))

-- The loop `while (!_device_write(...))` at one entry.
abbrev pub tried : UninstallData → Warnings → Option (Unit {0}) × Tool → Warnings × Tool
tried ud w (some _, t) = (w, t)
tried ud w (none, t) = retry ud (flushed w (device_flush_cache t))

unfoldable pub undo : UninstallData → Warnings → Tool → Warnings × Tool
undo ud w t = tried ud w (device_write ud.bytes ud.loc ud.count t)

-- `for (i = 0; i < uninstall_data_i; i++)`, with the number of entries left first.
unfoldable pub undo_loop : ℕ → ℕ → Warnings × Tool → Warnings × Tool
undo_loop zero i (w, t) = (w, t)
undo_loop (suc left) i (w, t) = undo_loop left (i + 1) (undo (t.uninstall_data i) w t)

abbrev pub verdict : Warnings × Tool → Bool × Tool
verdict (w, t) = (if w.write_fail then false else if w.cache_flush_fail then false else true, t)

abbrev pub flush_after : Warnings × Tool → Warnings × Tool
flush_after (w, t) = flushed w (device_flush_cache t)

-- `uninstall`; its result and the tool afterwards.
unfoldable pub uninstall : Tool → Bool × Tool
unfolding undo_loop
uninstall t =
    let start : Tool = record (forget_cache t) { uninstalling = true } in
    verdict (flush_after (undo_loop t.uninstall_data_i 0 (no_warnings, start)))

-- What the cleanup of `bios_install` does to a device of which an installation has failed.
abbrev pub undo_work : Tool → Bool × Tool
undo_work t = uninstall (reverse_uninstall_data t)
