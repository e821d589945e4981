-- ===== src/Limine/Device/Entry.antt =====
-- What `_device_write` promises outside of uninstalling, and its calls in their order.
use cell.Base.{ℕ, suc, ◌+◌, ◌≤◌, ◌<◌, leb}
use cell.Base.{◌≡◌, ◌≢◌, ◌⊎◌, arith, true, false, Option, none, some, []}
use cell.Limine.Tool.{Tool, UninstallData}
use cell.Limine.Device.{
  update, save_old, count_entry, uninstall_data_max, device_read, device_write, write_loop,
}
use cell.Limine.Device.View.{view, IsReady}
use cell.Limine.Device.Block.{IsSettled}
use cell.Limine.Device.Part.{whole}
use cell.Limine.Device.Write.{IsWritten}

-- What stays the same on the device whatever is written.
pub record SameDevice (t t' : Tool) : Type 0 where
  pub calm : t'.faults ≡ []
  pub same_size : t'.device.size ≡ t.device.size
  pub same_block_size : t'.block_size ≡ t.block_size
  pub same_uninstalling : t'.uninstalling ≡ t.uninstalling

-- A transfer that can be undone: it is empty, or it lies in whole blocks of the device.
abbrev pub IsInside : Tool → ℕ → ℕ → Type 0
IsInside t loc count = (count ≡ 0) ⊎ (loc + count ≤ whole t)

-- A write that has been made: it is seen, and what it overwrote is in the new entry.
pub record Written (t : Tool) (buffer : ℕ → ℕ) (loc count : ℕ) (result : Option (Unit {0}) × Tool)
    : Type 0 where
  pub after : Tool
  pub returns : result ≡ (some tt, after)
  pub ready : IsReady after
  pub same : SameDevice t after
  pub outside :
      (i : ℕ)
      → i < t.device.size
      → (i < loc) ⊎ (loc + count ≤ i)
      → (after.device.content i ≡ t.device.content i) ⊎ (after.device.content i ≡ view t i)
  pub written : IsWritten t buffer loc count 0 after
  pub counted : after.uninstall_data_i ≡ suc t.uninstall_data_i
  pub entry_loc : (after.uninstall_data t.uninstall_data_i).loc ≡ loc
  pub entry_count : (after.uninstall_data t.uninstall_data_i).count ≡ count
  pub entry_bytes :
      (j : ℕ)
      → j < count
      → loc + j < t.device.size
      → (after.uninstall_data t.uninstall_data_i).bytes j ≡ view t (loc + j)
  pub other_entries : (k : ℕ) → k ≢ t.uninstall_data_i → after.uninstall_data k ≡ t.uninstall_data k
  pub inside : IsInside t loc count
  pub room : t.uninstall_data_i < uninstall_data_max

-- A write that has been refused: nothing of it is on the device, and no entry counts.
pub record Refused (t : Tool) (loc count : ℕ) (result : Option (Unit {0}) × Tool) : Type 0 where
  pub after : Tool
  pub returns : result ≡ (none, after)
  pub same : SameDevice t after
  pub device : IsSettled t after
  pub same_data : after.uninstall_data ≡ t.uninstall_data
  pub same_count : after.uninstall_data_i ≡ t.uninstall_data_i
  pub why : (uninstall_data_max ≤ t.uninstall_data_i) ⊎ (whole t < loc + count)

-- The state once the old bytes are in the next entry.
abbrev pub saved : (ℕ → ℕ) → ℕ → ℕ → Tool → Tool
saved old loc count u = record u {
  uninstall_data =
      update u.uninstall_data u.uninstall_data_i (record { bytes = old; loc = loc; count = count });
}

pub saved-IsReady :
    (old : ℕ → ℕ) (loc count : ℕ) {u : Tool} → IsReady u → IsReady (saved old loc count u)
saved-IsReady old loc count r = record {
  calm = r.calm;
  sized = r.sized;
  small = r.small;
  cached = r.cached;
  coherent = r.coherent;
}

not-full : {n : ℕ} → n < uninstall_data_max → leb uninstall_data_max n ≡ false
not-full room = ground arith

pub save_old-eq :
    (loc count : ℕ) (t : Tool) {old : ℕ → ℕ} {u : Tool}
    → t.faults ≡ []
    → t.uninstall_data_i < uninstall_data_max
    → device_read loc count t ≡ (some old, u)
    → save_old loc count t ≡ (some tt, saved old loc count u)
unfolding save_old
save_old-eq loc count t calm room e = simp (not-full room, calm, e)

pub save_old-short :
    (loc count : ℕ) (t : Tool) {u : Tool}
    → t.faults ≡ []
    → t.uninstall_data_i < uninstall_data_max
    → device_read loc count t ≡ (none, u)
    → save_old loc count t ≡ (none, u)
unfolding save_old
save_old-short loc count t calm room e = simp (not-full room, calm, e)

pub save_old-full :
    (loc count : ℕ) (t : Tool)
    → uninstall_data_max ≤ t.uninstall_data_i
    → save_old loc count t ≡ (none, t)
unfolding save_old
save_old-full loc count t full = ground arith

pub device_write-eq :
    (buffer : ℕ → ℕ) (loc count : ℕ) (t : Tool) {u v : Tool}
    → t.uninstalling ≡ false
    → save_old loc count t ≡ (some tt, u)
    → write_loop count buffer loc count 0 u ≡ (some tt, v)
    → device_write buffer loc count t
      ≡ (some tt, record v { uninstall_data_i = v.uninstall_data_i + 1 })
unfolding device_write count_entry
device_write-eq buffer loc count t off e e' = simp (off, e, e')

pub device_write-stops :
    (buffer : ℕ → ℕ) (loc count : ℕ) (t : Tool) {u : Tool}
    → t.uninstalling ≡ false
    → save_old loc count t ≡ (none, u)
    → device_write buffer loc count t ≡ (none, u)
unfolding device_write
device_write-stops buffer loc count t off e = simp (off, e)

pub device_write-uninstalling :
    (buffer : ℕ → ℕ) (loc count : ℕ) (t : Tool) {v : Tool}
    → t.uninstalling ≡ true
    → write_loop count buffer loc count 0 t ≡ (some tt, v)
    → device_write buffer loc count t ≡ (some tt, v)
unfolding device_write
device_write-uninstalling buffer loc count t on e = simp (on, e)

pub update-same :
    (f : ℕ → UninstallData) (i : ℕ) (ud : UninstallData) (k : ℕ) → k ≡ i → update f i ud k ≡ ud
update-same f i ud k e = ground arith

pub update-other :
    (f : ℕ → UninstallData) (i : ℕ) (ud : UninstallData) (k : ℕ) → k ≢ i → update f i ud k ≡ f k
update-other f i ud k ne = ground arith
