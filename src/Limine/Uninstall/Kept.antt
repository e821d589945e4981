-- ===== src/Limine/Uninstall/Kept.antt =====
-- What the entries of the uninstall data make of the device, newest first, while transfers go on.
use cell.Base.{ℕ, zero, suc, ◌+◌, ◌-◌, ◌≤◌, ◌<◌}
use cell.Base.{◌≡◌, ◌⊎◌, inl, inr, refl, ap, ◌∙◌, arith, Option}
use mathlib.Core.Path.{ap₂}
use cell.Limine.Tool.{Tool, UninstallData}
use cell.Limine.Device.{uninstall_data_max, blank}
use cell.Limine.Device.View.{view, IsReady}
use cell.Limine.Device.Block.{Settled}
use cell.Limine.Device.Read.{ReadOk, Failed}
use cell.Limine.Device.Journal.{IsInside, SameDevice, Written, Refused}
use cell.Limine.Uninstall.Restore.{old_byte, replay}

-- What `n` entries make of the byte `v` at `x`, the newest of them first.
unfoldable pub restored : (ℕ → UninstallData) → ℕ → ℕ → ℕ → ℕ
restored entries zero x v = v
restored entries (suc n) x v = restored entries n x (old_byte (entries n) x v)

-- Reversed and replayed in order, the entries are taken newest first.
pub replay-restored :
    (n i : ℕ) (reversed entries : ℕ → UninstallData)
    → ((k : ℕ) → k < n → reversed (i + k) ≡ entries (n - 1 - k))
    → (x v : ℕ) → replay n i reversed x v ≡ restored entries n x v
unfolding replay restored
replay-restored zero i reversed entries same x v = refl
replay-restored (suc n) i reversed entries same x v =
    replay-restored n (i + 1) reversed entries
      (λ k h.
        ap reversed {y = i + (k + 1)} (omega arith)
        ∙ same (k + 1) (omega arith)
        ∙ ap entries (omega arith))
      x (old_byte (reversed i) x v)
    ∙ ap (λ (ud : UninstallData). restored entries n x (old_byte ud x v)) first
  where
    first : reversed i ≡ entries n
    first = ap reversed {y = i + 0} (omega arith) ∙ same 0 (omega arith) ∙ ap entries (omega arith)

restored-cong :
    (n : ℕ) (d e : ℕ → UninstallData)
    → ((k : ℕ) → k < n → d k ≡ e k)
    → (x v : ℕ) → restored d n x v ≡ restored e n x v
unfolding restored
restored-cong zero d e same x v = refl
restored-cong (suc n) d e same x v =
    restored-cong n d e (λ k h. same k (omega arith)) x (old_byte (d n) x v)
    ∙ ap (λ (ud : UninstallData). restored e n x (old_byte ud x v)) (same n (omega arith))

-- What the work keeps true: the entries lie within the whole blocks of the device, and make of
-- each byte, as it stands there, the byte that `start` showed.
pub record IsKept (start t : Tool) : Type 0 where
  pub same : SameDevice start t
  pub room : t.uninstall_data_i < suc uninstall_data_max
  pub entries_inside :
      (k : ℕ)
      → k < t.uninstall_data_i
      → IsInside start (t.uninstall_data k).loc (t.uninstall_data k).count
  pub on_device :
      (x : ℕ)
      → x < start.device.size
      → restored t.uninstall_data t.uninstall_data_i x (t.device.content x) ≡ view start x

-- While it goes on, the cache is fit for use and the same holds of the bytes that a caller sees.
pub record IsRunning (start t : Tool) : Type 0 where
  pub kept : IsKept start t
  pub ready : IsReady t
  pub seen :
      (x : ℕ)
      → x < start.device.size
      → restored t.uninstall_data t.uninstall_data_i x (view t x) ≡ view start x

pub restored-eq :
    {d e : ℕ → UninstallData} {n m : ℕ} (x : ℕ) {v w : ℕ}
    → d ≡ e
    → n ≡ m
    → v ≡ w
    → restored d n x v ≡ restored e m x w
restored-eq {d} {e} {n} {m} x {v} {w} same_data same_count same_byte =
    ap (λ (f : ℕ → UninstallData). restored f n x v) same_data
    ∙ ap₂ (λ (k b : ℕ). restored e k x b) same_count same_byte

-- A byte of the device that is as it was, or as a caller saw it, is still put right.
pub IsRunning-byte :
    {start t : Tool} {v : ℕ}
    → IsRunning start t
    → (x : ℕ) → x < start.device.size
    → (v ≡ t.device.content x) ⊎ (v ≡ view t x)
    → restored t.uninstall_data t.uninstall_data_i x v ≡ view start x
IsRunning-byte run x h (inl e) = restored-eq x refl refl e ∙ run.kept.on_device x h
IsRunning-byte run x h (inr e) = restored-eq x refl refl e ∙ run.seen x h

pub SameDevice-trans : {t u v : Tool} → SameDevice t u → SameDevice u v → SameDevice t v
SameDevice-trans a b = record {
  calm = b.calm;
  same_size = b.same_size ∙ a.same_size;
  same_block_size = b.same_block_size ∙ a.same_block_size;
  same_uninstalling = b.same_uninstalling ∙ a.same_uninstalling;
}

-- A transfer that leaves the entries alone, and each byte of the device as it was or as a caller
-- saw it.
pub IsKept-settled :
    {start t u : Tool}
    → IsRunning start t
    → SameDevice t u
    → u.uninstall_data ≡ t.uninstall_data
    → u.uninstall_data_i ≡ t.uninstall_data_i
    → ((x : ℕ)
        → x < t.device.size
        → (u.device.content x ≡ t.device.content x) ⊎ (u.device.content x ≡ view t x))
    → IsKept start u
IsKept-settled {start} {t} {u} run same same_data same_count bytes = record {
  same = SameDevice-trans run.kept.same same;
  room = omega (arith, run.kept.room, same_count);
  entries_inside = λ k h. rw same_data (run.kept.entries_inside k (omega (arith, same_count)));
  on_device = λ x h.
      restored-eq x same_data same_count refl
      ∙ IsRunning-byte run x h (bytes x (omega (arith, run.kept.same.same_size)));
}

module _ {start t : Tool} (run : IsRunning start t) where
  pub after_read :
      {loc count : ℕ} {result : Option (ℕ → ℕ) × Tool}
      → (ok : ReadOk t blank loc count 0 result) → IsRunning start ok.after
  after_read ok = record {
    kept =
        IsKept-settled run
          (record {
            calm = s.calm;
            same_size = s.keeps.same_size;
            same_block_size = s.keeps.same_block_size;
            same_uninstalling = s.keeps.same_uninstalling;
          })
          s.keeps.same_data s.keeps.same_count s.device;
    ready = ok.kept.ready;
    seen = λ x h.
        restored-eq x s.keeps.same_data s.keeps.same_count
          (ok.kept.same_view x (omega (arith, run.kept.same.same_size)))
        ∙ run.seen x h;
  }
    where
      s : Settled t ok.after
      s = ok.kept.settled

  pub after-Failed :
      {loc count : ℕ} {result : Option (ℕ → ℕ) × Tool}
      → (f : Failed t loc count result) → IsKept start f.after
  after-Failed f =
      IsKept-settled run
        (record {
          calm = f.settled.calm;
          same_size = f.settled.keeps.same_size;
          same_block_size = f.settled.keeps.same_block_size;
          same_uninstalling = f.settled.keeps.same_uninstalling;
        })
        f.settled.keeps.same_data f.settled.keeps.same_count f.settled.device

  pub after-Refused :
      {loc count : ℕ} {result : Option (Unit {0}) × Tool}
      → (f : Refused t loc count result) → IsKept start f.after
  after-Refused f = IsKept-settled run f.same f.same_data f.same_count f.device

-- What the entry of a write makes of a byte: within the write what stood there, elsewhere nothing.
module _ {t : Tool} {buffer : ℕ → ℕ} {loc count : ℕ} {result : Option (Unit {0}) × Tool}
    (w : Written t buffer loc count result) where
  pub new_entry-in :
      (x v : ℕ)
      → x < t.device.size
      → loc ≤ x
      → x < loc + count
      → old_byte (w.after.uninstall_data t.uninstall_data_i) x v ≡ view t x
  new_entry-in x v h low high =
      let place : x - (w.after.uninstall_data t.uninstall_data_i).loc ≡ x - loc =
        ap (λ (l : ℕ). x - l) w.entry_loc in
      let byte =
        ap (w.after.uninstall_data t.uninstall_data_i).bytes place
        ∙ w.entry_bytes (x - loc) (omega arith) (omega arith)
        ∙ ap (view t) {y = x} (omega arith) in
      ground (arith, byte, w.entry_loc, w.entry_count)

  pub new_entry-out :
      (x v : ℕ)
      → (x < loc) ⊎ (loc + count ≤ x)
      → old_byte (w.after.uninstall_data t.uninstall_data_i) x v ≡ v
  new_entry-out x v (inl low) = ground (arith, w.entry_loc, w.entry_count)
  new_entry-out x v (inr high) = ground (arith, w.entry_loc, w.entry_count)

  -- The entries before it are as they were.
  pub restored-after :
      (x v : ℕ)
      → restored w.after.uninstall_data w.after.uninstall_data_i x v
        ≡ restored t.uninstall_data t.uninstall_data_i x
            (old_byte (w.after.uninstall_data t.uninstall_data_i) x v)
  unfolding restored
  restored-after x v =
      ap (λ (n : ℕ). restored w.after.uninstall_data n x v) w.counted
      ∙ restored-cong t.uninstall_data_i w.after.uninstall_data t.uninstall_data
          (λ k h. w.other_entries k (omega arith)) x
          (old_byte (w.after.uninstall_data t.uninstall_data_i) x v)
