-- ===== src/Limine/Uninstall/Made.antt =====
-- After a write that is made, the entries still put every byte right.
use cell.Base.{ℕ, ◌+◌, ◌≤◌, ◌<◌}
use cell.Base.{◌≡◌, ◌⊎◌, inl, inr, sym, ap, ◌∙◌, arith, Option}
use native.Mathlib.Decide.{dec_lt, ℕ_discrete}
use cell.Limine.Tool.{Tool}
use cell.Limine.Device.View.{view}
use cell.Limine.Device.Journal.{IsInside, Written}
use cell.Limine.Uninstall.Restore.{IsInside-Keeps}
use cell.Limine.Uninstall.Kept.{restored, IsRunning, SameDevice-trans, IsRunning-byte}
use cell.Limine.Uninstall.Kept.{new_entry-in, new_entry-out, restored-after}

-- A byte is within a write or not.
split_at : (loc count x : ℕ) → ((loc ≤ x) × (x < loc + count)) ⊎ ((x < loc) ⊎ (loc + count ≤ x))
split_at loc count x = elim (dec_lt x loc) [
  | yes low ↦ inr (inl low)
  | no above ↦ elim (dec_lt x (loc + count)) [
    | yes below ↦ inl (omega arith, below)
    | no high ↦ inr (inr (omega arith))
  ]
]

module _ {start t : Tool} (run : IsRunning start t) {buffer : ℕ → ℕ} {loc count : ℕ}
    {result : Option (Unit {0}) × Tool} (w : Written t buffer loc count result) where
  on_tool : (x : ℕ) → x < start.device.size → x < t.device.size
  on_tool x h = omega (arith, run.kept.same.same_size)

  -- Whatever a byte within the write is now, the new entry puts it right.
  put_right-in :
      (x v : ℕ)
      → x < start.device.size
      → (loc ≤ x) × (x < loc + count)
      → restored w.after.uninstall_data w.after.uninstall_data_i x v ≡ view start x
  put_right-in x v h (low, high) =
      restored-after w x v
      ∙ ap (restored t.uninstall_data t.uninstall_data_i x)
          (new_entry-in w x v (on_tool x h) low high)
      ∙ run.seen x h

  put_right-out :
      (x v : ℕ)
      → x < start.device.size
      → (x < loc) ⊎ (loc + count ≤ x)
      → (v ≡ t.device.content x) ⊎ (v ≡ view t x)
      → restored w.after.uninstall_data w.after.uninstall_data_i x v ≡ view start x
  put_right-out x v h out as_was =
      restored-after w x v
      ∙ ap (restored t.uninstall_data t.uninstall_data_i x) (new_entry-out w x v out)
      ∙ IsRunning-byte run x h as_was

  unwritten :
      (x : ℕ) → x < t.device.size → (x < loc) ⊎ (loc + count ≤ x) → view w.after x ≡ view t x
  unwritten x h (inl low) = w.written x h ∙ ground arith
  unwritten x h (inr high) = w.written x h ∙ ground arith

  device_put_right :
      (x : ℕ)
      → x < start.device.size
      → ((loc ≤ x) × (x < loc + count)) ⊎ ((x < loc) ⊎ (loc + count ≤ x))
      → restored w.after.uninstall_data w.after.uninstall_data_i x (w.after.device.content x)
        ≡ view start x
  device_put_right x h (inl within) = put_right-in x (w.after.device.content x) h within
  device_put_right x h (inr out) =
      put_right-out x (w.after.device.content x) h out (w.outside x (on_tool x h) out)

  view_put_right :
      (x : ℕ)
      → x < start.device.size
      → ((loc ≤ x) × (x < loc + count)) ⊎ ((x < loc) ⊎ (loc + count ≤ x))
      → restored w.after.uninstall_data w.after.uninstall_data_i x (view w.after x) ≡ view start x
  view_put_right x h (inl within) = put_right-in x (view w.after x) h within
  view_put_right x h (inr out) =
      put_right-out x (view w.after x) h out (inr (unwritten x (on_tool x h) out))

  all-IsInside :
      (k : ℕ)
      → k < w.after.uninstall_data_i
      → IsInside start (w.after.uninstall_data k).loc (w.after.uninstall_data k).count
  all-IsInside k h = elim (ℕ_discrete k t.uninstall_data_i) [
    | yes e ↦
        rw (e, w.entry_loc, w.entry_count)
          (IsInside-Keeps t start loc count (sym run.kept.same.same_size)
            (sym run.kept.same.same_block_size) w.inside)
    | no ne ↦ rw (w.other_entries k ne) (run.kept.entries_inside k (omega (arith, w.counted)))
  ]

  pub after_write : IsRunning start w.after
  after_write = record {
    kept = record {
      same = SameDevice-trans run.kept.same w.same;
      room = omega (arith, w.room, w.counted);
      entries_inside = all-IsInside;
      on_device = λ x h. device_put_right x h (split_at loc count x);
    };
    ready = w.ready;
    seen = λ x h. view_put_right x h (split_at loc count x);
  }
