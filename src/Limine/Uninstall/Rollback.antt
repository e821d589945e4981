-- ===== src/Limine/Uninstall/Rollback.antt =====
-- A failed installation is undone: the device is as it was before the first transfer.
use cell.Base.{ℕ, ◌-◌, ◌<◌}
use cell.Base.{
  ◌≡◌, ◌⊎◌, subst, inl, inr, refl, sym, ap, ◌∙◌, arith, Bool, true, false, Option, some, none,
}
use cell.Limine.Tool.{Tool, UninstallData}
use cell.Limine.Device.{device_read, device_write, blank}
use cell.Limine.Device.View.{view, view_clean}
use cell.Limine.Device.Init.{IsFresh}
use cell.Limine.Device.Flush.{Flushed, device_flush_cache-Flushed}
use cell.Limine.Device.Read.{ReadOk, Failed, device_read-outcome}
use cell.Limine.Device.Journal.{IsInside, Written, Refused, device_write_lem}
use cell.Limine.Uninstall.{reverse_uninstall_data, undo_work}
use cell.Limine.Uninstall.Reverse.{reverse_uninstall_data_lem}
use cell.Limine.Uninstall.Restore.{replay, IsInside-Keeps, IsUndoable, uninstall_lem}
use cell.Limine.Uninstall.Work.{
  Work, begun, has_read, has_written, has_flushed, flush_failed, read_failed, write_failed, stopped,
}
use cell.Limine.Uninstall.Kept.{
  restored-eq, IsKept-settled, restored, replay-restored, IsKept, IsRunning,
}
use cell.Limine.Uninstall.Kept.{after_read, after-Failed, after-Refused}
use cell.Limine.Uninstall.Made.{after_write}

begun-IsRunning : {start : Tool} → IsFresh start → IsRunning start start
unfolding restored
begun-IsRunning {start} f = record {
  kept = record {
    same = record {
      calm = f.ready.calm;
      same_size = refl;
      same_block_size = refl;
      same_uninstalling = refl;
    };
    room = omega (arith, f.no_entries);
    entries_inside = λ k h. absurd (omega (arith, f.no_entries));
    on_device = λ x h. nothing x (start.device.content x) ∙ sym (view_clean f.ready f.clean x h);
  };
  ready = f.ready;
  seen = λ x h. nothing x (view start x);
}
  where
    nothing : (x v : ℕ) → restored start.uninstall_data start.uninstall_data_i x v ≡ v
    nothing x v = ap (λ (n : ℕ). restored start.uninstall_data n x v) f.no_entries

abbrev pub Holds : Tool → Tool → Bool → Type 0
Holds start t true = IsRunning start t
Holds start t false = IsKept start t

after_step :
    {A : Type 0} {u v : Tool} {a b : Option A} {result : Option A × Tool} (P : Tool → Type 0)
    → result ≡ (a, u)
    → result ≡ (b, v)
    → P v
    → P u
after_step P e e' p = subst P (ap (λ (r : Option _ × Tool). r.1) (sym e' ∙ e)) p

module _ {start t u : Tool} (run : IsRunning start t) where
  read_goes_on :
      {buffer : ℕ → ℕ} (loc count : ℕ)
      → device_read loc count t ≡ (some buffer, u)
      → ReadOk t blank loc count 0 (device_read loc count t)
        ⊎ Failed t loc count (device_read loc count t)
      → IsRunning start u
  read_goes_on loc count e (inl ok) = after_step (IsRunning start) e ok.returns (after_read run ok)
  read_goes_on loc count e (inr f) = absurd (cc (e, f.returns))

  read_stops :
      (loc count : ℕ)
      → device_read loc count t ≡ (none, u)
      → ReadOk t blank loc count 0 (device_read loc count t)
        ⊎ Failed t loc count (device_read loc count t)
      → IsKept start u
  read_stops loc count e (inl ok) = absurd (cc (e, ok.returns))
  read_stops loc count e (inr f) = after_step (IsKept start) e f.returns (after-Failed run f)

  write_goes_on :
      (buffer : ℕ → ℕ) (loc count : ℕ)
      → device_write buffer loc count t ≡ (some tt, u)
      → Written t buffer loc count (device_write buffer loc count t)
        ⊎ Refused t loc count (device_write buffer loc count t)
      → IsRunning start u
  write_goes_on buffer loc count e (inl w) =
      after_step (IsRunning start) e w.returns (after_write run w)
  write_goes_on buffer loc count e (inr f) = absurd (cc (e, f.returns))

  write_stops :
      (buffer : ℕ → ℕ) (loc count : ℕ)
      → device_write buffer loc count t ≡ (none, u)
      → Written t buffer loc count (device_write buffer loc count t)
        ⊎ Refused t loc count (device_write buffer loc count t)
      → IsKept start u
  write_stops buffer loc count e (inl w) = absurd (cc (e, w.returns))
  write_stops buffer loc count e (inr f) =
      after_step (IsKept start) e f.returns (after-Refused run f)

Flushed-IsRunning : {start t u : Tool} → IsRunning start t → Flushed t u → IsRunning start u
Flushed-IsRunning {start} {t} {u} run f = record {
  kept =
      IsKept-settled run
        (record {
          calm = f.ready.calm;
          same_size = f.keeps.same_size;
          same_block_size = f.keeps.same_block_size;
          same_uninstalling = f.keeps.same_uninstalling;
        })
        f.keeps.same_data f.keeps.same_count (λ x h. inr (f.on_device x h));
  ready = f.ready;
  seen = λ x h.
      restored-eq x f.keeps.same_data f.keeps.same_count
        (f.same_view x (omega (arith, run.kept.same.same_size)))
      ∙ run.seen x h;
}

pub Work-Holds :
    {start t : Tool} {running : Bool} → IsFresh start → Work start t running → Holds start t running
Work-Holds f begun = begun-IsRunning f
Work-Holds f (has_read loc count word e work) =
    let run = Work-Holds f work in
    read_goes_on run loc count e (device_read-outcome loc count run.ready word)
Work-Holds f (has_written buffer loc count word e work) =
    let run = Work-Holds f work in
    write_goes_on run buffer loc count e (
      device_write_lem buffer loc count run.ready
        (run.kept.same.same_uninstalling ∙ f.not_uninstalling) word)
Work-Holds {start} f (has_flushed {t} {u} e work) =
    let run = Work-Holds f work in
    let (v, ev, flushed) = device_flush_cache-Flushed t run.ready in
    after_step (IsRunning start) e ev (Flushed-IsRunning run flushed)
Work-Holds f (flush_failed {t} e work) =
    let run = Work-Holds f work in
    let (v, ev, flushed) = device_flush_cache-Flushed t run.ready in absurd (cc (e, ev))
Work-Holds f (read_failed loc count word e work) =
    let run = Work-Holds f work in
    read_stops run loc count e (device_read-outcome loc count run.ready word)
Work-Holds f (write_failed buffer loc count word e work) =
    let run = Work-Holds f work in
    write_stops run buffer loc count e (
      device_write_lem buffer loc count run.ready
        (run.kept.same.same_uninstalling ∙ f.not_uninstalling) word)
Work-Holds f (stopped work) = (Work-Holds f work).kept

-- Written back newest first, the entries make of every byte the one that stood there at first.
pub replay-reversed :
    {start t : Tool}
    → IsFresh start
    → IsKept start t
    → (x : ℕ) → x < start.device.size
    → replay t.uninstall_data_i 0 (reverse_uninstall_data t).uninstall_data x (t.device.content x)
      ≡ start.device.content x
replay-reversed {start} {t} f kept x h =
    replay-restored t.uninstall_data_i 0 (reverse_uninstall_data t).uninstall_data t.uninstall_data
      (λ k h'.
        ap (reverse_uninstall_data t).uninstall_data {y = k} (omega arith)
        ∙ reverse_uninstall_data_lem t (omega (arith, kept.room)) k h')
      x (t.device.content x)
    ∙ kept.on_device x h
    ∙ view_clean f.ready f.clean x h

pub reversed-IsInside :
    {start t : Tool}
    → IsKept start t
    → (k : ℕ) → k < t.uninstall_data_i
    → IsInside start
        ((reverse_uninstall_data t).uninstall_data k).loc
        ((reverse_uninstall_data t).uninstall_data k).count
reversed-IsInside {start} {t} kept k h =
    subst (λ (ud : UninstallData). IsInside start ud.loc ud.count)
      (sym (reverse_uninstall_data_lem t (omega (arith, kept.room)) k h))
      (kept.entries_inside (t.uninstall_data_i - 1 - k) (omega arith))

reversed-IsUndoable :
    {start t : Tool} → IsFresh start → IsKept start t → IsUndoable (reverse_uninstall_data t)
unfolding reverse_uninstall_data
reversed-IsUndoable {start} {t} f kept = record {
  calm = kept.same.calm;
  sized = rw kept.same.same_block_size f.ready.sized;
  small = rw kept.same.same_size f.ready.small;
  entries_inside = λ k h.
      IsInside-Keeps start (reverse_uninstall_data t) _ _ kept.same.same_size
        kept.same.same_block_size (reversed-IsInside kept k h);
}

pub record RolledBack (start : Tool) (result : Bool × Tool) : Type 0 where
  pub after : Tool
  pub returns : result ≡ (true, after)
  pub same_size : after.device.size ≡ start.device.size
  pub bytes : (x : ℕ) → x < start.device.size → after.device.content x ≡ start.device.content x

-- From a device as `device_init` leaves it and of which no call fails, whatever transfers
-- were made before one failed or no more were made: the cleanup succeeds, and every byte of
-- the device is the one that stood there before.
pub undo_work_lem :
    {start t : Tool} → IsFresh start → Work start t false → RolledBack start (undo_work t)
unfolding reverse_uninstall_data
undo_work_lem {start} {t} f work =
    let kept = Work-Holds f work in
    let r = uninstall_lem (reversed-IsUndoable f kept) in
    record {
      after = r.after;
      returns = r.returns;
      same_size = r.same_size ∙ kept.same.same_size;
      bytes = λ x h. r.bytes x (rw kept.same.same_size h) ∙ replay-reversed f kept x h;
    }
