-- ===== src/Limine/Uninstall/Restore.antt =====
-- `uninstall` writes the entries of the uninstall data back in their order.
use cell.Base.{ℕ, zero, suc, ◌+◌, ◌-◌, ◌*◌, ◌/◌, ◌≤◌, ◌<◌, ◌^◌, ltb, leb, ◌&&◌, if◌then◌else◌}
use cell.Base.{◌≡◌, ◌⊎◌, inl, inr, refl, ap, ◌∙◌, arith, Bool, true, some, []}
use mathlib.Core.Path.{ap₂}
use native.Mathlib.Nat.{div-mul-le_self, mul-le-mul_left}
use cell.Limine.Tool.{Tool, UninstallData}
use cell.Limine.Device.{no_block, device_write, write_loop, device_flush_cache}
use cell.Limine.Device.View.{
  view, IsBlock, IsReady, Keeps, Keeps-refl, Keeps-trans, view_out, not_no_block,
}
use cell.Limine.Device.Flush.{device_flush_cache-Flushed}
use cell.Limine.Device.Write.{WriteOk, WriteFailed, WriteOk-done, write_loop_lem}
use cell.Limine.Device.Journal.{IsInside, device_write-uninstalling}
use cell.Limine.Uninstall.{
  Warnings, no_warnings, forget_cache, undo, undo_loop, uninstall, verdict, flush_after,
}

-- What an entry makes of the byte `v` at `x`.
abbrev pub old_byte : UninstallData → ℕ → ℕ → ℕ
old_byte ud x v = if leb ud.loc x && ltb x (ud.loc + ud.count) then ud.bytes (x - ud.loc) else v

-- What `left` entries from entry `i` on make of it, one after the other.
unfoldable pub replay : ℕ → ℕ → (ℕ → UninstallData) → ℕ → ℕ → ℕ
replay zero i entries x v = v
replay (suc left) i entries x v = replay left (i + 1) entries x (old_byte (entries i) x v)

-- A loop that writes a transfer within the whole blocks goes through.
inside_loop :
    {t : Tool} (buffer : ℕ → ℕ) (loc count : ℕ)
    → IsReady t
    → IsInside t loc count
    → WriteOk t buffer loc count 0 (write_loop count buffer loc count 0 t)
inside_loop buffer loc count r (inl empty) = WriteOk-done count buffer loc count 0 r (omega arith)
inside_loop {t} buffer loc count r (inr fits) = through (
    write_loop_lem count buffer loc count 0 r
      (omega (arith, fits, r.small, div-mul-le_self t.device.size t.block_size)) (omega arith))
  where
    through :
        WriteOk t buffer loc count 0 (write_loop count buffer loc count 0 t)
          ⊎ WriteFailed t loc count (write_loop count buffer loc count 0 t)
        → WriteOk t buffer loc count 0 (write_loop count buffer loc count 0 t)
    through (inl w) = w
    through (inr f) = absurd (omega (arith, fits, f.beyond))

-- After some entries are written back, with the bytes as a caller sees them.
pub record Undone (t : Tool) (w : Warnings) (after_byte : ℕ → ℕ → ℕ) (result : Warnings × Tool)
    : Type 0 where
  pub after : Tool
  pub returns : result ≡ (w, after)
  pub ready : IsReady after
  pub keeps : Keeps t after
  pub seen : (x : ℕ) → x < t.device.size → view after x ≡ after_byte x (view t x)

undo-eq :
    (ud : UninstallData) (w : Warnings) (t : Tool) {u : Tool}
    → device_write ud.bytes ud.loc ud.count t ≡ (some tt, u)
    → undo ud w t ≡ (w, u)
unfolding undo
undo-eq ud w t e = rw e refl

undo_lem :
    (ud : UninstallData) (w : Warnings) {t : Tool}
    → IsReady t
    → t.uninstalling ≡ true
    → IsInside t ud.loc ud.count
    → Undone t w (old_byte ud) (undo ud w t)
undo_lem ud w {t} r on inside =
    let l = inside_loop ud.bytes ud.loc ud.count r inside in
    record {
      after = l.after;
      returns = undo-eq ud w t (device_write-uninstalling ud.bytes ud.loc ud.count t on l.returns);
      ready = l.ready;
      keeps = l.changed.keeps;
      seen = λ x h. l.written x h ∙ ground arith;
    }

pub IsInside-Keeps :
    (t u : Tool) (loc count : ℕ)
    → u.device.size ≡ t.device.size
    → u.block_size ≡ t.block_size
    → IsInside t loc count
    → IsInside u loc count
IsInside-Keeps t u loc count same_size same_block_size (inl empty) = inl empty
IsInside-Keeps t u loc count same_size same_block_size (inr fits) =
    inr (omega (arith, fits, ap₂ (λ (n b : ℕ). n / b * b) same_size same_block_size))

-- The rest of the loop after one entry.
undo_loop-step :
    (left i : ℕ) (w : Warnings) (entries : ℕ → UninstallData) {t : Tool} (ud : UninstallData)
    → ud ≡ entries i
    → {first : Warnings × Tool} → (a : Undone t w (old_byte ud) first)
    → Undone
        (a.after)
        w
        (λ x v. replay left (i + 1) entries x v)
        (undo_loop left (i + 1) (w, a.after))
    → Undone t w
        (λ x v. replay left (i + 1) entries x (old_byte (entries i) x v))
        (undo_loop left (i + 1) first)
undo_loop-step left i w entries {t} ud e a b = record {
  after = b.after;
  returns = ap (undo_loop left (i + 1)) a.returns ∙ b.returns;
  ready = b.ready;
  keeps = Keeps-trans a.keeps b.keeps;
  seen = λ x h.
      b.seen x (rw a.keeps.same_size h)
      ∙ ap (replay left (i + 1) entries x) (a.seen x h)
      ∙ ap (λ (d : UninstallData). replay left (i + 1) entries x (old_byte d x (view t x))) e;
}

undo_loop_lem :
    (left i : ℕ) (w : Warnings) (entries : ℕ → UninstallData) {t : Tool}
    → t.uninstall_data ≡ entries
    → IsReady t
    → t.uninstalling ≡ true
    → ((k : ℕ) → i ≤ k → k < i + left → IsInside t (entries k).loc (entries k).count)
    → Undone t w (λ x v. replay left i entries x v) (undo_loop left i (w, t))
unfolding undo_loop replay
undo_loop_lem zero i w entries {t} same r on inside = record {
  after = t;
  returns = refl;
  ready = r;
  keeps = Keeps-refl t;
  seen = λ x h. refl;
}
undo_loop_lem (suc left) i w entries {t} same r on inside =
    let e : t.uninstall_data i ≡ entries i = ap (λ (d : ℕ → UninstallData). d i) same in
    let a = undo_lem (t.uninstall_data i) w r on (rw e (inside i (omega arith) (omega arith))) in
    undo_loop-step left i w entries (t.uninstall_data i) e a (
      undo_loop_lem left (i + 1) w entries (a.keeps.same_data ∙ same) a.ready
        (a.keeps.same_uninstalling ∙ on)
        (λ k low high.
          IsInside-Keeps t a.after (entries k).loc (entries k).count a.keeps.same_size
            a.keeps.same_block_size (inside k (omega arith) (omega arith))))

-- A device whose cache is to be forgotten, as `uninstall` finds it.
pub record IsUndoable (t : Tool) : Type 0 where
  pub calm : t.faults ≡ []
  pub sized : 1 < t.block_size
  pub small : t.device.size < 2 ^ 63
  pub entries_inside :
      (k : ℕ)
      → k < t.uninstall_data_i
      → IsInside t (t.uninstall_data k).loc (t.uninstall_data k).count

abbrev started : Tool → Tool
started t = record (forget_cache t) { uninstalling = true }

started-IsReady : {t : Tool} → IsUndoable t → IsReady (started t)
started-IsReady {t} u = record {
  calm = u.calm;
  sized = u.sized;
  small = u.small;
  cached = inr (refl, refl);
  coherent = λ _ at. absurd (no_block_beyond at);
}
  where
    no_block_beyond : ¬ IsBlock (started t) no_block
    no_block_beyond at = omega (arith, at, u.small, mul-le-mul_left no_block u.sized)

pub record Restored (t : Tool) (result : Bool × Tool) : Type 0 where
  pub after : Tool
  pub returns : result ≡ (true, after)
  pub same_size : after.device.size ≡ t.device.size
  pub bytes :
      (x : ℕ)
      → x < t.device.size
      → after.device.content x ≡ replay t.uninstall_data_i 0 t.uninstall_data x (t.device.content x)

flush_after-eq :
    (w : Warnings) (t : Tool) {u : Tool}
    → device_flush_cache t ≡ (some tt, u)
    → flush_after (w, t) ≡ (w, u)
flush_after-eq w t e = rw e refl

-- `uninstall`, on a device of which no call fails, with every entry within its whole blocks: it
-- succeeds, and every byte is then what the entries, in their order, make of it.
pub uninstall_lem : {t : Tool} → IsUndoable t → Restored t (uninstall t)
unfolding uninstall
uninstall_lem {t} u =
    let r = started-IsReady u in
    let l =
      undo_loop_lem t.uninstall_data_i 0 no_warnings t.uninstall_data {t = started t} refl r refl
        (λ k low high. u.entries_inside k (omega arith)) in
    let (v, ev, f) = device_flush_cache-Flushed l.after l.ready in
    record {
      after = v;
      returns =
          ap (λ (p : Warnings × Tool). verdict (flush_after p)) l.returns
          ∙ ap verdict (flush_after-eq no_warnings l.after ev);
      same_size = f.keeps.same_size ∙ l.keeps.same_size;
      bytes = λ x h.
          f.on_device x (rw l.keeps.same_size h)
          ∙ l.seen x h
          ∙ ap (replay t.uninstall_data_i 0 t.uninstall_data x)
              (view_out (started t) x (not_no_block r x h));
    }
