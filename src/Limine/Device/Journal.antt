-- ===== src/Limine/Device/Journal.antt =====
-- `_device_write` outside of uninstalling: it keeps what it overwrites in the uninstall data.
use cell.Base.{ℕ, ◌+◌, ◌-◌, ◌≤◌, ◌<◌, ltb, leb, ◌&&◌, if◌then◌else◌}
use cell.Base.{◌≡◌, ◌≢◌, ◌⊎◌, inl, inr, refl, sym, ap, ◌∙◌, arith, false, u64_mod, Option, some}
use native.Mathlib.Decide.{dec_le}
use native.Mathlib.Nat.{div-mul-le_self}
use cell.Limine.Tool.{Tool, UninstallData}
use cell.Limine.Device.{uninstall_data_max, device_read, device_write, write_loop, blank}
use cell.Limine.Device.View.{view, IsReady}
use cell.Limine.Device.Part.{whole, same_whole}
use cell.Limine.Device.Read.{IsTransfer, ReadOk, Failed, device_read-outcome}
use cell.Limine.Device.Write.{WriteOk, WriteFailed, WriteOk-done, write_loop_lem}
pub use cell.Limine.Device.Entry.{SameDevice, IsInside, Written, Refused, device_write-uninstalling}
use cell.Limine.Device.Entry.{
  saved, saved-IsReady, save_old-eq, save_old-short, save_old-full, device_write-eq,
  device_write-stops, update-same, update-other,
}

-- The loop of a write whose old bytes could be read goes through.
saved_loop :
    {t : Tool} (buffer : ℕ → ℕ) (loc count : ℕ) {result : Option (ℕ → ℕ) × Tool}
    → (ok : ReadOk t blank loc count 0 result)
    → WriteOk
        (saved ok.out loc count ok.after)
        buffer
        loc
        count
        0
        (write_loop count buffer loc count 0 (saved ok.out loc count ok.after))
saved_loop {t} buffer loc count ok = go ok.inside
  where
    r : IsReady (saved ok.out loc count ok.after)
    r = saved-IsReady ok.out loc count ok.kept.ready

    word : loc + count ≤ whole t → loc + count < u64_mod
    word fits = omega (
      arith,
      ok.kept.ready.small,
      ok.kept.settled.keeps.same_size,
      div-mul-le_self t.device.size t.block_size,
    )

    through :
        loc + count ≤ whole t
        → WriteOk
            (saved ok.out loc count ok.after)
            buffer
            loc
            count
            0
            (write_loop count buffer loc count 0 (saved ok.out loc count ok.after))
          ⊎ WriteFailed
              (saved ok.out loc count ok.after)
              loc
              count
              (write_loop count buffer loc count 0 (saved ok.out loc count ok.after))
        → WriteOk
            (saved ok.out loc count ok.after)
            buffer
            loc
            count
            0
            (write_loop count buffer loc count 0 (saved ok.out loc count ok.after))
    through fits (inl w) = w
    through fits (inr f) = absurd (omega (arith, fits, f.beyond, same_whole ok.kept.settled))

    go :
        (count ≤ 0) ⊎ (loc + count ≤ whole t)
        → WriteOk
            (saved ok.out loc count ok.after)
            buffer
            loc
            count
            0
            (write_loop count buffer loc count 0 (saved ok.out loc count ok.after))
    go (inl empty) = WriteOk-done count buffer loc count 0 r empty
    go (inr fits) =
        through fits (write_loop_lem count buffer loc count 0 r (word fits) (omega arith))

module _ {t : Tool} (buffer : ℕ → ℕ) (loc count : ℕ) {result : Option (ℕ → ℕ) × Tool}
    (ok : ReadOk t blank loc count 0 result) {result' : Option (Unit {0}) × Tool}
    (w : WriteOk (saved ok.out loc count ok.after) buffer loc count 0 result') where
  abbrev done : Tool
  done = record (w.after) { uninstall_data_i = w.after.uninstall_data_i + 1 }

  done-entry :
      w.after.uninstall_data t.uninstall_data_i
      ≡ record { bytes = ok.out; loc = loc; count = count }
  done-entry =
      ap (λ (d : ℕ → UninstallData). d t.uninstall_data_i) w.changed.keeps.same_data
      ∙ update-same ok.after.uninstall_data ok.after.uninstall_data_i _ t.uninstall_data_i
          (sym ok.kept.settled.keeps.same_count)

  done-others : (k : ℕ) → k ≢ t.uninstall_data_i → w.after.uninstall_data k ≡ t.uninstall_data k
  done-others k ne =
      ap (λ (d : ℕ → UninstallData). d k) w.changed.keeps.same_data
      ∙ update-other ok.after.uninstall_data ok.after.uninstall_data_i _ k
          (λ e. ne (e ∙ ok.kept.settled.keeps.same_count))
      ∙ ap (λ (d : ℕ → UninstallData). d k) ok.kept.settled.keeps.same_data

  done-outside :
      (i : ℕ)
      → i < t.device.size
      → (w.after.device.content i ≡ ok.after.device.content i)
        ⊎ (w.after.device.content i ≡ view ok.after i)
      → (w.after.device.content i ≡ t.device.content i) ⊎ (w.after.device.content i ≡ view t i)
  done-outside i h (inl e) = ground (arith, ok.kept.settled.device i h)
  done-outside i h (inr e) = inr (e ∙ ok.kept.same_view i h)

  Written-done :
      {whole_result : Option (Unit {0}) × Tool}
      → t.uninstall_data_i < uninstall_data_max
      → whole_result ≡ (some tt, done)
      → Written t buffer loc count whole_result
  Written-done room e = record {
    after = done;
    returns = e;
    ready = record {
      calm = w.ready.calm;
      sized = w.ready.sized;
      small = w.ready.small;
      cached = w.ready.cached;
      coherent = w.ready.coherent;
    };
    same = record {
      calm = w.ready.calm;
      same_size = w.changed.keeps.same_size ∙ ok.kept.settled.keeps.same_size;
      same_block_size = w.changed.keeps.same_block_size ∙ ok.kept.settled.keeps.same_block_size;
      same_uninstalling =
          w.changed.keeps.same_uninstalling ∙ ok.kept.settled.keeps.same_uninstalling;
    };
    outside = λ i h out.
        done-outside i h (w.changed.outside i (rw ok.kept.settled.keeps.same_size h) out);
    written = λ i h.
        w.written i (rw ok.kept.settled.keeps.same_size h)
        ∙ ap (λ (x : ℕ). if leb (loc + 0) i && ltb i (loc + count) then buffer (i - loc) else x)
            (ok.kept.same_view i h);
    counted =
        ap (λ (n : ℕ). n + 1) (w.changed.keeps.same_count ∙ ok.kept.settled.keeps.same_count)
        ∙ omega arith;
    entry_loc = ap UninstallData.loc done-entry;
    entry_count = ap UninstallData.count done-entry;
    entry_bytes = λ j h inside.
        ap (λ (ud : UninstallData). ud.bytes j) done-entry ∙ ok.read j h inside ∙ ground arith;
    other_entries = done-others;
    inside = empty_or_inside ok.inside;
    room = room;
  }
    where
      empty_or_inside : (count ≤ 0) ⊎ (loc + count ≤ whole t) → IsInside t loc count
      empty_or_inside (inl e) = inl (omega arith)
      empty_or_inside (inr e) = inr e

Refused-full :
    {t : Tool} (buffer : ℕ → ℕ) (loc count : ℕ)
    → IsReady t
    → t.uninstalling ≡ false
    → uninstall_data_max ≤ t.uninstall_data_i
    → Refused t loc count (device_write buffer loc count t)
Refused-full {t} buffer loc count r off full = record {
  after = t;
  returns = device_write-stops buffer loc count t off (save_old-full loc count t full);
  same = record {
    calm = r.calm;
    same_size = refl;
    same_block_size = refl;
    same_uninstalling = refl;
  };
  device = λ i h. inl refl;
  same_data = refl;
  same_count = refl;
  why = inl full;
}

Refused-short :
    {t : Tool} (buffer : ℕ → ℕ) (loc count : ℕ)
    → IsReady t
    → t.uninstalling ≡ false
    → t.uninstall_data_i < uninstall_data_max
    → Failed t loc count (device_read loc count t)
    → Refused t loc count (device_write buffer loc count t)
Refused-short {t} buffer loc count r off room f = record {
  after = f.after;
  returns =
      device_write-stops buffer loc count t off (save_old-short loc count t r.calm room f.returns);
  same = record {
    calm = f.settled.calm;
    same_size = f.settled.keeps.same_size;
    same_block_size = f.settled.keeps.same_block_size;
    same_uninstalling = f.settled.keeps.same_uninstalling;
  };
  device = f.settled.device;
  same_data = f.settled.keeps.same_data;
  same_count = f.settled.keeps.same_count;
  why = inr f.beyond;
}

-- `_device_write` of less than 2 ^ 63 bytes at a 64-bit address, outside of uninstalling, on a
-- device that is ready and of which no call fails: the write is made
-- and what it overwrote is the new entry; or it is refused, the table being full or the transfer
-- leaving the whole blocks of the device, with nothing of it written and no entry added.
pub device_write_lem :
    {t : Tool} (buffer : ℕ → ℕ) (loc count : ℕ)
    → IsReady t
    → t.uninstalling ≡ false
    → IsTransfer loc count
    → Written t buffer loc count (device_write buffer loc count t)
      ⊎ Refused t loc count (device_write buffer loc count t)
device_write_lem {t} buffer loc count r off size =
    elim (dec_le uninstall_data_max t.uninstall_data_i) [
      | yes full ↦ inr (Refused-full buffer loc count r off full)
      | no room ↦ go (omega arith) (device_read-outcome loc count r size)
    ]
  where
    go :
        t.uninstall_data_i < uninstall_data_max
        → ReadOk t blank loc count 0 (device_read loc count t)
          ⊎ Failed t loc count (device_read loc count t)
        → Written t buffer loc count (device_write buffer loc count t)
          ⊎ Refused t loc count (device_write buffer loc count t)
    go room (inr f) = inr (Refused-short buffer loc count r off room f)
    go room (inl ok) =
        let w = saved_loop buffer loc count ok in
        inl (
          Written-done buffer loc count ok w room (
            device_write-eq buffer loc count t off (save_old-eq loc count t r.calm room ok.returns)
              w.returns))
