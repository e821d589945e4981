-- ===== src/Limine/Device/Write.antt =====
-- The loop of `_device_write` changes exactly the bytes that it is given.
use cell.Base.{ℕ, zero, suc, ◌+◌, ◌*◌, ◌≤◌, ◌<◌, lt→ltb}
use cell.Base.{◌≡◌, ◌⊎◌, inl, inr, refl, ◌∙◌, arith, u64_mod, Option, none, some}
use native.Mathlib.Decide.{dec_lt, dec_le}
use cell.Limine.Tool.{Tool}
use cell.Limine.Device.{block_at, chunk_at, write_part, write_loop}
use cell.Limine.Device.View.{IsReady, Keeps-refl}
use cell.Limine.Device.Block.{Loaded}
use cell.Limine.Device.Part.{chunk_bounds, part_beyond, same_whole}
pub use cell.Limine.Device.Stored.{Changed, IsWritten, WriteOk, WriteFailed}
use cell.Limine.Device.Stored.{
  stored, part-stored, part-fails, stored-IsReady, resume-Changed, resume-IsWritten,
}

module _ (fuel : ℕ) (t : Tool) (buffer : ℕ → ℕ) (loc count progress : ℕ) where
  loop_goes_on :
      {t' : Tool}
      → progress < count
      → write_part buffer loc count progress t ≡ (some tt, t')
      → write_loop (suc fuel) buffer loc count progress t
        ≡ write_loop fuel buffer loc count (progress + chunk_at t loc count progress) t'
  unfolding write_loop
  loop_goes_on more e = rw (lt→ltb progress count more) (rw e refl)

  loop_stops :
      {t' : Tool}
      → progress < count
      → write_part buffer loc count progress t ≡ (none, t')
      → write_loop (suc fuel) buffer loc count progress t ≡ (none, t')
  unfolding write_loop
  loop_stops more e = rw (lt→ltb progress count more) (rw e refl)

loop_ends :
    (fuel : ℕ) (t : Tool) (buffer : ℕ → ℕ) (loc count progress : ℕ)
    → count ≤ progress
    → write_loop fuel buffer loc count progress t ≡ (some tt, t)
unfolding write_loop
loop_ends zero t buffer loc count progress done = ground arith
loop_ends (suc fuel) t buffer loc count progress done = ground arith

pub WriteOk-done :
    (fuel : ℕ) {t : Tool} (buffer : ℕ → ℕ) (loc count progress : ℕ)
    → IsReady t
    → count ≤ progress
    → WriteOk t buffer loc count progress (write_loop fuel buffer loc count progress t)
WriteOk-done fuel {t} buffer loc count progress r done = record {
  after = t;
  returns = loop_ends fuel t buffer loc count progress done;
  ready = r;
  changed = record { calm = r.calm; keeps = Keeps-refl t; outside = λ i h _. inl refl };
  written = λ i h. ground arith;
}

-- The outcome of the rest of the loop is that of the loop.
resume :
    {t t' : Tool} (buffer : ℕ → ℕ) (loc count progress : ℕ)
    {result result' : Option (Unit {0}) × Tool}
    → IsReady t
    → progress < count
    → loc + count < u64_mod
    → Loaded t t' (block_at t loc progress)
    → result ≡ result'
    → WriteOk
        (stored buffer loc count progress t t')
        buffer
        loc
        count
        (progress + chunk_at t loc count progress)
        result'
      ⊎ WriteFailed (stored buffer loc count progress t t') loc count result'
    → WriteOk t buffer loc count progress result ⊎ WriteFailed t loc count result
resume buffer loc count progress r more word l e (inl ok) = inl (record {
  after = ok.after;
  returns = e ∙ ok.returns;
  ready = ok.ready;
  changed = resume-Changed buffer loc count progress r more word l ok.changed;
  written = resume-IsWritten buffer loc count progress r more word ok.after l ok.written;
})
resume buffer loc count progress r more word l e (inr f) = inr (record {
  after = f.after;
  returns = e ∙ f.returns;
  changed = resume-Changed buffer loc count progress r more word l f.changed;
  beyond = omega (arith, f.beyond, same_whole l.settled);
})

-- From any point of the transfer with fuel for the rest: the loop writes it, or it leaves the
-- whole blocks of the device and the loop fails; other bytes are as they were or as a caller saw.
pub write_loop_lem :
    (fuel : ℕ) {t : Tool} (buffer : ℕ → ℕ) (loc count progress : ℕ)
    → IsReady t
    → loc + count < u64_mod
    → count ≤ fuel + progress
    → WriteOk t buffer loc count progress (write_loop fuel buffer loc count progress t)
      ⊎ WriteFailed t loc count (write_loop fuel buffer loc count progress t)
write_loop_lem zero buffer loc count progress r word enough =
    inl (WriteOk-done zero buffer loc count progress r (omega arith))
write_loop_lem (suc fuel) {t} buffer loc count progress r word enough =
    elim (dec_lt progress count) [
      | no done ↦ inl (WriteOk-done (suc fuel) buffer loc count progress r (omega arith))
      | yes more ↦
          elim (dec_le (block_at t loc progress * t.block_size + t.block_size) t.device.size) [
            | yes at ↦
                let (t', l, e) = part-stored buffer loc count progress r more word at in
                resume buffer loc count progress r more word l
                  (loop_goes_on fuel t buffer loc count progress more e)
                  (write_loop_lem fuel buffer loc count (progress + chunk_at t loc count progress)
                    (stored-IsReady buffer loc count progress r more word at l) word
                    (omega (arith, chunk_bounds r loc count progress more word)))
            | no out ↦
                let (t', s, e) = part-fails buffer loc count progress r more word out in
                inr (record {
                  after = t';
                  returns = loop_stops fuel t buffer loc count progress more e;
                  changed = record {
                    calm = s.calm;
                    keeps = s.keeps;
                    outside = λ i h _. s.device i h;
                  };
                  beyond = part_beyond loc count progress r more word out;
                })
          ]
    ]
