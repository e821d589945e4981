-- ===== src/Limine/Device/Read.antt =====
-- `_device_read` returns the bytes that a caller sees, and changes none.
use cell.Base.{add64, ◌^◌, ℕ, zero, suc, ◌+◌, ◌*◌, ◌≤◌, ◌<◌, lt→ltb}
use cell.Base.{◌≡◌, ◌⊎◌, inl, inr, refl, ◌∙◌, arith, u64_mod, Option, none, some}
use native.Mathlib.Nat.{div-add-mod', mod-lt, div-mul-le_self, le-div_iff_mul-le, mul-le-mul_right}
use native.Mathlib.Decide.{dec_lt, dec_le}
use cell.Limine.Tool.{Tool, patch}
use cell.Limine.Device.{block_at, offset_at, chunk_at, read_part, read_loop, device_read, blank}
use cell.Limine.Device.View.{IsBlock, IsReady}
use cell.Limine.Device.Block.{Settled, Loaded}
use cell.Limine.Device.Part.{
  whole, part_start, Kept-refl, Kept-trans, Settled-trans, chunk_bounds, block_word, Loaded-Kept,
  same_whole, part_beyond,
}
pub use cell.Limine.Device.Piece.{ReadOk, Failed}
use cell.Limine.Device.Piece.{part-Loaded, part-fails, word, part-IsRead}

module _ (fuel : ℕ) (t : Tool) (buffer : ℕ → ℕ) (loc count progress : ℕ) where
  loop_goes_on :
      {next : ℕ → ℕ} {t' : Tool}
      → progress < count
      → read_part buffer loc count progress t ≡ (some next, t')
      → read_loop (suc fuel) buffer loc count progress t
        ≡ read_loop fuel next loc count (progress + chunk_at t loc count progress) t'
  unfolding read_loop
  loop_goes_on more e = rw (lt→ltb progress count more) (rw e refl)

  loop_stops :
      {t' : Tool}
      → progress < count
      → read_part buffer loc count progress t ≡ (none, t')
      → read_loop (suc fuel) buffer loc count progress t ≡ (none, t')
  unfolding read_loop
  loop_stops more e = rw (lt→ltb progress count more) (rw e refl)

loop_ends :
    (fuel : ℕ) (t : Tool) (buffer : ℕ → ℕ) (loc count progress : ℕ)
    → count ≤ progress
    → read_loop fuel buffer loc count progress t ≡ (some buffer, t)
unfolding read_loop
loop_ends zero t buffer loc count progress done = ground arith
loop_ends (suc fuel) t buffer loc count progress done = ground arith

-- Nothing is left to read.
ReadOk-done :
    (fuel : ℕ) {t : Tool} (buffer : ℕ → ℕ) (loc count progress : ℕ)
    → IsReady t
    → count ≤ progress
    → ReadOk t buffer loc count progress (read_loop fuel buffer loc count progress t)
ReadOk-done fuel {t} buffer loc count progress r done = record {
  out = buffer;
  after = t;
  returns = loop_ends fuel t buffer loc count progress done;
  kept = Kept-refl t r;
  read = λ j h _. ground arith;
  inside = inl done;
}

-- The last part of a transfer ends in a whole block.
part-inside :
    {t t' : Tool} (loc count progress : ℕ)
    → IsReady t
    → progress < count
    → loc + count < u64_mod
    → IsBlock t (block_at t loc progress)
    → Settled t t'
    → (count ≤ progress + chunk_at t loc count progress) ⊎ (loc + count ≤ whole t')
    → loc + count ≤ whole t
part-inside {t} loc count progress r more word at s (inl last) = omega (
  arith,
  last,
  chunk_bounds r loc count progress more word,
  part_start loc count progress r more word,
  block_in_whole,
)
  where
    block_in_whole : block_at t loc progress * t.block_size + t.block_size ≤ whole t
    block_in_whole = omega (
      arith,
      mul-le-mul_right t.block_size (
          (le-div_iff_mul-le {k = t.block_size} {x = block_at t loc progress + 1}
              {y = t.device.size} (omega (arith, r.sized))).1
            (omega (arith, at))),
    )
part-inside loc count progress r more word at s (inr later) = omega (arith, later, same_whole s)

-- The outcome of the rest of the loop is that of the loop.
resume :
    {t t' : Tool} (buffer : ℕ → ℕ) (loc count progress : ℕ) {result result' : Option (ℕ → ℕ) × Tool}
    → IsReady t
    → progress < count
    → loc + count < u64_mod
    → IsBlock t (block_at t loc progress)
    → Loaded t t' (block_at t loc progress)
    → result ≡ result'
    → ReadOk t'
        (patch buffer progress
          (chunk_at t loc count progress)
          (λ j. t'.cache (offset_at t loc progress + j)))
        loc
        count
        (progress + chunk_at t loc count progress)
        result'
      ⊎ Failed t' loc count result'
    → ReadOk t buffer loc count progress result ⊎ Failed t loc count result
resume buffer loc count progress r more word at l e (inl ok) = inl (record {
  out = ok.out;
  after = ok.after;
  returns = e ∙ ok.returns;
  kept = Kept-trans (Loaded-Kept l) ok.kept;
  read = part-IsRead buffer loc count progress ok.out r more word at l ok.read;
  inside = inr (part-inside loc count progress r more word at l.settled ok.inside);
})
resume buffer loc count progress r more word at l e (inr f) = inr (record {
  after = f.after;
  returns = e ∙ f.returns;
  settled = Settled-trans l.settled l.same_view f.settled;
  beyond = omega (arith, f.beyond, same_whole l.settled);
})

-- From any point of the transfer with fuel for the rest: the loop reads it, or it leaves the whole
-- blocks of the device and the loop fails.
read_loop_lem :
    (fuel : ℕ) {t : Tool} (buffer : ℕ → ℕ) (loc count progress : ℕ)
    → IsReady t
    → loc + count < u64_mod
    → count ≤ fuel + progress
    → ReadOk t buffer loc count progress (read_loop fuel buffer loc count progress t)
      ⊎ Failed t loc count (read_loop fuel buffer loc count progress t)
read_loop_lem zero buffer loc count progress r word enough =
    inl (ReadOk-done zero buffer loc count progress r (omega arith))
read_loop_lem (suc fuel) {t} buffer loc count progress r word enough =
    elim (dec_lt progress count) [
      | no done ↦ inl (ReadOk-done (suc fuel) buffer loc count progress r (omega arith))
      | yes more ↦
          elim (dec_le (block_at t loc progress * t.block_size + t.block_size) t.device.size) [
            | yes at ↦
                let (t', l, e) = part-Loaded buffer loc count progress r at in
                resume buffer loc count progress r more word at l
                  (loop_goes_on fuel t buffer loc count progress more e)
                  (read_loop_lem fuel _ loc count (progress + chunk_at t loc count progress) l.ready
                    word (omega (arith, chunk_bounds r loc count progress more word)))
            | no out ↦
                let (t', s, e) =
                  part-fails buffer loc count progress r out
                    (block_word r loc count progress more word) in
                inr (record {
                  after = t';
                  returns = loop_stops fuel t buffer loc count progress more e;
                  settled = s;
                  beyond = part_beyond loc count progress r more word out;
                })
          ]
    ]

-- `_device_read`, on a device that is ready and of which no call fails: a transfer within the whole blocks of the device returns
-- the bytes that a caller sees there, and changes none as a caller sees them.
pub device_read_lem :
    {t : Tool} (loc count : ℕ)
    → IsReady t
    → loc + count ≤ whole t
    → ReadOk t blank loc count 0 (device_read loc count t)
unfolding device_read
device_read_lem {t} loc count r fits =
    elim (read_loop_lem count blank loc count 0 r (word r loc count fits) (omega arith)) [
      | inl ok ↦ ok
      | inr f ↦ absurd (omega (arith, f.beyond))
    ]

-- What C allows as a transfer: the address is a `uint64_t`, and no object has 2 ^ 63 bytes.
abbrev pub IsTransfer : ℕ → ℕ → Type 0
IsTransfer loc count = (loc < u64_mod) × (count < 2 ^ 63)

-- An address from 2 ^ 63 on is on no device, though the transfer may wrap around.
far-fails :
    {t : Tool} (loc count : ℕ)
    → IsReady t
    → loc < u64_mod
    → 2 ^ 63 ≤ loc
    → Failed t loc (suc count) (read_loop (suc count) blank loc (suc count) 0 t)
far-fails {t} loc count r low far =
    let same : add64 loc 0 ≡ loc = omega arith in
    let start : block_at t loc 0 * t.block_size ≤ loc =
      omega (arith, same, div-mul-le_self (add64 loc 0) t.block_size) in
    let end : loc < block_at t loc 0 * t.block_size + t.block_size = omega (
      arith,
      same,
      div-add-mod' (add64 loc 0) t.block_size,
      mod-lt (add64 loc 0) {m = t.block_size} (omega (arith, r.sized)),
    ) in
    let (t', s, e) =
      part-fails blank loc (suc count) 0 r (λ at. omega (arith, at, end, r.small)) (omega arith) in
    record {
      after = t';
      returns = loop_stops count t blank loc (suc count) 0 (omega arith) e;
      settled = s;
      beyond = omega (arith, r.small, div-mul-le_self t.device.size t.block_size);
    }

-- Any transfer: it succeeds so, or leaves the whole blocks and fails, with nothing lost.
pub device_read-outcome :
    {t : Tool} (loc count : ℕ)
    → IsReady t
    → IsTransfer loc count
    → ReadOk t blank loc count 0 (device_read loc count t)
      ⊎ Failed t loc count (device_read loc count t)
unfolding device_read
device_read-outcome loc zero r size = inl (ReadOk-done zero blank loc zero 0 r (omega arith))
device_read-outcome loc (suc count) r size = elim (dec_lt (loc + suc count) u64_mod) [
  | yes word ↦ read_loop_lem (suc count) blank loc (suc count) 0 r word (omega arith)
  | no wraps ↦ inr (far-fails loc count r size.0 (omega (arith, size.1)))
]
