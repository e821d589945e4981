-- ===== src/Limine/Device/Piece.antt =====
-- One part of a read: what it puts into the buffer.
use cell.Base.{ℕ, ◌+◌, ◌-◌, ◌*◌, ◌≤◌, ◌<◌, ltb, if◌then◌else◌}
use cell.Base.{◌≡◌, ◌⊎◌, refl, ap, arith, u64_mod, Option, none, some}
use native.Mathlib.Nat.{div-mul-le_self}
use native.Mathlib.Decide.{dec_lt}
use cell.Limine.Tool.{Tool, patch}
use cell.Limine.Device.{block_at, offset_at, chunk_at, read_part}
use cell.Limine.Device.View.{view, IsBlock, IsReady}
use cell.Limine.Device.Block.{Settled, Loaded, device_cache_block-Loaded, device_cache_block-fails}
use cell.Limine.Device.Part.{whole, Kept, Loaded-byte}

-- The buffer after a read from byte `progress` of the transfer on.
abbrev IsRead : Tool → (ℕ → ℕ) → ℕ → ℕ → ℕ → (ℕ → ℕ) → Type 0
IsRead t buffer loc count progress out =
    (j : ℕ)
    → j < count
    → loc + j < t.device.size
    → out j ≡ (if ltb j progress then buffer j else view t (loc + j))

pub record ReadOk (t : Tool) (buffer : ℕ → ℕ) (loc count progress : ℕ)
    (result : Option (ℕ → ℕ) × Tool) : Type 0 where
  pub out : ℕ → ℕ
  pub after : Tool
  pub returns : result ≡ (some out, after)
  pub kept : Kept t after
  pub read : IsRead t buffer loc count progress out
  pub inside : (count ≤ progress) ⊎ (loc + count ≤ whole t)

-- A transfer that leaves the whole blocks of the device fails, and nothing on it is lost.
pub record Failed {A : Type 0} (t : Tool) (loc count : ℕ) (result : Option A × Tool) : Type 0 where
  pub after : Tool
  pub returns : result ≡ (none, after)
  pub settled : Settled t after
  pub beyond : whole t < loc + count

-- The next part, where its block is on the device.
pub part-Loaded :
    {t : Tool} (buffer : ℕ → ℕ) (loc count progress : ℕ)
    → IsReady t
    → IsBlock t (block_at t loc progress)
    → (t' : Tool) × Loaded t t' (block_at t loc progress)
      × (read_part buffer loc count progress t ≡ (
        some (
            patch buffer progress
              (chunk_at t loc count progress)
              (λ j. t'.cache (offset_at t loc progress + j))),
        t',
      ))
unfolding read_part
part-Loaded {t} buffer loc count progress r at =
    let (t', e, l) = device_cache_block-Loaded (block_at t loc progress) t r at in
    (t', l, rw e refl)

pub part-fails :
    {t : Tool} (buffer : ℕ → ℕ) (loc count progress : ℕ)
    → IsReady t
    → ¬ IsBlock t (block_at t loc progress)
    → block_at t loc progress * t.block_size < u64_mod
    → (t' : Tool) × Settled t t' × (read_part buffer loc count progress t ≡ (none, t'))
unfolding read_part
part-fails {t} buffer loc count progress r out word =
    let (t', e, s) = device_cache_block-fails (block_at t loc progress) t r out word in
    (t', s, rw e refl)

pub word : {t : Tool} → IsReady t → (loc count : ℕ) → loc + count ≤ whole t → loc + count < u64_mod
word {t} r loc count fits = omega (arith, r.small, div-mul-le_self t.device.size t.block_size)

-- What the part has put into the buffer is what the caller sees.
pub part-IsRead :
    {t t' : Tool} (buffer : ℕ → ℕ) (loc count progress : ℕ) (out : ℕ → ℕ)
    → IsReady t
    → progress < count
    → loc + count < u64_mod
    → IsBlock t (block_at t loc progress)
    → Loaded t t' (block_at t loc progress)
    → IsRead t'
        (patch buffer progress
          (chunk_at t loc count progress)
          (λ j. t'.cache (offset_at t loc progress + j)))
        loc
        count
        (progress + chunk_at t loc count progress)
        out
    → IsRead t buffer loc count progress out
part-IsRead {t} {t'} buffer loc count progress out r more word at l rest j h inside =
    elim (dec_lt j progress) [
      | yes before ↦ ground (arith, there)
      | no behind ↦ elim (dec_lt j (progress + chunk_at t loc count progress)) [
        | yes part ↦ ground (
          arith,
          there,
          l.same_view (loc + j) inside,
          ap (view t') (same_place behind),
          from_cache part behind,
        )
        | no after ↦ ground (arith, there, l.same_view (loc + j) inside)
      ]
    ]
  where
    there : out j ≡ (
        if ltb j (progress + chunk_at t loc count progress)
        then patch buffer progress
            (chunk_at t loc count progress)
            (λ j. t'.cache (offset_at t loc progress + j))
            j
        else view t' (loc + j))
    there = rest j h (rw l.settled.keeps.same_size inside)

    same_place : ¬ (j < progress) → loc + progress + (j - progress) ≡ loc + j
    same_place behind = omega arith

    from_cache :
        j < progress + chunk_at t loc count progress
        → ¬ (j < progress)
        → view t' (loc + progress + (j - progress))
          ≡ t'.cache (offset_at t loc progress + (j - progress))
    from_cache part behind =
        Loaded-byte r loc count progress more word l (j - progress) (omega arith)
