-- ===== src/Limine/Device/Part.antt =====
-- One part of a transfer lies in one block.
use cell.Base.{ℕ, ◌+◌, ◌-◌, ◌*◌, ◌/◌, ◌%◌, ◌≤◌, ◌<◌}
use cell.Base.{◌↔◌, ◌≡◌, ◌⊎◌, inl, inr, refl, sym, ap, ◌∙◌, arith, u64_mod, add64}
use cell.Base.Div.{div-add_within, mod-add_within}
use mathlib.Core.Path.{ap₂}
use native.Mathlib.Nat.{mod-lt, mod-eq_of_lt, div-add-mod', div-lt_iff_lt-mul, mul-le-mul_right}
use native.Mathlib.Decide.{dec_le}
use cell.Limine.Tool.{Tool}
use cell.Limine.Device.{block_at, offset_at, chunk_at}
use cell.Limine.Device.View.{view, IsBlock, IsReady, Keeps-trans, view_in}
use cell.Limine.Device.Block.{Settled, Loaded}

-- The bytes of the device that lie in whole blocks.
abbrev pub whole : Tool → ℕ
whole t = t.device.size / t.block_size * t.block_size

-- What holds after a call that succeeds without writing.
pub record Kept (t t' : Tool) : Type 0 where
  pub ready : IsReady t'
  pub settled : Settled t t'
  pub same_view : (i : ℕ) → i < t.device.size → view t' i ≡ view t i

pub Kept-refl : (t : Tool) → IsReady t → Kept t t
Kept-refl t r = record {
  ready = r;
  settled = record {
    calm = r.calm;
    keeps = record {
      same_block_size = refl;
      same_size = refl;
      same_uninstalling = refl;
      same_data = refl;
      same_count = refl;
    };
    device = λ i h. inl refl;
  };
  same_view = λ i h. refl;
}

Settled-byte :
    {t u : Tool} (v : Tool)
    → Settled t u
    → ((i : ℕ) → i < t.device.size → view u i ≡ view t i)
    → (i : ℕ) → i < t.device.size
    → (v.device.content i ≡ u.device.content i) ⊎ (v.device.content i ≡ view u i)
    → (v.device.content i ≡ t.device.content i) ⊎ (v.device.content i ≡ view t i)
Settled-byte v s same i h (inl e) = ground (arith, s.device i h)
Settled-byte v s same i h (inr e) = inr (e ∙ same i h)

pub Settled-trans :
    {t u v : Tool}
    → Settled t u
    → ((i : ℕ) → i < t.device.size → view u i ≡ view t i)
    → Settled u v
    → Settled t v
Settled-trans {t} {u} {v} a same b = record {
  calm = b.calm;
  keeps = Keeps-trans a.keeps b.keeps;
  device = λ i h. Settled-byte v a same i h (b.device i (rw a.keeps.same_size h));
}

pub Kept-trans : {t u v : Tool} → Kept t u → Kept u v → Kept t v
Kept-trans a b = record {
  ready = b.ready;
  settled = Settled-trans a.settled a.same_view b.settled;
  same_view = λ i h. b.same_view i (rw a.settled.keeps.same_size h) ∙ a.same_view i h;
}

module _ {t : Tool} (r : IsReady t) (loc count progress : ℕ) (more : progress < count)
    (word : loc + count < u64_mod) where
  -- No wrap: the part begins at byte `loc + progress`.
  pub at_byte : add64 loc progress ≡ loc + progress
  at_byte = mod-eq_of_lt {n = loc + progress} {m = u64_mod} (omega arith)

  -- A part moves a byte at least, stays within its block and within the transfer.
  pub chunk_bounds :
      (0 < chunk_at t loc count progress)
      × (offset_at t loc progress + chunk_at t loc count progress ≤ t.block_size)
      × (progress + chunk_at t loc count progress ≤ count)
  chunk_bounds =
      ground (arith, mod-lt (add64 loc progress) {m = t.block_size} (omega (arith, r.sized)))

  pub block_word : block_at t loc progress * t.block_size < u64_mod
  block_word = omega (arith, div-add-mod' (add64 loc progress) t.block_size, at_byte)

  -- Where the transfer lies in whole blocks, so does the part; else its block is not on the device.
  pub part_IsBlock : loc + count ≤ whole t → IsBlock t (block_at t loc progress)
  part_IsBlock fits = omega (
    arith,
    mul-le-mul_right t.block_size (
        (div-lt_iff_lt-mul {k = t.block_size} {x = add64 loc progress}
            {y = t.device.size / t.block_size} (omega (arith, r.sized))).1
          (omega (arith, at_byte))),
    div-add-mod' t.device.size t.block_size,
  )

  -- The bytes of the part are at successive offsets of one block.
  pub part_byte :
      (j : ℕ)
      → j < chunk_at t loc count progress
      → ((loc + progress + j) / t.block_size ≡ block_at t loc progress)
        × ((loc + progress + j) % t.block_size ≡ offset_at t loc progress + j)
  part_byte j h =
      let inside : add64 loc progress % t.block_size + j < t.block_size =
        omega (arith, chunk_bounds.1) in
      (
        ap (λ (x : ℕ). (x + j) / t.block_size) (sym at_byte)
            ∙ div-add_within (add64 loc progress) j t.block_size inside,
        ap (λ (x : ℕ). (x + j) % t.block_size) (sym at_byte)
            ∙ mod-add_within (add64 loc progress) j t.block_size inside,
      )

  -- Once the block is cached, the cache holds the bytes of the part.
  pub Loaded-byte :
      {t' : Tool}
      → Loaded t t' (block_at t loc progress)
      → (j : ℕ) → j < chunk_at t loc count progress
      → view t' (loc + progress + j) ≡ t'.cache (offset_at t loc progress + j)
  Loaded-byte {t'} l j h =
      let bs = l.settled.keeps.same_block_size in
      view_in t' (loc + progress + j)
        (ap (λ (b : ℕ). (loc + progress + j) / b) bs ∙ (part_byte j h).0 ∙ sym l.loaded)
      ∙ ap t'.cache (ap (λ (b : ℕ). (loc + progress + j) % b) bs ∙ (part_byte j h).1)

pub Loaded-Kept : {t t' : Tool} {b : ℕ} → Loaded t t' b → Kept t t'
Loaded-Kept l = record { ready = l.ready; settled = l.settled; same_view = l.same_view }

pub same_whole : {t t' : Tool} → Settled t t' → whole t' ≡ whole t
same_whole s = ap₂ (λ (n b : ℕ). n / b * b) s.keeps.same_size s.keeps.same_block_size

-- A transfer of which a part is on no block of the device does not lie in its whole blocks.
pub part_beyond :
    {t : Tool} (loc count progress : ℕ)
    → IsReady t
    → progress < count
    → loc + count < u64_mod
    → ¬ IsBlock t (block_at t loc progress)
    → whole t < loc + count
part_beyond {t} loc count progress r more word out = elim (dec_le (loc + count) (whole t)) [
  | yes fits ↦ absurd (out (part_IsBlock r loc count progress more word fits))
  | no beyond ↦ omega arith
]

pub part_start :
    {t : Tool} (loc count progress : ℕ)
    → IsReady t
    → progress < count
    → loc + count < u64_mod
    → block_at t loc progress * t.block_size + offset_at t loc progress ≡ loc + progress
part_start {t} loc count progress r more word =
    omega (
      arith,
      div-add-mod' (add64 loc progress) t.block_size,
      at_byte r loc count progress more word,
    )

-- A byte belongs to the part exactly if it is in the part's block, at an offset of the part.
pub in_part :
    {t : Tool} (loc count progress : ℕ)
    → IsReady t
    → progress < count
    → loc + count < u64_mod
    → (i : ℕ)
    → ((i / t.block_size ≡ block_at t loc progress)
        × (offset_at t loc progress ≤ i % t.block_size)
        × (i % t.block_size < offset_at t loc progress + chunk_at t loc count progress))
      ↔ ((loc + progress ≤ i) × (i < loc + progress + chunk_at t loc count progress))
in_part {t} loc count progress r more word i = (there, back)
  where
    there :
        (i / t.block_size ≡ block_at t loc progress)
          × (offset_at t loc progress ≤ i % t.block_size)
          × (i % t.block_size < offset_at t loc progress + chunk_at t loc count progress)
        → (loc + progress ≤ i) × (i < loc + progress + chunk_at t loc count progress)
    there h = omega (
      arith,
      part_start loc count progress r more word,
      div-add-mod' i t.block_size,
      ap (λ (q : ℕ). q * t.block_size) h.0,
    )

    back :
        (loc + progress ≤ i) × (i < loc + progress + chunk_at t loc count progress)
        → (i / t.block_size ≡ block_at t loc progress)
          × (offset_at t loc progress ≤ i % t.block_size)
          × (i % t.block_size < offset_at t loc progress + chunk_at t loc count progress)
    back h =
        let b = part_byte r loc count progress more word (i - (loc + progress)) (omega arith) in
        let e : loc + progress + (i - (loc + progress)) ≡ i = omega arith in
        let q : i / t.block_size ≡ block_at t loc progress =
          ap (λ (x : ℕ). x / t.block_size) (sym e) ∙ b.0 in
        let m : i % t.block_size ≡ offset_at t loc progress + (i - (loc + progress)) =
          ap (λ (x : ℕ). x % t.block_size) (sym e) ∙ b.1 in
        (q, omega arith, omega arith)
