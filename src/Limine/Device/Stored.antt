-- ===== src/Limine/Device/Stored.antt =====
-- One part of a write: what the cache then holds, and what a caller sees.
use cell.Base.{ℕ, ◌+◌, ◌-◌, ◌*◌, ◌/◌, ◌%◌, ◌≤◌, ◌<◌, ltb, leb, ◌&&◌, if◌then◌else◌}
use cell.Base.{◌≡◌, ◌≢◌, ◌⊎◌, inl, inr, refl, sym, ap, ◌∙◌, arith, u64_mod, Option, none, some, []}
use native.Mathlib.Nat.{div-add-mod'}
use native.Mathlib.Decide.{ℕ_discrete, dec_lt, dec_le}
use cell.Limine.Tool.{Tool, patch, cache_dirty}
use cell.Limine.Device.{block_at, offset_at, chunk_at, write_part}
use cell.Limine.Device.View.{view, IsBlock, IsReady, Keeps, Keeps-trans, view_in, view_out}
use cell.Limine.Device.Block.{Settled, Loaded, device_cache_block-Loaded, device_cache_block-fails}
use cell.Limine.Device.Part.{whole, part_start, chunk_bounds, block_word, in_part}

-- After a call that may write the bytes from `lo` up to `hi`: no call will fail, and every other
-- byte of the device is as it was or as a caller saw it.
pub record Changed (t t' : Tool) (lo hi : ℕ) : Type 0 where
  pub calm : t'.faults ≡ []
  pub keeps : Keeps t t'
  pub outside :
      (i : ℕ)
      → i < t.device.size
      → (i < lo) ⊎ (hi ≤ i)
      → (t'.device.content i ≡ t.device.content i) ⊎ (t'.device.content i ≡ view t i)

-- The bytes as a caller sees them, once those from `progress` on are written.
abbrev pub IsWritten : Tool → (ℕ → ℕ) → ℕ → ℕ → ℕ → Tool → Type 0
IsWritten t buffer loc count progress t' =
    (i : ℕ)
    → i < t.device.size
    → view t' i
      ≡ (if leb (loc + progress) i && ltb i (loc + count) then buffer (i - loc) else view t i)

pub record WriteOk (t : Tool) (buffer : ℕ → ℕ) (loc count progress : ℕ)
    (result : Option (Unit {0}) × Tool) : Type 0 where
  pub after : Tool
  pub returns : result ≡ (some tt, after)
  pub ready : IsReady after
  pub changed : Changed t after loc (loc + count)
  pub written : IsWritten t buffer loc count progress after

pub record WriteFailed (t : Tool) (loc count : ℕ) (result : Option (Unit {0}) × Tool) : Type 0 where
  pub after : Tool
  pub returns : result ≡ (none, after)
  pub changed : Changed t after loc (loc + count)
  pub beyond : whole t < loc + count

-- The state after one part is written into the cache, where its block is `t'`'s.
abbrev pub stored : (ℕ → ℕ) → ℕ → ℕ → ℕ → Tool → Tool → Tool
stored buffer loc count progress t t' = record t' {
  cache =
      patch t'.cache (offset_at t loc progress) (chunk_at t loc count progress)
        (λ j. buffer (progress + j));
  cache_state = cache_dirty;
}

module _ {t : Tool} (buffer : ℕ → ℕ) (loc count progress : ℕ) (r : IsReady t)
    (more : progress < count) (word : loc + count < u64_mod) where
  pub part-stored :
      IsBlock t (block_at t loc progress)
      → (t' : Tool) × Loaded t t' (block_at t loc progress)
        × (write_part buffer loc count progress t
            ≡ (some tt, stored buffer loc count progress t t'))
  unfolding write_part
  part-stored at =
      let (t', e, l) = device_cache_block-Loaded (block_at t loc progress) t r at in
      (t', l, rw e refl)

  pub part-fails :
      ¬ IsBlock t (block_at t loc progress)
      → (t' : Tool) × Settled t t' × (write_part buffer loc count progress t ≡ (none, t'))
  unfolding write_part
  part-fails out =
      let (t', e, s) =
        device_cache_block-fails (block_at t loc progress) t r out
          (block_word r loc count progress more word) in
      (t', s, rw e refl)

  pub stored-IsReady :
      {t' : Tool}
      → IsBlock t (block_at t loc progress)
      → Loaded t t' (block_at t loc progress)
      → IsReady (stored buffer loc count progress t t')
  stored-IsReady {t'} at l = record {
    calm = l.ready.calm;
    sized = l.ready.sized;
    small = l.ready.small;
    cached = inl (rw (l.loaded, l.settled.keeps.same_size, l.settled.keeps.same_block_size) at);
    coherent = λ clean. cc clean;
  }

  pub same_place :
      (i : ℕ)
      → i / t.block_size ≡ block_at t loc progress
      → offset_at t loc progress ≤ i % t.block_size
      → progress + (i % t.block_size - offset_at t loc progress) ≡ i - loc
  same_place i q from = omega (
    arith,
    part_start loc count progress r more word,
    div-add-mod' i t.block_size,
    ap (λ (x : ℕ). x * t.block_size) q,
  )

  -- Where the part's bytes are in the cache.
  stored_at :
      (i : ℕ)
      → i / t.block_size ≡ block_at t loc progress
      → (cache : ℕ → ℕ)
      → patch cache
          (offset_at t loc progress)
          (chunk_at t loc count progress)
          (λ j. buffer (progress + j))
          (i % t.block_size)
        ≡ (if leb (loc + progress) i && ltb i (loc + progress + chunk_at t loc count progress)
            then buffer (i - loc)
            else cache (i % t.block_size))
  stored_at i q cache = elim (dec_le (loc + progress) i) [
    | no low ↦ ground (arith, (in_part loc count progress r more word i).0, q)
    | yes above ↦ elim (dec_lt i (loc + progress + chunk_at t loc count progress)) [
      | no high ↦ ground (arith, (in_part loc count progress r more word i).0, q)
      | yes below ↦
          let p = (in_part loc count progress r more word i).1 (above, below) in
          ground (arith, p.1, p.2, ap buffer (same_place i q p.1))
    ]
  ]

  -- The part shows what was put into it; every other byte shows what it did.
  view-stored :
      {t' : Tool}
      → Loaded t t' (block_at t loc progress)
      → (i : ℕ) → i < t.device.size
      → view (stored buffer loc count progress t t') i ≡ (
          if leb (loc + progress) i && ltb i (loc + progress + chunk_at t loc count progress)
          then buffer (i - loc)
          else view t i)
  view-stored {t'} l i h = elim (ℕ_discrete (i / t'.block_size) t'.cached_block) [
    | yes e ↦
        let off : i % t'.block_size ≡ i % t.block_size =
          ap (λ (b : ℕ). i % b) l.settled.keeps.same_block_size in
        let q : i / t.block_size ≡ block_at t loc progress =
          ap (λ (b : ℕ). i / b) (sym l.settled.keeps.same_block_size) ∙ e ∙ l.loaded in
        let kept : t'.cache (i % t.block_size) ≡ view t i =
          ap t'.cache (sym off) ∙ sym (view_in t' i e) ∙ l.same_view i h in
        view_in (stored buffer loc count progress t t') i e
        ∙ ap (stored buffer loc count progress t t').cache off
        ∙ stored_at i q t'.cache
        ∙ ap
            (λ (v : ℕ).
              if leb (loc + progress) i && ltb i (loc + progress + chunk_at t loc count progress)
              then buffer (i - loc)
              else v)
            kept
    | no ne ↦
        let other : i / t.block_size ≢ block_at t loc progress =
          λ q. ne (ap (λ (b : ℕ). i / b) l.settled.keeps.same_block_size ∙ q ∙ sym l.loaded) in
        let kept : view (stored buffer loc count progress t t') i ≡ view t i =
          view_out (stored buffer loc count progress t t') i ne
          ∙ sym (view_out t' i ne)
          ∙ l.same_view i h in
        ground (arith, kept, other, (in_part loc count progress r more word i).1)
  ]

  outside-stored :
      {t' : Tool}
      → Loaded t t' (block_at t loc progress)
      → (i : ℕ) → i < t.device.size
      → (i < loc) ⊎ (loc + count ≤ i)
      → view (stored buffer loc count progress t t') i ≡ view t i
  outside-stored l i h (inl low) = view-stored l i h ∙ ground arith
  outside-stored l i h (inr high) =
      view-stored l i h ∙ ground (arith, chunk_bounds r loc count progress more word)

  -- What the rest of the loop changes, the loop changes.
  pub resume-Changed :
      {t' v : Tool}
      → Loaded t t' (block_at t loc progress)
      → Changed (stored buffer loc count progress t t') v loc (loc + count)
      → Changed t v loc (loc + count)
  resume-Changed {t'} {v} l c = record {
    calm = c.calm;
    keeps = Keeps-trans l.settled.keeps (record {
      same_block_size = c.keeps.same_block_size;
      same_size = c.keeps.same_size;
      same_uninstalling = c.keeps.same_uninstalling;
      same_data = c.keeps.same_data;
      same_count = c.keeps.same_count;
    });
    outside = λ i h out. byte i h out (c.outside i (rw l.settled.keeps.same_size h) out);
  }
    where
      byte :
          (i : ℕ)
          → i < t.device.size
          → (i < loc) ⊎ (loc + count ≤ i)
          → (v.device.content i ≡ t'.device.content i)
            ⊎ (v.device.content i ≡ view (stored buffer loc count progress t t') i)
          → (v.device.content i ≡ t.device.content i) ⊎ (v.device.content i ≡ view t i)
      byte i h out (inl e) = ground (arith, l.settled.device i h)
      byte i h out (inr e) = inr (e ∙ outside-stored l i h out)

  pub resume-IsWritten :
      {t' : Tool} (v : Tool)
      → Loaded t t' (block_at t loc progress)
      → IsWritten
          (stored buffer loc count progress t t')
          buffer
          loc
          count
          (progress + chunk_at t loc count progress)
          v
      → IsWritten t buffer loc count progress v
  resume-IsWritten {t'} v l w i h =
      w i (rw l.settled.keeps.same_size h)
      ∙ ap
          (λ (x : ℕ).
            if leb (loc + (progress + chunk_at t loc count progress)) i && ltb i (loc + count)
            then buffer (i - loc)
            else x)
          (view-stored l i h)
      ∙ merge
    where
      merge :
          (if leb (loc + (progress + chunk_at t loc count progress)) i && ltb i (loc + count)
            then buffer (i - loc)
            else if leb (loc + progress) i && ltb i (loc + progress + chunk_at t loc count progress)
            then buffer (i - loc)
            else view t i)
          ≡ (if leb (loc + progress) i && ltb i (loc + count) then buffer (i - loc) else view t i)
      merge = elim (dec_le (loc + progress) i) [
        | no low ↦ ground arith
        | yes above ↦ elim (dec_lt i (loc + count)) [
          | no high ↦ ground (arith, chunk_bounds r loc count progress more word)
          | yes below ↦ elim (dec_lt i (loc + progress + chunk_at t loc count progress)) [
            | yes part ↦ ground arith
            | no after ↦ ground arith
          ]
        ]
      ]
