-- ===== src/Limine/Device/Flush.antt =====
-- `device_flush_cache` writes the cached block back and loses nothing.
use cell.Base.{ℕ, ◌+◌, ◌-◌, ◌*◌, ◌/◌, ◌^◌, ◌≤◌, ◌<◌, max}
use cell.Base.{◌≡◌, ◌⊎◌, inl, inr, refl, sym, ap, ◌∙◌, arith, none, some}
use cell.Base.{[], mul64-eq_of_lt}
use cell.Base.Div.{div_eq_iff, sub-mul-eq_mod}
use native.Mathlib.Decide.{ℕ_discrete}
use cell.Limine.Tool.{
  CacheState, cache_clean, cache_dirty, Tool, set_pos, fread_cache, fwrite_cache, patch, seek,
  read_over,
}
use cell.Limine.Device.{no_block, device_flush_cache, flush_if, write_back}
use cell.Limine.Device.View.{
  view, IsBlock, IsReady, Keeps, Keeps-refl, view_in, view_out, view_clean,
}

-- The calls of the C library, where none fails.
pub set_pos-ok :
    (pos : ℕ) (t : Tool) → t.faults ≡ [] → pos < 2 ^ 63 → set_pos pos t ≡ (some tt, seek pos t)
unfolding set_pos
set_pos-ok pos t calm h = ground arith

pub fwrite_cache-ok :
    (n : ℕ) (t : Tool)
    → t.faults ≡ []
    → fwrite_cache n t ≡ (
      some tt,
      record t {
        device = record {
          content = patch t.device.content t.device.pos n t.cache;
          size = max t.device.size (t.device.pos + n);
          pos = t.device.pos + n;
        };
      },
    )
unfolding fwrite_cache
fwrite_cache-ok n t calm = ground arith

pub fread_cache-ok :
    (n : ℕ) (t : Tool)
    → t.faults ≡ []
    → t.device.pos + n ≤ t.device.size
    → fread_cache n t
      ≡ (some tt, seek (t.device.pos + n) (record t { cache = read_over t.device n t.cache }))
unfolding fread_cache
fread_cache-ok n t calm h = ground arith

pub set_pos-fails : (pos : ℕ) (t : Tool) → t.faults ≡ [] → 2 ^ 63 ≤ pos → set_pos pos t ≡ (none, t)
unfolding set_pos
set_pos-fails pos t calm h = ground arith

pub fread_cache-short :
    (n : ℕ) (t : Tool)
    → t.faults ≡ []
    → t.device.size < t.device.pos + n
    → fread_cache n t ≡ (
      none,
      seek (max t.device.pos t.device.size) (record t { cache = read_over t.device n t.cache }),
    )
unfolding fread_cache
fread_cache-short n t calm h = ground arith

-- The state after a dirty block is written back.
abbrev written : Tool → Tool
written t =
    let start = t.cached_block * t.block_size in
    record t {
      device = record {
        content = patch t.device.content start t.block_size t.cache;
        size = max t.device.size (start + t.block_size);
        pos = start + t.block_size;
      };
      cache_state = cache_clean;
    }

write_back-eq :
    (t : Tool) → IsReady t → IsBlock t t.cached_block → write_back t ≡ (some tt, written t)
unfolding write_back
write_back-eq t r b =
    let start : ℕ = t.cached_block * t.block_size in
    let low : start < 2 ^ 63 = omega (arith, r.small) in
    rw (mul64-eq_of_lt t.cached_block t.block_size (omega arith), set_pos-ok start t r.calm low)
      (rw (fwrite_cache-ok t.block_size (seek start t) r.calm) refl)

-- The write puts the cached bytes where the view shows them.
written-content : (t : Tool) → 0 < t.block_size → (i : ℕ) → (written t).device.content i ≡ view t i
written-content t pos i = elim (ℕ_discrete (i / t.block_size) t.cached_block) [
  | yes e ↦
      let h = (div_eq_iff i t.cached_block t.block_size pos).0 e in
      ground (arith, h.0, h.1, sub-mul-eq_mod i t.cached_block t.block_size e, view_in t i e)
  | no out ↦ ground (arith, div_eq_iff i t.cached_block t.block_size pos, view_out t i out)
]

pub record Flushed (t t' : Tool) : Type 0 where
  pub ready : IsReady t'
  pub keeps : Keeps t t'
  pub clean : t'.cache_state ≡ cache_clean
  pub same_block : t'.cached_block ≡ t.cached_block
  pub same_view : (i : ℕ) → i < t.device.size → view t' i ≡ view t i
  pub on_device : (i : ℕ) → i < t.device.size → t'.device.content i ≡ view t i

same_size-written : (t : Tool) → IsBlock t t.cached_block → (written t).device.size ≡ t.device.size
same_size-written t b = omega arith

written-IsReady : (t : Tool) → IsReady t → IsBlock t t.cached_block → IsReady (written t)
written-IsReady t r b = record {
  calm = r.calm;
  sized = r.sized;
  small = omega (arith, r.small);
  cached = inl (omega arith);
  coherent = λ clean b' j h.
      ap t.cache {y = t.cached_block * t.block_size + j - t.cached_block * t.block_size}
        (omega arith)
      ∙ ground arith;
}

written-Flushed : (t : Tool) → IsReady t → IsBlock t t.cached_block → Flushed t (written t)
written-Flushed t r b = record {
  ready = written-IsReady t r b;
  keeps = record {
    same_block_size = refl;
    same_size = same_size-written t b;
    same_uninstalling = refl;
    same_data = refl;
    same_count = refl;
  };
  clean = refl;
  same_block = refl;
  same_view = λ i h.
      view_clean (written-IsReady t r b) refl i (omega (arith, same_size-written t b))
      ∙ written-content t (omega (arith, r.sized)) i;
  on_device = λ i h. written-content t (omega (arith, r.sized)) i;
}

-- With no failing call a flush succeeds, leaves a clean cache, changes no byte as a caller sees
-- it, and every byte of the device is then the one that the caller sees.
pub device_flush_cache-Flushed :
    (t : Tool) → IsReady t → (t' : Tool) × (device_flush_cache t ≡ (some tt, t')) × Flushed t t'
unfolding device_flush_cache
device_flush_cache-Flushed t r = go t.cache_state refl r.cached
  where
    go :
        (s : CacheState)
        → t.cache_state ≡ s
        → IsBlock t t.cached_block ⊎ ((t.cached_block ≡ no_block) × (t.cache_state ≡ cache_clean))
        → (t' : Tool) × (flush_if s t ≡ (some tt, t')) × Flushed t t'
    go cache_clean e c = (
      t,
      refl,
      record {
        ready = r;
        keeps = Keeps-refl t;
        clean = e;
        same_block = refl;
        same_view = λ i h. refl;
        on_device = λ i h. sym (view_clean r e i h);
      },
    )
    go cache_dirty e (inl b) = (written t, write_back-eq t r b, written-Flushed t r b)
    go cache_dirty e (inr n) = cc (n.1, e)
