-- ===== src/Limine/Device/Block.antt =====
-- `device_cache_block` brings a block into the cache and loses nothing.
use cell.Base.{ℕ, ◌+◌, ◌*◌, ◌^◌, ◌<◌, max}
use cell.Base.{◌≡◌, ◌≢◌, ◌⊎◌, inl, inr, refl, sym, ◌∙◌, arith, none, some}
use cell.Base.{[], u64_mod, mul64-eq_of_lt}
use native.Mathlib.Nat.{mul-le-mul_left}
use native.Mathlib.Decide.{ℕ_discrete, dec_lt}
use cell.Limine.Tool.{cache_clean, Tool, and_then, seek, read_over}
use cell.Limine.Device.{no_block, device_flush_cache, fill_cache, device_cache_block}
use cell.Limine.Device.View.{view, IsBlock, IsReady, Keeps, Keeps-refl, Keeps-trans, view_clean}
use cell.Limine.Device.Flush.{
  set_pos-ok, set_pos-fails, fread_cache-ok, fread_cache-short, Flushed, device_flush_cache-Flushed,
}

-- Each byte of the device is as it was, or as a caller saw it.
abbrev pub IsSettled : Tool → Tool → Type 0
IsSettled t t' =
    (i : ℕ)
    → i < t.device.size
    → (t'.device.content i ≡ t.device.content i) ⊎ (t'.device.content i ≡ view t i)

-- After a call, successful or not: no call will fail, and nothing is lost on the device.
pub record Settled (t t' : Tool) : Type 0 where
  pub calm : t'.faults ≡ []
  pub keeps : Keeps t t'
  pub device : IsSettled t t'

pub record Loaded (t t' : Tool) (b : ℕ) : Type 0 where
  pub ready : IsReady t'
  pub settled : Settled t t'
  pub loaded : t'.cached_block ≡ b
  pub same_view : (i : ℕ) → i < t.device.size → view t' i ≡ view t i

abbrev filled : ℕ → Tool → Tool
filled b t =
    let at_block = record (t.device) { pos = b * t.block_size } in
    record t {
      device = record (t.device) { pos = b * t.block_size + t.block_size };
      cache = read_over at_block t.block_size t.cache;
      cached_block = b;
    }

fill_cache-eq :
    (b : ℕ) (t : Tool) → IsReady t → IsBlock t b → fill_cache b t ≡ (some tt, filled b t)
unfolding fill_cache
fill_cache-eq b t r at =
    rw
      (
        mul64-eq_of_lt b t.block_size (omega (arith, r.small)),
        set_pos-ok (b * t.block_size) t r.calm (omega (arith, r.small, r.sized)),
      )
      (rw (fread_cache-ok t.block_size (seek (b * t.block_size) t) r.calm at) refl)

filled-cache :
    (b : ℕ) (t : Tool)
    → IsBlock t b
    → (j : ℕ) → j < t.block_size
    → (filled b t).cache j ≡ t.device.content (b * t.block_size + j)
filled-cache b t at j h = ground arith

filled-IsReady :
    (b : ℕ) (t : Tool)
    → IsReady t
    → t.cache_state ≡ cache_clean
    → IsBlock t b
    → IsReady (filled b t)
filled-IsReady b t r clean at = record {
  calm = r.calm;
  sized = r.sized;
  small = r.small;
  cached = inl at;
  coherent = λ _ _ j h. filled-cache b t at j h;
}

filled-Loaded :
    (b : ℕ) (t : Tool)
    → IsReady t
    → t.cache_state ≡ cache_clean
    → IsBlock t b
    → Loaded t (filled b t) b
filled-Loaded b t r clean at = record {
  ready = filled-IsReady b t r clean at;
  settled = record {
    calm = r.calm;
    keeps = record {
      same_block_size = refl;
      same_size = refl;
      same_uninstalling = refl;
      same_data = refl;
      same_count = refl;
    };
    device = λ i h. inl refl;
  };
  loaded = refl;
  same_view =
      λ i h. view_clean (filled-IsReady b t r clean at) clean i h ∙ sym (view_clean r clean i h);
}

on_device_of :
    {t u : Tool} (v : Tool)
    → Flushed t u
    → (i : ℕ) → i < t.device.size
    → (v.device.content i ≡ u.device.content i) ⊎ (v.device.content i ≡ view u i)
    → v.device.content i ≡ view t i
on_device_of v f i h (inl e) = e ∙ f.on_device i h
on_device_of v f i h (inr e) = e ∙ f.same_view i h

Flushed-Loaded : {t u v : Tool} {b : ℕ} → Flushed t u → Loaded u v b → Loaded t v b
Flushed-Loaded {t} {u} {v} f l = record {
  ready = l.ready;
  settled = record {
    calm = l.settled.calm;
    keeps = Keeps-trans f.keeps l.settled.keeps;
    device = λ i h. inr (on_device_of v f i h (l.settled.device i (rw f.keeps.same_size h)));
  };
  loaded = l.loaded;
  same_view = λ i h. l.same_view i (rw f.keeps.same_size h) ∙ f.same_view i h;
}

hit-Loaded : (b : ℕ) (t : Tool) → IsReady t → t.cached_block ≡ b → Loaded t t b
hit-Loaded b t r e = record {
  ready = r;
  settled = record { calm = r.calm; keeps = Keeps-refl t; device = λ i h. inl refl };
  loaded = e;
  same_view = λ i h. refl;
}

hit-eq : (b : ℕ) (t : Tool) → t.cached_block ≡ b → device_cache_block b t ≡ (some tt, t)
unfolding device_cache_block
hit-eq b t e = ground arith

miss-eq :
    (b : ℕ) (t u : Tool)
    → t.cached_block ≢ b
    → device_flush_cache t ≡ (some tt, u)
    → device_cache_block b t ≡ fill_cache b u
unfolding device_cache_block
miss-eq b t u ne e =
    (let step : device_cache_block b t ≡ and_then (device_flush_cache t) (λ _. fill_cache b) =
        ground arith in
      step)
    ∙ rw e refl

-- With no failing call, a block that lies on the device is cached, and no byte changes as a
-- caller sees it.
pub device_cache_block-Loaded :
    (b : ℕ) (t : Tool)
    → IsReady t
    → IsBlock t b
    → (t' : Tool) × (device_cache_block b t ≡ (some tt, t')) × Loaded t t' b
device_cache_block-Loaded b t r at = elim (ℕ_discrete t.cached_block b) [
  | yes e ↦ (t, hit-eq b t e, hit-Loaded b t r e)
  | no ne ↦
      let (u, eu, f) = device_flush_cache-Flushed t r in
      let at' : IsBlock u b = rw (f.keeps.same_block_size, f.keeps.same_size) at in
      (
        filled b u,
        miss-eq b t u ne eu ∙ fill_cache-eq b u f.ready at',
        Flushed-Loaded f (filled-Loaded b u f.ready f.clean at'),
      )
]

abbrev short : ℕ → Tool → Tool
short b t =
    let at_block = record (t.device) { pos = b * t.block_size } in
    seek (max (b * t.block_size) t.device.size)
      (record t { device = at_block; cache = read_over at_block t.block_size t.cache })

-- A block that does not lie on the device is not read, and nothing is lost on the device.
fill_cache-fails :
    (b : ℕ) (t : Tool)
    → IsReady t
    → ¬ IsBlock t b
    → b * t.block_size < u64_mod
    → (t' : Tool) × (fill_cache b t ≡ (none, t')) × Settled t t'
unfolding fill_cache
fill_cache-fails b t r out word = elim (dec_lt (b * t.block_size) (2 ^ 63)) [
  | yes low ↦ (
    short b t,
    rw (mul64-eq_of_lt b t.block_size word, set_pos-ok (b * t.block_size) t r.calm low)
        (rw (fread_cache-short t.block_size (seek (b * t.block_size) t) r.calm (omega arith)) refl),
    record {
      calm = r.calm;
      keeps = record {
        same_block_size = refl;
        same_size = refl;
        same_uninstalling = refl;
        same_data = refl;
        same_count = refl;
      };
      device = λ i h. inl refl;
    },
  )
  | no high ↦ (
    t,
    rw (mul64-eq_of_lt b t.block_size word, set_pos-fails (b * t.block_size) t r.calm (omega arith))
        refl,
    record { calm = r.calm; keeps = Keeps-refl t; device = λ i h. inl refl },
  )
]

Flushed-Settled : {t u v : Tool} → Flushed t u → Settled u v → Settled t v
Flushed-Settled {t} {u} {v} f s = record {
  calm = s.calm;
  keeps = Keeps-trans f.keeps s.keeps;
  device = λ i h. inr (on_device_of v f i h (s.device i (rw f.keeps.same_size h)));
}

not_cached :
    (b : ℕ) (t : Tool) → IsReady t → ¬ IsBlock t b → b * t.block_size < u64_mod → t.cached_block ≢ b
not_cached b t r out word e = go r.cached
  where
    go :
        IsBlock t t.cached_block ⊎ ((t.cached_block ≡ no_block) × (t.cache_state ≡ cache_clean)) → ⊥
    go (inl at) = out (rw (← e) at)
    go (inr n) = omega (arith, mul-le-mul_left b r.sized, n.0)

-- A block that does not lie wholly on the device cannot be cached; the call fails, and each byte
-- of the device is as it was or as a caller saw it.
pub device_cache_block-fails :
    (b : ℕ) (t : Tool)
    → IsReady t
    → ¬ IsBlock t b
    → b * t.block_size < u64_mod
    → (t' : Tool) × (device_cache_block b t ≡ (none, t')) × Settled t t'
device_cache_block-fails b t r out word =
    let (u, eu, f) = device_flush_cache-Flushed t r in
    let out' : ¬ IsBlock u b = rw (f.keeps.same_block_size, f.keeps.same_size) out in
    let (v, ev, s) = fill_cache-fails b u f.ready out' (rw f.keeps.same_block_size word) in
    (v, miss-eq b t u (not_cached b t r out word) eu ∙ ev, Flushed-Settled f s)
