-- ===== src/Limine/Device/View.antt =====
-- What the cache holds: the bytes that a caller sees through it.
use cell.Base.{ℕ, ◌+◌, ◌*◌, ◌/◌, ◌%◌, ◌^◌, ◌≤◌, ◌<◌, ◌==◌, if◌then◌else◌}
use cell.Base.{◌≡◌, ◌≢◌, ◌⊎◌, inl, inr, refl, ap, ◌∙◌, arith}
use cell.Base.{[]}
use native.Mathlib.Nat.{mod-lt, div-le_self, div-add-mod'}
use native.Mathlib.Decide.{ℕ_discrete}
use cell.Limine.Tool.{cache_clean, Tool}
use cell.Limine.Device.{no_block}

-- The byte at `i`, from the cache if its block is the cached one, else from the device.
abbrev pub view : Tool → ℕ → ℕ
view t i =
    if i / t.block_size == t.cached_block then t.cache (i % t.block_size) else t.device.content i

-- The block lies wholly on the device.
abbrev pub IsBlock : Tool → ℕ → Type 0
IsBlock t b = b * t.block_size + t.block_size ≤ t.device.size

-- No call will fail, and the cache is what it says it is.
pub record IsReady (t : Tool) : Type 0 where
  pub calm : t.faults ≡ []
  pub sized : 1 < t.block_size
  pub small : t.device.size < 2 ^ 63
  pub cached :
      IsBlock t t.cached_block ⊎ ((t.cached_block ≡ no_block) × (t.cache_state ≡ cache_clean))
  pub coherent :
      t.cache_state ≡ cache_clean
      → IsBlock t t.cached_block
      → (j : ℕ) → j < t.block_size
      → t.cache j ≡ t.device.content (t.cached_block * t.block_size + j)

-- What an operation on the cache leaves alone.
pub record Keeps (t t' : Tool) : Type 0 where
  pub same_block_size : t'.block_size ≡ t.block_size
  pub same_size : t'.device.size ≡ t.device.size
  pub same_uninstalling : t'.uninstalling ≡ t.uninstalling
  pub same_data : t'.uninstall_data ≡ t.uninstall_data
  pub same_count : t'.uninstall_data_i ≡ t.uninstall_data_i

pub Keeps-refl : (t : Tool) → Keeps t t
Keeps-refl t = record {
  same_block_size = refl;
  same_size = refl;
  same_uninstalling = refl;
  same_data = refl;
  same_count = refl;
}

pub Keeps-trans : {t u v : Tool} → Keeps t u → Keeps u v → Keeps t v
Keeps-trans a b = record {
  same_block_size = b.same_block_size ∙ a.same_block_size;
  same_size = b.same_size ∙ a.same_size;
  same_uninstalling = b.same_uninstalling ∙ a.same_uninstalling;
  same_data = b.same_data ∙ a.same_data;
  same_count = b.same_count ∙ a.same_count;
}

-- A byte of the device lies in no block that is beyond its end.
pub not_no_block :
    {t : Tool} → IsReady t → (i : ℕ) → i < t.device.size → i / t.block_size ≢ no_block
not_no_block {t} r i h e = omega (arith, r.small, div-le_self i t.block_size)

pub view_in :
    (t : Tool) (i : ℕ) → i / t.block_size ≡ t.cached_block → view t i ≡ t.cache (i % t.block_size)
view_in t i e = ground arith

pub view_out :
    (t : Tool) (i : ℕ) → i / t.block_size ≢ t.cached_block → view t i ≡ t.device.content i
view_out t i e = ground arith

-- Where a byte of the device is cached, its whole block is on the device.
pub IsBlock-cached :
    {t : Tool}
    → IsReady t
    → (i : ℕ) → i < t.device.size
    → i / t.block_size ≡ t.cached_block
    → IsBlock t t.cached_block
IsBlock-cached {t} r i h e = go r.cached
  where
    go :
        IsBlock t t.cached_block ⊎ ((t.cached_block ≡ no_block) × (t.cache_state ≡ cache_clean))
        → IsBlock t t.cached_block
    go (inl b) = b
    go (inr n) = absurd (not_no_block r i h (e ∙ n.0))

-- A clean cache shows what stands on the device.
pub view_clean :
    {t : Tool}
    → IsReady t
    → t.cache_state ≡ cache_clean
    → (i : ℕ) → i < t.device.size
    → view t i ≡ t.device.content i
view_clean {t} r clean i h = elim (ℕ_discrete (i / t.block_size) t.cached_block) [
  | no out ↦ view_out t i out
  | yes e ↦
      view_in t i e
      ∙ r.coherent clean (IsBlock-cached r i h e) (i % t.block_size)
          (mod-lt i (omega (arith, r.sized)))
      ∙ ap t.device.content
          (omega (arith, div-add-mod' i t.block_size, ap (λ (q : ℕ). q * t.block_size) e))
]
