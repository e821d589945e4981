-- ===== src/Limine/Device/Init.antt =====
-- `device_init` leaves a device that is fit for the transfers.
use cell.Base.{ℕ, ◌+◌, ◌≤◌, ◌<◌, ◌^◌, max}
use cell.Base.{◌≡◌, inl, refl, ◌∙◌, arith, false, Option, none, some, [], ◌∷◌, List}
use cell.Limine.Tool.{Tool, cache_clean, seek, read_over}
use cell.Limine.Device.{device_init, init_guesses}
use cell.Limine.Device.View.{IsReady}
use cell.Limine.Device.Flush.{fread_cache-ok, fread_cache-short}

-- A device as `device_init` leaves it, before any transfer.
pub record IsFresh (start : Tool) : Type 0 where
  pub ready : IsReady start
  pub clean : start.cache_state ≡ cache_clean
  pub no_entries : start.uninstall_data_i ≡ 0
  pub not_uninstalling : start.uninstalling ≡ false

-- The state at the first guess, with 512 bytes on the device.
abbrev pub first_block : Tool → Tool
first_block t = record t {
  device = record (t.device) { pos = 0 + 512 };
  cache = read_over (record (t.device) { pos = 0 }) 512 t.cache;
  block_size = 512;
  cache_state = cache_clean;
  cached_block = 0;
}

pub device_init-eq :
    (t : Tool) → t.faults ≡ [] → 512 ≤ t.device.size → device_init t ≡ (some tt, first_block t)
unfolding device_init init_guesses
device_init-eq t calm big =
    let read = fread_cache-ok 512 (seek 0 t) calm big in simp calm (cc (read, calm))

abbrev after_short : ℕ → Tool → Tool
after_short guess t =
    let start = seek 0 t in
    seek (max 0 t.device.size) (record start { cache = read_over start.device guess t.cache })

guess-short :
    (guess : ℕ) (rest : List ℕ) (t : Tool)
    → t.faults ≡ []
    → t.device.size < guess
    → init_guesses (guess ∷ rest) t ≡ init_guesses rest (after_short guess t)
unfolding init_guesses
guess-short guess rest t calm small =
    let read = fread_cache-short guess (seek 0 t) calm (omega arith) in simp calm (cc (read, calm))

pub record Unread (t : Tool) (result : Option (Unit {0}) × Tool) : Type 0 where
  pub after : Tool
  pub returns : result ≡ (none, after)
  pub same_device_size : after.device.size ≡ t.device.size
  pub same_device_content : after.device.content ≡ t.device.content

no_guess : (t : Tool) → init_guesses [] t ≡ (none, t)
unfolding init_guesses
no_guess t = refl

pub device_init-short : (t : Tool) → t.faults ≡ [] → t.device.size < 512 → Unread t (device_init t)
unfolding device_init
device_init-short t calm small =
    let t₁ = after_short 512 t in
    let t₂ = after_short 2048 t₁ in
    let t₃ = after_short 4096 t₂ in
    record {
      after = t₃;
      returns =
          guess-short 512 (2048 ∷ 4096 ∷ []) t calm small
          ∙ guess-short 2048 (4096 ∷ []) t₁ calm (omega arith)
          ∙ guess-short 4096 [] t₂ calm (omega arith)
          ∙ no_guess t₃;
      same_device_size = refl;
      same_device_content = refl;
    }

pub record Initialised (t : Tool) (result : Option (Unit {0}) × Tool) : Type 0 where
  pub after : Tool
  pub returns : result ≡ (some tt, after)
  pub fresh : IsFresh after
  pub same_size : after.device.size ≡ t.device.size
  pub same_content : after.device.content ≡ t.device.content
  pub first_cached : after.cached_block ≡ 0
  pub block_bytes : after.block_size ≡ 512
  pub cached_bytes : (j : ℕ) → j < 512 → after.cache j ≡ t.device.content j

Initialised-first :
    {t : Tool}
    → t.faults ≡ []
    → t.device.size < 2 ^ 63
    → t.uninstall_data_i ≡ 0
    → t.uninstalling ≡ false
    → 512 ≤ t.device.size
    → Initialised t (device_init t)
Initialised-first {t} calm small none_yet off big = record {
  after = first_block t;
  returns = device_init-eq t calm big;
  fresh = record {
    ready = record {
      calm = calm;
      sized = omega arith;
      small = small;
      cached = inl big;
      coherent = λ _ _ j h. ground arith;
    };
    clean = refl;
    no_entries = none_yet;
    not_uninstalling = off;
  };
  same_size = refl;
  same_content = refl;
  first_cached = refl;
  block_bytes = refl;
  cached_bytes = λ j h. ground arith;
}

-- `device_init` at the start of the program, on a device of which no call fails: with 512 bytes or
-- more it succeeds with blocks of 512 bytes and a clean cache that is marked as holding block 0, and
-- holds the first 512 bytes of the device; with fewer it fails. Nothing on the device is changed.
pub device_init_lem :
    {t : Tool}
    → t.faults ≡ []
    → t.device.size < 2 ^ 63
    → t.uninstall_data_i ≡ 0
    → t.uninstalling ≡ false
    → (512 ≤ t.device.size → Initialised t (device_init t))
      × (t.device.size < 512 → Unread t (device_init t))
device_init_lem {t} calm small none_yet off =
    (Initialised-first calm small none_yet off, device_init-short t calm)
