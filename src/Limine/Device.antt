-- ===== src/Limine/Device.antt =====
-- The block cache of limine.c: `device_init`, `device_flush_cache`, `device_cache_block`, and the
-- byte transfers `_device_read` and `_device_write` over it.
pub mod View
pub mod Flush
pub mod Block
pub mod Part
pub mod Piece
pub mod Read
pub mod Stored
pub mod Write
pub mod Entry
pub mod Journal
pub mod Init
use cell.Base.{
  ℕ, zero, suc, ◌+◌, ◌-◌, ◌*◌, ◌/◌, ◌%◌, ◌^◌, ltb, leb, ◌==◌, ◌&&◌, if◌then◌else◌, Bool, true,
  false,
}
use cell.Base.{Option, none, some, List, [], ◌∷◌, min, add64, sub64, mul64, u64_mod}
use cell.Limine.Tool.{
  File, CacheState, cache_clean, cache_dirty, UninstallData, Tool, M, pure, fail,
}
use cell.Limine.Tool.{
  and_then, ◌>>=◌, ◌>>◌, get, put, attempt, set_pos, fread_cache, fwrite_cache, patch, seek,
}

-- `(uint64_t)-1`, no block of any device.
abbrev pub no_block : ℕ
no_block = u64_mod - 1

abbrev pub guesses : List ℕ
guesses = 512 ∷ 2048 ∷ 4096 ∷ []

abbrev pub or_else :
    Option (Unit {0}) × Tool → M (Unit {0}) → M (Unit {0}) → Option (Unit {0}) × Tool
or_else (none, t) good bad = bad t
or_else (some _, t) good bad = good t

-- The body of the loop of `device_init` at one guess; a read that fails goes on to the next.
unfoldable pub init_guesses : List ℕ → M (Unit {0})
init_guesses [] = fail
init_guesses (guess ∷ rest) =
    let later = init_guesses rest in
    do
      attempt
      start ← get
      put (seek 0 start)
      λ t.
          or_else (fread_cache guess t)
            (λ t. (
              some tt,
              record t { block_size = guess; cache_state = cache_clean; cached_block = 0 },
            ))
            later

unfoldable pub device_init : M (Unit {0})
unfolding init_guesses
device_init = init_guesses guesses

-- What `device_flush_cache` does with a dirty cache.
unfoldable pub write_back : M (Unit {0})
write_back = do
  t ← get
  set_pos (mul64 t.cached_block t.block_size)
  fwrite_cache t.block_size
  t' ← get
  put (record t' { cache_state = cache_clean })

abbrev pub flush_if : CacheState → M (Unit {0})
flush_if cache_clean = pure tt
flush_if cache_dirty = write_back

unfoldable pub device_flush_cache : M (Unit {0})
device_flush_cache t = flush_if t.cache_state t

-- What `device_cache_block` does once the cache is clean.
unfoldable pub fill_cache : ℕ → M (Unit {0})
fill_cache block = do
  t ← get
  set_pos (mul64 block t.block_size)
  fread_cache t.block_size
  t' ← get
  put (record t' { cached_block = block })

unfoldable pub device_cache_block : ℕ → M (Unit {0})
unfolding device_flush_cache
device_cache_block block = do
  t ← get
  if t.cached_block == block then pure tt else (do device_flush_cache; fill_cache block)

-- Block, offset and length of the part of a transfer that is next.
abbrev pub block_at : Tool → ℕ → ℕ → ℕ
block_at t loc progress = add64 loc progress / t.block_size

abbrev pub offset_at : Tool → ℕ → ℕ → ℕ
offset_at t loc progress = add64 loc progress % t.block_size

abbrev pub chunk_at : Tool → ℕ → ℕ → ℕ → ℕ
chunk_at t loc count progress =
    let chunk = count - progress in
    let left = t.block_size - offset_at t loc progress in if ltb left chunk then left else chunk

-- One round of the loop of `_device_read`: the next part of the transfer.
unfoldable pub read_part : (ℕ → ℕ) → ℕ → ℕ → ℕ → M (ℕ → ℕ)
read_part buffer loc count progress t =
    let offset = offset_at t loc progress in
    let chunk = chunk_at t loc count progress in
    and_then (device_cache_block (block_at t loc progress) t)
      (λ _ t'. (some (patch buffer progress chunk (λ j. t'.cache (offset + j))), t'))

-- `while (progress < count)`. Each round moves a byte at least, so `count` rounds are enough;
-- fuel that runs out is a failure.
unfoldable pub read_loop : ℕ → (ℕ → ℕ) → ℕ → ℕ → ℕ → M (ℕ → ℕ)
read_loop zero buffer loc count progress t =
    if ltb progress count then (none, t) else (some buffer, t)
read_loop (suc fuel) buffer loc count progress t =
    let rest = λ (buffer' : ℕ → ℕ).
      read_loop fuel buffer' loc count (progress + chunk_at t loc count progress) in
    if ltb progress count
    then and_then (read_part buffer loc count progress t) rest
    else (some buffer, t)

abbrev pub blank : ℕ → ℕ
blank j = 0

-- What `_device_read` leaves in a buffer of `count` bytes. Where it fails no caller reads the
-- buffer.
unfoldable pub device_read : ℕ → ℕ → M (ℕ → ℕ)
device_read loc count = read_loop count blank loc count 0

-- One round of the loop of `_device_write`.
unfoldable pub write_part : (ℕ → ℕ) → ℕ → ℕ → ℕ → M (Unit {0})
write_part buffer loc count progress t =
    let offset = offset_at t loc progress in
    let chunk = chunk_at t loc count progress in
    and_then (device_cache_block (block_at t loc progress) t) (λ _ t'. (
      some tt,
      record t' {
        cache = patch t'.cache offset chunk (λ j. buffer (progress + j));
        cache_state = cache_dirty;
      },
    ))

unfoldable pub write_loop : ℕ → (ℕ → ℕ) → ℕ → ℕ → ℕ → M (Unit {0})
write_loop zero buffer loc count progress t = if ltb progress count then (none, t) else (some tt, t)
write_loop (suc fuel) buffer loc count progress t =
    let rest = λ (_ : Unit {0}).
      write_loop fuel buffer loc count (progress + chunk_at t loc count progress) in
    if ltb progress count
    then and_then (write_part buffer loc count progress t) rest
    else (some tt, t)

-- `UNINSTALL_DATA_MAX`
abbrev pub uninstall_data_max : ℕ
uninstall_data_max = 256

abbrev pub update : (ℕ → UninstallData) → ℕ → UninstallData → ℕ → UninstallData
update f i ud j = if i == j then ud else f j

-- What `_device_write` does before its loop unless it is uninstalling: it reads what it is about
-- to overwrite into the next entry, which is not counted yet.
unfoldable pub save_old : ℕ → ℕ → M (Unit {0})
save_old loc count = do
  t ← get
  if leb uninstall_data_max t.uninstall_data_i then fail else pure tt
  attempt
  old ← device_read loc count
  t' ← get
  put (record t' {
    uninstall_data =
        update t'.uninstall_data t'.uninstall_data_i
          (record { bytes = old; loc = loc; count = count });
  })

unfoldable pub count_entry : M (Unit {0})
count_entry t = (some tt, record t { uninstall_data_i = t.uninstall_data_i + 1 })

-- `_device_write`.
unfoldable pub device_write : (ℕ → ℕ) → ℕ → ℕ → M (Unit {0})
unfolding save_old count_entry
device_write buffer loc count = do
  t ← get
  if t.uninstalling then pure tt else save_old loc count
  write_loop count buffer loc count 0
  if t.uninstalling then pure tt else count_entry
