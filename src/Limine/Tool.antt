-- ===== src/Limine/Tool.antt =====
-- The state of limine.c that outlives a call, the C library calls on the device, and the order in
-- which calls that may fail are made.
use cell.Base.{ℕ, ◌+◌, ◌-◌, ◌^◌, max, ltb, leb, ◌&&◌, if◌then◌else◌, Bool, true, false}
use cell.Base.{Option, none, some, List, [], ◌∷◌}

-- `FILE *device`: the bytes of the image, its length and the file position. Buffering by stdio
-- is not seen through one `FILE`.
pub record File : Type 0 where
  pub content : ℕ → ℕ
  pub size : ℕ
  pub pos : ℕ

pub data CacheState : Type 0 where
  cache_clean cache_dirty : CacheState

-- `struct uninstall_data`: what stood in `count` bytes at `loc` before they were written.
pub record UninstallData : Type 0 where
  pub bytes : ℕ → ℕ
  pub loc : ℕ
  pub count : ℕ

-- The static variables. `faults` says of the coming calls of the C library that can fail (fseek,
-- fread, fwrite, malloc, calloc, realloc) which do; past its end none does. `uninstall_data` is the
-- array, of which the first `uninstall_data_i` entries are in use. `undefined` is not a variable: it
-- says that the program has come to something that C leaves undefined, such as an access past the
-- end of an object, from where nothing is known of it. The model stops there.
pub record Tool : Type 0 where
  pub device : File
  pub faults : List Bool
  pub cache_state : CacheState
  pub cached_block : ℕ
  pub cache : ℕ → ℕ
  pub block_size : ℕ
  pub uninstalling : Bool
  pub uninstall_data : ℕ → UninstallData
  pub uninstall_data_i : ℕ
  pub undefined : Bool

-- A function of the tool: `none` is its `return false` or its `goto cleanup`. What was done to
-- the state before that stays done.
abbrev pub M : Type 0 → Type 0
M A = Tool → Option A × Tool

abbrev pub pure : {A : Type 0} → A → M A
pure a t = (some a, t)

abbrev pub fail : {A : Type 0} → M A
fail t = (none, t)

abbrev pub undefined_behaviour : {A : Type 0} → M A
undefined_behaviour t = (none, record t { undefined = true })

abbrev pub and_then : {A B : Type 0} → Option A × Tool → (A → M B) → Option B × Tool
and_then (none, t) f = (none, t)
and_then (some a, t) f = f a t

infixl 5 ◌>>=◌ ◌>>◌
abbrev pub ◌>>=◌ : {A B : Type 0} → M A → (A → M B) → M B
◌>>=◌ m f t = and_then (m t) f

abbrev pub ◌>>◌ : {B : Type 0} → M (Unit {0}) → M B → M B
◌>>◌ m k = m >>= λ _. k

abbrev pub get : M Tool
get t = (some t, t)

abbrev pub put : Tool → M (Unit {0})
put t' t = (some tt, t')

abbrev pub next_fault : List Bool → M (Unit {0})
next_fault [] t = (some tt, t)
next_fault (true ∷ fs) t = (none, record t { faults = fs })
next_fault (false ∷ fs) t = (some tt, record t { faults = fs })

-- A call of the C library that can fail.
abbrev pub attempt : M (Unit {0})
attempt t = next_fault t.faults t

abbrev pub seek : ℕ → Tool → Tool
seek pos t = record t { device = record (t.device) { pos = pos } }

-- `set_pos` where `long` has 64 bits: `fseek(stream, (long)pos, SEEK_SET)`. An offset that is
-- negative as a `long` is refused.
unfoldable pub set_pos : ℕ → M (Unit {0})
set_pos pos = do attempt; t ← get; if ltb pos (2 ^ 63) then put (seek pos t) else fail

-- The bytes from the position on, as many of the `n` as there are, go over the buffer's.
abbrev pub read_over : File → ℕ → (ℕ → ℕ) → ℕ → ℕ
read_over f n old j = if ltb j n && ltb (f.pos + j) f.size then f.content (f.pos + j) else old j

-- `fread(cache, n, 1, device) == 1`. A short read fails, with what there was in the buffer.
unfoldable pub fread_cache : ℕ → M (Unit {0})
fread_cache n = do
  attempt
  t ← get
  let f : File = t.device
  let t' : Tool = record t { cache = read_over f n t.cache }
  if leb (f.pos + n) f.size
      then put (seek (f.pos + n) t')
      else (do put (seek (max f.pos f.size) t'); fail)

-- `n` bytes of `src` over the bytes of `f` from `loc` on.
abbrev pub patch : (ℕ → ℕ) → ℕ → ℕ → (ℕ → ℕ) → ℕ → ℕ
patch f loc n src i = if leb loc i && ltb i (loc + n) then src (i - loc) else f i

-- `fwrite(cache, n, 1, device) == 1`. A call that fails is taken to have written nothing.
unfoldable pub fwrite_cache : ℕ → M (Unit {0})
fwrite_cache n = do
  attempt
  t ← get
  let f : File = t.device
  put (record t {
    device = record {
      content = patch f.content f.pos n t.cache;
      size = max f.size (f.pos + n);
      pos = f.pos + n;
    };
  })
