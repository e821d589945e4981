-- ===== src/Limine/Uninstall/Store.antt =====
-- The uninstall data file of limine.c: `store_uninstall_data`, `load_uninstall_data`, and the mode
-- `--uninstall` of `bios_install`. The file is the list of its bytes.
use cell.Base.{ℕ, zero, suc, ◌+◌, ◌==◌, ltb, if◌then◌else◌, Bool, false}
use cell.Base.{Option, none, some, List, [], ◌∷◌, ◌++◌, length, drop, get_or}
use cell.Limine.Tool.{
  Tool, UninstallData, M, pure, fail, undefined_behaviour, get, attempt, ◌>>=◌, ◌>>◌,
}
use cell.Limine.Device.{update, device_init, uninstall_data_max}
use cell.Limine.Endian.{w64, load, store}
use cell.Limine.Uninstall.{uninstall}

-- The first `n` bytes of a buffer.
unfoldable pub bytes_to_list : ℕ → (ℕ → ℕ) → List ℕ
bytes_to_list zero bytes = []
bytes_to_list (suc n) bytes = bytes 0 ∷ bytes_to_list n (λ j. bytes (j + 1))

-- `fwrite(bytes, n, 1, udfile) == 1`, with what it puts into the file. Of no bytes it writes 0
-- members, which the callers take for an error.
unfoldable pub fwrite_bytes : ℕ → (ℕ → ℕ) → M (List ℕ)
fwrite_bytes n bytes = do attempt; if n == 0 then fail else pure (bytes_to_list n bytes)

-- `fread(bytes, n, 1, udfile) == 1`, with the rest of the file.
unfoldable pub fread_bytes : ℕ → List ℕ → M ((ℕ → ℕ) × List ℕ)
fread_bytes n file = do
  attempt
  if (n == 0)
      then fail
      else if ltb (length file) n
      then fail
      else pure ((λ j. get_or file j 0), drop n file)

module _ (bigendian : Bool) where
  unfoldable pub store_entry : UninstallData → M (List ℕ)
  store_entry ud = do
    loc ← fwrite_bytes 8 (store bigendian w64 ud.loc)
    count ← fwrite_bytes 8 (store bigendian w64 ud.count)
    bytes ← fwrite_bytes ud.count ud.bytes
    pure (loc ++ (count ++ bytes))

  -- The loop over the entries from `i` on, with `left` of them to go.
  unfoldable pub store_entries : ℕ → ℕ → (ℕ → UninstallData) → M (List ℕ)
  store_entries zero i entries = pure []
  store_entries (suc left) i entries = do
    first ← store_entry (entries i)
    rest ← store_entries left (i + 1) entries
    pure (first ++ rest)

  -- `store_uninstall_data`, with the bytes of the file where it returns true. `fopen` is the first
  -- call that may fail.
  unfoldable pub store_uninstall_data : M (List ℕ)
  store_uninstall_data = do
    attempt
    t ← get
    number ← fwrite_bytes 8 (store bigendian w64 t.uninstall_data_i)
    entries ← store_entries t.uninstall_data_i 0 t.uninstall_data
    pure (number ++ entries)

  abbrev set_entry : ℕ → UninstallData → M (Unit {0})
  set_entry i ud t = (some tt, record t { uninstall_data = update t.uninstall_data i ud })

  -- One round of the loop of `load_uninstall_data`, with the rest of the file. To store past the
  -- array is undefined.
  unfoldable pub load_entry : ℕ → List ℕ → M (List ℕ)
  load_entry i file = do
    if ltb i uninstall_data_max then pure tt else undefined_behaviour
    (loc, file) ← fread_bytes 8 file
    (count, file) ← fread_bytes 8 file
    attempt
    (bytes, file) ← fread_bytes (load bigendian w64 count) file
    set_entry i
        (record { bytes = bytes; loc = load bigendian w64 loc; count = load bigendian w64 count })
    pure file

  unfoldable pub load_entries : ℕ → ℕ → List ℕ → M (Unit {0})
  load_entries zero i file = pure tt
  load_entries (suc left) i file = do rest ← load_entry i file; load_entries left (i + 1) rest

  abbrev set_number : ℕ → M (Unit {0})
  set_number n t = (some tt, record t { uninstall_data_i = n })

  -- `load_uninstall_data`; the call of `malloc` for each entry may fail too.
  unfoldable pub load_uninstall_data : List ℕ → M (Unit {0})
  load_uninstall_data file = do
    attempt
    (number, file) ← fread_bytes 8 file
    set_number (load bigendian w64 number)
    load_entries (load bigendian w64 number) 0 file

  abbrev pub uninstall_from : Option (Unit {0}) × Tool → Bool × Tool
  uninstall_from (some _, t) = uninstall t
  uninstall_from (none, t) = (false, t)

  abbrev pub loaded : Option (List ℕ) → Option (Unit {0}) × Tool → Bool × Tool
  loaded none (some _, t) = (false, t)
  loaded (some file) (some _, t) = uninstall_from (load_uninstall_data file t)
  loaded file (none, t) = (false, t)

  -- `bios_install` with `--uninstall`, on an open device: whether the exit code is `EXIT_SUCCESS`,
  -- and the tool at the end. `none` is no `--uninstall-data-file`.
  unfoldable pub bios_uninstall : Option (List ℕ) → Tool → Bool × Tool
  bios_uninstall file t = loaded file (device_init t)
