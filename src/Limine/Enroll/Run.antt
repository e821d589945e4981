-- ===== src/Limine/Enroll/Run.antt =====
-- `enroll_config` of limine.c from the opening of the executable on.
use cell.Base.{ℕ, ◌+◌, ltb, leb, ◌==◌, min, max, if◌then◌else◌, Bool, true, false}
use cell.Base.{Option, none, some, List, [], ◌∷◌}
use cell.Limine.Tool.{File, patch}
use cell.Limine.Enroll.{enroll_config}

-- What `fwrite` has taken and the stream has not yet written: `count` bytes for the place `pos`.
pub record Buffered : Type 0 where
  pub bytes : ℕ → ℕ
  pub pos : ℕ
  pub count : ℕ

-- `bootloader_file` as it stands on the disk, what its stream holds back, and which of the coming
-- calls that can fail (fopen, fseek, malloc, fread, fwrite, fclose) do; past the end of `faults`
-- none does. A call of fwrite or fclose that fails may have written a part: `reached` bytes of it.
pub record Executable : Type 0 where
  pub bootloader_file : File
  pub buffered : Option Buffered
  pub faults : List Bool
  pub reached : ℕ

-- `none` is `goto cleanup`.
abbrev pub E : Type 0 → Type 0
E A = Executable → Option A × Executable

abbrev pub and_then : {A B : Type 0} → Option A × Executable → (A → E B) → Option B × Executable
and_then (none, e) f = (none, e)
and_then (some a, e) f = f a e

infixl 5 ◌>>=◌ ◌>>◌
abbrev pub ◌>>=◌ : {A B : Type 0} → E A → (A → E B) → E B
◌>>=◌ m f e = and_then (m e) f

abbrev pub ◌>>◌ : {B : Type 0} → E (Unit {0}) → E B → E B
◌>>◌ m k = m >>= λ _. k

abbrev pub next_fault : List Bool → E (Unit {0})
next_fault [] e = (some tt, e)
next_fault (true ∷ fs) e = (none, record e { faults = fs })
next_fault (false ∷ fs) e = (some tt, record e { faults = fs })

abbrev pub attempt : E (Unit {0})
attempt e = next_fault e.faults e

abbrev pub seek : ℕ → E (Unit {0})
seek pos e = (some tt, record e { bootloader_file = record (e.bootloader_file) { pos = pos } })

abbrev pub tell_size : E ℕ
tell_size e = (some e.bootloader_file.size, e)

-- The buffer after `fread(bootloader, n, 1, bootloader_file) == 1`, with `memory` behind its end.
abbrev pub buffer : (ℕ → ℕ) → ℕ → File → ℕ → ℕ
buffer memory n f j = if ltb j n then f.content (f.pos + j) else memory j

abbrev pub read_whole : (ℕ → ℕ) → ℕ → E (ℕ → ℕ)
read_whole memory n e =
    let f = e.bootloader_file in
    if n == 0
    then (none, e)
    else if leb (f.pos + n) f.size
    then (some (buffer memory n f), record e { bootloader_file = record f { pos = f.pos + n } })
    else (none, record e { bootloader_file = record f { pos = max f.pos f.size } })

-- `n` bytes go to the disk, at `pos`.
abbrev pub put_bytes : ℕ → ℕ → (ℕ → ℕ) → Executable → Executable
put_bytes pos n bytes e =
    let f = e.bootloader_file in
    record e {
      bootloader_file = record f {
        content = patch f.content pos n bytes;
        size = max f.size (pos + n);
      };
    }

abbrev pub written_by :
    ℕ → (ℕ → ℕ) → Option (Unit {0}) × Executable → Option (Unit {0}) × Executable
written_by n bytes (none, e) = (none, put_bytes e.bootloader_file.pos (min n e.reached) bytes e)
written_by n bytes (some _, e) =
    let pos = e.bootloader_file.pos in
    if n == 0
    then (none, e)
    else (some tt, record e { buffered = some (record { bytes = bytes; pos = pos; count = n }) })

-- `fwrite(bootloader, n, 1, bootloader_file) == 1`
abbrev pub write_whole : ℕ → (ℕ → ℕ) → E (Unit {0})
write_whole n bytes e = written_by n bytes (attempt e)

abbrev pub write_enrolled : ℕ → Option (ℕ → ℕ) → E (Unit {0})
write_enrolled n none e = (none, e)
write_enrolled n (some bootloader) e = (do attempt; seek 0; write_whole n bootloader) e

-- Between `fopen` and `cleanup`. With `none` for `argv[2]` the checksum is reset.
unfoldable pub enroll_steps : (ℕ → ℕ) → Option (ℕ → ℕ) → E (Unit {0})
enroll_steps memory b2sum = do
  attempt
  bootloader_size ← tell_size
  seek 0
  attempt
  attempt
  bootloader ← read_whole memory bootloader_size
  write_enrolled bootloader_size (enroll_config bootloader_size bootloader b2sum)

abbrev pub flushed : Option Buffered → Option (Unit {0}) × Executable → Executable
flushed none (_, e) = e
flushed (some b) (some _, e) = put_bytes b.pos b.count b.bytes e
flushed (some b) (none, e) = put_bytes b.pos (min b.count e.reached) b.bytes e

-- `fclose(bootloader_file)`, of which the result is not read.
abbrev pub close : Executable → Executable
close e = flushed e.buffered (attempt e)

abbrev pub exit_code : Option (Unit {0}) × Executable → Bool × Executable
exit_code (some _, e) = (true, close e)
exit_code (none, e) = (false, close e)

-- The file, once `fopen` has succeeded.
abbrev pub opened : Executable → Executable
opened e = record e { bootloader_file = record (e.bootloader_file) { pos = 0 }; buffered = none }

abbrev pub after_open :
    (ℕ → ℕ) → Option (ℕ → ℕ) → Option (Unit {0}) × Executable → Bool × Executable
after_open memory b2sum (none, e) = (false, e)
after_open memory b2sum (some _, e) = exit_code (enroll_steps memory b2sum (opened e))

-- Whether the exit code is `EXIT_SUCCESS`, and the file afterwards.
unfoldable pub enroll_file : (ℕ → ℕ) → Option (ℕ → ℕ) → Executable → Bool × Executable
unfolding enroll_steps
enroll_file memory b2sum e = after_open memory b2sum (attempt e)
