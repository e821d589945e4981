-- ===== src/Limine/Enroll/Calls.antt =====
-- The calls on the file in `enroll_config` of limine.c, each of which may fail.
use cell.Base.{
  max, min, ℕ, ◌+◌, ◌≤◌, ◌<◌, ◌^◌, ◌≡◌, ◌≢◌, refl, sym, ap, subst, ◌∙◌, arith, Bool, true, false,
  Option, none, some, List, [], ◌∷◌, ltb, leb, ◌==◌, if◌then◌else◌,
}
use cell.Limine.Enroll.{enroll_config, find_checksum, enrolled_at, checksum_or_zeros}
use mathlib.Core.Path.{ap₂}
use cell.Limine.Tool.{File, patch}
use cell.Limine.Enroll.Run.{
  Executable, Buffered, E, and_then, ◌>>=◌, ◌>>◌, next_fault, attempt, read_whole, write_whole,
  written_by, write_enrolled, seek, put_bytes, flushed, exit_code, close,
}
use cell.Limine.Enroll.Place.{Partly, Untouched, put-Partly, read_bytes}

-- The exit code and the file afterwards.
pub data EnrollOutcome (memory : ℕ → ℕ) (b2sum : Option (ℕ → ℕ)) (e : Executable)
    : Bool × Executable → Type 0 where
  -- All is written.
  written :
      {after : Executable} (loc : ℕ)
      → find_checksum e.bootloader_file.size (read_bytes memory e) ≡ some loc
      → Partly b2sum e loc e.bootloader_file.size after.bootloader_file
      → EnrollOutcome memory b2sum e (true, after)
  -- fwrite or fclose has failed.
  cut_short :
      {ok : Bool} {after : Executable} (loc : ℕ)
      → e.faults ≢ []
      → find_checksum e.bootloader_file.size (read_bytes memory e) ≡ some loc
      → Partly b2sum e loc (min e.bootloader_file.size e.reached) after.bootloader_file
      → EnrollOutcome memory b2sum e (ok, after)
  -- Nothing is found, or another call has failed.
  as_it_was :
      {after : Executable}
      → (e.faults ≡ [] → find_checksum e.bootloader_file.size (read_bytes memory e) ≡ none)
      → after.bootloader_file.size ≡ e.bootloader_file.size
      → after.bootloader_file.content ≡ e.bootloader_file.content
      → EnrollOutcome memory b2sum e (false, after)

next_fault-file :
    (fs : List Bool) (e : Executable) → (next_fault fs e).1.bootloader_file ≡ e.bootloader_file
next_fault-file [] e = refl
next_fault-file (true ∷ fs) e = refl
next_fault-file (false ∷ fs) e = refl

flushed-none :
    (b : Option Buffered) (r : Option (Unit {0}) × Executable)
    → b ≡ none
    → (flushed b r).bootloader_file ≡ r.1.bootloader_file
flushed-none none r e = refl
flushed-none (some b) r e = absurd (cc e)

close-file : (e : Executable) → e.buffered ≡ none → (close e).bootloader_file ≡ e.bootloader_file
close-file e empty = flushed-none e.buffered (attempt e) empty ∙ next_fault-file e.faults e

not_empty : (m : ℕ) → 153 ≤ m → (m == 0) ≡ false
not_empty m h = ground arith

module _ (memory : ℕ → ℕ) (b2sum : Option (ℕ → ℕ)) (e : Executable)
    (long : 153 ≤ e.bootloader_file.size) (short : e.bootloader_file.size < 2 ^ 63) where
  abbrev n : ℕ
  n = e.bootloader_file.size

  abbrev Ends : Option (Unit {0}) × Executable → Type 0
  Ends r = EnrollOutcome memory b2sum e (exit_code r)

  ends :
      {e' : Executable}
      → Untouched e e'
      → (e.faults ≡ [] → find_checksum n (read_bytes memory e) ≡ none)
      → Ends (none, e')
  ends {e'} u why =
      as_it_was why (ap (λ (f : File). f.size) (close-file e' u.not_buffered) ∙ u.same_size)
        (ap (λ (f : File). f.content) (close-file e' u.not_buffered) ∙ u.same_content)

  faulty :
      {e' : Executable} {fs : List Bool} {b : Bool}
      → Untouched e e'
      → e'.faults ≡ b ∷ fs
      → e.faults ≢ []
  faulty u has calm = cc (has, u.calm calm)

  pub attempted :
      {e' : Executable} (k : E (Unit {0}))
      → Untouched e e'
      → ((f : Executable) → Untouched e f → f.bootloader_file ≡ e'.bootloader_file → Ends (k f))
      → Ends ((attempt >> k) e')
  attempted {e'} k u next = go e'.faults refl
    where
      with_faults : (fs : List Bool) → e.faults ≢ [] → Untouched e (record e' { faults = fs })
      with_faults fs some_fault = record {
        same_size = u.same_size;
        same_content = u.same_content;
        same_reached = u.same_reached;
        not_buffered = u.not_buffered;
        calm = λ calm. absurd (some_fault calm);
      }

      go : (fs : List Bool) → e'.faults ≡ fs → Ends (and_then (next_fault fs e') (λ _. k))
      go [] has = next e' u refl
      go (true ∷ fs) has = ends (with_faults fs (faulty u has)) (λ calm. absurd (faulty u has calm))
      go (false ∷ fs) has = next (record e' { faults = fs }) (with_faults fs (faulty u has)) refl

  -- `fwrite` at the start of the file, and `fclose`.
  module _ {e' : Executable} {out : ℕ → ℕ} (loc : ℕ) (u : Untouched e e')
      (found : find_checksum n (read_bytes memory e) ≡ some loc)
      (done : enroll_config n (read_bytes memory e) b2sum ≡ some out) where
    abbrev rewound : List Bool → Executable
    rewound fs = record e' {
      bootloader_file = record (e'.bootloader_file) { pos = 0 };
      faults = fs;
    }

    abbrev put : ℕ → File
    put m = record (e'.bootloader_file) {
      pos = 0;
      content = patch e'.bootloader_file.content 0 m out;
      size = max e'.bootloader_file.size (0 + m);
    }

    put_lem : (m : ℕ) → m ≤ n → Partly b2sum e loc m (put m)
    put_lem m within =
        put-Partly memory b2sum e {file = record (e'.bootloader_file) { pos = 0 }} m loc long short
          u.same_size u.same_content within found done

    put_short : Partly b2sum e loc (min n e.reached) (put (min n e'.reached))
    put_short =
        subst (λ (r : ℕ). Partly b2sum e loc (min n r) (put (min n e'.reached))) u.same_reached
          (put_lem (min n e'.reached) (omega arith))

    -- The bytes are with the stream.
    abbrev taken : List Bool → Executable
    taken fs = record (rewound fs) { buffered = some (record { bytes = out; pos = 0; count = n }) }

    closes : (fs : List Bool) → (e.faults ≡ [] → fs ≡ []) → Ends (some tt, taken fs)
    closes [] calm = written loc found (put_lem n (omega arith))
    closes (false ∷ fs) calm = written loc found (put_lem n (omega arith))
    closes (true ∷ fs) calm = cut_short loc (λ none_left. cc (calm none_left)) found put_short

    buffers :
        (fs : List Bool) → (e.faults ≡ [] → fs ≡ []) → Ends (written_by n out (some tt, rewound fs))
    buffers fs calm =
        subst (λ (b : Bool). Ends (if b then (none, rewound fs) else (some tt, taken fs)))
          (sym (not_empty n long)) (closes fs calm)

    writes : Ends (write_whole n out (seek 0 e').1)
    writes = go e'.faults refl
      where
        go :
            (fs : List Bool)
            → e'.faults ≡ fs
            → Ends (written_by n out (next_fault fs (rewound e'.faults)))
        go [] has = buffers e'.faults u.calm
        go (false ∷ fs) has = buffers fs (λ calm. absurd (faulty u has calm))
        go (true ∷ fs) has = cut_short loc (faulty u has) found (
            subst (Partly b2sum e loc (min n e.reached))
              (sym (close-file (put_bytes 0 (min n e'.reached) out (rewound fs)) u.not_buffered))
              put_short)

  found_or_not :
      (bytes : ℕ → ℕ) (found : Option ℕ)
      → find_checksum n bytes ≡ found
      → enroll_config n bytes b2sum ≡ enrolled_at bytes (checksum_or_zeros b2sum) found
  unfolding enroll_config
  found_or_not bytes found e' = ap (enrolled_at bytes (checksum_or_zeros b2sum)) e'

  writes_enrolled :
      {e' : Executable}
      → Untouched e e'
      → Ends (write_enrolled n (enroll_config n (read_bytes memory e) b2sum) e')
  writes_enrolled {e'} u = go (find_checksum n (read_bytes memory e)) refl
    where
      go :
          (found : Option ℕ)
          → find_checksum n (read_bytes memory e) ≡ found
          → Ends (write_enrolled n (enroll_config n (read_bytes memory e) b2sum) e')
      go none e₁ =
          subst (λ (o : Option (ℕ → ℕ)). Ends (write_enrolled n o e'))
            (sym (found_or_not (read_bytes memory e) none e₁)) (ends u (λ _. e₁))
      go (some loc) e₁ =
          let done = found_or_not (read_bytes memory e) (some loc) e₁ in
          subst (λ (o : Option (ℕ → ℕ)). Ends (write_enrolled n o e')) (sym done)
            (attempted _ u (λ f u' _. writes loc u' e₁ done))

  pub reads :
      {e' : Executable}
      → Untouched e e'
      → e'.bootloader_file.pos ≡ 0
      → Ends (
          (read_whole memory n >>= λ bootloader.
          write_enrolled n (enroll_config n bootloader b2sum))
            e')
  reads {e'} u start =
      subst (λ (r : Option (ℕ → ℕ) × Executable). Ends (and_then r rest)) (sym whole)
        (writes_enrolled (record {
          same_size = u.same_size;
          same_content = u.same_content;
          same_reached = u.same_reached;
          not_buffered = u.not_buffered;
          calm = u.calm;
        }))
    where
      rest : (ℕ → ℕ) → E (Unit {0})
      rest bootloader = write_enrolled n (enroll_config n bootloader b2sum)

      after : Executable
      after = record e' {
        bootloader_file = record (e'.bootloader_file) { pos = e'.bootloader_file.pos + n };
      }

      enough : leb (e'.bootloader_file.pos + n) e'.bootloader_file.size ≡ true
      enough = ground (arith, start, u.same_size)

      shown : ℕ → (ℕ → ℕ) → ℕ → ℕ
      shown p c j = if ltb j n then c (p + j) else memory j

      whole : read_whole memory n e' ≡ (some (read_bytes memory e), after)
      whole =
          simp (not_empty n long, enough)
            (ap (λ (b : ℕ → ℕ). (some b, after)) (ap₂ shown start u.same_content))
