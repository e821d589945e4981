-- ===== src/Limine/Enroll/Outcome.antt =====
-- What `enroll_config` of limine.c leaves of the file, whichever calls of the C library fail.
use cell.Base.{
  ℕ, ◌≤◌, ◌<◌, ◌^◌, ◌≡◌, refl, sym, ap, subst, ◌∙◌, Bool, true, false, Option, some, List, [], ◌∷◌,
}
use cell.Limine.Enroll.{enroll_config}
use cell.Limine.Tool.{File}
use cell.Limine.Enroll.Run.{
  Executable, E, ◌>>=◌, ◌>>◌, next_fault, attempt, read_whole, write_enrolled, seek, enroll_steps,
  exit_code, opened, after_open, enroll_file,
}
use cell.Limine.Enroll.Place.{Untouched}
use cell.Limine.Enroll.Calls.{EnrollOutcome, as_it_was, attempted, reads}

-- `enroll_config` on a file of at least 153 bytes, whichever calls of the C library fail, and
-- however much of a write that fails has reached the file. Its length stays as it was. Either it
-- exits without success and no byte of the file is changed: if no call fails, only where no signature
-- is found. Or it exits with success, the checksum, or 128 zeros where it is reset, stands at the
-- place found, and every other byte is as it was. Or, only where a call fails, the write is cut short:
-- of the bytes of the checksum those are written that the write has reached, and every other byte is
-- as it was; and the exit code may be success, since the result of `fclose` is not read.
pub enroll_file_lem :
    (memory : ℕ → ℕ) (b2sum : Option (ℕ → ℕ)) (e : Executable)
    → 153 ≤ e.bootloader_file.size
    → e.bootloader_file.size < 2 ^ 63
    → EnrollOutcome memory b2sum e (enroll_file memory b2sum e)
unfolding enroll_file enroll_steps
enroll_file_lem memory b2sum e long short = go e.faults refl
  where
    rest : ℕ → E (Unit {0})
    rest m = do
      seek 0
      attempt
      attempt
      bootloader ← read_whole memory m
      write_enrolled m (enroll_config m bootloader b2sum)

    runs :
        (e' : Executable)
        → Untouched e e'
        → EnrollOutcome memory b2sum e (exit_code (enroll_steps memory b2sum e'))
    runs e' u = attempted memory b2sum e long short _ u (λ g v _.
        subst (λ (m : ℕ). EnrollOutcome memory b2sum e (exit_code (rest m g))) (sym v.same_size)
          (attempted memory b2sum e long short {e' = (seek 0 g).1} _
            (record {
              same_size = v.same_size;
              same_content = v.same_content;
              same_reached = v.same_reached;
              not_buffered = v.not_buffered;
              calm = v.calm;
            })
            (λ h v at. attempted memory b2sum e long short _ v (λ i v at'.
              reads memory b2sum e long short v (ap (λ (k : File). k.pos) (at' ∙ at))))))

    opens :
        (fs : List Bool)
        → (e.faults ≡ [] → fs ≡ [])
        → EnrollOutcome memory b2sum e (after_open memory b2sum (some tt, record e { faults = fs }))
    opens fs calm = runs (opened (record e { faults = fs })) (record {
      same_size = refl;
      same_content = refl;
      same_reached = refl;
      not_buffered = refl;
      calm = calm;
    })

    go :
        (fs : List Bool)
        → e.faults ≡ fs
        → EnrollOutcome memory b2sum e (after_open memory b2sum (next_fault fs e))
    go [] has = opens e.faults (λ calm. calm)
    go (true ∷ fs) has = as_it_was (λ calm. absurd (cc (has, calm))) refl refl
    go (false ∷ fs) has = opens fs (λ calm. absurd (cc (has, calm)))
