-- ===== src/Limine/Enroll/Success.antt =====
-- `enroll_config` of limine.c succeeds where no call of the C library fails.
use cell.Base.{
  ℕ, ◌+◌, ◌≤◌, ◌<◌, ◌^◌, ◌≡◌, refl, sym, ap, ◌∙◌, arith, Bool, true, Option, some, [], ◌⊎◌, inl,
  inr,
}
use cell.Limine.Enroll.{find_checksum, checksum_or_zeros}
use cell.Limine.Enroll.Run.{Executable, enroll_file}
use cell.Limine.Enroll.Place.{read_bytes}
use cell.Limine.Enroll.Calls.{EnrollOutcome, written, cut_short, as_it_was}
use cell.Limine.Enroll.Outcome.{enroll_file_lem}

-- The checksum stands at `loc`, and nothing else has changed.
pub record Enrolled (b2sum : Option (ℕ → ℕ)) (e : Executable) (loc : ℕ) (result : Bool × Executable)
    : Type 0 where
  pub after : Executable
  pub returns : result ≡ (true, after)
  pub inside : loc + 128 ≤ e.bootloader_file.size
  pub same_size : after.bootloader_file.size ≡ e.bootloader_file.size
  pub placed :
      (i : ℕ) → i < 128 → after.bootloader_file.content (loc + i) ≡ checksum_or_zeros b2sum i
  pub unchanged :
      (i : ℕ)
      → i < e.bootloader_file.size
      → (i < loc) ⊎ (loc + 128 ≤ i)
      → after.bootloader_file.content i ≡ e.bootloader_file.content i

-- `enroll_config` on a file of at least 153 bytes in which the signature is found, where no call of
-- the C library fails: it exits with success, the checksum, or 128 zeros where it is reset, stands at
-- the place found and within the file, and every other byte of the file and its length are as they
-- were.
pub enroll_file-Enrolled :
    (memory : ℕ → ℕ) (b2sum : Option (ℕ → ℕ)) (e : Executable) (loc : ℕ)
    → e.faults ≡ []
    → 153 ≤ e.bootloader_file.size
    → e.bootloader_file.size < 2 ^ 63
    → find_checksum e.bootloader_file.size (read_bytes memory e) ≡ some loc
    → Enrolled b2sum e loc (enroll_file memory b2sum e)
enroll_file-Enrolled memory b2sum e loc calm long short found =
    go (enroll_file memory b2sum e) (enroll_file_lem memory b2sum e long short)
  where
    go :
        (result : Bool × Executable)
        → EnrollOutcome memory b2sum e result
        → Enrolled b2sum e loc result
    go _ (as_it_was why size content) = absurd (cc (found, why calm))
    go _ (cut_short loc' faulty found' p) = absurd (faulty calm)
    go _ (written {after} loc' found' p) =
        let at : loc' ≡ loc = cc (found, found') in
        record {
          after = after;
          returns = refl;
          inside = omega (arith, at, p.inside);
          same_size = p.same_size;
          placed = λ i h.
              ap (λ (l : ℕ). after.bootloader_file.content (l + i)) (sym at)
              ∙ p.placed i h (omega (arith, p.inside));
          unchanged = λ i h away. p.elsewhere i h (moved i at away);
        }
      where
        moved : (i : ℕ) {l : ℕ} → l ≡ loc → (i < loc) ⊎ (loc + 128 ≤ i) → (i < l) ⊎ (l + 128 ≤ i)
        moved i at (inl low) = inl (omega (arith, at))
        moved i at (inr high) = inr (omega (arith, at))
