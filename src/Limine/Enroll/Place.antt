-- ===== src/Limine/Enroll/Place.antt =====
-- The place of the checksum in the file of `enroll_config` of limine.c, and a write that is cut short.
use cell.Base.{
  max, ℕ, ◌+◌, ◌≤◌, ◌<◌, ◌^◌, ◌≡◌, ◌⊎◌, inl, inr, sym, ap, ◌∙◌, arith, Option, none, some, [],
}
use native.Mathlib.Decide.{dec_lt}
use cell.Limine.Enroll.{enroll_config, find_checksum, checksum_or_zeros}
use cell.Limine.Enroll.Search.{enroll_config_lem}
use cell.Limine.Tool.{File, patch}
use cell.Limine.Enroll.Run.{Executable, buffer}

-- The bytes that are read.
abbrev pub read_bytes : (ℕ → ℕ) → Executable → ℕ → ℕ
read_bytes memory e = buffer memory e.bootloader_file.size (record (e.bootloader_file) { pos = 0 })

-- The checksum belongs at `loc`, within the file, of which all bytes below `reached` are written: the
-- others, and all that are not the checksum's, are as they were.
pub record Partly (b2sum : Option (ℕ → ℕ)) (e : Executable) (loc reached : ℕ) (file : File)
    : Type 0 where
  pub inside : loc + 128 ≤ e.bootloader_file.size
  pub same_size : file.size ≡ e.bootloader_file.size
  pub placed :
      (i : ℕ) → i < 128 → loc + i < reached → file.content (loc + i) ≡ checksum_or_zeros b2sum i
  pub cut_off :
      (i : ℕ)
      → i < e.bootloader_file.size
      → reached ≤ i
      → file.content i ≡ e.bootloader_file.content i
  pub elsewhere :
      (i : ℕ)
      → i < e.bootloader_file.size
      → (i < loc) ⊎ (loc + 128 ≤ i)
      → file.content i ≡ e.bootloader_file.content i

-- Where the executable still has its bytes.
pub record Untouched (e e' : Executable) : Type 0 where
  pub same_size : e'.bootloader_file.size ≡ e.bootloader_file.size
  pub same_content : e'.bootloader_file.content ≡ e.bootloader_file.content
  pub same_reached : e'.reached ≡ e.reached
  pub not_buffered : e'.buffered ≡ none
  pub calm : e.faults ≡ [] → e'.faults ≡ []

pub put-Partly :
    (memory : ℕ → ℕ) (b2sum : Option (ℕ → ℕ)) (e : Executable) {file : File} (reached loc : ℕ)
    {out : ℕ → ℕ}
    → 153 ≤ e.bootloader_file.size
    → e.bootloader_file.size < 2 ^ 63
    → file.size ≡ e.bootloader_file.size
    → file.content ≡ e.bootloader_file.content
    → reached ≤ e.bootloader_file.size
    → find_checksum e.bootloader_file.size (read_bytes memory e) ≡ some loc
    → enroll_config e.bootloader_file.size (read_bytes memory e) b2sum ≡ some out
    → Partly b2sum e loc reached (record file {
      content = patch file.content 0 reached out;
      size = max file.size (0 + reached);
    })
put-Partly memory b2sum e {file} reached loc {out} long short same_size same_content within found
      done =
    let (loc', found', matched, fits, placed, kept) =
      enroll_config_lem e.bootloader_file.size (read_bytes memory e) b2sum {out = out} long short
        done in
    let at : loc' ≡ loc = cc (found, found') in
    record {
      inside = omega (arith, at, fits);
      same_size = omega (arith, same_size, within);
      placed = λ i h below. new (loc + i) below ∙ ap (λ (l : ℕ). out (l + i)) (sym at) ∙ placed i h;
      cut_off = λ i h above. old i above ∙ was i;
      elsewhere = λ i h away. elim (dec_lt i reached) [
        | yes below ↦ new i below ∙ kept i (moved i at away) ∙ ground arith
        | no above ↦ old i (omega arith) ∙ was i
      ];
    }
  where
    new : (i : ℕ) → i < reached → patch file.content 0 reached out i ≡ out i
    new i h = ground arith

    old : (i : ℕ) → reached ≤ i → patch file.content 0 reached out i ≡ file.content i
    old i h = ground arith

    was : (i : ℕ) → file.content i ≡ e.bootloader_file.content i
    was i = ap (λ (c : ℕ → ℕ). c i) same_content

    moved : (i : ℕ) {l : ℕ} → l ≡ loc → (i < loc) ⊎ (loc + 128 ≤ i) → (i < l) ⊎ (l + 128 ≤ i)
    moved i at (inl low) = inl (omega (arith, at))
    moved i at (inr high) = inr (omega (arith, at))
