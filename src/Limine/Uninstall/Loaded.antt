-- ===== src/Limine/Uninstall/Loaded.antt =====
-- `load_uninstall_data` of limine.c on a file that `store_uninstall_data` wrote.
use cell.Base.{
  ℕ, zero, suc, ◌+◌, ◌≤◌, ◌<◌, ◌^◌, ◌≡◌, ◌≢◌, refl, sym, ap, ◌⊎◌, inl, inr, none, ◌∙◌, arith, Bool,
  Option, some, List, [], ◌++◌,
}
use mathlib.Core.List.{append_assoc, append-nil}
use native.Mathlib.Decide.{ℕ_discrete}
use cell.Limine.Tool.{Tool, UninstallData, and_then}
use cell.Limine.Device.{update, uninstall_data_max}
use cell.Limine.Endian.{w64, store}
use cell.Limine.Device.Entry.{update-same}
use cell.Limine.Uninstall.Store.{
  bytes_to_list, load_entry, load_entries, load_uninstall_data, store_uninstall_data, fwrite_bytes,
  store_entries,
}
use cell.Limine.Uninstall.Encode.{
  fread_bytes-written, load-written, get_or-bytes_to_list, fwrite_bytes-some,
}
use cell.Limine.Uninstall.Saved.{
  word, encode_entry, encode, read_back, filled, load_entry-written, store_entries_lem,
}

-- An entry that fits its file.
pub record IsStorable (ud : UninstallData) : Type 0 where
  pub not_empty : ud.count ≢ 0
  pub loc_word : ud.loc < 2 ^ 64
  pub count_word : ud.count < 2 ^ 64

-- The same place, and the same bytes there.
pub record SameEntry (a b : UninstallData) : Type 0 where
  pub same_loc : a.loc ≡ b.loc
  pub same_count : a.count ≡ b.count
  pub same_bytes : (j : ℕ) → j < b.count → a.bytes j ≡ b.bytes j

module _ (bigendian : Bool) where
  encode_entry-append :
      (ud : UninstallData) (rest : List ℕ)
      → encode_entry bigendian ud ++ rest
        ≡ word bigendian ud.loc
          ++ (word bigendian ud.count ++ (bytes_to_list ud.count ud.bytes ++ rest))
  encode_entry-append ud rest =
      append_assoc (word bigendian ud.loc) _ rest
      ∙ ap (λ (l : List ℕ). word bigendian ud.loc ++ l)
          (append_assoc (word bigendian ud.count) (bytes_to_list ud.count ud.bytes) rest)

  load_entries-written :
      (left i : ℕ) (entries : ℕ → UninstallData) (rest : List ℕ) (t : Tool)
      → t.faults ≡ []
      → i + left ≤ uninstall_data_max
      → ((k : ℕ) → i ≤ k → k < i + left → IsStorable (entries k))
      → load_entries bigendian left i (encode bigendian left i entries ++ rest) t ≡ (
        some tt,
        record t { uninstall_data = filled bigendian left i entries rest t.uninstall_data },
      )
  unfolding load_entries encode filled
  load_entries-written zero i entries rest t calm room all = refl
  load_entries-written (suc left) i entries rest t calm room all =
      let one = all i (omega arith) (omega arith) in
      let after = encode bigendian left (i + 1) entries ++ rest in
      let file =
        append_assoc (encode_entry bigendian (entries i)) (encode bigendian left (i + 1) entries)
          rest
        ∙ encode_entry-append (entries i) after in
      let first =
        ap (λ (l : List ℕ). load_entry bigendian i l t) file
        ∙ load_entry-written bigendian i (entries i) after t calm one.loc_word one.count_word
            one.not_empty (omega arith) in
      ap
        (λ (r : Option (List ℕ) × Tool).
          and_then r (λ rest'. load_entries bigendian left (i + 1) rest'))
        first
      ∙ load_entries-written left (i + 1) entries rest _ calm (omega arith)
          (λ k low high. all k (omega arith) (omega arith))

  filled-below :
      (left i : ℕ) (entries : ℕ → UninstallData) (rest : List ℕ) (data_ : ℕ → UninstallData) (k : ℕ)
      → k < i
      → filled bigendian left i entries rest data_ k ≡ data_ k
  unfolding filled
  filled-below zero i entries rest data_ k h = refl
  filled-below (suc left) i entries rest data_ k h =
      filled-below left (i + 1) entries rest _ k (omega arith) ∙ ground arith

  pub filled-SameEntry :
      (left i : ℕ) (entries : ℕ → UninstallData) (rest : List ℕ) (data_ : ℕ → UninstallData) (k : ℕ)
      → i ≤ k
      → k < i + left
      → SameEntry (filled bigendian left i entries rest data_ k) (entries k)
  unfolding filled
  filled-SameEntry zero i entries rest data_ k low high = absurd (omega arith)
  filled-SameEntry (suc left) i entries rest data_ k low high = elim (ℕ_discrete k i) [
    | yes e ↦
        rw (e, filled-below left (i + 1) entries rest now i (omega arith), update-same data_ i new)
          new-SameEntry
    | no other ↦ filled-SameEntry left (i + 1) entries rest now k (omega arith) (omega arith)
  ]
    where
      new : UninstallData
      new = read_back (entries i) (encode bigendian left (i + 1) entries ++ rest)

      now : ℕ → UninstallData
      now = update data_ i new

      new-SameEntry : SameEntry new (entries i)
      new-SameEntry = record {
        same_loc = refl;
        same_count = refl;
        same_bytes = get_or-bytes_to_list (entries i).count (entries i).bytes _;
      }

  abbrev pub written_file : Tool → List ℕ
  written_file t =
      word bigendian t.uninstall_data_i ++ encode bigendian t.uninstall_data_i 0 t.uninstall_data

  number-written :
      (t : Tool)
      → t.faults ≡ []
      → fwrite_bytes 8 (store bigendian w64 t.uninstall_data_i) t
        ≡ (some (word bigendian t.uninstall_data_i), t)
  number-written t calm =
      fwrite_bytes-some 8 (store bigendian w64 t.uninstall_data_i) t calm (λ z. omega (arith, z))

  stops :
      (t : Tool)
      → t.faults ≡ []
      → store_entries bigendian t.uninstall_data_i 0 t.uninstall_data t ≡ (none, t)
      → store_uninstall_data bigendian t ≡ (none, t)
  unfolding store_uninstall_data
  stops t calm e = simp (calm, number-written t calm, e)

  writes :
      (t : Tool)
      → t.faults ≡ []
      → store_entries bigendian t.uninstall_data_i 0 t.uninstall_data t
        ≡ (some (encode bigendian t.uninstall_data_i 0 t.uninstall_data), t)
      → store_uninstall_data bigendian t ≡ (some (written_file t), t)
  unfolding store_uninstall_data
  writes t calm e = simp (calm, number-written t calm, e)

  -- A file is only written in full where no entry is empty.
  pub store_uninstall_data-file :
      (t : Tool) {after : Tool} {file : List ℕ}
      → t.faults ≡ []
      → store_uninstall_data bigendian t ≡ (some file, after)
      → ((k : ℕ) → k < t.uninstall_data_i → (t.uninstall_data k).count ≢ 0)
        × (file ≡ written_file t)
  store_uninstall_data-file t {after} {file} calm e =
      by_outcome (store_entries_lem bigendian t.uninstall_data_i 0 t.uninstall_data t calm)
    where
      by_outcome :
          (store_entries bigendian t.uninstall_data_i 0 t.uninstall_data t ≡ (none, t))
            ⊎ (((k : ℕ) → 0 ≤ k → k < 0 + t.uninstall_data_i → (t.uninstall_data k).count ≢ 0)
                × (store_entries bigendian t.uninstall_data_i 0 t.uninstall_data t
                    ≡ (some (encode bigendian t.uninstall_data_i 0 t.uninstall_data), t)))
          → ((k : ℕ) → k < t.uninstall_data_i → (t.uninstall_data k).count ≢ 0)
            × (file ≡ written_file t)
      by_outcome (inl none_written) = absurd (cc (e, stops t calm none_written))
      by_outcome (inr (full, all_written)) =
          ((λ k h. full k (omega arith) (omega arith)), cc (e, writes t calm all_written))

  pub load_uninstall_data-eq :
      (t u : Tool)
      → u.faults ≡ []
      → t.uninstall_data_i ≤ uninstall_data_max
      → ((k : ℕ) → k < t.uninstall_data_i → IsStorable (t.uninstall_data k))
      → load_uninstall_data bigendian (written_file t) u ≡ (
        some tt,
        record u {
          uninstall_data =
              filled bigendian t.uninstall_data_i 0 t.uninstall_data [] u.uninstall_data;
          uninstall_data_i = t.uninstall_data_i;
        },
      )
  load_uninstall_data-eq t u calm room all =
      ap (λ (l : List ℕ). load_uninstall_data bigendian (word bigendian t.uninstall_data_i ++ l) u)
        (sym (append-nil (encode bigendian t.uninstall_data_i 0 t.uninstall_data)))
      ∙ numbered
    where
      n : ℕ
      n = t.uninstall_data_i

      entries : List ℕ
      entries = encode bigendian n 0 t.uninstall_data ++ []

      numbered : load_uninstall_data bigendian (word bigendian n ++ entries) u ≡ (
        some tt,
        record u {
          uninstall_data = filled bigendian n 0 t.uninstall_data [] u.uninstall_data;
          uninstall_data_i = n;
        },
      )
      numbered =
          unfold load_uninstall_data in
          simp (
            calm,
            fread_bytes-written 8 (store bigendian w64 n) entries u calm (λ z. omega (arith, z)),
            load-written bigendian n entries (omega (arith, room)),
            load_entries-written n 0 t.uninstall_data []
                (record u { faults = []; uninstall_data_i = n }) refl (omega (arith, room))
                (λ k low high. all k (omega arith)),
          )
