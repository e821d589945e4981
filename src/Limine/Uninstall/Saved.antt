-- ===== src/Limine/Uninstall/Saved.antt =====
-- What `store_uninstall_data` of limine.c writes and `load_uninstall_data` makes of it, where no call
-- of the C library fails.
use cell.Base.{
  ℕ, zero, suc, ◌+◌, ◌≤◌, ◌<◌, ◌^◌, ◌≡◌, ◌≢◌, ◌⊎◌, inl, inr, refl, arith, ltb, Bool, true, none,
  some, List, [], ◌++◌, get_or,
}
use native.Mathlib.Decide.{ℕ_discrete}
use cell.Limine.Tool.{Tool, UninstallData}
use cell.Limine.Device.{update, uninstall_data_max}
use cell.Limine.Endian.{w64, store}
use cell.Limine.Uninstall.Store.{bytes_to_list, store_entry, store_entries, load_entry}
use cell.Limine.Uninstall.Encode.{
  fwrite_bytes-none, fwrite_bytes-some, fread_bytes-written, load-written,
}

module _ (bigendian : Bool) where
  abbrev pub word : ℕ → List ℕ
  word v = bytes_to_list 8 (store bigendian w64 v)

  abbrev pub encode_entry : UninstallData → List ℕ
  encode_entry ud = word ud.loc ++ (word ud.count ++ bytes_to_list ud.count ud.bytes)

  -- The entries from `i` on, `left` of them.
  unfoldable pub encode : ℕ → ℕ → (ℕ → UninstallData) → List ℕ
  encode zero i entries = []
  encode (suc left) i entries = encode_entry (entries i) ++ encode left (i + 1) entries

  store_entry-empty :
      (ud : UninstallData) (t : Tool)
      → t.faults ≡ []
      → ud.count ≡ 0
      → store_entry bigendian ud t ≡ (none, t)
  unfolding store_entry
  store_entry-empty ud t calm e = simp (
    fwrite_bytes-some 8 (store bigendian w64 ud.loc) t calm (λ z. omega (arith, z)),
    fwrite_bytes-some 8 (store bigendian w64 ud.count) t calm (λ z. omega (arith, z)),
    fwrite_bytes-none ud.count ud.bytes t calm e,
  )

  store_entry-full :
      (ud : UninstallData) (t : Tool)
      → t.faults ≡ []
      → ud.count ≢ 0
      → store_entry bigendian ud t ≡ (some (encode_entry ud), t)
  unfolding store_entry
  store_entry-full ud t calm ne = simp (
    fwrite_bytes-some 8 (store bigendian w64 ud.loc) t calm (λ z. omega (arith, z)),
    fwrite_bytes-some 8 (store bigendian w64 ud.count) t calm (λ z. omega (arith, z)),
    fwrite_bytes-some ud.count ud.bytes t calm ne,
  )

  -- An entry of no bytes stops the loop; without one it writes them all.
  pub store_entries_lem :
      (left i : ℕ) (entries : ℕ → UninstallData) (t : Tool)
      → t.faults ≡ []
      → (store_entries bigendian left i entries t ≡ (none, t))
        ⊎ (((k : ℕ) → i ≤ k → k < i + left → (entries k).count ≢ 0)
            × (store_entries bigendian left i entries t ≡ (some (encode left i entries), t)))
  unfolding store_entries encode
  store_entries_lem zero i entries t calm = inr ((λ k low high. omega (arith, low, high)), refl)
  store_entries_lem (suc left) i entries t calm = elim (ℕ_discrete (entries i).count 0) [
    | yes e ↦ inl (simp (store_entry-empty (entries i) t calm e))
    | no ne ↦ rest ne (store_entries_lem left (i + 1) entries t calm)
  ]
    where
      rest :
          (entries i).count ≢ 0
          → (store_entries bigendian left (i + 1) entries t ≡ (none, t))
            ⊎ (((k : ℕ) → i + 1 ≤ k → k < i + 1 + left → (entries k).count ≢ 0)
                × (store_entries bigendian left (i + 1) entries t
                    ≡ (some (encode left (i + 1) entries), t)))
          → (store_entries bigendian (suc left) i entries t ≡ (none, t))
            ⊎ (((k : ℕ) → i ≤ k → k < i + suc left → (entries k).count ≢ 0)
                × (store_entries bigendian (suc left) i entries t
                    ≡ (some (encode (suc left) i entries), t)))
      rest ne (inl e) = inl (simp (store_entry-full (entries i) t calm ne, e))
      rest ne (inr (full, e)) = inr (
        (λ k low high. elim (ℕ_discrete k i) [
          | yes same ↦ rw same ne
          | no other ↦ full k (omega arith) (omega arith)
        ]),
        simp (store_entry-full (entries i) t calm ne, e),
      )

-- What is read of an entry, with `rest` after it in the file.
abbrev pub read_back : UninstallData → List ℕ → UninstallData
read_back ud rest = record {
  bytes = λ j. get_or (bytes_to_list ud.count ud.bytes ++ rest) j 0;
  loc = ud.loc;
  count = ud.count;
}

module _ (bigendian : Bool) where
  -- The array after the entries from `i` on, `left` of them, are read.
  unfoldable pub filled :
      ℕ → ℕ → (ℕ → UninstallData) → List ℕ → (ℕ → UninstallData) → ℕ → UninstallData
  filled zero i entries rest data_ = data_
  filled (suc left) i entries rest data_ =
      filled left (i + 1) entries rest
        (update data_ i (read_back (entries i) (encode bigendian left (i + 1) entries ++ rest)))

  pub load_entry-written :
      (i : ℕ) (ud : UninstallData) (rest : List ℕ) (t : Tool)
      → t.faults ≡ []
      → ud.loc < 2 ^ 64
      → ud.count < 2 ^ 64
      → ud.count ≢ 0
      → i < uninstall_data_max
      → load_entry bigendian i
          (word bigendian ud.loc
            ++ (word bigendian ud.count ++ (bytes_to_list ud.count ud.bytes ++ rest)))
          t
        ≡ (some rest, record t { uninstall_data = update t.uninstall_data i (read_back ud rest) })
  unfolding load_entry
  load_entry-written i ud rest t calm loc count ne room =
      let rest₂ = bytes_to_list ud.count ud.bytes ++ rest in
      let rest₁ = word bigendian ud.count ++ rest₂ in
      simp (
        fread_bytes-written 8 (store bigendian w64 ud.loc) rest₁ t calm (λ z. omega (arith, z)),
        load-written bigendian ud.loc rest₁ loc,
        fread_bytes-written 8 (store bigendian w64 ud.count) rest₂ t calm (λ z. omega (arith, z)),
        load-written bigendian ud.count rest₂ count,
        calm,
        fread_bytes-written ud.count ud.bytes rest t calm ne,
        fits,
      )
    where
      fits : ltb i uninstall_data_max ≡ true
      fits = ground arith
