-- ===== src/Pmm/Boot.antt =====
-- `initialize` of pmm.rs, entry by entry: a frame is usable when it lies whole inside a usable one.
use cell.Base.{
  ℕ, ◌≡◌, ◌⊎◌, ◌↔◌, inl, inr, sym, ap, ◌∙◌, fun_ext, arith, true, Bool-cases, List, [], ◌∷◌,
}
use cell.Pmm.{
  BitmapPmm, max_frames, is_usable, EntryFields, mark_entry, mark_entries, initialize, stats, new,
}
use cell.Pmm.Count.{count_below}
use cell.Pmm.Valid.{IsValid}
use cell.Pmm.Mark.{AllFree}
use cell.Pmm.Memory.{new-Holds}
use cell.Pmm.Span.{Within, Added, unchanged, mark_span_lem}

module _ {Entry : Type 0} (fields : EntryFields Entry) where
  abbrev pub Covers : Entry → ℕ → Type 0
  Covers entry g =
      (fields.is_usable_type entry ≡ true) × Within (fields.base entry) (fields.length entry) g

  -- Some entry of the map covers the frame.
  abbrev pub IsCovered : List Entry → ℕ → Type 0
  IsCovered [] g = ⊥
  IsCovered (entry ∷ entries) g = Covers entry g ⊎ IsCovered entries g

  covers :
      {pmm pmm' : BitmapPmm} {entry : Entry}
      → fields.is_usable_type entry ≡ true
      → Added pmm pmm' (Within (fields.base entry) (fields.length entry))
      → Added pmm pmm' (Covers entry)
  covers usable a = record {
    valid = a.valid;
    all_free = a.all_free;
    usable_iff = λ g. (
      λ h. elim ((a.usable_iff g).0 h) [ inl w ↦ inl (usable, w) | inr old ↦ inr old ],
      λ h. (a.usable_iff g).1 (elim h [ inl c ↦ inl c.1 | inr old ↦ inr old ]),
    );
  }

  mark_entry_lem :
      (pmm : BitmapPmm) (entry : Entry)
      → IsValid pmm
      → AllFree pmm
      → Added pmm (mark_entry fields pmm entry) (Covers entry)
  unfolding mark_entry
  mark_entry_lem pmm entry v free = elim (Bool-cases (fields.is_usable_type entry)) [
    | inr other ↦ rw other (unchanged pmm v free (Covers entry) (λ g c. cc (other, c.0)))
    | inl usable ↦
        rw usable
          (covers usable (mark_span_lem pmm v free (fields.base entry) (fields.length entry)))
  ]

  mark_entries_lem :
      (pmm : BitmapPmm) (entries : List Entry)
      → IsValid pmm
      → AllFree pmm
      → Added pmm (mark_entries fields pmm entries) (IsCovered entries)
  unfolding mark_entries
  mark_entries_lem pmm [] v free = record {
    valid = v;
    all_free = free;
    usable_iff =
        λ g. (λ h. inr h, λ h. elim h [ inl none_left ↦ absurd none_left | inr old ↦ old ]);
  }
  mark_entries_lem pmm (entry ∷ entries) v free =
      let one = mark_entry_lem pmm entry v free in
      let rest = mark_entries_lem (mark_entry fields pmm entry) entries one.valid one.all_free in
      record {
        valid = rest.valid;
        all_free = rest.all_free;
        usable_iff = λ g. ground (arith, rest.usable_iff g, one.usable_iff g);
      }

  -- The frames that are usable, and free, after `initialize` are those that the map covers; and
  -- the statistics are their numbers.
  pub initialize_lem :
      (pmm : BitmapPmm) (entries : List Entry)
      → let (found, pmm') = initialize fields pmm entries in
        IsValid pmm'
        × ((g : ℕ) → (is_usable pmm' g ≡ true) ↔ IsCovered entries g)
        × AllFree pmm'
        × (found.usable_frames ≡ count_below max_frames (is_usable pmm'))
        × (found.free_frames ≡ found.usable_frames)
  unfolding initialize new stats
  initialize_lem pmm entries =
      let all = mark_entries_lem new entries new-Holds.valid new-Holds.all_free in
      (
        all.valid,
        λ g. from_none g (all.usable_iff g),
        all.all_free,
        all.valid.usable_count,
        all.valid.free_count
            ∙ ap (count_below max_frames) (fun_ext all.all_free)
            ∙ sym all.valid.usable_count,
      )
    where
      from_none : {P Q : Type 0} (g : ℕ) → (Q ↔ (P ⊎ (is_usable new g ≡ true))) → Q ↔ P
      from_none g h = (
        λ q. elim (h.0 q) [ inl p ↦ p | inr u ↦ absurd (cc (u, new-Holds.usable_is g)) ],
        λ p. h.1 (inl p),
      )
