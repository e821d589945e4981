-- ===== src/Pmm/Span.antt =====
-- One entry's span of frames in pmm.rs: rounding, cutting off, and the sums that do not fit.
use cell.Base.{
  ℕ, ◌+◌, ◌-◌, ◌*◌, ◌/◌, ◌≤◌, ◌<◌, min, ◌≡◌, ◌⊎◌, ◌↔◌, inl, inr, arith, Bool, true, false, ◌&&◌,
  ◌||◌, if◌then◌else◌, ltb, leb, u64_mod, none, some,
}
use native.Mathlib.Decide.{dec_lt}
use cell.Pmm.{
  BitmapPmm, max_frames, frame_size, max_physical_address, is_usable, mark_range, checked_add,
  mark_span,
}
use cell.Pmm.Valid.{IsValid}
use cell.Pmm.Mark.{AllFree}
use cell.Pmm.Memory.{mark_range_lem, round_down}

-- The frame lies below 4 GiB and whole between the two addresses, which fit in 64 bits.
pub record Within (base length g : ℕ) : Type 0 where
  pub low : g < max_frames
  pub from_base : base ≤ g * frame_size
  pub to_end : g * frame_size + frame_size ≤ base + length
  pub fits : base + length < u64_mod

-- Every usable frame is free still, and `P` holds of those that were not usable before.
pub record Added (pmm pmm' : BitmapPmm) (P : ℕ → Type 0) : Type 0 where
  pub valid : IsValid pmm'
  pub all_free : AllFree pmm'
  pub usable_iff : (g : ℕ) → (is_usable pmm' g ≡ true) ↔ (P g ⊎ (is_usable pmm g ≡ true))

in_range :
    (first rounds g : ℕ) (now before : Bool)
    → now ≡ (leb first g && ltb g (first + rounds) && ltb g max_frames || before)
    → (now ≡ true) ↔ (((first ≤ g) × (g < first + rounds) × (g < max_frames)) ⊎ (before ≡ true))
in_range first rounds g now before e = ground arith

module _ (pmm : BitmapPmm) (v : IsValid pmm) (free : AllFree pmm) where
  pub unchanged : (P : ℕ → Type 0) → ((g : ℕ) → ¬ P g) → Added pmm pmm P
  unchanged P never = record {
    valid = v;
    all_free = free;
    usable_iff = λ g. (λ h. inr h, λ h. elim h [ inl p ↦ absurd (never g p) | inr old ↦ old ]);
  }

  module _ (base length : ℕ) (small : base + 4095 < u64_mod) (fits : base + length < u64_mod) where
    abbrev start : ℕ
    start = (base + 4095) / 4096 * 4096

    abbrev end : ℕ
    end = min (base + length) max_physical_address

    abbrev first : ℕ
    first = start / 4096

    abbrev rounds : ℕ
    rounds = end / 4096 - start / 4096

    marked_range : start < end → Added pmm (mark_range rounds first pmm) (Within base length)
    marked_range some_frames =
        let all = mark_range_lem rounds first pmm v free in
        record {
          valid = all.valid;
          all_free = all.all_free;
          usable_iff = λ g.
              let iff =
                in_range first rounds g (is_usable (mark_range rounds first pmm) g)
                  (is_usable pmm g) (all.usable_is g) in
              (
                λ h. elim (iff.0 h) [ inl range ↦ inl (omega arith) | inr old ↦ inr old ],
                λ h. iff.1 (elim h [
                  | inl within ↦ inl (omega (arith, within.low, within.from_base, within.to_end))
                  | inr old ↦ inr old
                ]),
              );
        }

    mark_span_inside :
        Added pmm (mark_span (some (base + 4095)) (some (base + length)) pmm) (Within base length)
    unfolding mark_span
    mark_span_inside = elim (dec_lt start end) [
      | yes h ↦ rw (round_down (base + 4095) small, gt_test h) (marked_range h)
      | no h ↦
          rw (round_down (base + 4095) small, le_test h)
            (unchanged (Within base length)
              (λ g w. h (omega (arith, w.low, w.from_base, w.to_end))))
    ]
      where
        gt_test : start < end → leb end start ≡ false
        gt_test h = ground arith

        le_test : ¬ (start < end) → leb end start ≡ true
        le_test h = ground arith

  pub mark_span_lem :
      (base length : ℕ)
      → Added pmm
          (mark_span (checked_add base 4095) (checked_add base length) pmm)
          (Within base length)
  unfolding checked_add mark_span
  mark_span_lem base length = elim (dec_lt (base + 4095) u64_mod) [
    | no h ↦ rw (out_test (base + 4095) h) (nothing_left h)
    | yes h ↦ rw (in_test (base + 4095) h) (elim (dec_lt (base + length) u64_mod) [
      | no k ↦ rw (out_test (base + length) k) (no_end k)
      | yes k ↦ rw (in_test (base + length) k) (mark_span_inside base length h k)
    ])
  ]
    where
      out_test : (s : ℕ) → ¬ (s < u64_mod) → ltb s u64_mod ≡ false
      out_test s h = ground arith

      in_test : (s : ℕ) → s < u64_mod → ltb s u64_mod ≡ true
      in_test s h = ground arith

      nothing_left :
          ¬ (base + 4095 < u64_mod)
          → Added pmm
              (mark_span none
                (if ltb (base + length) u64_mod then some (base + length) else none)
                pmm)
              (Within base length)
      nothing_left h = unchanged (Within base length) (λ g w. h (omega (arith, w.low, w.from_base)))

      no_end :
          ¬ (base + length < u64_mod)
          → Added pmm (mark_span (some (base + 4095)) none pmm) (Within base length)
      no_end k = unchanged (Within base length) (λ g w. k w.fits)
