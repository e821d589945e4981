-- ===== src/Pmm/Take.antt =====
-- `allocate` of pmm.rs: it hands out the lowest free frame, and nothing when there is none.
use cell.Base.{
  ℕ, ◌+◌, ◌-◌, ◌/◌, ◌%◌, ◌^◌, ◌≤◌, ◌<◌, min, bit_and, ◌≡◌, inl, inr, refl, sym, ◌∙◌, arith, true,
  false, if◌then◌else◌, ◌==◌, sub64, get_or, lt→ltb,
}
use cell.Base.Digits.{digit, digit-bit_and, digit-complement}
use cell.Pmm.{BitmapPmm, max_frames, is_usable, is_allocated, set_bit}
use cell.Pmm.Words.{same_test, ne_test, has_bit-digit}
use cell.Pmm.Count.{count_below, count-le, count_same, count_added}
use cell.Pmm.Valid.{IsValid, is_free, usable-lt, taken, set_bit-IsBitmap}

-- `f` was the lowest free frame from word `from` on, it is not free any more, and nothing else has
-- changed.
pub record IsTaken (from : ℕ) (pmm pmm' : BitmapPmm) (f : ℕ) : Type 0 where
  pub valid : IsValid pmm'
  pub was_free : is_free pmm f ≡ true
  pub lowest : (g : ℕ) → from ≤ g / 64 → g < f → is_free pmm g ≡ false
  pub usable_kept : (g : ℕ) → is_usable pmm' g ≡ is_usable pmm g
  pub now_free : (g : ℕ) → is_free pmm' g ≡ (if f == g then false else is_free pmm g)
  pub one_less : pmm'.free_frames + 1 ≡ pmm.free_frames
  pub usable_frames_kept : pmm'.usable_frames ≡ pmm.usable_frames
  pub max_frame_kept : pmm'.max_frame ≡ pmm.max_frame

-- The word of frames that are usable and not allocated.
abbrev pub available : BitmapPmm → ℕ → ℕ
available pmm i = bit_and (get_or pmm.usable i 0) (2 ^ 64 - 1 - get_or pmm.allocated i 0)

pub is_free-digit :
    {pmm : BitmapPmm}
    → IsValid pmm
    → (g : ℕ) → g < max_frames
    → is_free pmm g ≡ (digit (available pmm (g / 64)) (g % 64) == 1)
unfolding is_free is_usable is_allocated
is_free-digit {pmm} v g inside =
    let word = v.allocated_map.word (g / 64) in
    let both : digit (available pmm (g / 64)) (g % 64)
        ≡ min (digit (get_or pmm.usable (g / 64) 0) (g % 64))
            (1 - digit (get_or pmm.allocated (g / 64) 0) (g % 64)) =
      omega (
        arith,
        digit-bit_and (g % 64) (get_or pmm.usable (g / 64) 0)
            (2 ^ 64 - 1 - get_or pmm.allocated (g / 64) 0),
        digit-complement 64 (g % 64) (get_or pmm.allocated (g / 64) 0) word (omega arith),
      ) in
    ground (
      arith,
      lt→ltb g max_frames inside,
      has_bit-digit pmm.usable g,
      has_bit-digit pmm.allocated g,
      both,
    )

module _ {pmm : BitmapPmm} (v : IsValid pmm) (f : ℕ) (there : is_free pmm f ≡ true) where
  abbrev pub without : BitmapPmm
  without = record pmm {
    allocated = set_bit pmm.allocated f;
    free_frames = sub64 pmm.free_frames 1;
  }

  pub used : is_usable pmm f ≡ true
  unfolding is_free
  used = ground (arith, there)

  now_allocated : (g : ℕ) → is_allocated without g ≡ (if f == g then true else is_allocated pmm g)
  unfolding is_allocated
  now_allocated g = taken v f (usable-lt pmm f used) g

  usable_same : (g : ℕ) → is_usable without g ≡ is_usable pmm g
  unfolding is_usable
  usable_same g = refl

  takes : (g : ℕ) → is_free without g ≡ (if f == g then false else is_free pmm g)
  unfolding is_free
  takes g = ground (arith, usable_same g, now_allocated g)

  counts_less : count_below max_frames (is_free without) + 1 ≡ pmm.free_frames
  counts_less = omega (
    arith,
    count_added max_frames f (is_free without) (is_free pmm) (usable-lt pmm f used)
        (ground (arith, takes f, same_test f f refl)) there
        (λ g ne. ground (arith, takes g, ne_test f g ne)),
    v.free_count,
  )

  one_less_there : sub64 pmm.free_frames 1 + 1 ≡ pmm.free_frames
  one_less_there = omega (arith, counts_less, count-le max_frames (is_free without))

  pub without-IsTaken :
      (from : ℕ)
      → ((g : ℕ) → from ≤ g / 64 → g < f → is_free pmm g ≡ false)
      → IsTaken from pmm without f
  without-IsTaken from lowest = record {
    valid = record {
      usable_map = v.usable_map;
      allocated_map = set_bit-IsBitmap f v.allocated_map (usable-lt pmm f used);
      kept = λ g inside unused.
          ground (arith, now_allocated g, v.kept g inside (sym (usable_same g) ∙ unused));
      usable_count = v.usable_count ∙ count_same max_frames _ _ (λ g below. sym (usable_same g));
      free_count = omega (arith, one_less_there, counts_less);
      bound = v.bound;
      below_max = λ g u. v.below_max g (sym (usable_same g) ∙ u);
      reached = elim v.reached [
        | inl none_yet ↦ inl none_yet
        | inr last ↦ inr (usable_same (pmm.max_frame - 1) ∙ last)
      ];
    };
    was_free = there;
    lowest = lowest;
    usable_kept = usable_same;
    now_free = takes;
    one_less = one_less_there;
    usable_frames_kept = refl;
    max_frame_kept = refl;
  }
