-- ===== src/Pmm/Scan.antt =====
-- The scan of `allocate` in pmm.rs over the words of the bitmaps.
use cell.Base.{
  ℕ, zero, suc, ◌+◌, ◌-◌, ◌*◌, ◌/◌, ◌%◌, ◌^◌, ◌≤◌, ◌<◌, bit_or, ◌≡◌, ◌≢◌, inl, inr, refl, sym, ap,
  subst, ◌∙◌, arith, true, false, ◌==◌, sub64, Bool-cases, get_or, set, Option, none, some,
}
use cell.Base.Digits.{digit, trailing_zeros, trailing_zeros_lem, zero-digit}
use cell.Base.Bits.{bit_and-le}
use native.Mathlib.Decide.{ℕ_discrete, dec_lt}
use cell.Pmm.{
  BitmapPmm, PhysicalFrame, max_frames, bitmap_words, is_usable, set_bit, allocate_from, allocate,
}
use cell.Pmm.Valid.{IsValid, is_free, usable-lt}
use cell.Pmm.Take.{IsTaken, available, is_free-digit, without-IsTaken}

-- What the scan from word `from` over `rounds` words comes to.
abbrev pub Scanned : ℕ → ℕ → BitmapPmm → Option PhysicalFrame × BitmapPmm → Type 0
Scanned from rounds pmm (none, pmm') =
    (pmm' ≡ pmm) × ((g : ℕ) → from ≤ g / 64 → g / 64 < from + rounds → is_free pmm g ≡ false)
Scanned from rounds pmm (some frame, pmm') = IsTaken from pmm pmm' frame.number

not_usable_beyond : (pmm : BitmapPmm) (g : ℕ) → ¬ (g < max_frames) → is_free pmm g ≡ false
unfolding is_free
not_usable_beyond pmm g out = elim (Bool-cases (is_usable pmm g)) [
  | inl used ↦ absurd (out (usable-lt pmm g used))
  | inr unused ↦ rw unused refl
]

module _ {pmm : BitmapPmm} (v : IsValid pmm) (i : ℕ) where
  -- A word with nothing available holds no free frame.
  empty_word : available pmm i ≡ 0 → (g : ℕ) → g / 64 ≡ i → is_free pmm g ≡ false
  empty_word e g at = elim (dec_lt g max_frames) [
    | no out ↦ not_usable_beyond pmm g out
    | yes inside ↦
        let none_set : digit (available pmm (g / 64)) (g % 64) ≡ 0 =
          ap (λ (k : ℕ). digit (available pmm k) (g % 64)) at
          ∙ ap (λ (w : ℕ). digit w (g % 64)) e
          ∙ zero-digit (g % 64) in
        is_free-digit v g inside ∙ rw none_set refl
  ]

  available-lt : available pmm i < 2 ^ 64
  available-lt =
      omega (arith, bit_and-le (get_or pmm.usable i 0) (2 ^ 64 - 1 - get_or pmm.allocated i 0))

  abbrev lowest_bit : ℕ
  lowest_bit = trailing_zeros (available pmm i)

  abbrev found : ℕ
  found = i * 64 + lowest_bit

  module _ (some_set : available pmm i ≢ 0) where
    bit_inside : lowest_bit < 64
    bit_inside = (trailing_zeros_lem (available pmm i) some_set available-lt).0

    found_word : found / 64 ≡ i
    found_word = omega (arith, bit_inside)

    found_bit : found % 64 ≡ lowest_bit
    found_bit = omega (arith, bit_inside)

    found_free : i < bitmap_words → is_free pmm found ≡ true
    found_free inside =
        let set_there : digit (available pmm (found / 64)) (found % 64) ≡ 1 =
          ap (λ (k : ℕ). digit (available pmm k) (found % 64)) found_word
          ∙ ap (λ (j : ℕ). digit (available pmm i) j) found_bit
          ∙ (trailing_zeros_lem (available pmm i) some_set available-lt).1 in
        is_free-digit v found (omega (arith, bit_inside)) ∙ rw set_there refl

    found_lowest : (g : ℕ) → i ≤ g / 64 → g < found → is_free pmm g ≡ false
    found_lowest g from below = elim (dec_lt g max_frames) [
      | no out ↦ not_usable_beyond pmm g out
      | yes inside ↦
          let word : g / 64 ≡ i = omega (arith, bit_inside) in
          let clear_there : digit (available pmm (g / 64)) (g % 64) ≡ 0 =
            ap (λ (k : ℕ). digit (available pmm k) (g % 64)) word
            ∙ (trailing_zeros_lem (available pmm i) some_set available-lt).2 (g % 64)
                (omega (arith, bit_inside)) in
          is_free-digit v g inside ∙ rw clear_there refl
    ]

    -- The word is written at its index, which is the frame's.
    written :
        set pmm.allocated i (bit_or (get_or pmm.allocated i 0) (2 ^ lowest_bit))
        ≡ set_bit pmm.allocated found
    unfolding set_bit
    written = rw (found_word, found_bit) refl

    IsTaken-there :
        i < bitmap_words
        → IsTaken i pmm
            (record pmm {
              allocated = set pmm.allocated i (bit_or (get_or pmm.allocated i 0) (2 ^ lowest_bit));
              free_frames = sub64 pmm.free_frames 1;
            })
            found
    IsTaken-there inside =
        subst
          (λ words.
            IsTaken i pmm (record pmm { allocated = words; free_frames = sub64 pmm.free_frames 1 })
              found)
          (sym written) (without-IsTaken v found (found_free inside) i found_lowest)

-- A scan that starts one word later finds the same, when the first word is empty.
later :
    {pmm : BitmapPmm} (v : IsValid pmm) (from rounds : ℕ)
    → available pmm from ≡ 0
    → (r : Option PhysicalFrame × BitmapPmm) → Scanned (from + 1) rounds pmm r
    → Scanned from (suc rounds) pmm r
later v from rounds e (none, pmm') (same, none_free) = (
  same,
  λ g low high. elim (ℕ_discrete (g / 64) from) [
    | yes at ↦ empty_word v from e g at
    | no ne ↦ none_free g (omega arith) (omega arith)
  ],
)
later v from rounds e (some frame, pmm') t = record {
  valid = t.valid;
  was_free = t.was_free;
  lowest = λ g low below. elim (ℕ_discrete (g / 64) from) [
    | yes at ↦ empty_word v from e g at
    | no ne ↦ t.lowest g (omega arith) below
  ];
  usable_kept = t.usable_kept;
  now_free = t.now_free;
  one_less = t.one_less;
  usable_frames_kept = t.usable_frames_kept;
  max_frame_kept = t.max_frame_kept;
}

allocate_from_lem :
    (rounds from : ℕ) (pmm : BitmapPmm)
    → IsValid pmm
    → from + rounds ≡ bitmap_words
    → Scanned from rounds pmm (allocate_from rounds from pmm)
unfolding allocate_from
allocate_from_lem zero from pmm v e = (refl, λ g low high. absurd (omega arith))
allocate_from_lem (suc rounds) from pmm v e = elim (ℕ_discrete (available pmm from) 0) [
  | yes empty ↦ rw (==_at_zero (available pmm from) empty) (
      later v from rounds empty (allocate_from rounds (from + 1) pmm)
        (allocate_from_lem rounds (from + 1) pmm v (omega arith)))
  | no some_set ↦
      rw (==_not_zero (available pmm from) some_set) (IsTaken-there v from some_set (omega arith))
]
  where
    ==_at_zero : (w : ℕ) → w ≡ 0 → (w == 0) ≡ true
    ==_at_zero w h = ground arith

    ==_not_zero : (w : ℕ) → w ≢ 0 → (w == 0) ≡ false
    ==_not_zero w h = ground arith

-- In a valid state `allocate` hands out the lowest frame that is free, which is free no more, with
-- every other frame's status, the invariant and the counters kept, `free_frames` one less; or it
-- answers `None` and changes nothing, and then no frame of the bitmaps is free.
pub allocate_lem : (pmm : BitmapPmm) → IsValid pmm → Scanned 0 bitmap_words pmm (allocate pmm)
unfolding allocate
allocate_lem pmm v = allocate_from_lem bitmap_words 0 pmm v (omega arith)
