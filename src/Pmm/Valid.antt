-- ===== src/Pmm/Valid.antt =====
-- The invariant of the allocator of pmm.rs: its counters count, and what is not usable is taken.
use cell.Base.{
  ℕ, ◌-◌, ◌/◌, ◌%◌, ◌^◌, ◌≤◌, ◌<◌, bit_and, bit_or, ◌≡◌, ◌⊎◌, ◌∙◌, arith, Bool, true, false, not,
  ◌&&◌, if◌then◌else◌, ◌==◌, List, length, get_or, set, length-set,
}
use cell.Base.Digits.{bit_or-lt, pow-lt-pow}
use cell.Base.Bits.{bit_and-le}
use native.Mathlib.Decide.{ℕ_discrete}
use cell.Pmm.{
  BitmapPmm, max_frames, bitmap_words, has_bit, set_bit, clear_bit, is_usable, is_allocated,
}
use cell.Pmm.Words.{get_or-set_self, get_or-set_ne, has_bit-set_bit, has_bit-clear_bit}
use cell.Pmm.Count.{count_below}

-- A frame that `allocate` may hand out.
unfoldable pub is_free : BitmapPmm → ℕ → Bool
is_free pmm f = is_usable pmm f && not (is_allocated pmm f)

-- A bitmap has its 16384 words of 64 bits.
pub record IsBitmap (words : List ℕ) : Type 0 where
  pub size : length words ≡ bitmap_words
  pub word : (i : ℕ) → get_or words i 0 < 2 ^ 64

pub record IsValid (pmm : BitmapPmm) : Type 0 where
  pub usable_map : IsBitmap pmm.usable
  pub allocated_map : IsBitmap pmm.allocated
  pub kept : (f : ℕ) → f < max_frames → is_usable pmm f ≡ false → is_allocated pmm f ≡ true
  pub usable_count : pmm.usable_frames ≡ count_below max_frames (is_usable pmm)
  pub free_count : pmm.free_frames ≡ count_below max_frames (is_free pmm)
  pub bound : pmm.max_frame ≤ max_frames
  pub below_max : (f : ℕ) → is_usable pmm f ≡ true → f < pmm.max_frame
  pub reached : (pmm.max_frame ≡ 0) ⊎ (is_usable pmm (pmm.max_frame - 1) ≡ true)

pub set-IsBitmap :
    {words : List ℕ} (i v : ℕ)
    → IsBitmap words
    → i < bitmap_words
    → v < 2 ^ 64
    → IsBitmap (set words i v)
set-IsBitmap {words} i v m inside small = record {
  size = length-set words i v ∙ m.size;
  word = λ j. elim (ℕ_discrete i j) [
    | yes e ↦ rw (← e) (omega (arith, get_or-set_self words i v 0 (omega (arith, m.size))))
    | no ne ↦ omega (arith, get_or-set_ne words i j v 0 ne, m.word j)
  ];
}

pub set_bit-IsBitmap :
    {words : List ℕ} (f : ℕ) → IsBitmap words → f < max_frames → IsBitmap (set_bit words f)
unfolding set_bit
set_bit-IsBitmap {words} f m inside =
    set-IsBitmap (f / 64) (bit_or (get_or words (f / 64) 0) (2 ^ (f % 64))) m (omega arith) (
      bit_or-lt 64 (get_or words (f / 64) 0) (2 ^ (f % 64)) (m.word (f / 64))
        (pow-lt-pow (f % 64) 64 (omega arith)))

pub clear_bit-IsBitmap :
    {words : List ℕ} (f : ℕ) → IsBitmap words → f < max_frames → IsBitmap (clear_bit words f)
unfolding clear_bit
clear_bit-IsBitmap {words} f m inside =
    set-IsBitmap (f / 64) (bit_and (get_or words (f / 64) 0) (2 ^ 64 - 1 - 2 ^ (f % 64))) m
      (omega arith)
      (omega (arith, bit_and-le (get_or words (f / 64) 0) (2 ^ 64 - 1 - 2 ^ (f % 64))))

-- A usable frame has a number below the bound of the bitmaps.
pub usable-lt : (pmm : BitmapPmm) (f : ℕ) → is_usable pmm f ≡ true → f < max_frames
unfolding is_usable
usable-lt pmm f h = ground arith

-- What a call leaves, read frame by frame.
module _ {pmm : BitmapPmm} (v : IsValid pmm) (f : ℕ) (inside : f < max_frames) where
  word_inside : (words : List ℕ) → IsBitmap words → f / 64 < length words
  word_inside words m = omega (arith, m.size)

  pub cleared :
      (g : ℕ)
      → has_bit (clear_bit pmm.allocated f) g ≡ (if f == g then false else is_allocated pmm g)
  unfolding is_allocated
  cleared g = has_bit-clear_bit pmm.allocated f g (word_inside pmm.allocated v.allocated_map)

  pub taken :
      (g : ℕ) → has_bit (set_bit pmm.allocated f) g ≡ (if f == g then true else is_allocated pmm g)
  unfolding is_allocated
  taken g = has_bit-set_bit pmm.allocated f g (word_inside pmm.allocated v.allocated_map)

  pub marked :
      (g : ℕ) → has_bit (set_bit pmm.usable f) g ≡ (if f == g then true else has_bit pmm.usable g)
  marked g = has_bit-set_bit pmm.usable f g (word_inside pmm.usable v.usable_map)
