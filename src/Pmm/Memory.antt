-- ===== src/Pmm/Memory.antt =====
-- `initialize` of pmm.rs: the frames that it takes from the boot loader's memory map.
use cell.Base.{
  ℕ, zero, suc, ◌+◌, ◌-◌, ◌*◌, ◌/◌, ◌%◌, ◌^◌, ◌<◌, bit_and, ◌≡◌, inl, refl, sym, ap, ◌∙◌, arith,
  Bool, true, false, not, ◌&&◌, ◌||◌, ◌==◌, ltb, leb, get_or, length-replicate, length, u64_mod,
}
use cell.Base.Bits.{bit_and_shift}
use cell.Base.Digits.{digit, zero-digit, digit-complement, bit_and_ones}
use native.Mathlib.Decide.{dec_lt}
use cell.Pmm.{
  BitmapPmm, max_frames, bitmap_words, frame_size, is_usable, is_allocated, has_bit, mark_usable,
  mark_range, new, fill,
}
use cell.Pmm.Words.{get_or-replicate, has_bit-digit}
use cell.Pmm.Count.{count_none}
use cell.Pmm.Valid.{IsBitmap, IsValid, is_free}
use cell.Pmm.Mark.{AllFree, mark_usable_lem}

-- A state in which every usable frame is free, and the frames that are.
pub record Holds (pmm : BitmapPmm) (usable : ℕ → Bool) : Type 0 where
  pub valid : IsValid pmm
  pub all_free : AllFree pmm
  pub usable_is : (g : ℕ) → is_usable pmm g ≡ usable g

pub mark_range_lem :
    (rounds first : ℕ) (pmm : BitmapPmm)
    → IsValid pmm
    → AllFree pmm
    → Holds
        (mark_range rounds first pmm)
        (λ g. leb first g && ltb g (first + rounds) && ltb g max_frames || is_usable pmm g)
unfolding mark_range
mark_range_lem zero first pmm v free = record {
  valid = v;
  all_free = free;
  usable_is = λ g. ground arith;
}
mark_range_lem (suc rounds) first pmm v free =
    let (v', free', one) = mark_usable_lem pmm first v free in
    let rest = mark_range_lem rounds (first + 1) (mark_usable pmm first) v' free' in
    record {
      valid = rest.valid;
      all_free = rest.all_free;
      usable_is = λ g. rest.usable_is g ∙ ground (arith, one g);
    }

-- `(base + FRAME_SIZE - 1) & !(FRAME_SIZE - 1)` rounds up to a frame.
pub round_down : (s : ℕ) → s < u64_mod → bit_and s (2 ^ 64 - 1 - (frame_size - 1)) ≡ s / 4096 * 4096
round_down s h = omega (arith, bit_and_shift 12 s (2 ^ 52 - 1), bit_and_ones 52 (s / 4096))

-- The state before the first entry: no frame is usable, and each is taken.
get_or-fill : (n i v : ℕ) → i < n → get_or (fill n v) i 0 ≡ v
unfolding fill
get_or-fill n i v h = get_or-replicate n i v 0 h

length-fill : (n v : ℕ) → length (fill n v) ≡ n
unfolding fill
length-fill n v = length-replicate n v

fill-lt : (n i v bound : ℕ) → v < bound → get_or (fill n v) i 0 < bound
unfolding fill
fill-lt zero i v bound h = omega arith
fill-lt (suc n) zero v bound h = h
fill-lt (suc n) (suc i) v bound h = fill-lt n i v bound h

no_frame : (g : ℕ) → g < max_frames → has_bit (fill bitmap_words 0) g ≡ false
no_frame g inside =
    has_bit-digit (fill bitmap_words 0) g
    ∙ ap (λ (w : ℕ). not (digit w (g % 64) == 0))
        (get_or-fill bitmap_words (g / 64) 0 (omega arith))
    ∙ ap (λ (d : ℕ). not (d == 0)) (zero-digit (g % 64))

all_ones : (j : ℕ) → j < 64 → digit (u64_mod - 1) j ≡ 1
all_ones j h = omega (arith, digit-complement 64 j 0 (omega arith) h, zero-digit j)

every_frame : (g : ℕ) → g < max_frames → has_bit (fill bitmap_words (u64_mod - 1)) g ≡ true
every_frame g inside =
    has_bit-digit (fill bitmap_words (u64_mod - 1)) g
    ∙ ap (λ (w : ℕ). not (digit w (g % 64) == 0))
        (get_or-fill bitmap_words (g / 64) (u64_mod - 1) (omega arith))
    ∙ ap (λ (d : ℕ). not (d == 0)) (all_ones (g % 64) (omega arith))

none_usable : (g : ℕ) → is_usable new g ≡ false
unfolding is_usable new
none_usable g = elim (dec_lt g max_frames) [
  | yes inside ↦ ground (arith, no_frame g inside)
  | no out ↦ ground arith
]

none_free : (g : ℕ) → is_free new g ≡ false
unfolding is_free
none_free g = rw (none_usable g) refl

all_taken : (g : ℕ) → g < max_frames → is_allocated new g ≡ true
unfolding is_allocated new
all_taken g inside = every_frame g inside

fill-IsBitmap : (v : ℕ) → v < 2 ^ 64 → IsBitmap (fill bitmap_words v)
fill-IsBitmap v small = record {
  size = length-fill bitmap_words v;
  word = λ i. fill-lt bitmap_words i v (2 ^ 64) small;
}

pub new-Holds : Holds new (λ g. false)
unfolding new
new-Holds = record {
  valid = record {
    usable_map = fill-IsBitmap 0 (omega arith);
    allocated_map = fill-IsBitmap (u64_mod - 1) (omega arith);
    kept = λ f inside unused. all_taken f inside;
    usable_count = sym (count_none max_frames (is_usable new) (λ g h. none_usable g));
    free_count = sym (count_none max_frames (is_free new) (λ g h. none_free g));
    bound = omega arith;
    below_max = λ f h. absurd (cc (h, none_usable f));
    reached = inl refl;
  };
  all_free = λ g. none_free g ∙ sym (none_usable g);
  usable_is = none_usable;
}
