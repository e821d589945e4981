-- ===== src/Pmm.antt =====
-- crates/cell-baremetal/src/pmm.rs: the allocator of physical frames, two bitmaps of 64-bit words.
-- A counter keeps its wrap-around, and `Pmm.Valid` shows that none wraps.
pub mod Words
pub mod Count
pub mod Valid
pub mod Release
pub mod Mark
pub mod Memory
pub mod Span
pub mod Boot
pub mod Take
pub mod Scan
pub mod Owners
pub mod Cycle
mod Tests
use cell.Base.{ℕ, zero, suc, ◌+◌, ◌-◌, ◌*◌, ◌/◌, ◌%◌, ◌^◌, min, max, bit_and, bit_or}
use cell.Base.{Bool, true, false, not, ◌&&◌, ◌||◌, ltb, leb, ◌==◌, if◌then◌else◌}
use cell.Base.{Option, none, some, List, [], ◌∷◌, get_or, set, replicate, u64_mod, add64, sub64}
use cell.Base.Digits.{trailing_zeros}

abbrev pub frame_size : ℕ
frame_size = 4096

abbrev pub max_physical_address : ℕ
max_physical_address = 4294967296

abbrev pub max_frames : ℕ
max_frames = 1048576

abbrev pub bitmap_words : ℕ
bitmap_words = 16384

pub record PhysicalFrame : Type 0 where
  pub number : ℕ

unfoldable pub from_address : ℕ → PhysicalFrame
from_address address = record { number = address / frame_size }

unfoldable pub address : PhysicalFrame → ℕ
address frame = frame.number * frame_size % u64_mod

pub record PmmStats : Type 0 where
  pub usable_frames : ℕ
  pub free_frames : ℕ
  pub max_frame : ℕ

pub record BitmapPmm : Type 0 where
  pub usable : List ℕ
  pub allocated : List ℕ
  pub usable_frames : ℕ
  pub free_frames : ℕ
  pub max_frame : ℕ

-- `[word; words]`
pub fill : ℕ → ℕ → List ℕ
fill words word = replicate words word

unfoldable pub new : BitmapPmm
new = record {
  usable = fill bitmap_words 0;
  allocated = fill bitmap_words (u64_mod - 1);
  usable_frames = 0;
  free_frames = 0;
  max_frame = 0;
}

-- `words[frame / 64] & (1 << (frame % 64)) != 0`, `|= 1 << ..` and `&= !(1 << ..)`.
pub has_bit : List ℕ → ℕ → Bool
has_bit words frame = not (bit_and (get_or words (frame / 64) 0) (2 ^ (frame % 64)) == 0)

pub set_bit : List ℕ → ℕ → List ℕ
set_bit words frame =
    set words (frame / 64) (bit_or (get_or words (frame / 64) 0) (2 ^ (frame % 64)))

pub clear_bit : List ℕ → ℕ → List ℕ
clear_bit words frame =
    set words (frame / 64) (bit_and (get_or words (frame / 64) 0) (2 ^ 64 - 1 - 2 ^ (frame % 64)))

pub is_usable : BitmapPmm → ℕ → Bool
is_usable pmm frame = ltb frame max_frames && has_bit pmm.usable frame

-- An index past the array would stop the kernel: the callers test `is_usable` first.
pub is_allocated : BitmapPmm → ℕ → Bool
is_allocated pmm frame = has_bit pmm.allocated frame

pub mark_usable : BitmapPmm → ℕ → BitmapPmm
mark_usable pmm frame = if leb max_frames frame || is_usable pmm frame then pmm else record {
  usable = set_bit pmm.usable frame;
  allocated = clear_bit pmm.allocated frame;
  usable_frames = add64 pmm.usable_frames 1;
  free_frames = add64 pmm.free_frames 1;
  max_frame = max pmm.max_frame (add64 frame 1);
}

-- `for frame in first..first + rounds { self.mark_usable(frame) }`
pub mark_range : ℕ → ℕ → BitmapPmm → BitmapPmm
mark_range zero first pmm = pmm
mark_range (suc rounds) first pmm = mark_range rounds (first + 1) (mark_usable pmm first)

-- `u64::checked_add`
unfoldable pub checked_add : ℕ → ℕ → Option ℕ
checked_add a b = if ltb (a + b) u64_mod then some (a + b) else none

pub stats : BitmapPmm → PmmStats
stats pmm = record {
  usable_frames = pmm.usable_frames;
  free_frames = pmm.free_frames;
  max_frame = pmm.max_frame;
}

-- The frames of an entry, from its start, rounded up, to its end, cut off at 4 GiB.
pub mark_span : Option ℕ → Option ℕ → BitmapPmm → BitmapPmm
mark_span none end pmm = pmm
mark_span (some start) none pmm = pmm
mark_span (some start) (some end) pmm =
    let start = bit_and start (2 ^ 64 - 1 - (frame_size - 1)) in
    let end = min end max_physical_address in
    if leb end start
    then pmm
    else mark_range (end / frame_size - start / frame_size) (start / frame_size) pmm

-- What the code reads of an entry of the boot loader's memory map, whose type is the `limine`
-- crate's.
pub record EntryFields (Entry : Type 0) : Type 0 where
  pub base : Entry → ℕ
  pub length : Entry → ℕ
  pub is_usable_type : Entry → Bool

module _ {Entry : Type 0} (fields : EntryFields Entry) where
  -- One round of the loop over the entries.
  pub mark_entry : BitmapPmm → Entry → BitmapPmm
  mark_entry pmm entry =
      if not (fields.is_usable_type entry)
      then pmm
      else mark_span (checked_add (fields.base entry) (frame_size - 1))
          (checked_add (fields.base entry) (fields.length entry)) pmm

  pub mark_entries : BitmapPmm → List Entry → BitmapPmm
  mark_entries pmm [] = pmm
  mark_entries pmm (entry ∷ entries) = mark_entries (mark_entry pmm entry) entries

  -- `&mut self` is passed as the state, which comes back beside the result.
  pub initialize : BitmapPmm → List Entry → PmmStats × BitmapPmm
  initialize pmm entries =
      let pmm =
        mark_entries
          (record {
            usable = fill bitmap_words 0;
            allocated = fill bitmap_words (u64_mod - 1);
            usable_frames = 0;
            free_frames = 0;
            max_frame = 0;
          })
          entries in
      (stats pmm, pmm)

-- `for word_index in word_index..word_index + rounds`
pub allocate_from : ℕ → ℕ → BitmapPmm → Option PhysicalFrame × BitmapPmm
allocate_from zero word_index pmm = (none, pmm)
allocate_from (suc rounds) word_index pmm =
    let later = allocate_from rounds (word_index + 1) pmm in
    let taken = get_or pmm.allocated word_index 0 in
    let available = bit_and (get_or pmm.usable word_index 0) (2 ^ 64 - 1 - taken) in
    let bit = trailing_zeros available in
    if available == 0 then later else (
      some (record { number = word_index * 64 + bit }),
      record pmm {
        allocated = set pmm.allocated word_index (bit_or taken (2 ^ bit));
        free_frames = sub64 pmm.free_frames 1;
      },
    )

pub allocate : BitmapPmm → Option PhysicalFrame × BitmapPmm
allocate pmm = allocate_from bitmap_words 0 pmm

pub free : BitmapPmm → PhysicalFrame → Bool × BitmapPmm
free pmm frame =
    if not (is_usable pmm frame.number) || not (is_allocated pmm frame.number)
    then (false, pmm)
    else (
      true,
      record pmm {
        allocated = clear_bit pmm.allocated frame.number;
        free_frames = add64 pmm.free_frames 1;
      },
    )
