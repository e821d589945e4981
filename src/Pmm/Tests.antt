-- ===== src/Pmm/Tests.antt =====
-- Runs of the allocator of pmm.rs on a small memory map, and the theorems at that map.
use cell.Base.{ℕ, ◌<◌, ◌≡◌, ◌↔◌, refl, ap, arith, Bool, true, false, ◌&&◌, some, List, [], ◌∷◌}
use cell.Base.Digits.{trailing_zeros}
use cell.Pmm.{
  BitmapPmm, PhysicalFrame, EntryFields, max_frames, bitmap_words, is_usable, is_allocated,
  allocate, free, initialize, new, fill, mark_entries, mark_entry, mark_span, checked_add,
  mark_range, mark_usable, has_bit, set_bit, clear_bit, allocate_from, stats,
}
use cell.Pmm.Count.{count_below}
use cell.Pmm.Valid.{IsValid}
use cell.Pmm.Mark.{AllFree}
use cell.Pmm.Release.{IsReleased, free_lem}
use cell.Pmm.Scan.{Scanned, allocate_lem}
use cell.Pmm.Boot.{IsCovered, initialize_lem}
use cell.Pmm.Owners.{Reachable, Step, IsAccounted, Reachable-IsAccounted}
use cell.Pmm.Cycle.{Agrees, free-allocate, allocate-some}

record Region : Type 0 where
  base : ℕ
  length : ℕ
  usable : Bool

abbrev region_fields : EntryFields Region
region_fields = record {
  base = λ r. r.base;
  length = λ r. r.length;
  is_usable_type = λ r. r.usable;
}

-- The first frame is cut at both ends, the second region is reserved.
abbrev map_of_two : List Region
map_of_two =
    record { base = 300_000; length = 20_000; usable = true }
    ∷ record { base = 0x80000; length = 0x4000; usable = false }
    ∷ []

abbrev booted_pmm : BitmapPmm
booted_pmm = (initialize region_fields new map_of_two).1

boot_stats :
    (initialize region_fields new map_of_two).0
    ≡ record { usable_frames = 4; free_frames = 4; max_frame = 78 }
unfolding initialize stats new fill mark_entries mark_entry mark_span checked_add mark_range
    mark_usable is_usable is_allocated has_bit set_bit clear_bit trailing_zeros allocate
    allocate_from free
boot_stats = refl

lowest_first : (allocate booted_pmm).0 ≡ some (record { number = 74 })
unfolding initialize stats new fill mark_entries mark_entry mark_span checked_add mark_range
    mark_usable is_usable is_allocated has_bit set_bit clear_bit trailing_zeros allocate
    allocate_from free
lowest_first = refl

-- Frame 74 goes back, and a second time it is refused; so is a frame that was never usable.
free_twice :
    (free (free (allocate booted_pmm).1 (record { number = 74 })).1 (record { number = 74 })).0
    ≡ false
unfolding initialize stats new fill mark_entries mark_entry mark_span checked_add mark_range
    mark_usable is_usable is_allocated has_bit set_bit clear_bit trailing_zeros allocate
    allocate_from free
free_twice = refl

free_reserved : (free booted_pmm (record { number = 128 })).0 ≡ false
unfolding initialize stats new fill mark_entries mark_entry mark_span checked_add mark_range
    mark_usable is_usable is_allocated has_bit set_bit clear_bit trailing_zeros allocate
    allocate_from free
free_reserved = refl

booted-IsValid : IsValid booted_pmm
booted-IsValid = (initialize_lem region_fields new map_of_two).0

allocate_lem_example : Scanned 0 bitmap_words booted_pmm (allocate booted_pmm)
allocate_lem_example = allocate_lem booted_pmm booted-IsValid

free_lem_example :
    ((free booted_pmm (record { number = 75 })).0
      ≡ (is_usable booted_pmm 75 && is_allocated booted_pmm 75))
    × ((free booted_pmm (record { number = 75 })).0 ≡ false
        → (free booted_pmm (record { number = 75 })).1 ≡ booted_pmm)
    × ((free booted_pmm (record { number = 75 })).0 ≡ true
        → IsReleased booted_pmm (free booted_pmm (record { number = 75 })).1 75)
free_lem_example = free_lem booted_pmm (record { number = 75 }) booted-IsValid

initialize_lem_example :
    let (found, pmm') = initialize region_fields new map_of_two in
    IsValid pmm'
    × ((g : ℕ) → (is_usable pmm' g ≡ true) ↔ IsCovered region_fields map_of_two g)
    × AllFree pmm'
    × (found.usable_frames ≡ count_below max_frames (is_usable pmm'))
    × (found.free_frames ≡ found.usable_frames)
initialize_lem_example = initialize_lem region_fields new map_of_two

granted_first : allocate booted_pmm ≡ (some (record { number = 74 }), (allocate booted_pmm).1)
granted_first = ap (λ o. (o, (allocate booted_pmm).1)) lowest_first

Reachable-IsAccounted_example :
    IsAccounted (record { pmm = (allocate booted_pmm).1; owned = 74 ∷ [] })
Reachable-IsAccounted_example = Reachable-IsAccounted region_fields (
    Reachable.step {w = record { pmm = booted_pmm; owned = [] }} (Reachable.booted new map_of_two)
      (Step.granted (record { number = 74 }) granted_first refl))

free-allocate_example :
    let (answer, pmm'') = free (allocate booted_pmm).1 (record { number = 74 }) in
    (answer ≡ true) × Agrees booted_pmm pmm''
free-allocate_example =
    free-allocate booted_pmm (record { number = 74 }) booted-IsValid lowest_first

some_free : 0 < booted_pmm.free_frames
unfolding initialize stats new fill mark_entries mark_entry mark_span checked_add mark_range
    mark_usable is_usable is_allocated has_bit set_bit clear_bit trailing_zeros allocate
    allocate_from free
some_free = omega arith

allocate-some_example : (frame : PhysicalFrame) × ((allocate booted_pmm).0 ≡ some frame)
allocate-some_example = allocate-some booted_pmm booted-IsValid some_free
