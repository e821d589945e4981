-- ===== src/Pmm/Cycle.antt =====
-- `allocate` and then `free` in pmm.rs, as the probe at boot in main.rs calls them.
use cell.Base.{
  ℕ, ◌+◌, ◌/◌, ◌%◌, ◌≤◌, ◌<◌, ◌≡◌, inl, inr, refl, ap, ◌∙◌, subst, arith, true, false, ◌&&◌, none,
  some, Option-cases,
}
use native.Mathlib.Decide.{ℕ_discrete}
use cell.Pmm.{
  BitmapPmm, PhysicalFrame, bitmap_words, max_frames, is_usable, is_allocated, allocate, free,
  from_address, address, frame_size,
}
use cell.Pmm.Words.{ne_test, same_test}
use cell.Pmm.Count.{count_none}
use cell.Pmm.Valid.{IsValid, is_free, usable-lt}
use cell.Pmm.Release.{IsReleased, free_lem}
use cell.Pmm.Take.{IsTaken, used}
use cell.Pmm.Scan.{Scanned, allocate_lem}

taken_tests :
    (pmm pmm' : BitmapPmm) (f : ℕ)
    → is_free pmm f ≡ true
    → is_free pmm' f ≡ false
    → is_usable pmm' f ≡ is_usable pmm f
    → (is_usable pmm' f && is_allocated pmm' f) ≡ true
unfolding is_free
taken_tests pmm pmm' f was now same = ground (arith, was, now, same)

-- The two states agree on every frame and in every counter.
pub record Agrees (pmm pmm' : BitmapPmm) : Type 0 where
  pub usable_same : (g : ℕ) → is_usable pmm' g ≡ is_usable pmm g
  pub free_same : (g : ℕ) → is_free pmm' g ≡ is_free pmm g
  pub usable_frames_same : pmm'.usable_frames ≡ pmm.usable_frames
  pub free_frames_same : pmm'.free_frames ≡ pmm.free_frames
  pub max_frame_same : pmm'.max_frame ≡ pmm.max_frame

pub Agrees-trans : {a b c : BitmapPmm} → Agrees a b → Agrees b c → Agrees a c
Agrees-trans p q = record {
  usable_same = λ g. q.usable_same g ∙ p.usable_same g;
  free_same = λ g. q.free_same g ∙ p.free_same g;
  usable_frames_same = q.usable_frames_same ∙ p.usable_frames_same;
  free_frames_same = q.free_frames_same ∙ p.free_frames_same;
  max_frame_same = q.max_frame_same ∙ p.max_frame_same;
}

taken_released :
    {pmm pmm' pmm'' : BitmapPmm} {f : ℕ}
    → IsTaken 0 pmm pmm' f
    → IsReleased pmm' pmm'' f
    → Agrees pmm pmm''
taken_released {f} t r = record {
  usable_same = λ g. r.usable_kept g ∙ t.usable_kept g;
  free_same = λ g. elim (ℕ_discrete f g) [
    | yes e ↦ ground (arith, r.now_free g, same_test f g e, ap (is_free _) e, t.was_free)
    | no ne ↦ ground (arith, r.now_free g, t.now_free g, ne_test f g ne)
  ];
  usable_frames_same = r.usable_frames_kept ∙ t.usable_frames_kept;
  free_frames_same = omega (arith, r.one_more, t.one_less);
  max_frame_same = r.max_frame_kept ∙ t.max_frame_kept;
}

-- A frame that `allocate` hands out in a valid state is taken back by `free`, and then every frame
-- has the status, and every counter the value, from before the two calls.
pub free-allocate :
    (pmm : BitmapPmm) (frame : PhysicalFrame)
    → IsValid pmm
    → (allocate pmm).0 ≡ some frame
    → let (answer, pmm'') = free (allocate pmm).1 frame in (answer ≡ true) × Agrees pmm pmm''
free-allocate pmm frame v e =
    let t : IsTaken 0 pmm (allocate pmm).1 frame.number =
      subst (λ o. Scanned 0 bitmap_words pmm (o, (allocate pmm).1)) e (allocate_lem pmm v) in
    let f = frame.number in
    let (answer, kept, freed) = free_lem (allocate pmm).1 frame t.valid in
    let yes_answer =
      answer
      ∙ taken_tests pmm (allocate pmm).1 f t.was_free
          (ground (arith, t.now_free f, same_test f f refl)) (t.usable_kept f) in
    (yes_answer, taken_released t (freed yes_answer))

not_free_beyond :
    (pmm : BitmapPmm)
    → ((g : ℕ) → 0 ≤ g / 64 → g / 64 < 0 + bitmap_words → is_free pmm g ≡ false)
    → (g : ℕ) → g < max_frames
    → is_free pmm g ≡ false
not_free_beyond pmm none_free g inside = none_free g (omega arith) (omega arith)

-- As long as the counter of a valid state says that a frame is free, `allocate` hands one out.
pub allocate-some :
    (pmm : BitmapPmm)
    → IsValid pmm
    → 0 < pmm.free_frames
    → (frame : PhysicalFrame) × ((allocate pmm).0 ≡ some frame)
allocate-some pmm v left = elim (Option-cases (allocate pmm).0) [
  | inr found ↦ found
  | inl nothing ↦
      let t : Scanned 0 bitmap_words pmm (none, (allocate pmm).1) =
        subst (λ o. Scanned 0 bitmap_words pmm (o, (allocate pmm).1)) nothing
          (allocate_lem pmm v) in
      absurd
        (omega (arith, v.free_count, count_none max_frames (is_free pmm) (not_free_beyond pmm t.1)))
]

-- A frame of the bitmaps is found again by its physical address, which is a multiple of its size.
pub from_address-address :
    (frame : PhysicalFrame)
    → frame.number < max_frames
    → (from_address (address frame) ≡ frame) × (address frame % frame_size ≡ 0)
unfolding from_address address
from_address-address frame h = (ap (λ (n : ℕ). record { number = n }) (omega arith), omega arith)

-- The state after the two calls is a valid one.
pub free-allocate-IsValid :
    (pmm : BitmapPmm) (frame : PhysicalFrame)
    → IsValid pmm
    → (allocate pmm).0 ≡ some frame
    → IsValid (free (allocate pmm).1 frame).1
free-allocate-IsValid pmm frame v e =
    let t : IsTaken 0 pmm (allocate pmm).1 frame.number =
      subst (λ o. Scanned 0 bitmap_words pmm (o, (allocate pmm).1)) e (allocate_lem pmm v) in
    ((free_lem (allocate pmm).1 frame t.valid).2 (free-allocate pmm frame v e).0).valid

-- A frame that has been handed out is below 4 GiB, usable and allocated, in a valid state.
pub allocate-held :
    (pmm : BitmapPmm) (frame : PhysicalFrame)
    → IsValid pmm
    → (allocate pmm).0 ≡ some frame
    → IsValid (allocate pmm).1
      × (frame.number < max_frames)
      × (is_usable (allocate pmm).1 frame.number ≡ true)
      × (is_allocated (allocate pmm).1 frame.number ≡ true)
allocate-held pmm frame v e =
    let t : IsTaken 0 pmm (allocate pmm).1 frame.number =
      subst (λ o. Scanned 0 bitmap_words pmm (o, (allocate pmm).1)) e (allocate_lem pmm v) in
    let f = frame.number in
    let was_used = used v f t.was_free in
    let tests =
      taken_tests pmm (allocate pmm).1 f t.was_free
        (ground (arith, t.now_free f, same_test f f refl)) (t.usable_kept f) in
    (
      t.valid,
      usable-lt pmm f was_used,
      t.usable_kept f ∙ was_used,
      ground (arith, tests, t.usable_kept f ∙ was_used),
    )

pub address-lt : (frame : PhysicalFrame) → frame.number < max_frames → address frame < 4294967296
unfolding address
address-lt frame h = omega arith

pub address-aligned : (frame : PhysicalFrame) → frame.number < max_frames → address frame % 4 ≡ 0
unfolding address
address-aligned frame h = omega arith
