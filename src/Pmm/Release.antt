-- ===== src/Pmm/Release.antt =====
-- `free` of pmm.rs: which frames it takes back, and what it leaves.
use cell.Base.{inl, inr, ◌-◌}
use cell.Base.{
  ℕ, ◌+◌, ◌<◌, ◌≡◌, ◌≢◌, refl, sym, ap, ◌∙◌, arith, true, false, ◌&&◌, if◌then◌else◌, ◌==◌, add64,
  Bool-cases,
}
use cell.Pmm.{BitmapPmm, PhysicalFrame, max_frames, is_usable, is_allocated, clear_bit, free}
use native.Mathlib.Decide.{ℕ_discrete}
use cell.Pmm.Words.{same_test, ne_test}
use cell.Pmm.Count.{count_below, count-le, count_same, count_added}
use cell.Pmm.Valid.{IsValid, is_free, usable-lt, cleared, clear_bit-IsBitmap}

-- `f` has become free, and nothing else has changed.
pub record IsReleased (pmm pmm' : BitmapPmm) (f : ℕ) : Type 0 where
  pub valid : IsValid pmm'
  pub usable_kept : (g : ℕ) → is_usable pmm' g ≡ is_usable pmm g
  pub now_free : (g : ℕ) → is_free pmm' g ≡ (if f == g then true else is_free pmm g)
  pub one_more : pmm'.free_frames ≡ pmm.free_frames + 1
  pub usable_frames_kept : pmm'.usable_frames ≡ pmm.usable_frames
  pub max_frame_kept : pmm'.max_frame ≡ pmm.max_frame

module _ {pmm : BitmapPmm} (v : IsValid pmm) (f : ℕ) (used : is_usable pmm f ≡ true)
    (held : is_allocated pmm f ≡ true) where
  abbrev pub released : BitmapPmm
  released = record pmm {
    allocated = clear_bit pmm.allocated f;
    free_frames = add64 pmm.free_frames 1;
  }

  now_allocated : (g : ℕ) → is_allocated released g ≡ (if f == g then false else is_allocated pmm g)
  unfolding is_allocated
  now_allocated g = cleared v f (usable-lt pmm f used) g

  kept_there : (g : ℕ) → g < max_frames → is_usable pmm g ≡ false → is_allocated released g ≡ true
  kept_there g inside unused = elim (ℕ_discrete f g) [
    | yes e ↦ absurd (cc (used, unused, ap (is_usable pmm) e))
    | no ne ↦ ground (arith, now_allocated g, ne_test f g ne, v.kept g inside unused)
  ]

  usable_same : (g : ℕ) → is_usable released g ≡ is_usable pmm g
  unfolding is_usable
  usable_same g = refl

  frees : (g : ℕ) → is_free released g ≡ (if f == g then true else is_free pmm g)
  unfolding is_free
  frees g = elim (ℕ_discrete f g) [
    | yes e ↦
        let at : is_usable pmm g ≡ true = rw (← e) used in
        ground (arith, usable_same g, now_allocated g, at, same_test f g e)
    | no ne ↦ ground (arith, usable_same g, now_allocated g, ne_test f g ne)
  ]

  absent : is_free pmm f ≡ false
  unfolding is_free
  absent = ground (arith, held)

  frees_ne : (g : ℕ) → f ≢ g → is_free pmm g ≡ is_free released g
  frees_ne g ne = ground (arith, frees g, ne_test f g ne)

  counts_more : count_below max_frames (is_free released) ≡ pmm.free_frames + 1
  counts_more = omega (
    arith,
    count_added max_frames f (is_free pmm) (is_free released) (usable-lt pmm f used) absent
        (ground (arith, frees f, same_test f f refl)) frees_ne,
    v.free_count,
  )

  one_more_there : add64 pmm.free_frames 1 ≡ pmm.free_frames + 1
  one_more_there = omega (arith, counts_more, count-le max_frames (is_free released))

  pub released-IsReleased : IsReleased pmm released f
  released-IsReleased = record {
    valid = record {
      usable_map = v.usable_map;
      allocated_map = clear_bit-IsBitmap f v.allocated_map (usable-lt pmm f used);
      kept = λ g inside unused. kept_there g inside (sym (usable_same g) ∙ unused);
      usable_count = v.usable_count ∙ count_same max_frames _ _ (λ g below. sym (usable_same g));
      free_count = one_more_there ∙ sym counts_more;
      bound = v.bound;
      below_max = λ g u. v.below_max g (sym (usable_same g) ∙ u);
      reached = elim v.reached [
        | inl none_yet ↦ inl none_yet
        | inr last ↦ inr (usable_same (pmm.max_frame - 1) ∙ last)
      ];
    };
    usable_kept = usable_same;
    now_free = frees;
    one_more = one_more_there;
    usable_frames_kept = refl;
    max_frame_kept = refl;
  }

-- What `free` answers, and what it leaves, on both branches.
pub free_lem :
    (pmm : BitmapPmm) (frame : PhysicalFrame)
    → IsValid pmm
    → ((free pmm frame).0 ≡ is_usable pmm frame.number && is_allocated pmm frame.number)
      × ((free pmm frame).0 ≡ false → (free pmm frame).1 ≡ pmm)
      × ((free pmm frame).0 ≡ true → IsReleased pmm (free pmm frame).1 frame.number)
unfolding free
free_lem pmm frame v = elim (Bool-cases (is_usable pmm frame.number)) [
  | inr unused ↦ rw unused (refl, λ e. refl, λ e. absurd (cc (e)))
  | inl used ↦ elim (Bool-cases (is_allocated pmm frame.number)) [
    | inr there ↦ rw (used, there) (refl, λ e. refl, λ e. absurd (cc (e)))
    | inl held ↦
        rw (used, held)
          (refl, λ e. absurd (cc (e)), λ e. released-IsReleased v frame.number used held)
  ]
]
