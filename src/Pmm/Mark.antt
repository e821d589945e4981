-- ===== src/Pmm/Mark.antt =====
-- `mark_usable` of pmm.rs and the state that it starts from: each frame that is marked is counted once.
use cell.Base.{
  ℕ, ◌+◌, ◌-◌, ◌<◌, max, ◌≡◌, ◌⊎◌, inl, inr, refl, ap, ◌∙◌, arith, true, false, ◌&&◌, ◌||◌,
  if◌then◌else◌, ◌==◌, ltb, leb, add64, Bool-cases, lt→ltb,
}
use native.Mathlib.Decide.{ℕ_discrete, dec_lt}
use cell.Pmm.{BitmapPmm, max_frames, is_usable, is_allocated, set_bit, clear_bit, mark_usable}
use cell.Pmm.Words.{same_test, ne_test}
use cell.Pmm.Count.{count_below, count-le, count_added}
use cell.Pmm.Valid.{IsValid, is_free, cleared, marked, set_bit-IsBitmap, clear_bit-IsBitmap}

-- Every usable frame is still free.
abbrev pub AllFree : BitmapPmm → Type 0
AllFree pmm = (g : ℕ) → is_free pmm g ≡ is_usable pmm g

abbrev pub joined : BitmapPmm → ℕ → BitmapPmm
joined pmm f = record {
  usable = set_bit pmm.usable f;
  allocated = clear_bit pmm.allocated f;
  usable_frames = add64 pmm.usable_frames 1;
  free_frames = add64 pmm.free_frames 1;
  max_frame = max pmm.max_frame (add64 f 1);
}

module _ {pmm : BitmapPmm} (v : IsValid pmm) (f : ℕ) (inside : f < max_frames)
    (unused : is_usable pmm f ≡ false) where
  now_usable : (g : ℕ) → is_usable (joined pmm f) g ≡ (if f == g then true else is_usable pmm g)
  unfolding is_usable
  now_usable g = elim (ℕ_discrete f g) [
    | yes e ↦
        let below : ltb g max_frames ≡ true = rw (← e) (lt→ltb f max_frames inside) in
        ground (arith, marked v f inside g, same_test f g e, below)
    | no ne ↦ ground (arith, marked v f inside g, ne_test f g ne)
  ]

  now_allocated :
      (g : ℕ) → is_allocated (joined pmm f) g ≡ (if f == g then false else is_allocated pmm g)
  unfolding is_allocated
  now_allocated g = cleared v f inside g

  now_free : (g : ℕ) → is_free (joined pmm f) g ≡ (if f == g then true else is_free pmm g)
  unfolding is_free
  now_free g = ground (arith, now_usable g, now_allocated g)

  was_not_free : is_free pmm f ≡ false
  unfolding is_free
  was_not_free = ground (arith, unused)

  counts_usable : count_below max_frames (is_usable (joined pmm f)) ≡ pmm.usable_frames + 1
  counts_usable = omega (
    arith,
    count_added max_frames f (is_usable pmm) (is_usable (joined pmm f)) inside unused
        (ground (arith, now_usable f, same_test f f refl))
        (λ g ne. ground (arith, now_usable g, ne_test f g ne)),
    v.usable_count,
  )

  counts_free : count_below max_frames (is_free (joined pmm f)) ≡ pmm.free_frames + 1
  counts_free = omega (
    arith,
    count_added max_frames f (is_free pmm) (is_free (joined pmm f)) inside was_not_free
        (ground (arith, now_free f, same_test f f refl))
        (λ g ne. ground (arith, now_free g, ne_test f g ne)),
    v.free_count,
  )

  kept_there :
      (g : ℕ)
      → g < max_frames
      → is_usable (joined pmm f) g ≡ false
      → is_allocated (joined pmm f) g ≡ true
  kept_there g below h = ground (arith, now_usable g, now_allocated g, v.kept g below)

  below_new : (g : ℕ) → is_usable (joined pmm f) g ≡ true → g < max pmm.max_frame (f + 1)
  below_new g h = elim (ℕ_discrete f g) [
    | yes e ↦ omega arith
    | no ne ↦
        let old : is_usable pmm g ≡ true = ground (arith, now_usable g, ne_test f g ne, h) in
        omega (arith, v.below_max g old)
  ]

  reached_new :
      (pmm.max_frame ≡ 0) ⊎ (is_usable pmm (pmm.max_frame - 1) ≡ true)
      → is_usable (joined pmm f) (max pmm.max_frame (f + 1) - 1) ≡ true
  reached_new r = elim (dec_lt f pmm.max_frame) [
    | no top ↦
        let e : max pmm.max_frame (f + 1) - 1 ≡ f = omega arith in
        rw e (ground (arith, now_usable f, same_test f f refl))
    | yes old ↦
        let e : max pmm.max_frame (f + 1) - 1 ≡ pmm.max_frame - 1 = omega arith in
        rw e (ground (arith, now_usable (pmm.max_frame - 1), r))
  ]

  pub joined-IsValid : IsValid (joined pmm f)
  joined-IsValid =
      let no_wrap : add64 f 1 ≡ f + 1 = omega arith in
      record {
        usable_map = set_bit-IsBitmap f v.usable_map inside;
        allocated_map = clear_bit-IsBitmap f v.allocated_map inside;
        kept = kept_there;
        usable_count = omega (arith, counts_usable, count-le max_frames (is_usable (joined pmm f)));
        free_count = omega (arith, counts_free, count-le max_frames (is_free (joined pmm f)));
        bound = omega (arith, v.bound);
        below_max = λ g h. omega (arith, below_new g h);
        reached = inr (
            ap (λ (n : ℕ). is_usable (joined pmm f) (max pmm.max_frame n - 1)) no_wrap
            ∙ reached_new v.reached);
      }

  pub joined-AllFree : AllFree pmm → AllFree (joined pmm f)
  joined-AllFree free g = ground (arith, now_usable g, now_free g, free g)

-- The frames that are usable after `mark_usable`, and that it keeps the invariant.
pub mark_usable_lem :
    (pmm : BitmapPmm) (f : ℕ)
    → IsValid pmm
    → AllFree pmm
    → IsValid (mark_usable pmm f)
      × AllFree (mark_usable pmm f)
      × ((g : ℕ)
          → is_usable (mark_usable pmm f) g ≡ (f == g) && ltb g max_frames || is_usable pmm g)
unfolding mark_usable
mark_usable_lem pmm f v free = elim (dec_lt f max_frames) [
  | no out ↦ rw (not_below out) (v, free, λ g. out_of_range g out)
  | yes inside ↦ rw (below_test inside) (elim (Bool-cases (is_usable pmm f)) [
    | inl used ↦ rw used (v, free, λ g. already g used)
    | inr unused ↦ rw unused (
      joined-IsValid v f inside unused,
      joined-AllFree v f inside unused free,
      λ g. now_usable v f inside unused g ∙ added g inside,
    )
  ])
]
  where
    not_below : ¬ (f < max_frames) → leb max_frames f ≡ true
    not_below h = ground arith

    below_test : f < max_frames → leb max_frames f ≡ false
    below_test h = ground arith

    out_of_range :
        (g : ℕ)
        → ¬ (f < max_frames)
        → is_usable pmm g ≡ ((f == g) && ltb g max_frames || is_usable pmm g)
    out_of_range g out = ground arith

    already :
        (g : ℕ)
        → is_usable pmm f ≡ true
        → is_usable pmm g ≡ ((f == g) && ltb g max_frames || is_usable pmm g)
    already g used = elim (ℕ_discrete f g) [
      | yes e ↦ let at : is_usable pmm g ≡ true = rw (← e) used in ground (arith, at)
      | no ne ↦ ground (arith, ne_test f g ne)
    ]

    added :
        (g : ℕ)
        → f < max_frames
        → (if f == g then true else is_usable pmm g)
          ≡ ((f == g) && ltb g max_frames || is_usable pmm g)
    added g inside = ground arith
