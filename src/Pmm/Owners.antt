-- ===== src/Pmm/Owners.antt =====
-- Calls of the allocator of pmm.rs in any order, beside the frames that it has handed out and not
-- got back.
use cell.Base.{
  ℕ, ◌+◌, ◌-◌, ◌<◌, ◌≡◌, sym, ap, ◌∙◌, subst, fun_ext, arith, true, false, not, ◌&&◌, if◌then◌else◌,
  ◌==◌, List, [], ◌∷◌, length, none, some,
}
use native.Mathlib.Decide.{ℕ_discrete}
use cell.Pmm.{
  BitmapPmm, bitmap_words, max_frames, PhysicalFrame, EntryFields, is_usable, is_allocated,
  allocate, free, initialize,
}
use cell.Pmm.Words.{ne_test}
use cell.Pmm.Count.{count_below}
use cell.Pmm.Valid.{IsValid, is_free}
use cell.Pmm.Release.{IsReleased, free_lem}
use cell.Pmm.Take.{IsTaken}
use cell.Pmm.Scan.{Scanned, allocate_lem}
use cell.Pmm.Boot.{initialize_lem}

-- The allocator and the frames that its callers own.
pub record World : Type 0 where
  pub pmm : BitmapPmm
  pub owned : List ℕ

abbrev pub occurrences : ℕ → List ℕ → ℕ
occurrences f [] = 0
occurrences f (g ∷ gs) = (if g == f then 1 else 0) + occurrences f gs

-- Without the first occurrence.
abbrev pub remove : ℕ → List ℕ → List ℕ
remove f [] = []
remove f (g ∷ gs) = if g == f then gs else g ∷ remove f gs

-- Each call is a step, whatever it answers; `free` may be called with any frame.
pub data Step (w w' : World) : Type 0 where
  granted :
      (f : PhysicalFrame)
      → allocate w.pmm ≡ (some f, w'.pmm)
      → w'.owned ≡ f.number ∷ w.owned
      → Step w w'
  exhausted : allocate w.pmm ≡ (none, w'.pmm) → w'.owned ≡ w.owned → Step w w'
  returned :
      (f : PhysicalFrame)
      → free w.pmm f ≡ (true, w'.pmm)
      → w'.owned ≡ remove f.number w.owned
      → Step w w'
  refused : (f : PhysicalFrame) → free w.pmm f ≡ (false, w'.pmm) → w'.owned ≡ w.owned → Step w w'

module _ {Entry : Type 0} (fields : EntryFields Entry) where
  -- The worlds that calls reach after `initialize` has read a memory map.
  pub data Reachable : World → Type 0 where
    booted :
        (pmm : BitmapPmm) (entries : List Entry)
        → Reachable (record { pmm = (initialize fields pmm entries).1; owned = [] })
    step : {w w' : World} → Reachable w → Step w w' → Reachable w'

-- A frame is owned once if it is usable and not free, and is not owned otherwise; and the counters
-- add up.
pub record IsAccounted (w : World) : Type 0 where
  pub valid : IsValid w.pmm
  pub owned_once :
      (f : ℕ)
      → occurrences f w.owned ≡ (if is_usable w.pmm f && not (is_free w.pmm f) then 1 else 0)
  pub balance : w.pmm.free_frames + length w.owned ≡ w.pmm.usable_frames

occurrences-remove :
    (f g : ℕ) (gs : List ℕ)
    → occurrences g (remove f gs) ≡ (if f == g then occurrences g gs - 1 else occurrences g gs)
occurrences-remove f g [] = ground arith
occurrences-remove f g (x ∷ gs) = ground (arith, occurrences-remove f g gs)

length-remove : (f : ℕ) (gs : List ℕ) → 0 < occurrences f gs → length (remove f gs) + 1 ≡ length gs
length-remove f [] h = absurd (omega arith)
length-remove f (x ∷ gs) h = ground (arith, length-remove f gs)

free_usable : (pmm : BitmapPmm) (g : ℕ) → is_free pmm g ≡ true → is_usable pmm g ≡ true
unfolding is_free
free_usable pmm g h = ground (arith, h)

-- The status of a frame that is not free, on its two tests.
abbrev taken_count : BitmapPmm → ℕ → ℕ
taken_count pmm f = if is_usable pmm f && not (is_free pmm f) then 1 else 0

granted-IsAccounted :
    {pmm pmm' : BitmapPmm} {from f : ℕ} (owned : List ℕ)
    → IsAccounted (record { pmm = pmm; owned = owned })
    → IsTaken from pmm pmm' f
    → IsAccounted (record { pmm = pmm'; owned = f ∷ owned })
granted-IsAccounted {pmm} {f} owned a t = record {
  valid = t.valid;
  owned_once = λ g. elim (ℕ_discrete f g) [
    | yes e ↦
        let was : is_free pmm g ≡ true = rw (← e) t.was_free in
        ground (arith, a.owned_once g, t.usable_kept g, t.now_free g, was, free_usable pmm g was, e)
    | no ne ↦ ground (arith, a.owned_once g, t.usable_kept g, t.now_free g, ne_test f g ne)
  ];
  balance = omega (arith, a.balance, t.one_less, t.usable_frames_kept);
}

returned-IsAccounted :
    {pmm pmm' : BitmapPmm} {f : ℕ} (owned : List ℕ)
    → IsAccounted (record { pmm = pmm; owned = owned })
    → is_usable pmm f ≡ true
    → is_free pmm f ≡ false
    → IsReleased pmm pmm' f
    → IsAccounted (record { pmm = pmm'; owned = remove f owned })
returned-IsAccounted {pmm} {f} owned a used held r = record {
  valid = r.valid;
  owned_once = λ g. elim (ℕ_discrete f g) [
    | yes e ↦
        let was : is_usable pmm g ≡ true = rw (← e) used in
        let not_free : is_free pmm g ≡ false = rw (← e) held in
        ground (
          arith,
          a.owned_once g,
          r.usable_kept g,
          r.now_free g,
          was,
          not_free,
          occurrences-remove f g owned,
          e,
        )
    | no ne ↦ ground (
      arith,
      a.owned_once g,
      r.usable_kept g,
      r.now_free g,
      ne_test f g ne,
      occurrences-remove f g owned,
    )
  ];
  balance =
      let one : 0 < occurrences f owned = ground (arith, a.owned_once f) in
      omega (arith, a.balance, r.one_more, r.usable_frames_kept, length-remove f owned one);
}

allocated_not_free :
    (pmm : BitmapPmm) (f : ℕ)
    → true ≡ (is_usable pmm f && is_allocated pmm f)
    → (is_usable pmm f ≡ true) × (is_free pmm f ≡ false)
unfolding is_free
allocated_not_free pmm f h = ground (arith, h)

same_world : {w w' : World} → w'.pmm ≡ w.pmm → w'.owned ≡ w.owned → IsAccounted w → IsAccounted w'
same_world {w} {w'} p o a =
    subst (λ m. IsAccounted (record { pmm = m; owned = w'.owned })) (sym p)
      (subst (λ l. IsAccounted (record { pmm = w.pmm; owned = l })) (sym o) a)

Step-IsAccounted : {w w' : World} → Step w w' → IsAccounted w → IsAccounted w'
Step-IsAccounted {w} {w'} (granted f e owned) a =
    let t : IsTaken 0 w.pmm w'.pmm f.number =
      subst (Scanned 0 bitmap_words w.pmm) e (allocate_lem w.pmm a.valid) in
    subst (λ l. IsAccounted (record { pmm = w'.pmm; owned = l })) (sym owned)
      (granted-IsAccounted w.owned a t)
Step-IsAccounted {w} {w'} (exhausted e owned) a =
    let t : Scanned 0 bitmap_words w.pmm (none, w'.pmm) =
      subst (Scanned 0 bitmap_words w.pmm) e (allocate_lem w.pmm a.valid) in
    same_world t.0 owned a
Step-IsAccounted {w} {w'} (returned f e owned) a =
    let (answer, kept, freed) = free_lem w.pmm f a.valid in
    let tests = allocated_not_free w.pmm f.number (sym (ap (λ r. r.0) e) ∙ answer) in
    let r : IsReleased w.pmm w'.pmm f.number =
      subst (λ p. IsReleased w.pmm p f.number) (ap (λ r. r.1) e) (freed (ap (λ r. r.0) e)) in
    subst (λ l. IsAccounted (record { pmm = w'.pmm; owned = l })) (sym owned)
      (returned-IsAccounted w.owned a tests.0 tests.1 r)
Step-IsAccounted {w} {w'} (refused f e owned) a =
    let (answer, kept, freed) = free_lem w.pmm f a.valid in
    same_world (sym (ap (λ r. r.1) e) ∙ kept (ap (λ r. r.0) e)) owned a

-- Nothing is owned before the first call, since every usable frame is free.
boot-IsAccounted :
    {Entry : Type 0} (fields : EntryFields Entry) (pmm : BitmapPmm) (entries : List Entry)
    → IsAccounted (record { pmm = (initialize fields pmm entries).1; owned = [] })
boot-IsAccounted fields pmm entries =
    let (valid, covered, all_free, counted, free_counted) = initialize_lem fields pmm entries in
    record {
      valid = valid;
      owned_once = λ f. ground (arith, all_free f);
      balance = omega (
        arith,
        valid.free_count ∙ ap (count_below max_frames) (fun_ext all_free) ∙ sym valid.usable_count,
      );
    }

-- Whatever calls of `allocate` and `free` follow `initialize`, each frame that has been handed out
-- and not got back is owned once, and no other is; the invariant of the bitmaps holds; and the free
-- frames and the owned ones together are the usable ones.
pub Reachable-IsAccounted :
    {Entry : Type 0} (fields : EntryFields Entry) {w : World} → Reachable fields w → IsAccounted w
Reachable-IsAccounted fields (booted pmm entries) = boot-IsAccounted fields pmm entries
Reachable-IsAccounted fields (step r s) = Step-IsAccounted s (Reachable-IsAccounted fields r)
