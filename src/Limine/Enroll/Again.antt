-- ===== src/Limine/Enroll/Again.antt =====
-- Enrolling again with `enroll_config` of limine.c.
use cell.Base.{ℕ, zero, suc, ◌+◌, ◌<◌, ◌≡◌, refl, sym, ap, ◌∙◌, arith, Option, none, some, fun_ext}
use native.Mathlib.Decide.{ℕ_discrete, dec_lt, dec_le}
use cell.Limine.Tool.{patch}
use cell.Limine.Enroll.{
  sign_at, sign_length, search_loop, rounds, find_checksum, enroll_config, enrolled_at,
  checksum_or_zeros,
}
use cell.Limine.Enroll.Search.{search_restarts, search_ends, search_advances, search_none}

-- The search has read no byte from the place on that it finds.
search_loop-before :
    (left i n : ℕ) (f g : ℕ → ℕ) {loc : ℕ}
    → search_loop left i n f ≡ some loc
    → ((j : ℕ) → j < loc → g j ≡ f j)
    → (i < loc) × (search_loop left i n g ≡ some loc)
search_loop-before zero i n f g e same = absurd (cc (e, search_none i n f))
search_loop-before (suc left) i n f g {loc} e same = elim (ℕ_discrete (f i) (sign_at n)) [
  | no differs ↦
      let (below, next) =
        search_loop-before left (i + 1) 0 f g (sym (search_restarts left i n f differs) ∙ e) same in
      (
        omega arith,
        search_restarts left i n g (λ e'. differs (sym (same i (omega arith)) ∙ e')) ∙ next,
      )
  | yes here ↦ elim (ℕ_discrete (n + 1) sign_length) [
    | yes last ↦
        let at : i + 1 ≡ loc = cc (e, search_ends left i n f here last) in
        (omega arith, search_ends left i n g (same i (omega arith) ∙ here) last ∙ ap some at)
    | no more ↦
        let (below, next) =
          search_loop-before left (i + 1) (n + 1) f g
            (sym (search_advances left i n f here more) ∙ e) same in
        (omega arith, search_advances left i n g (same i (omega arith) ∙ here) more ∙ next)
  ]
]

patch-patch :
    (f : ℕ → ℕ) (loc n : ℕ) (a b : ℕ → ℕ) → patch (patch f loc n a) loc n b ≡ patch f loc n b
patch-patch f loc n a b = fun_ext (λ i. elim (dec_le loc i) [
  | yes low ↦ elim (dec_lt i (loc + n)) [ yes high ↦ ground arith | no high ↦ ground arith ]
  | no low ↦ ground arith
])

-- Where a checksum is enrolled in an executable, or reset, then to enroll a second, or reset it, gives
-- what enrolling the second alone gives, in every byte.
pub enroll_config-again :
    (bootloader_size : ℕ) (bootloader : ℕ → ℕ) (first second : Option (ℕ → ℕ)) {out : ℕ → ℕ}
    → enroll_config bootloader_size bootloader first ≡ some out
    → enroll_config bootloader_size out second ≡ enroll_config bootloader_size bootloader second
unfolding enroll_config find_checksum
enroll_config-again bootloader_size bootloader first second {out} e =
    go (find_checksum bootloader_size bootloader) refl e
  where
    left : ℕ
    left = rounds bootloader_size

    go :
        (found : Option ℕ)
        → find_checksum bootloader_size bootloader ≡ found
        → enrolled_at bootloader (checksum_or_zeros first) found ≡ some out
        → enroll_config bootloader_size out second ≡ enroll_config bootloader_size bootloader second
    go none f e = absurd (cc e)
    go (some loc) f e =
        let same : patch bootloader loc 128 (checksum_or_zeros first) ≡ out = cc e in
        let agrees : (j : ℕ) → j < loc → out j ≡ bootloader j =
          λ j h. ap (λ (o : ℕ → ℕ). o j) (sym same) ∙ ground arith in
        let (_, again) = search_loop-before left 0 0 bootloader out f agrees in
        ap (enrolled_at out (checksum_or_zeros second)) again
        ∙ ap some (
            ap (λ (o : ℕ → ℕ). patch o loc 128 (checksum_or_zeros second)) (sym same)
            ∙ patch-patch bootloader loc 128 (checksum_or_zeros first) (checksum_or_zeros second))
        ∙ sym (ap (enrolled_at bootloader (checksum_or_zeros second)) f)
