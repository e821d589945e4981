-- ===== src/Limine/Enroll/Search.antt =====
-- What the search of `enroll_config` finds.
use cell.Base.{
  subst, ◌^◌, ℕ, zero, suc, ◌+◌, ◌-◌, ◌≤◌, ◌<◌, ◌≡◌, ◌≢◌, refl, sym, ap, ◌∙◌, ◌⊎◌, inl, inr, arith,
  Option, none, some,
}
use native.Mathlib.Decide.{ℕ_discrete}
use cell.Limine.Tool.{patch}
use cell.Limine.Enroll.{
  sign_at, sign_length, search_loop, rounds, find_checksum, enroll_config, enrolled_at,
  checksum_or_zeros,
}

-- The `n` bytes before `at` are the first `n` of the signature.
abbrev pub IsMatched : (ℕ → ℕ) → ℕ → ℕ → Type 0
IsMatched bootloader n at = (j : ℕ) → j < n → bootloader (at - n + j) ≡ sign_at j

IsMatched-suc :
    (bootloader : ℕ → ℕ) (n i : ℕ)
    → n ≤ i
    → bootloader i ≡ sign_at n
    → IsMatched bootloader n i
    → IsMatched bootloader (n + 1) (i + 1)
IsMatched-suc bootloader n i fits here before j h = elim (ℕ_discrete j n) [
  | yes e ↦ ap bootloader {y = i} (omega arith) ∙ here ∙ ap sign_at (sym e)
  | no ne ↦ ap bootloader {y = i - n + j} (omega arith) ∙ before j (omega arith)
]

module _ (left i n : ℕ) (bootloader : ℕ → ℕ) where
  pub search_restarts :
      bootloader i ≢ sign_at n
      → search_loop (suc left) i n bootloader ≡ search_loop left (i + 1) 0 bootloader
  unfolding search_loop
  search_restarts differs = ground (arith, differs)

  pub search_ends :
      bootloader i ≡ sign_at n
      → n + 1 ≡ sign_length
      → search_loop (suc left) i n bootloader ≡ some (i + 1)
  unfolding search_loop
  search_ends same last = ground (arith, same, last)

  pub search_advances :
      bootloader i ≡ sign_at n
      → n + 1 ≢ sign_length
      → search_loop (suc left) i n bootloader ≡ search_loop left (i + 1) (n + 1) bootloader
  unfolding search_loop
  search_advances same more = ground (arith, same, more)

pub search_none : (i n : ℕ) (bootloader : ℕ → ℕ) → search_loop zero i n bootloader ≡ none
unfolding search_loop
search_none i n bootloader = refl

-- The place that the loop finds follows a whole signature, and was reached within its rounds.
search_loop_lem :
    (left i n : ℕ) (bootloader : ℕ → ℕ) {loc : ℕ}
    → n ≤ i
    → n < sign_length
    → IsMatched bootloader n i
    → search_loop left i n bootloader ≡ some loc
    → IsMatched bootloader sign_length loc × (sign_length ≤ loc) × (loc ≤ i + left)
search_loop_lem zero i n bootloader fits short before e =
    absurd (cc (e, search_none i n bootloader))
search_loop_lem (suc left) i n bootloader {loc} fits short before e =
    elim (ℕ_discrete (bootloader i) (sign_at n)) [
      | no differs ↦
          let e' : search_loop left (i + 1) 0 bootloader ≡ some loc =
            sym (search_restarts left i n bootloader differs) ∙ e in
          let (m, a, b) =
            search_loop_lem left (i + 1) 0 bootloader (omega arith) (omega arith)
              (λ j h. absurd (omega arith)) e' in
          (m, a, omega arith)
      | yes same ↦ elim (ℕ_discrete (n + 1) sign_length) [
        | yes last ↦
            let e' : i + 1 ≡ loc = cc (e, search_ends left i n bootloader same last) in
            let m = IsMatched-suc bootloader n i fits same before in
            (
              subst (λ (k : ℕ). IsMatched bootloader sign_length k) e'
                  (subst (λ (k : ℕ). IsMatched bootloader k (i + 1)) last m),
              omega arith,
              omega arith,
            )
        | no more ↦
            let e' : search_loop left (i + 1) (n + 1) bootloader ≡ some loc =
              sym (search_advances left i n bootloader same more) ∙ e in
            let (m, a, b) =
              search_loop_lem left (i + 1) (n + 1) bootloader (omega arith) (omega arith)
                (IsMatched-suc bootloader n i fits same before) e' in
            (m, a, omega arith)
      ]
    ]

-- `enroll_config` on an executable of at least 153 bytes: where it writes anything, the 128 bytes
-- that it writes follow a whole signature and lie within the executable, and every other byte is
-- written back as it was.
pub enroll_config_lem :
    (bootloader_size : ℕ) (bootloader : ℕ → ℕ) (b2sum : Option (ℕ → ℕ)) {out : ℕ → ℕ}
    → 153 ≤ bootloader_size
    → bootloader_size < 2 ^ 63
    → enroll_config bootloader_size bootloader b2sum ≡ some out
    → (loc : ℕ) × (find_checksum bootloader_size bootloader ≡ some loc)
      × IsMatched bootloader sign_length loc
      × (loc + 128 ≤ bootloader_size)
      × ((i : ℕ) → i < 128 → out (loc + i) ≡ checksum_or_zeros b2sum i)
      × ((i : ℕ) → (i < loc) ⊎ (loc + 128 ≤ i) → out i ≡ bootloader i)
unfolding enroll_config find_checksum rounds
enroll_config_lem bootloader_size bootloader b2sum {out} long short e =
    go (find_checksum bootloader_size bootloader) refl e
  where
    patched :
        (loc i : ℕ)
        → i < 128
        → patch bootloader loc 128 (checksum_or_zeros b2sum) (loc + i) ≡ checksum_or_zeros b2sum i
    patched loc i h =
        let place : loc + i - loc ≡ i = omega arith in
        ground (arith, ap (checksum_or_zeros b2sum) place)

    kept :
        (loc i : ℕ)
        → (i < loc) ⊎ (loc + 128 ≤ i)
        → patch bootloader loc 128 (checksum_or_zeros b2sum) i ≡ bootloader i
    kept loc i (inl low) = ground arith
    kept loc i (inr high) = ground arith

    go :
        (found : Option ℕ)
        → find_checksum bootloader_size bootloader ≡ found
        → enrolled_at bootloader (checksum_or_zeros b2sum) found ≡ some out
        → (loc : ℕ) × (find_checksum bootloader_size bootloader ≡ some loc)
          × IsMatched bootloader sign_length loc
          × (loc + 128 ≤ bootloader_size)
          × ((i : ℕ) → i < 128 → out (loc + i) ≡ checksum_or_zeros b2sum i)
          × ((i : ℕ) → (i < loc) ⊎ (loc + 128 ≤ i) → out i ≡ bootloader i)
    go none f e = absurd (cc e)
    go (some loc) f e =
        let (m, a, b) =
          search_loop_lem (rounds bootloader_size) 0 0 bootloader {loc = loc} (omega arith)
            (omega arith) (λ j h. absurd (omega arith)) f in
        let same : patch bootloader loc 128 (checksum_or_zeros b2sum) ≡ out = cc e in
        (
          loc,
          f,
          m,
          omega (arith, b),
          (λ i h. ap (λ (o : ℕ → ℕ). o (loc + i)) (sym same) ∙ patched loc i h),
          (λ i out_of. ap (λ (o : ℕ → ℕ). o i) (sym same) ∙ kept loc i out_of),
        )
