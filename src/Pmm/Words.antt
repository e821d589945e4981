-- ===== src/Pmm/Words.antt =====
-- The bitmaps of pmm.rs as sets of frames: what a test finds after a bit is set or cleared.
use cell.Base.{
  ℕ, zero, suc, ◌-◌, ◌/◌, ◌%◌, ◌^◌, ◌<◌, bit_and, bit_or, ◌≡◌, ◌≢◌, refl, sym, ap, ◌∙◌, arith, Bool,
  true, false, not, if◌then◌else◌, ◌==◌, List, [], ◌∷◌, length, get_or, set, replicate,
}
use cell.Base.Digits.{
  digit, no_bit_iff, digit-bit_or, digit-bit_and, digit-complement, pow-digit_self, pow-digit_ne,
}
use cell.Base.Digits.{pow-lt-pow}
use cell.Base.Div.{eq_of_div_mod}
use native.Mathlib.Decide.{ℕ_discrete}
use cell.Pmm.{has_bit, set_bit, clear_bit}

module _ {ℓ} {A : Type ℓ} where
  pub get_or-set_self :
      (xs : List A) (i : ℕ) (v d : A) → i < length xs → get_or (set xs i v) i d ≡ v
  get_or-set_self [] i v d h = elim h [ ]
  get_or-set_self (x ∷ xs) zero v d h = refl
  get_or-set_self (x ∷ xs) (suc i) v d h = get_or-set_self xs i v d (omega arith)

  pub get_or-set_ne :
      (xs : List A) (i j : ℕ) (v d : A) → i ≢ j → get_or (set xs i v) j d ≡ get_or xs j d
  get_or-set_ne [] i j v d h = refl
  get_or-set_ne (x ∷ xs) zero zero v d h = absurd (h refl)
  get_or-set_ne (x ∷ xs) zero (suc j) v d h = refl
  get_or-set_ne (x ∷ xs) (suc i) zero v d h = refl
  get_or-set_ne (x ∷ xs) (suc i) (suc j) v d h = get_or-set_ne xs i j v d (λ e. h (ap suc e))

  pub get_or-replicate : (n i : ℕ) (v d : A) → i < n → get_or (replicate n v) i d ≡ v
  get_or-replicate zero i v d h = elim h [ ]
  get_or-replicate (suc n) zero v d h = refl
  get_or-replicate (suc n) (suc i) v d h = get_or-replicate n i v d (omega arith)

-- The test, on the digit that it reads.
pub has_bit-digit :
    (words : List ℕ) (f : ℕ) → has_bit words f ≡ not (digit (get_or words (f / 64) 0) (f % 64) == 0)
unfolding has_bit
has_bit-digit words f = ap not (no_bit_iff (f % 64) (get_or words (f / 64) 0))

pub same_test : (f g : ℕ) → f ≡ g → (f == g) ≡ true
same_test f g e = ground arith

pub ne_test : (f g : ℕ) → f ≢ g → (f == g) ≡ false
ne_test f g e = ground arith

bit_mask : (f j : ℕ) → j < 64 → digit (2 ^ 64 - 1 - 2 ^ (f % 64)) j ≡ 1 - digit (2 ^ (f % 64)) j
bit_mask f j h = digit-complement 64 j (2 ^ (f % 64)) (pow-lt-pow (f % 64) 64 (omega arith)) h

module _ (words : List ℕ) (f g : ℕ) (inside : f / 64 < length words) where
  -- A write to one word, seen through the test, when it changes one digit.
  has_bit-write :
      (v : ℕ) (b : Bool)
      → not (digit v (f % 64) == 0) ≡ b
      → ((j : ℕ) → f % 64 ≢ j → j < 64 → digit v j ≡ digit (get_or words (f / 64) 0) j)
      → has_bit (set words (f / 64) v) g ≡ (if f == g then b else has_bit words g)
  has_bit-write v b here others = elim (ℕ_discrete (f / 64) (g / 64)) [
    | no other ↦
        has_bit-digit (set words (f / 64) v) g
        ∙ ap (λ (w : ℕ). not (digit w (g % 64) == 0))
            (get_or-set_ne words (f / 64) (g / 64) v 0 other)
        ∙ sym (has_bit-digit words g)
        ∙ rw (ne_test f g (λ e. other (ap (λ (t : ℕ). t / 64) e))) refl
    | yes word ↦
        has_bit-digit (set words (f / 64) v) g
        ∙ ap (λ (i : ℕ). not (digit (get_or (set words (f / 64) v) i 0) (g % 64) == 0)) (sym word)
        ∙ ap (λ (w : ℕ). not (digit w (g % 64) == 0)) (get_or-set_self words (f / 64) v 0 inside)
        ∙ elim (ℕ_discrete (f % 64) (g % 64)) [
          | yes place ↦
              ap (λ (k : ℕ). not (digit v k == 0)) (sym place)
              ∙ here
              ∙ rw (same_test f g (eq_of_div_mod f g 64 word place)) refl
          | no place ↦
              ap (λ (d : ℕ). not (d == 0)) (others (g % 64) place (omega arith))
              ∙ ap (λ (i : ℕ). not (digit (get_or words i 0) (g % 64) == 0)) word
              ∙ sym (has_bit-digit words g)
              ∙ rw (ne_test f g (λ e. place (ap (λ (t : ℕ). t % 64) e))) refl
        ]
  ]

  -- `words[f / 64] |= 1 << (f % 64)` puts `f` in the set, and nothing else.
  pub has_bit-set_bit : has_bit (set_bit words f) g ≡ (if f == g then true else has_bit words g)
  unfolding set_bit
  has_bit-set_bit =
      has_bit-write (bit_or (get_or words (f / 64) 0) (2 ^ (f % 64))) true
        (ground (
          arith,
          digit-bit_or (f % 64) (get_or words (f / 64) 0) (2 ^ (f % 64)),
          pow-digit_self (f % 64),
        ))
        (λ j ne below. omega (
          arith,
          digit-bit_or j (get_or words (f / 64) 0) (2 ^ (f % 64)),
          pow-digit_ne (f % 64) j ne,
        ))

  -- `words[f / 64] &= !(1 << (f % 64))` takes `f` out, and nothing else.
  pub has_bit-clear_bit :
      has_bit (clear_bit words f) g ≡ (if f == g then false else has_bit words g)
  unfolding clear_bit
  has_bit-clear_bit =
      has_bit-write (bit_and (get_or words (f / 64) 0) (2 ^ 64 - 1 - 2 ^ (f % 64))) false
        (ground (
          arith,
          digit-bit_and (f % 64) (get_or words (f / 64) 0) (2 ^ 64 - 1 - 2 ^ (f % 64)),
          bit_mask f (f % 64) (omega arith),
          pow-digit_self (f % 64),
        ))
        (λ j ne below. omega (
          arith,
          digit-bit_and j (get_or words (f / 64) 0) (2 ^ 64 - 1 - 2 ^ (f % 64)),
          bit_mask f j below,
          pow-digit_ne (f % 64) j ne,
        ))
