-- ===== src/Base/Digits.antt =====
-- Single binary digits: those of `&`, `|` and a complement, and the place of the lowest one.
use cell.Base.{
  ℕ, zero, suc, ◌+◌, ◌-◌, ◌*◌, ◌/◌, ◌%◌, ◌^◌, ◌<◌, min, max, bit_and, bit_or, ◌≡◌, ◌≢◌, refl, sym,
  ap, ◌∙◌, arith, if◌then◌else◌, ◌==◌,
}
use cell.Base.Bits.{bit_and_digit, bit_or_digit, bit_and_shift, bit_and-le, two_pow, zero-bit_or}
use native.Mathlib.Nat.{pow-suc, pow-succ', div-div-eq-div-mul, div-add-mod'}
use native.Mathlib.Decide.{dec_lt}

abbrev pub digit : ℕ → ℕ → ℕ
digit w k = w / 2 ^ k % 2

-- The digits above the last are those of the half.
half_pow : (k w : ℕ) → w / 2 ^ suc k ≡ w / 2 / 2 ^ k
half_pow k w = ap (◌/◌ w) (pow-succ' 2 k) ∙ sym (div-div-eq-div-mul w 2 (2 ^ k))

pub digit-suc : (k w : ℕ) → digit w (suc k) ≡ digit (w / 2) k
digit-suc k w = ap (λ (q : ℕ). q % 2) (half_pow k w)

pub digit-zero : (w : ℕ) → digit w zero ≡ w % 2
digit-zero w = omega arith

pub digit-bit_or : (k a b : ℕ) → digit (bit_or a b) k ≡ max (digit a k) (digit b k)
digit-bit_or zero a b = omega (arith, bit_or_digit a b)
digit-bit_or (suc k) a b =
    let half : bit_or a b / 2 ≡ bit_or (a / 2) (b / 2) = omega (arith, bit_or_digit a b) in
    digit-suc k (bit_or a b)
    ∙ ap (λ (w : ℕ). digit w k) half
    ∙ omega (arith, digit-bit_or k (a / 2) (b / 2), digit-suc k a, digit-suc k b)

pub digit-bit_and : (k a b : ℕ) → digit (bit_and a b) k ≡ min (digit a k) (digit b k)
digit-bit_and zero a b = omega (arith, bit_and_digit a b)
digit-bit_and (suc k) a b =
    let half : bit_and a b / 2 ≡ bit_and (a / 2) (b / 2) = omega (arith, bit_and_digit a b) in
    digit-suc k (bit_and a b)
    ∙ ap (λ (w : ℕ). digit w k) half
    ∙ omega (arith, digit-bit_and k (a / 2) (b / 2), digit-suc k a, digit-suc k b)

double_half : (k : ℕ) → 2 ^ suc k / 2 ≡ 2 ^ k
double_half k = omega (arith, pow-suc 2 k)

pub zero-digit : (k : ℕ) → digit 0 k ≡ 0
zero-digit zero = refl
zero-digit (suc k) = digit-suc k 0 ∙ zero-digit k

-- A power of two has one digit.
pub pow-digit_self : (k : ℕ) → digit (2 ^ k) k ≡ 1
pow-digit_self zero = refl
pow-digit_self (suc k) =
    digit-suc k (2 ^ suc k) ∙ ap (λ (w : ℕ). digit w k) (double_half k) ∙ pow-digit_self k

pub pow-digit_ne : (k j : ℕ) → k ≢ j → digit (2 ^ k) j ≡ 0
pow-digit_ne zero zero h = absurd (h refl)
pow-digit_ne zero (suc j) h = digit-suc j 1 ∙ zero-digit j
pow-digit_ne (suc k) zero h = omega (arith, pow-suc 2 k)
pow-digit_ne (suc k) (suc j) h =
    digit-suc j (2 ^ suc k)
    ∙ ap (λ (w : ℕ). digit w j) (double_half k)
    ∙ pow-digit_ne k j (λ e. h (ap suc e))

pub pow_pos : (k : ℕ) → 0 < 2 ^ k
pow_pos zero = omega arith
pow_pos (suc k) = omega (arith, pow-suc 2 k, pow_pos k)

-- The complement within `n` digits turns each of them over.
pub digit-complement : (n j w : ℕ) → w < 2 ^ n → j < n → digit (2 ^ n - 1 - w) j ≡ 1 - digit w j
digit-complement zero j w bound h = elim h [ ]
digit-complement (suc n) zero w bound h = omega (arith, pow-suc 2 n, pow_pos n)
digit-complement (suc n) (suc j) w bound h =
    let half : (2 ^ suc n - 1 - w) / 2 ≡ 2 ^ n - 1 - w / 2 =
      omega (arith, pow-suc 2 n, pow_pos n) in
    digit-suc j (2 ^ suc n - 1 - w)
    ∙ ap (λ (v : ℕ). digit v j) half
    ∙ omega (
      arith,
      digit-complement n j (w / 2) (omega (arith, pow-suc 2 n)) (omega arith),
      digit-suc j w,
    )

one-bit_and : (y : ℕ) → bit_and y 1 ≡ y % 2
one-bit_and y = omega (arith, bit_and_digit y 1, zero-right (y / 2))
  where
    zero-right : (x : ℕ) → bit_and x 0 ≡ 0
    zero-right x = omega (arith, bit_and-le x 0)

-- The test of one digit, `w & (1 << k)`.
pub bit_and_pow : (k w : ℕ) → bit_and w (2 ^ k) ≡ digit w k * 2 ^ k
bit_and_pow k w =
    let one : 1 * 2 ^ k ≡ 2 ^ k = omega arith in
    ap (bit_and w) (sym one)
    ∙ bit_and_shift k w 1
    ∙ ap (λ (d : ℕ). d * 2 ^ k) (one-bit_and (w / 2 ^ k))

pub no_bit_iff : (k w : ℕ) → (bit_and w (2 ^ k) == 0) ≡ (digit w k == 0)
no_bit_iff k w = elim (dec_lt 0 (digit w k)) [
  | yes h ↦
      let one : digit w k ≡ 1 = omega arith in rw (bit_and_pow k w, one) (ground (arith, pow_pos k))
  | no h ↦
      let none_set : digit w k ≡ 0 = omega arith in rw (bit_and_pow k w, none_set) (ground arith)
]

-- A mask of `k` ones keeps the remainder.
pub bit_and_ones : (k w : ℕ) → bit_and w (2 ^ k - 1) ≡ w % 2 ^ k
bit_and_ones zero w = omega (arith, bit_and-le w 0)
bit_and_ones (suc k) w =
    let half : (2 ^ suc k - 1) / 2 ≡ 2 ^ k - 1 = omega (arith, pow-suc 2 k, pow_pos k) in
    bit_and_digit w (2 ^ suc k - 1)
    ∙ omega (
      arith,
      pow-suc 2 k,
      pow_pos k,
      ap (bit_and (w / 2)) half,
      bit_and_ones k (w / 2),
      rem_double k w,
    )
  where
    rem_double : (j x : ℕ) → x % 2 ^ suc j ≡ x % 2 + 2 * (x / 2 % 2 ^ j)
    rem_double j x = omega (
      arith,
      div-add-mod' x (2 ^ suc j),
      div-add-mod' (x / 2) (2 ^ j),
      ap (λ (q : ℕ). q * 2 ^ suc j) (half_pow j x),
      two_pow j (x / 2 / 2 ^ j),
    )

-- The number of zeros below the lowest one, `u64::trailing_zeros`: 64 for no one at all.
pub trailing_zeros_from : ℕ → ℕ → ℕ
trailing_zeros_from zero w = 0
trailing_zeros_from (suc n) w =
    let above = suc (trailing_zeros_from n (w / 2)) in if w % 2 == 1 then 0 else above

unfoldable pub trailing_zeros : ℕ → ℕ
unfolding trailing_zeros_from
trailing_zeros w = trailing_zeros_from 64 w

higher :
    (w k : ℕ)
    → w % 2 ≡ 0
    → ((j : ℕ) → j < k → digit (w / 2) j ≡ 0)
    → (j : ℕ) → j < suc k
    → digit w j ≡ 0
higher w k even below zero h = omega arith
higher w k even below (suc j) h = digit-suc j w ∙ below j (omega arith)

-- It finds the lowest digit that is set.
trailing_zeros_from_lem :
    (n w : ℕ)
    → w ≢ 0
    → w < 2 ^ n
    → (trailing_zeros_from n w < n)
      × (digit w (trailing_zeros_from n w) ≡ 1)
      × ((j : ℕ) → j < trailing_zeros_from n w → digit w j ≡ 0)
unfolding trailing_zeros_from
trailing_zeros_from_lem zero w ne bound = absurd (ne (omega arith))
trailing_zeros_from_lem (suc n) w ne bound = elim (dec_lt 0 (w % 2)) [
  | yes odd ↦
      let one : w % 2 ≡ 1 = omega arith in
      rw one (omega arith, omega arith, λ j below. elim below [ ])
  | no even ↦
      let none_set : w % 2 ≡ 0 = omega arith in
      let (inside, set_there, below) =
        trailing_zeros_from_lem n (w / 2) (λ e. ne (omega arith)) (omega (arith, pow-suc 2 n)) in
      rw none_set (
        omega arith,
        digit-suc (trailing_zeros_from n (w / 2)) w ∙ set_there,
        higher w (trailing_zeros_from n (w / 2)) none_set below,
      )
]

pub trailing_zeros_lem :
    (w : ℕ)
    → w ≢ 0
    → w < 2 ^ 64
    → (trailing_zeros w < 64)
      × (digit w (trailing_zeros w) ≡ 1)
      × ((j : ℕ) → j < trailing_zeros w → digit w j ≡ 0)
unfolding trailing_zeros
trailing_zeros_lem w ne bound = trailing_zeros_from_lem 64 w ne bound

-- A word with no digit set is 0.
pub no_digits : (n w : ℕ) → w < 2 ^ n → ((j : ℕ) → j < n → digit w j ≡ 0) → w ≡ 0
no_digits zero w bound h = omega arith
no_digits (suc n) w bound h = omega (
  arith,
  h 0 (omega arith),
  no_digits n (w / 2) (omega (arith, pow-suc 2 n))
      (λ j below. sym (digit-suc j w) ∙ h (suc j) (omega arith)),
)

pub pow-lt-pow : (k n : ℕ) → k < n → 2 ^ k < 2 ^ n
pow-lt-pow k zero h = elim h [ ]
pow-lt-pow zero (suc n) h = omega (arith, pow-suc 2 n, pow_pos n)
pow-lt-pow (suc k) (suc n) h = omega (arith, pow-suc 2 n, pow-suc 2 k, pow-lt-pow k n (omega arith))

pub bit_or-lt : (n a b : ℕ) → a < 2 ^ n → b < 2 ^ n → bit_or a b < 2 ^ n
bit_or-lt zero a b p q =
    let none_left : a ≡ 0 = omega arith in rw none_left (omega (arith, zero-bit_or b))
bit_or-lt (suc n) a b p q = omega (
  arith,
  bit_or_digit a b,
  pow-suc 2 n,
  bit_or-lt n (a / 2) (b / 2) (omega (arith, pow-suc 2 n)) (omega (arith, pow-suc 2 n)),
)
