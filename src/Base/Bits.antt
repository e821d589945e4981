-- ===== src/Base/Bits.antt =====
-- The bit operations of C at variables: a mask is a remainder, and a disjoint `|` is a sum.
use cell.Base.{
  ℕ, zero, suc, ◌+◌, ◌*◌, ◌/◌, ◌%◌, ◌^◌, ◌≤◌, ◌<◌, min, max, ◌≡◌, refl, sym, ap, ◌∙◌, arith,
}
use native.Mathlib.Nat.{pow-suc, pow-succ', div-div-eq-div-mul}
use Prim.Native.Nat.{bit_and, bit_or, digits, bit_and-bitwise, bit_or-bitwise}

module _ (rest : ℕ → ℕ) (join : ℕ → ℕ → ℕ) where
  -- The fuel of the native definition does not matter, once it is no less than the number.
  enough_fuel :
      (fuel more x y : ℕ)
      → x ≤ fuel
      → x ≤ more
      → digits rest join fuel x y ≡ digits rest join more x y
  enough_fuel zero zero x y small small' = refl
  enough_fuel (suc fuel) (suc more) zero y small small' = refl
  enough_fuel (suc fuel) (suc more) (suc x) y small small' =
      ap (λ (high : ℕ). high * 2 + join (suc x % 2) (y % 2))
        (enough_fuel fuel more (suc x / 2) (y / 2) (omega arith) (omega arith))
  enough_fuel zero (suc more) zero y small small' = refl
  enough_fuel (suc fuel) zero zero y small small' = refl
  enough_fuel zero (suc more) (suc x) y small small' = absurd (omega arith)
  enough_fuel (suc fuel) zero (suc x) y small small' = absurd (omega arith)

pub zero-bit_or : (y : ℕ) → bit_or 0 y ≡ y
zero-bit_or y = bit_or-bitwise 0 y

none-bit_and : (y : ℕ) → bit_and 0 y ≡ 0
none-bit_and y = bit_and-bitwise 0 y

-- The last binary digit on its own.
pub bit_or_digit : (x y : ℕ) → bit_or x y ≡ max (x % 2) (y % 2) + 2 * bit_or (x / 2) (y / 2)
bit_or_digit zero y = omega (arith, zero-bit_or (y / 2), zero-bit_or y)
bit_or_digit (suc x) y =
    let halves = bit_or-bitwise (suc x / 2) (y / 2) in
    let same =
      enough_fuel (λ d. d) max (suc x / 2) x (suc x / 2) (y / 2) (omega arith) (omega arith) in
    omega (arith, same, halves, bit_or-bitwise (suc x) y)

pub bit_and_digit : (x y : ℕ) → bit_and x y ≡ min (x % 2) (y % 2) + 2 * bit_and (x / 2) (y / 2)
bit_and_digit zero y = omega (arith, none-bit_and (y / 2), none-bit_and y)
bit_and_digit (suc x) y =
    let halves = bit_and-bitwise (suc x / 2) (y / 2) in
    let same =
      enough_fuel (λ d. zero) min (suc x / 2) x (suc x / 2) (y / 2) (omega arith) (omega arith) in
    omega (arith, same, halves, bit_and-bitwise (suc x) y)

bit_and-none_below : (bound x : ℕ) → x ≤ bound → bit_and x 0 ≡ 0
bit_and-none_below bound zero small = none-bit_and 0
bit_and-none_below (suc bound) (suc x) small =
    omega (arith, bit_and-none_below bound (suc x / 2) (omega arith), bit_and_digit (suc x) 0)
bit_and-none_below zero (suc x) small = absurd (omega arith)

-- Masks of two, six and eight ones.
pub bit_and_3 : (x : ℕ) → bit_and x 3 ≡ x % 4
bit_and_3 x = omega (
  arith,
  bit_and-none_below (x / 2 / 2) (x / 2 / 2) (omega arith),
  bit_and_digit (x / 2) 1,
  bit_and_digit x 3,
)

pub bit_and_63 : (x : ℕ) → bit_and x 63 ≡ x % 64
bit_and_63 x = omega (
  arith,
  bit_and_3 (x / 2 / 2 / 2 / 2),
  bit_and_digit (x / 2 / 2 / 2) 7,
  bit_and_digit (x / 2 / 2) 15,
  bit_and_digit (x / 2) 31,
  bit_and_digit x 63,
)

pub bit_and_255 : (x : ℕ) → bit_and x 255 ≡ x % 256
bit_and_255 x =
    omega (arith, bit_and_63 (x / 2 / 2), bit_and_digit (x / 2) 127, bit_and_digit x 255)

bit_and_double : (a c : ℕ) → bit_and a (c * 2) ≡ bit_and (a / 2) c * 2
bit_and_double a c =
    let half : c * 2 / 2 ≡ c = omega arith in
    omega (arith, bit_and_digit a (c * 2), ap (bit_and (a / 2)) half)

bit_or_double : (a c : ℕ) → bit_or a (c * 2) ≡ bit_or (a / 2) c * 2 + a % 2
bit_or_double a c =
    let half : c * 2 / 2 ≡ c = omega arith in
    omega (arith, bit_or_digit a (c * 2), ap (bit_or (a / 2)) half)

pub two_pow : (k c : ℕ) → c * 2 ^ suc k ≡ c * 2 ^ k * 2
two_pow k c = ap (◌*◌ c) (pow-suc 2 k) ∙ omega arith

-- A mask that begins `k` bits up.
pub bit_and_shift : (k a b : ℕ) → bit_and a (b * 2 ^ k) ≡ bit_and (a / 2 ^ k) b * 2 ^ k
bit_and_shift zero a b =
    let l : b * 1 ≡ b = omega arith in let r : a / 1 ≡ a = omega arith in rw (l, r) (omega arith)
bit_and_shift (suc k) a b =
    let quotient : a / 2 / 2 ^ k ≡ a / 2 ^ suc k =
      div-div-eq-div-mul a 2 (2 ^ k) ∙ ap (◌/◌ a) (sym (pow-succ' 2 k)) in
    ap (bit_and a) (two_pow k b)
    ∙ bit_and_double a (b * 2 ^ k)
    ∙ ap (λ (x : ℕ). x * 2) (bit_and_shift k (a / 2) b)
    ∙ ap (λ (q : ℕ). bit_and q b * 2 ^ k * 2) quotient
    ∙ sym (two_pow k (bit_and (a / 2 ^ suc k) b))

-- What ends below bit `k` and what begins there do not overlap.
pub bit_or_shift : (k a b : ℕ) → a < 2 ^ k → bit_or a (b * 2 ^ k) ≡ a + b * 2 ^ k
bit_or_shift zero a b h =
    let none_below : a ≡ 0 = omega arith in rw none_below (omega (arith, zero-bit_or (b * 1)))
bit_or_shift (suc k) a b h =
    ap (bit_or a) (two_pow k b)
    ∙ bit_or_double a (b * 2 ^ k)
    ∙ ap (λ (x : ℕ). x * 2 + a % 2) (bit_or_shift k (a / 2) b (omega (arith, two_pow k 1)))
    ∙ omega (arith, two_pow k b)

bit_or_comm_fuel : (n a b : ℕ) → a ≤ n → b ≤ n → bit_or a b ≡ bit_or b a
bit_or_comm_fuel zero a b p q = let e : a ≡ b = omega arith in rw e refl
bit_or_comm_fuel (suc n) a b p q = omega (
  arith,
  bit_or_digit a b,
  bit_or_digit b a,
  bit_or_comm_fuel n (a / 2) (b / 2) (omega arith) (omega arith),
)

pub bit_or_comm : (a b : ℕ) → bit_or a b ≡ bit_or b a
bit_or_comm a b = bit_or_comm_fuel (a + b) a b (omega arith) (omega arith)

bit_and-le_below : (bound x y : ℕ) → x ≤ bound → bit_and x y ≤ y
bit_and-le_below bound zero y small = omega (arith, none-bit_and y)
bit_and-le_below (suc bound) (suc x) y small =
    omega (arith, bit_and_digit (suc x) y, bit_and-le_below bound (suc x / 2) (y / 2) (omega arith))
bit_and-le_below zero (suc x) y small = absurd (omega arith)

-- A mask bounds the result.
pub bit_and-le : (x y : ℕ) → bit_and x y ≤ y
bit_and-le x y = bit_and-le_below x x y (omega arith)
