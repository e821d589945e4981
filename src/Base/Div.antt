-- ===== src/Base/Div.antt =====
-- Division with remainder by a variable divisor: the arithmetic of blocks.
use Prim.Native.Nat.{ℕ, ◌+◌, ◌*◌, ◌/◌, ◌%◌, ◌-◌, ◌≤◌, ◌<◌}
use mathlib.Core.Path.{◌≡◌, ap, ◌∙◌}
use mathlib.Core.Logic.{◌↔◌}
use native.Mathlib.Nat.{mod-lt, div-add-mod', add-mul-div_right, add_comm, div-eq_of_lt}
use native.Mathlib.Omega.{arith}

pub div-eq : (q r b : ℕ) → r < b → (q * b + r) / b ≡ q
div-eq q r b h =
    rw (add_comm (q * b) r, add-mul-div_right r q {z = b} (omega arith), div-eq_of_lt h)
      (omega arith)

pub mod-eq : (q r b : ℕ) → r < b → (q * b + r) % b ≡ r
mod-eq q r b h = omega (arith, div-add-mod' (q * b + r) b, ap (λ (t : ℕ). t * b) (div-eq q r b h))

-- Within a block, only the offset moves.
pub div-add_within : (x j b : ℕ) → x % b + j < b → (x + j) / b ≡ x / b
div-add_within x j b h =
    ap (λ (t : ℕ). t / b) (omega (arith, div-add-mod' x b)) ∙ div-eq (x / b) (x % b + j) b h

pub mod-add_within : (x j b : ℕ) → x % b + j < b → (x + j) % b ≡ x % b + j
mod-add_within x j b h =
    ap (λ (t : ℕ). t % b) (omega (arith, div-add-mod' x b)) ∙ mod-eq (x / b) (x % b + j) b h

-- A number is determined by its block and its offset there.
pub eq_of_div_mod : (x y b : ℕ) → x / b ≡ y / b → x % b ≡ y % b → x ≡ y
eq_of_div_mod x y b p q = omega (arith, div-add-mod' x b, div-add-mod' y b, ap (λ (t : ℕ). t * b) p)

-- Block `q` is exactly the numbers from `q * b` to `q * b + b`.
pub div_eq_iff : (x q b : ℕ) → 0 < b → (x / b ≡ q) ↔ ((q * b ≤ x) × (x < q * b + b))
div_eq_iff x q b pos = (
  λ e. (
    omega (arith, div-add-mod' x b, ap (λ (t : ℕ). t * b) e),
    omega (arith, div-add-mod' x b, ap (λ (t : ℕ). t * b) e, mod-lt x pos),
  ),
  λ h. ap (λ (t : ℕ). t / b) (omega arith) ∙ div-eq q (x - q * b) b (omega arith),
)

-- Its offset there is its distance from the block's start.
pub sub-mul-eq_mod : (x q b : ℕ) → x / b ≡ q → x - q * b ≡ x % b
sub-mul-eq_mod x q b e = omega (arith, div-add-mod' x b, ap (λ (t : ℕ). t * b) e)
