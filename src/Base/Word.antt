-- ===== src/Base/Word.antt =====
-- Unsigned 64-bit arithmetic, with its wrap-around written out. `usize`, `u64`, `size_t` and
-- `uint64_t` all have this width on the targets of the program.
use Prim.Native.Nat.{ℕ, ◌+◌, ◌-◌, ◌*◌, ◌%◌, ◌^◌, ◌<◌}
use mathlib.Core.Path.{◌≡◌}
use native.Mathlib.Nat.{mod-eq_of_lt}

abbrev pub u64_mod : ℕ
u64_mod = 2 ^ 64

abbrev pub add64 : ℕ → ℕ → ℕ
add64 a b = (a + b) % u64_mod

-- `-` on ℕ stops at 0, so the modulus is added first.
abbrev pub sub64 : ℕ → ℕ → ℕ
sub64 a b = (a + u64_mod - b) % u64_mod

abbrev pub mul64 : ℕ → ℕ → ℕ
mul64 a b = a * b % u64_mod

pub mul64-eq_of_lt : (a b : ℕ) → a * b < u64_mod → mul64 a b ≡ a * b
mul64-eq_of_lt a b h = mod-eq_of_lt h
