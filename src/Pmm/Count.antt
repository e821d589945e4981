-- ===== src/Pmm/Count.antt =====
-- How many of the numbers below a bound are in a set: what the counters of pmm.rs stand for.
use cell.Base.{ℕ, zero, suc, ◌+◌, ◌≤◌, ◌<◌, ◌≡◌, ◌≢◌, refl, arith, Bool, true, false, if◌then◌else◌}
use native.Mathlib.Decide.{dec_lt}

pub count_below : ℕ → (ℕ → Bool) → ℕ
count_below zero p = 0
count_below (suc n) p = (if p n then 1 else 0) + count_below n p

pub count-le : (n : ℕ) (p : ℕ → Bool) → count_below n p ≤ n
unfolding count_below
count-le zero p = omega arith
count-le (suc n) p = ground (arith, count-le n p)

pub count_same :
    (n : ℕ) (p q : ℕ → Bool) → ((g : ℕ) → g < n → p g ≡ q g) → count_below n p ≡ count_below n q
unfolding count_below
count_same zero p q same = refl
count_same (suc n) p q same =
    ground (arith, count_same n p q (λ g h. same g (omega arith)), same n (omega arith))

pub count_none : (n : ℕ) (p : ℕ → Bool) → ((g : ℕ) → g < n → p g ≡ false) → count_below n p ≡ 0
unfolding count_below
count_none zero p h = refl
count_none (suc n) p h =
    ground (arith, count_none n p (λ g l. h g (omega arith)), h n (omega arith))

-- A set with one more element counts one more.
pub count_added :
    (n f : ℕ) (p q : ℕ → Bool)
    → f < n
    → p f ≡ false
    → q f ≡ true
    → ((g : ℕ) → f ≢ g → p g ≡ q g)
    → count_below n q ≡ count_below n p + 1
unfolding count_below
count_added zero f p q h absent present same = absurd (omega arith)
count_added (suc n) f p q h absent present same = elim (dec_lt f n) [
  | yes below ↦
      ground (arith, count_added n f p q below absent present same, same n (λ e. omega arith))
  | no last ↦
      let e : f ≡ n = omega arith in
      let rest = count_same n p q (λ g l. same g (λ k. omega arith)) in
      let gone : p n ≡ false = rw (← e) absent in
      let there : q n ≡ true = rw (← e) present in ground (arith, rest, gone, there)
]

-- A set with an element counts it.
pub count_pos : (n f : ℕ) (p : ℕ → Bool) → f < n → p f ≡ true → 0 < count_below n p
unfolding count_below
count_pos zero f p h there = absurd (omega arith)
count_pos (suc n) f p h there = elim (dec_lt f n) [
  | yes below ↦ ground (arith, count_pos n f p below there)
  | no last ↦
      let e : f ≡ n = omega arith in let at : p n ≡ true = rw (← e) there in ground (arith, at)
]
