-- ===== src/Queue/Layout.antt =====
-- Where the values of a queue lie in its buffer. A counter runs without bound in the statements;
-- `head` and `tail` hold it modulo 2 ^ 64, and a slot's index is taken from that.
use cell.Base.{ℕ, suc, ◌+◌, ◌*◌, ◌/◌, ◌%◌, ◌^◌, ◌≤◌, ◌<◌, ◌≡◌, ◌≢◌, ◌⊎◌, inl, inr, arith}
use cell.Base.{Option, some, List, [], ◌∷◌, ◌++◌, ap, sym, ◌∙◌, length, get_elem?, set}
use cell.Base.{get_elem?-set_ne, u64_mod}
use native.Mathlib.Nat.{mod-eq_of_lt, div-add-mod', mul-add-mod_self_right, mul-le-mul_right}
use native.Mathlib.Decide.{dec_lt}

-- The index computed from a wrapped counter is the counter's own place in the ring if the
-- capacity divides 2 ^ 64, or as long as the counter has not wrapped.
abbrev pub IsUnwrapped : ℕ → ℕ → Type 0
IsUnwrapped cap k = (2 ^ 64 % cap ≡ 0) ⊎ (k < 2 ^ 64)

pub IsUnwrapped-le : (cap k j : ℕ) → IsUnwrapped cap k → j ≤ k → IsUnwrapped cap j
IsUnwrapped-le cap k j (inl divides) less = inl divides
IsUnwrapped-le cap k j (inr small) less = inr (omega arith)

pub wrapped_index : (cap k : ℕ) → IsUnwrapped cap k → k % u64_mod % cap ≡ k % cap
wrapped_index cap k (inr small) = ap (λ (t : ℕ). t % cap) (mod-eq_of_lt small)
wrapped_index cap k (inl divides) =
    sym (mul-add-mod_self_right (k / u64_mod * (u64_mod / cap)) cap (k % u64_mod))
    ∙ ap (λ (t : ℕ). t % cap) (grind (arith, div-add-mod' k u64_mod, rounds))
  where
    rounds : k / u64_mod * (u64_mod / cap * cap) ≡ k / u64_mod * u64_mod
    rounds = ap (λ (t : ℕ). k / u64_mod * t) (omega (arith, div-add-mod' u64_mod cap))

-- Two counters less than a round apart have different slots.
pub slots_differ : (cap k i j : ℕ) → i < j → j < cap → (k + j) % cap ≢ (k + i) % cap
slots_differ cap k i j h hj e = elim (dec_lt ((k + i) / cap) ((k + j) / cap)) [
  | yes up ↦
      omega (arith, div-add-mod' (k + i) cap, div-add-mod' (k + j) cap, mul-le-mul_right cap up)
  | no down ↦ omega (
    arith,
    div-add-mod' (k + i) cap,
    div-add-mod' (k + j) cap,
    mul-le-mul_right cap (not_up down),
  )
]
  where
    not_up : ¬ ((k + i) / cap < (k + j) / cap) → (k + j) / cap ≤ (k + i) / cap
    not_up n = omega arith

module _ {ℓ} {T : Type ℓ} (cap : ℕ) where
  -- The slots from the counter `k` on hold the items, in order.
  abbrev pub Stored : List (Option T) → ℕ → List T → Type ℓ
  Stored buf k [] = Unit
  Stored buf k (x ∷ xs) = (get_elem? buf (k % cap) ≡ some (some x)) × Stored buf (suc k) xs

  -- A write to a slot of none of the items changes none of them.
  pub Stored-set :
      (buf : List (Option T)) (k i : ℕ) (v : Option T) (items : List T)
      → ((j : ℕ) → j < length items → i ≢ (k + j) % cap)
      → Stored buf k items
      → Stored (set buf i v) k items
  Stored-set buf k i v [] away s = tt
  Stored-set buf k i v (x ∷ xs) away s = (
    get_elem?-set_ne buf v (λ e. away 0 (omega arith) (e ∙ ap (λ (t : ℕ). t % cap) (omega arith)))
        ∙ s.0,
    Stored-set buf (suc k) i v xs
        (λ j h e. away (suc j) (omega arith) (e ∙ ap (λ (t : ℕ). t % cap) (omega arith))) s.1,
  )

  -- A value written behind the items is the last of them.
  pub Stored-append :
      (buf : List (Option T)) (k : ℕ) (items : List T) (x : T)
      → Stored buf k items
      → get_elem? buf ((k + length items) % cap) ≡ some (some x)
      → Stored buf k (items ++ (x ∷ []))
  Stored-append buf k [] x s e = (ap (λ (t : ℕ). get_elem? buf (t % cap)) (omega arith) ∙ e, tt)
  Stored-append buf k (y ∷ ys) x s e = (
    s.0,
    Stored-append buf (suc k) ys x s.1 (ap (λ (t : ℕ). get_elem? buf (t % cap)) (omega arith) ∙ e),
  )
