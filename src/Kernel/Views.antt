-- ===== src/Kernel/Views.antt =====
-- A queue of the kernel as the list of its values, for the three capacities of main.rs, which divide
-- 2 ^ 64.
use cell.Base.{
  ℕ, zero, suc, ◌+◌, ◌-◌, ◌%◌, ◌^◌, ◌≤◌, ◌<◌, ◌≡◌, ◌≢◌, inl, refl, ap, ◌∙◌, subst, arith, none,
  some, List, [], ◌∷◌, ◌++◌, length,
}
use cell.Queue.{SpscQueue, returned, pushed, push, pop, publish}
use cell.Queue.Refine.{Holds, push_free, publish-Holds, pop_empty, pop_first, popped, popped-Holds}

-- `f first`, `f (first + 1)` and so on, `n` of them.
unfoldable pub segment {ℓ} : {A : Type ℓ} → (ℕ → A) → ℕ → ℕ → List A
segment f first zero = []
segment f first (suc n) = f first ∷ segment f (suc first) n

module _ {ℓ} {A : Type ℓ} (f : ℕ → A) where
  pub length-segment : (first n : ℕ) → length (segment f first n) ≡ n
  unfolding segment
  length-segment first zero = refl
  length-segment first (suc n) = ap suc (length-segment (suc first) n)

  pub segment-append :
      (first n : ℕ) → segment f first n ++ (f (first + n) ∷ []) ≡ segment f first (suc n)
  unfolding segment
  segment-append first zero = ap (λ (i : ℕ). f i ∷ []) (omega arith)
  segment-append first (suc n) =
      ap (λ l. f first ∷ l)
        (ap (λ (i : ℕ). segment f (suc first) n ++ (f i ∷ [])) {x = first + suc n}
            {y = suc first + n} (omega arith)
          ∙ segment-append (suc first) n)

module _ {T : Type 0} (cap : ℕ) (divides : 2 ^ 64 % cap ≡ 0) where
  -- A queue with room takes a value, as its last.
  pub push_room :
      {k : ℕ} {q : SpscQueue T} {items : List T} (x : T)
      → Holds cap k q items
      → length items < cap
      → (push cap q x ≡ (returned pushed, publish cap q x))
        × Holds cap k (publish cap q x) (items ++ (x ∷ []))
  push_room {items} x h room =
      let not_full : length items ≢ cap = λ e. omega arith in
      (push_free cap x h not_full, publish-Holds cap h x (inl divides) not_full)

  -- A queue with a value gives the oldest.
  pub pop-some :
      {k : ℕ} {q : SpscQueue T} {x : T} {items : List T}
      → Holds cap k q (x ∷ items)
      → (pop cap q ≡ (returned (some x), popped cap q)) × Holds cap (suc k) (popped cap q) items
  pop-some h = (pop_first cap (inl divides) h, popped-Holds cap (inl divides) h)

-- The values with the numbers above `gone`, up to `sent`: those below have been taken.
abbrev pub Carries : {T : Type 0} → (ℕ → T) → ℕ → SpscQueue T → ℕ → ℕ → Type 0
Carries f cap q gone sent = (gone ≤ sent) × Holds cap gone q (segment f (suc gone) (sent - gone))

module _ {T : Type 0} (f : ℕ → T) (cap : ℕ) (divides : 2 ^ 64 % cap ≡ 0) where
  pub push-Carries :
      {q : SpscQueue T} {gone sent : ℕ}
      → Carries f cap q gone sent
      → sent - gone < cap
      → (push cap q (f (suc sent)) ≡ (returned pushed, publish cap q (f (suc sent))))
        × Carries f cap (publish cap q (f (suc sent))) gone (suc sent)
  push-Carries {q} {gone} {sent} (le, h) room =
      let (done, h') =
        push_room cap divides (f (suc sent)) h
          (omega (arith, length-segment f (suc gone) (sent - gone))) in
      (
        done,
        (
          omega arith,
          subst (Holds cap gone _)
              (ap (λ (i : ℕ). segment f (suc gone) (sent - gone) ++ (f i ∷ [])) {x = suc sent}
                  {y = suc gone + (sent - gone)} (omega arith)
                ∙ segment-append f (suc gone) (sent - gone)
                ∙ ap (segment f (suc gone)) {y = suc sent - gone} (omega arith))
              h',
        ),
      )

  pub pop-Carries :
      {q : SpscQueue T} {gone sent : ℕ}
      → Carries f cap q gone sent
      → gone < sent
      → (pop cap q ≡ (returned (some (f (suc gone))), popped cap q))
        × Carries f cap (popped cap q) (suc gone) sent
  unfolding segment
  pop-Carries {q} {gone} {sent} (le, h) some_left =
      let h' : Holds cap gone q (f (suc gone) ∷ segment f (suc (suc gone)) (sent - suc gone)) =
        subst (Holds cap gone q)
          (ap (segment f (suc gone)) {x = sent - gone} {y = suc (sent - suc gone)} (omega arith))
          h in
      let (done, rest) = pop-some cap divides h' in (done, (omega arith, rest))

  pub empty-Carries :
      {q : SpscQueue T} {gone : ℕ} → Carries f cap q gone gone → pop cap q ≡ (returned none, q)
  unfolding segment
  empty-Carries {q} {gone} (le, h) = pop_empty cap (
      subst (Holds cap gone q) (ap (segment f (suc gone)) {x = gone - gone} {y = 0} (omega arith))
        h)
