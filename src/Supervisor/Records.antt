-- ===== src/Supervisor/Records.antt =====
-- What the supervisor keeps of a run: the failures, in order, as far as its capacity goes.
use cell.Base.{
  ℕ, zero, suc, ◌-◌, ◌≤◌, ◌<◌, min, ◌≡◌, refl, sym, ap, ◌∙◌, arith, ◌==◌, if◌then◌else◌,
}
use cell.Base.{
  Option, none, some, List, [], ◌∷◌, ◌++◌, map, length, length-append, set, take, replicate,
}
use cell.Base.{subst, length-take, lt→ltb}
use mathlib.Core.Path.{ap₂}
use mathlib.Core.List.{append-nil, append_assoc}
use native.Mathlib.Decide.{dec_lt}
use cell.Core.{WorkResult, completed, failed}
use cell.Supervisor.{
  FailureRecord, Supervisor, new, keep, observe, failure_count, find_record, find_trace,
}

-- The failures among the results, in order.
abbrev pub failures : List WorkResult → List FailureRecord
failures [] = []
failures (completed context ∷ rs) = failures rs
failures (failed context node_id reason ∷ rs) =
    record { context = context; node_id = node_id; reason = reason } ∷ failures rs

-- The first of the records with the trace.
abbrev pub first_with : ℕ → List FailureRecord → Option FailureRecord
first_with trace_id [] = none
first_with trace_id (r ∷ rs) =
    if r.context.trace_id == trace_id then some r else first_with trace_id rs

take-all {ℓ} : {A : Type ℓ} (n : ℕ) (xs : List A) → length xs ≤ n → take n xs ≡ xs
take-all zero [] h = refl
take-all zero (x ∷ xs) h = absurd (omega arith)
take-all (suc n) [] h = refl
take-all (suc n) (x ∷ xs) h = ap (λ l. x ∷ l) (take-all n xs (omega arith))

take-append_le {ℓ} :
    {A : Type ℓ} (n : ℕ) (xs ys : List A) → n ≤ length xs → take n (xs ++ ys) ≡ take n xs
take-append_le zero xs ys h = refl
take-append_le (suc n) [] ys h = absurd (omega arith)
take-append_le (suc n) (x ∷ xs) ys h = ap (λ l. x ∷ l) (take-append_le n xs ys (omega arith))

module _ (cap : ℕ) where
  -- `observe` on each of the results in turn.
  unfoldable pub observe_all : Supervisor → List WorkResult → Supervisor
  observe_all s [] = s
  observe_all s (r ∷ rs) = observe_all (observe cap s r).1 rs

  -- The supervisor has kept these records, and the other slots are free.
  record Keeps (s : Supervisor) (kept : List FailureRecord) : Type 0 where
    number : s.len ≡ length kept
    fits : length kept ≤ cap
    slots : s.records ≡ map some kept ++ replicate (cap - length kept) none

  set_next :
      (kept : List FailureRecord) (n : ℕ) (r : FailureRecord)
      → set (map some kept ++ replicate (suc n) none) (length kept) (some r)
        ≡ map some (kept ++ (r ∷ [])) ++ replicate n none
  set_next [] n r = refl
  set_next (k ∷ kept) n r = ap (λ l. some k ∷ l) (set_next kept n r)

  find-map :
      (trace_id : ℕ) (kept : List FailureRecord) (free : List (Option FailureRecord))
      → find_record trace_id (take (length kept) (map some kept ++ free)) ≡ first_with trace_id kept
  unfolding find_record
  find-map trace_id [] free = refl
  find-map trace_id (r ∷ kept) free =
      ap (λ o. if r.context.trace_id == trace_id then some r else o) (find-map trace_id kept free)

  keep_room :
      {s : Supervisor} {kept : List FailureRecord} (r : FailureRecord)
      → length kept < cap
      → Keeps s kept
      → Keeps (keep cap s r) (kept ++ (r ∷ []))
  keep_room {s} {kept} r room k = rw (lt→ltb s.len cap (omega (arith, k.number))) (record {
    number = omega (arith, k.number, length-append kept (r ∷ []));
    fits = omega (arith, length-append kept (r ∷ []));
    slots =
        ap₂ (λ l n. set l n (some r))
          (k.slots
            ∙ ap (λ (n : ℕ). map some kept ++ replicate n none) {y = suc (cap - length kept - 1)}
                (omega arith))
          k.number
        ∙ set_next kept (cap - length kept - 1) r
        ∙ ap (λ (n : ℕ). map some (kept ++ (r ∷ [])) ++ replicate n none)
            (omega (arith, length-append kept (r ∷ [])));
  })

  keep_full :
      {s : Supervisor} {kept : List FailureRecord} (r : FailureRecord)
      → cap ≤ length kept
      → Keeps s kept
      → keep cap s r ≡ s
  keep_full {s} r full k = ground (arith, k.number)

  observe_all-Keeps :
      (rs : List WorkResult) (s : Supervisor) (kept : List FailureRecord)
      → Keeps s kept
      → Keeps (observe_all s rs) (take cap (kept ++ failures rs))
  unfolding observe_all observe
  observe_all-Keeps [] s kept k =
      subst (Keeps s)
        (sym (take-all cap _ (omega (arith, length-append {0} kept [], k.fits)) ∙ append-nil kept))
        k
  observe_all-Keeps (completed context ∷ rs) s kept k = observe_all-Keeps rs s kept k
  observe_all-Keeps (failed context node_id reason ∷ rs) s kept k =
      let r : FailureRecord = record { context = context; node_id = node_id; reason = reason } in
      elim (dec_lt (length kept) cap) [
        | yes room ↦
            subst (λ l. Keeps (observe_all (keep cap s r) rs) (take cap l))
              (append_assoc kept (r ∷ []) (failures rs))
              (observe_all-Keeps rs (keep cap s r) (kept ++ (r ∷ [])) (keep_room r room k))
        | no full ↦ rw (keep_full r (omega arith) k) (
            subst (Keeps (observe_all s rs))
              (take-append_le cap kept (failures rs) (omega arith)
                ∙ sym (take-append_le cap kept (r ∷ failures rs) (omega arith)))
              (observe_all-Keeps rs s kept k))
      ]

  new-Keeps : Keeps (new cap) []
  unfolding new
  new-Keeps = record {
    number = refl;
    fits = omega arith;
    slots = ap (λ (n : ℕ). replicate n none) (omega arith);
  }

  -- After any run of results the supervisor counts the failures, up to its capacity, and finds
  -- for each trace the first failure with it among those that it kept, which are the first `cap`.
  pub observe_all_lem :
      (rs : List WorkResult)
      → let s = observe_all (new cap) rs in
        (failure_count s ≡ min cap (length (failures rs)))
        × ((trace_id : ℕ) → find_trace s trace_id ≡ first_with trace_id (take cap (failures rs)))
  unfolding failure_count find_trace
  observe_all_lem rs =
      let k = observe_all-Keeps rs (new cap) [] new-Keeps in
      (
        k.number ∙ length-take cap (failures rs),
        λ trace_id.
            ap₂ (λ n l. find_record trace_id (take n l)) k.number k.slots
            ∙ find-map trace_id (take cap (failures rs)) _,
      )
