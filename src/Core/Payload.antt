-- ===== src/Core/Payload.antt =====
-- A payload carries its bytes and its trace from ingress to the worker.
use cell.Base.{ℕ, ◌+◌, ◌≤◌, ◌<◌, ◌≡◌, refl, ap, ◌∙◌, ◌⊎◌, inl, inr, arith, ◌==◌, leb, true, some}
use cell.Base.{
  List, [], ◌∷◌, ◌++◌, length, length-append, take, drop, replicate, length-drop, length-replicate,
}
use native.Mathlib.Decide.{dec_lt}
use cell.Core.{TraceContext, failed, ok, err, payload_size}
use cell.Core.{RawPayload, ValidatorCapability, raw_payload, validate, as_bytes, is_empty}

take-append {ℓ} : {A : Type ℓ} (xs ys : List A) → take (length xs) (xs ++ ys) ≡ xs
take-append [] ys = refl
take-append (x ∷ xs) ys = ap (λ l. x ∷ l) (take-append xs ys)

-- `RawPayload::new` fails exactly on more than 512 bytes, and the failure names the trace. Else
-- the array has all 512 bytes, and the payload is empty exactly when the input is; validation keeps
-- the trace, keeps the length of the input and stamps the verifier's token, and reading the bytes
-- does not panic and gives exactly the input.
pub validate-raw_payload :
    (context : TraceContext) (input : List ℕ) (verifier : ValidatorCapability)
    → ((payload_size < length input)
        × (raw_payload context input ≡ err (failed context 0 "payload exceeds 512 bytes")))
      ⊎ ((raw : RawPayload) × (length input ≤ payload_size)
          × (raw_payload context input ≡ ok raw)
          × (length raw.bytes ≡ payload_size)
          × (is_empty raw ≡ (length input == 0))
          × (as_bytes (validate raw verifier) ≡ some input)
          × ((validate raw verifier).len ≡ length input)
          × ((validate raw verifier).context ≡ context)
          × ((validate raw verifier).token ≡ verifier.token))
unfolding raw_payload validate as_bytes is_empty
validate-raw_payload context input verifier = elim (dec_lt payload_size (length input)) [
  | yes long ↦ inl (long, ground arith)
  | no short ↦ inr (
    stored,
    omega arith,
    ground arith,
    length-append input (drop (length input) (replicate payload_size 0)) ∙ room short,
    refl,
    simp (within, take-append input (drop (length input) (replicate payload_size 0))),
    refl,
    refl,
    refl,
  )
]
  where
    within :
        leb (length input) (length (input ++ drop (length input) (replicate payload_size 0))) ≡ true
    within = ground (arith, length-append input (drop (length input) (replicate payload_size 0)))

    stored : RawPayload
    stored = record {
      context = context;
      bytes = input ++ drop (length input) (replicate payload_size 0);
      len = length input;
    }

    room :
        ¬ (payload_size < length input)
        → length input + length {A = ℕ} (drop (length input) (replicate payload_size 0))
          ≡ payload_size
    room short = omega (
      arith,
      length-drop {A = ℕ} (length input) (replicate payload_size 0),
      length-replicate {A = ℕ} payload_size 0,
    )
