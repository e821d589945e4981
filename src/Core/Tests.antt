-- ===== src/Core/Tests.antt =====
-- Payloads and tensors at concrete inputs.
use cell.Base.{◌≤◌, ◌<◌, ◌≡◌, refl, ◌⊎◌, [], ◌∷◌, length, ◌==◌}
use cell.Core.{
  TraceContext, ValidatorCapability, RawPayload, payload_size, failed, ok, err, raw_payload,
  validate, as_bytes, is_empty,
}
use cell.Base.{some, none, min, take, arith}
use cell.Core.Tensor.{
  DType, size_in_bytes, new_1d, new_4d, total_elements, new_chunk, MutableChunk, as_mut_slice,
  as_slice, freeze, deconstruct,
}
use cell.Core.Tensor.Size.{as_slice-freeze, total_elements_lem, product, max_usize}
use cell.Core.Payload.{validate-raw_payload}

abbrev trace : TraceContext
trace = record { trace_id = 1; timestamp = 2; origin_node = 3 }

abbrev verifier : ValidatorCapability
verifier = record { token = 0xCE112021 }

validate-raw_payload_example :
    ((payload_size < 2)
      × (raw_payload trace (7 ∷ 8 ∷ []) ≡ err (failed trace 0 "payload exceeds 512 bytes")))
    ⊎ ((raw : RawPayload) × (2 ≤ payload_size)
        × (raw_payload trace (7 ∷ 8 ∷ []) ≡ ok raw)
        × (length raw.bytes ≡ payload_size)
        × (is_empty raw ≡ (2 == 0))
        × (as_bytes (validate raw verifier) ≡ some (7 ∷ 8 ∷ []))
        × ((validate raw verifier).len ≡ 2)
        × ((validate raw verifier).context ≡ trace)
        × ((validate raw verifier).token ≡ verifier.token))
validate-raw_payload_example = validate-raw_payload trace (7 ∷ 8 ∷ []) verifier

sizes : (total_elements (new_1d 7) ≡ some 7) × (total_elements (new_4d 2 3 4 5) ≡ some 120)
unfolding total_elements new_1d new_4d
sizes = (refl, refl)

-- The tensor that the kernel sends: 1024 floats in one frame.
as_slice-freeze_example :
    (c : MutableChunk) × (new_chunk trace 0x53000 0xffff800000053000 (new_1d 1024) DType.f32
      ≡ some c)
    × (as_mut_slice c ≡ record { start = 0xffff800000053000; count = 4096 })
    × (as_slice 4 4 (freeze c) ≡ some (record { start = 0xffff800000053000; count = 1024 }))
    × (deconstruct (freeze c) ≡ (trace, 0x53000))
unfolding total_elements new_1d size_in_bytes
as_slice-freeze_example =
    as_slice-freeze trace 0x53000 0xffff800000053000 4 1024 (new_1d 1024) DType.f32 refl
      (omega arith) refl

total_elements_lem_example :
    (1 ≤ 4 → total_elements (new_1d 7) ≡ some (min (product (take 1 (new_1d 7).dims)) max_usize))
    × (4 < 1 → total_elements (new_1d 7) ≡ none)
unfolding new_1d
total_elements_lem_example = total_elements_lem (new_1d 7)
