-- ===== src/Core.antt =====
-- crates/cell-core/src/lib.rs: the typed values that the kernel's modules pass on, and the trait
-- that a module implements. `Core.Tensor` is tensor.rs.
pub mod Payload
pub mod Tensor
mod Tests
use Prim.Native.String.{String}
use cell.Base.{ℕ, ◌+◌, ◌-◌, ltb, if◌then◌else◌, ◌==◌, Bool, List, [], ◌∷◌, ◌++◌}
use cell.Base.{leb, Option, some, none, length, take, drop, replicate}

pub record TraceContext : Type 0 where
  pub trace_id : ℕ
  pub timestamp : ℕ
  pub origin_node : ℕ

pub data WorkResult : Type 0 where
  completed : TraceContext → WorkResult
  failed : (context : TraceContext) (node_id : ℕ) (reason : String) → WorkResult

-- `Result<T, WorkResult>`
pub data Outcome (A : Type 0) : Type 0 where
  ok : A → Outcome A
  err : WorkResult → Outcome A

unfoldable pub result_context : WorkResult → TraceContext
result_context (completed context) = context
result_context (failed context node_id reason) = context

-- `[u8; 512]`
abbrev pub payload_size : ℕ
payload_size = 512

pub record RawPayload : Type 0 where
  pub context : TraceContext
  pub bytes : List ℕ
  pub len : ℕ

pub record ValidatedPayload : Type 0 where
  pub context : TraceContext
  pub bytes : List ℕ
  pub len : ℕ
  pub token : ℕ

pub record ValidatorCapability : Type 0 where
  pub token : ℕ

-- `data[..input.len()].copy_from_slice(input)` on a zeroed array.
unfoldable pub raw_payload : TraceContext → List ℕ → Outcome RawPayload
raw_payload context input =
    if ltb payload_size (length input)
    then err (failed context 0 "payload exceeds 512 bytes")
    else ok (record {
      context = context;
      bytes = input ++ drop (length input) (replicate payload_size 0);
      len = length input;
    })

unfoldable pub is_empty : RawPayload → Bool
is_empty raw = raw.len == 0

unfoldable pub validate : RawPayload → ValidatorCapability → ValidatedPayload
validate raw verifier = record {
  context = raw.context;
  bytes = raw.bytes;
  len = raw.len;
  token = verifier.token;
}

-- `&self.data[..self.len]`; `none` is its panic.
unfoldable pub as_bytes : ValidatedPayload → Option (List ℕ)
as_bytes payload =
    if leb payload.len (length payload.bytes) then some (take payload.len payload.bytes) else none

-- The trait: what a node does with one item, and how it is reset. A node is its state.
pub record KernelModule (Node : Type 0) : Type 1 where
  pub Input : Type 0
  pub Output : Type 0
  pub process : Node → Input → Outcome Output × Node
  pub reset_state : Node → Node
