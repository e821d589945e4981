-- ===== src/Supervisor.antt =====
-- crates/cell-supervisor/src/lib.rs: the record of failed traces, and the reset of a node that
-- failed.
pub mod Records
mod Tests
use Prim.Native.String.{String}
use cell.Base.{ℕ, suc, ◌+◌, ltb, if◌then◌else◌, ◌==◌, Bool, true, false, Option, none, some}
use cell.Base.{List, [], ◌∷◌, set, take, replicate}
use cell.Core.{TraceContext, WorkResult, completed, failed, KernelModule}

pub record FailureRecord : Type 0 where
  pub context : TraceContext
  pub node_id : ℕ
  pub reason : String

pub record Supervisor : Type 0 where
  pub records : List (Option FailureRecord)
  pub len : ℕ

module _ (cap : ℕ) where
  unfoldable pub new : Supervisor
  new = record { records = replicate cap none; len = 0 }

  -- A record past the capacity is returned and not kept.
  abbrev pub keep : Supervisor → FailureRecord → Supervisor
  keep s r =
      if ltb s.len cap
      then record { records = set s.records s.len (some r); len = s.len + 1 }
      else s

  unfoldable pub observe : Supervisor → WorkResult → Option FailureRecord × Supervisor
  observe s (completed context) = (none, s)
  observe s (failed context node_id reason) =
      let r : FailureRecord = record { context = context; node_id = node_id; reason = reason } in
      (some r, keep s r)

unfoldable pub failure_count : Supervisor → ℕ
failure_count s = s.len

-- `.iter().flatten().find(…)`
unfoldable pub find_record : ℕ → List (Option FailureRecord) → Option FailureRecord
find_record trace_id [] = none
find_record trace_id (none ∷ rs) = find_record trace_id rs
find_record trace_id (some r ∷ rs) =
    if r.context.trace_id == trace_id then some r else find_record trace_id rs

unfoldable pub find_trace : Supervisor → ℕ → Option FailureRecord
unfolding find_record
find_trace s trace_id = find_record trace_id (take s.len s.records)

unfoldable pub reset_failed_node :
    {Node : Type 0} → KernelModule Node → Node → WorkResult → Bool × Node
reset_failed_node m node (failed context node_id reason) = (true, m.reset_state node)
reset_failed_node m node (completed context) = (false, node)
