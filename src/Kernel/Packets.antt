-- ===== src/Kernel/Packets.antt =====
-- The packets of main.rs, what the AP answers to each, and what the BSP counts of the answers.
use cell.Base.{
  ℕ, zero, suc, ◌+◌, ◌≡◌, ◌≢◌, refl, ap, arith, false, ◌==◌, if◌then◌else◌, some, ◌++◌, length,
  drop, replicate,
}
use native.Mathlib.Decide.{ℕ_discrete}
use cell.Core.{
  WorkResult, completed, failed, ok, RawPayload, raw_payload, payload_size, is_empty, validate,
}
use cell.Supervisor
use cell.Supervisor.{observe, failure_count, find_trace}
use cell.Kernel.State.{
  packet_count, Collected, batch_completed, trace_context, payload_of, process, collect, finish,
}

-- The packet of a trace, and what the AP answers to it.
unfoldable pub packet_of : ℕ → RawPayload
packet_of n = record {
  context = trace_context n;
  bytes = payload_of n ++ drop (length (payload_of n)) (replicate payload_size 0);
  len = length (payload_of n);
}

unfoldable pub result_of : ℕ → WorkResult
result_of n =
    if n == 4
    then failed (trace_context n) 1 "Corrupted payload in AP1"
    else completed (trace_context n)

not_four : (n : ℕ) → n ≢ 4 → (n == 4) ≡ false
not_four n ne = ground arith

pub raw_payload-packet_of :
    (n : ℕ) → raw_payload (trace_context n) (payload_of n) ≡ ok (packet_of n)
unfolding raw_payload packet_of payload_of
raw_payload-packet_of n = elim (ℕ_discrete n 4) [
  | yes e ↦ rw e refl
  | no ne ↦ rw (not_four n ne) refl
]

pub process-packet_of : (n : ℕ) → process (packet_of n) ≡ result_of n
unfolding process packet_of result_of payload_of is_empty validate
process-packet_of n = elim (ℕ_discrete n 4) [ yes e ↦ rw e refl | no ne ↦ rw (not_four n ne) refl ]

-- What the BSP has counted after the first `n` results.
unfoldable pub collected : ℕ → Collected
collected zero = record {
  reports = 0;
  succeeded = 0;
  failures = 0;
  supervisor = Supervisor.new packet_count;
}
collected (suc n) = collect (collected n) (result_of (suc n))

reports-collect : (c : Collected) (r : WorkResult) → (collect c r).reports ≡ c.reports + 1
unfolding collect
reports-collect c (completed context) = refl
reports-collect c (failed context node_id reason) = refl

pub reports-collected : (n : ℕ) → (collected n).reports ≡ n
unfolding collected
reports-collected zero = refl
reports-collected (suc n) =
    omega (arith, reports-collect (collected n) (result_of (suc n)), reports-collected n)

-- One more result is counted.
pub collect-collected :
    (c : Collected)
    → c ≡ collected c.reports
    → collect c (result_of (suc c.reports)) ≡ collected (suc c.reports)
unfolding collected
collect-collected c e = ap (λ d. collect d (result_of (suc c.reports))) e

-- The whole batch: nine succeed, and the trace without data fails.
pub collected_all :
    (finish (collected 10) ≡ batch_completed (collected 10))
    × ((collected 10).succeeded ≡ 9)
    × ((collected 10).failures ≡ 1)
    × (find_trace (collected 10).supervisor 4
        ≡ some (record {
          context = trace_context 4;
          node_id = 1;
          reason = "Corrupted payload in AP1";
        }))
unfolding collected collect result_of finish Supervisor.new observe failure_count find_trace
collected_all = (refl, refl, refl, refl)
