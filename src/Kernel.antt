-- ===== src/Kernel.antt =====
-- crates/cell-baremetal/src/main.rs: the pipeline of the two cores, `_start` from its start of the
-- application processor on, and `ap_entry`. A move is one round of a core's loop, or one shared
-- access; `Kernel.Start` is the part before. Output, and the pauses in the spin loops, are left out.
pub mod State
pub mod Views
pub mod Packets
pub mod Invariant
pub mod Measure
pub mod Sender
pub mod Collector
pub mod Worker
pub mod Reducer
pub mod Progress
pub mod Start
pub mod Sum
pub mod Boot
pub mod Batch
mod Tests
use cell.Base.{ℕ, zero, suc, ◌+◌, Bool, true, ◌&&◌, ltb, if◌then◌else◌}
use cell.Base.{Option, none, some, List, [], ◌∷◌}
use cell.Core.{WorkResult, Outcome, ok, err, RawPayload, raw_payload}
use cell.Core.Tensor.{ReadyChunk, Slice, as_slice, deconstruct}
use cell.Queue
use cell.Queue.{SpscQueue, Call, returned, panicked, undefined, PushResult, pushed, queue_full}
use cell.Supervisor
use cell.Pmm.{from_address, free}
use cell.Kernel.State.{
  packet_count, tensor_elements, F32, Collected, Bsp, waiting_ap, sending, sending_tensor,
  waiting_tensor, collecting, batch_completed, invariant_failed, halted, Ap, starting, working,
  answering, counting, reducing, storing, freeing, completing, done, stopped, Kernel, trace_context,
  payload_of, process, collect, finish, Core, bsp_core, ap_core,
}

module _ {F : Type 0} (float : F32 F) where
  pub sent_packet : Call PushResult × SpscQueue RawPayload → ℕ → ReadyChunk → Kernel F → Kernel F
  sent_packet (returned pushed, q) trace_id tensor k = record k {
    inter_core_queue = q;
    bsp = sending (trace_id + 1) tensor;
  }
  sent_packet (returned queue_full, q) trace_id tensor k = record k { inter_core_queue = q }
  sent_packet (panicked, q) trace_id tensor k = record k { bsp = halted }
  sent_packet (undefined, q) trace_id tensor k = record k { bsp = halted }

  pub send_packet : Outcome RawPayload → ℕ → ReadyChunk → Kernel F → Kernel F
  send_packet (err result) trace_id tensor k = record k { bsp = halted }
  send_packet (ok raw) trace_id tensor k =
      sent_packet (Queue.push 16 k.inter_core_queue raw) trace_id tensor k

  pub sent_tensor : Call PushResult × SpscQueue ReadyChunk → Kernel F → Kernel F
  sent_tensor (returned pushed, q) k = record k { tensor_queue = q; bsp = waiting_tensor }
  sent_tensor (returned queue_full, q) k = record k { tensor_queue = q; bsp = halted }
  sent_tensor (panicked, q) k = record k { bsp = halted }
  sent_tensor (undefined, q) k = record k { bsp = halted }

  pub got_result : Call (Option WorkResult) × SpscQueue WorkResult → Collected → Kernel F → Kernel F
  got_result (returned none, q) c k = record k { completion_queue = q }
  got_result (returned (some result), q) c k = record k {
    completion_queue = q;
    bsp = collecting (collect c result);
  }
  got_result (panicked, q) c k = record k { bsp = halted }
  got_result (undefined, q) c k = record k { bsp = halted }

  -- A move of the BSP.
  unfoldable pub bsp_move : Bsp → Kernel F → Kernel F
  bsp_move (waiting_ap tensor) k = if k.ap_ready then record k { bsp = sending 1 tensor } else k
  bsp_move (sending trace_id tensor) k =
      if ltb packet_count trace_id
      then record k { bsp = sending_tensor tensor }
      else send_packet (raw_payload (trace_context trace_id) (payload_of trace_id)) trace_id tensor
          k
  bsp_move (sending_tensor tensor) k = sent_tensor (Queue.push 2 k.tensor_queue tensor) k
  bsp_move waiting_tensor k =
      if k.tensor_complete
      then record k {
        bsp = collecting (record {
          reports = 0;
          succeeded = 0;
          failures = 0;
          supervisor = Supervisor.new packet_count;
        });
      }
      else k
  bsp_move (collecting c) k =
      if ltb c.reports packet_count
      then got_result (Queue.pop 32 k.completion_queue) c k
      else record k { bsp = finish c }
  bsp_move (batch_completed c) k = k
  bsp_move (invariant_failed c) k = k
  bsp_move halted k = k

  pub got_packet : Call (Option RawPayload) × SpscQueue RawPayload → Kernel F → Kernel F
  got_packet (returned none, q) k = record k { inter_core_queue = q }
  got_packet (returned (some raw), q) k = record k {
    inter_core_queue = q;
    ap = answering (process raw);
  }
  got_packet (panicked, q) k = record k { ap = stopped }
  got_packet (undefined, q) k = record k { ap = stopped }

  pub sent_result : Call PushResult × SpscQueue WorkResult → Kernel F → Kernel F
  sent_result (returned pushed, q) k = record k { completion_queue = q; ap = counting }
  sent_result (returned queue_full, q) k = record k { completion_queue = q }
  sent_result (panicked, q) k = record k { ap = stopped }
  sent_result (undefined, q) k = record k { ap = stopped }

  -- `for value in values { sum += *value; }`
  unfoldable pub sum_loop : ℕ → ℕ → F → (ℕ → F) → F
  sum_loop zero place sum memory = sum
  sum_loop (suc left) place sum memory =
      sum_loop left (place + 4) (float.add sum (memory place)) memory

  pub reduce : ReadyChunk → Option Slice → Kernel F → Kernel F
  reduce tensor none k = record k { ap = stopped }
  reduce tensor (some values) k = record k {
    ap = storing (record {
      context = (deconstruct tensor).0;
      phys_addr = (deconstruct tensor).1;
      sum = sum_loop values.count values.start float.float_zero k.memory;
    });
  }

  pub got_tensor : Call (Option ReadyChunk) × SpscQueue ReadyChunk → Kernel F → Kernel F
  got_tensor (returned none, q) k = record k { tensor_queue = q }
  got_tensor (returned (some tensor), q) k =
      reduce tensor (as_slice 4 4 tensor) (record k { tensor_queue = q })
  got_tensor (panicked, q) k = record k { ap = stopped }
  got_tensor (undefined, q) k = record k { ap = stopped }

  unfoldable pub ap_move : Ap F → Kernel F → Kernel F
  ap_move starting k = record k { ap_ready = true; ap = working }
  ap_move working k =
      if ltb k.ap_processed packet_count
      then got_packet (Queue.pop 16 k.inter_core_queue) k
      else record k { ap = reducing }
  ap_move (answering result) k = sent_result (Queue.push 32 k.completion_queue result) k
  ap_move counting k = record k { ap_processed = k.ap_processed + 1; ap = working }
  ap_move reducing k = got_tensor (Queue.pop 2 k.tensor_queue) k
  ap_move (storing r) k = record k { tensor_sum_bits = float.to_bits r.sum; ap = freeing r }
  ap_move (freeing r) k =
      let (released, pmm) = free k.pmm (from_address r.phys_addr) in
      record k { pmm = pmm; ap = completing r released }
  ap_move (completing r released) k = record k {
    tensor_complete = true;
    ap = done (released && float.eq r.sum (float.of_usize tensor_elements));
  }
  ap_move (done good) k = k
  ap_move stopped k = k

  unfoldable pub move : Core → Kernel F → Kernel F
  move bsp_core k = bsp_move k.bsp k
  move ap_core k = ap_move k.ap k

  -- The cores move in any order that the schedule names.
  unfoldable pub run : List Core → Kernel F → Kernel F
  run [] k = k
  run (core ∷ cores) k = run cores (move core k)
