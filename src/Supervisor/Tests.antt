-- ===== src/Supervisor/Tests.antt =====
-- A supervisor of two records over four results.
use cell.Base.{ℕ, ◌≡◌, refl, none, some, List, [], ◌∷◌, take}
use cell.Core.{TraceContext, WorkResult, completed, failed}
use cell.Supervisor.{new, observe, failure_count, find_trace}
use cell.Supervisor.Records.{observe_all, failures, first_with, observe_all_lem}

abbrev trace : ℕ → TraceContext
trace n = record { trace_id = n; timestamp = n; origin_node = 0 }

abbrev results : List WorkResult
results =
    failed (trace 4) 1 "a"
    ∷ completed (trace 5)
    ∷ failed (trace 4) 2 "b"
    ∷ failed (trace 6) 3 "c"
    ∷ []

observe_all_lem_example :
    (failure_count (observe_all 2 (new 2) results) ≡ 2)
    × ((t : ℕ)
        → find_trace (observe_all 2 (new 2) results) t ≡ first_with t (take 2 (failures results)))
observe_all_lem_example = observe_all_lem 2 results

found :
    (find_trace (observe_all 2 (new 2) results) 4
      ≡ some (record { context = trace 4; node_id = 1; reason = "a" }))
    × (find_trace (observe_all 2 (new 2) results) 6 ≡ none)
unfolding observe_all observe new find_trace
found = (refl, refl)
