-- ===== src/Health/Tests.antt =====
-- Runs of the health monitor, and its theorems at concrete inputs.
use seastar_log_engine.Prelude.{◌≡◌, List, [], ◌∷◌, arith}
use seastar_log_engine.Health.{recent_sum_for_minute}
use seastar_log_engine.Health.Window.{recent_sum-run}
use seastar_log_engine.Health.Buckets.{Event, run, recent_total, total}

-- Three events in minute 101, one in minute 103, one in minute 107.
abbrev events : List Event
events =
    record { minute = 107; delta = 1 }
    ∷ record { minute = 103; delta = 4 }
    ∷ record { minute = 101; delta = 2 }
    ∷ record { minute = 101; delta = 1 }
    ∷ []

recent_sum-run_example :
    (recent_sum_for_minute (run events) 107 ≡ recent_total events 107)
    × ((run events).lifetime ≡ total events)
recent_sum-run_example = recent_sum-run events 107 (omega arith) (omega arith) (omega arith)
