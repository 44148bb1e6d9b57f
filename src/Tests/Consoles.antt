-- ===== src/Tests/Consoles.antt =====
-- Runs of the capture queue, and instances of what is proved of it.
use vita_debugger.Prelude.{ℕ, ◌-◌, ◌≤◌, ◌+◌, ◌%◌, ◌^◌, ◌≡◌, true, false, List, [], ◌∷◌}
use vita_debugger.Console.{drop_head_as_stale, reset, purge_from, purge_other_from, fill, slots}
use vita_debugger.Console.Calls.{Others}
use vita_debugger.Console.Log.{
  Call, open_call, close_call, capture_call, peek_call, commit_call, log_run,
}
use vita_debugger.Console.Refine.{log}
use vita_debugger.Console.Run.{console_run, console_run_refines, reset-IsReady}
use vita_debugger.Console.Ledger.{accounted}
use vita_debugger.Console.Accounts.{after_run, accounted-after_run}
use vita_debugger.Console.Loops.{Ends, AnyLeft, OtherLeft, RoomLeft, store_next, loops_end}

-- Nobody interferes with the first session.
abbrev quiet : Others
quiet = record { queue_fails = false; lifecycle_fails = false; session = 2 ^ 31 + 1 }

-- Another thread holds the queue.
abbrev contended : Others
contended = record { queue_fails = true; lifecycle_fails = false; session = 2 ^ 31 + 1 }

abbrev session : List Call
session =
    open_call quiet
    ∷ capture_call quiet (72 ∷ 105 ∷ [])
    ∷ capture_call contended (33 ∷ [])
    ∷ peek_call quiet 1
    ∷ commit_call quiet 1 1
    ∷ peek_call quiet 1
    ∷ close_call quiet [] 1
    ∷ []

console_run_refines_example : console_run reset session ≡ log_run (log reset) session
console_run_refines_example = console_run_refines session reset reset-IsReady.0

accounted-after_run_example : accounted (after_run reset session) ≡ (accounted reset + 3) % 2 ^ 32
accounted-after_run_example = accounted-after_run session reset reset-IsReady.0

loops_end_example :
    Ends AnyLeft drop_head_as_stale reset.count reset (purge_from reset.count reset)
    × ((n : ℕ) × (n ≤ reset.count)
        × Ends (OtherLeft 1) drop_head_as_stale n reset (purge_other_from reset.count 1 reset))
    × ((n : ℕ) × (rest : List ℕ) × (n ≤ slots - reset.count)
        × Ends RoomLeft
            (store_next 1)
            n
            (72 ∷ [], record { remaining = 1; accepted = 0; records = 0; console = reset })
            (rest, fill slots 1 (72 ∷ []) 1 0 0 reset))
loops_end_example = loops_end 1 (72 ∷ []) 1 reset
