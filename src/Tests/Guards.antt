-- ===== src/Tests/Guards.antt =====
-- A guard with a primary handler, and instances of what is proved of it.
use vita_debugger.Prelude.{◌≤◌, ◌≡◌, ◌⊎◌, refl, true, false, [], ◌∷◌, length, arith}
use vita_debugger.Guard.{active_of, is_closed, admit, claim, exchange, disown, is_idle}
use vita_debugger.Guard.Handlers.{
  Guard, primary, leaving, start, enter, claim_owner, Reachable, begin, later,
}
use vita_debugger.Guard.Counting.{tally, is_primary, word_of}
use vita_debugger.Guard.Exclusion.{handlers_lem}
use vita_debugger.Guard.Leave.{leave-Granted}

abbrev faulted : Guard
faulted = record { lifecycle = 1; owner = 2; chaining_mask = 0; handlers = primary 1 ∷ [] }

faulted-Reachable : Reachable faulted
unfolding admit active_of is_closed claim exchange
faulted-Reachable =
    later _ faulted (later start _ begin (enter 1 1 (omega arith) refl)) (claim_owner 1 [] [] refl)

handlers_lem_example :
    (active_of faulted.lifecycle ≡ length faulted.handlers)
    × (tally is_primary faulted.handlers ≤ 1)
    × (faulted.owner ≡ tally word_of faulted.handlers)
    × ((is_idle faulted.lifecycle faulted.owner faulted.chaining_mask ≡ false)
        ⊎ (faulted.handlers ≡ []))
handlers_lem_example = handlers_lem faulted faulted-Reachable

leave-Granted_example :
    (disown faulted.owner 1 ≡ (true, 0))
    × Reachable (record faulted { owner = 0; handlers = leaving 1 ∷ [] })
leave-Granted_example = leave-Granted faulted (primary 1) [] [] faulted-Reachable refl
