-- ===== src/Pmu/Leases.antt =====
-- The calls on a lease that was taken: kernel/src/pmu_session.c.
use vita_debugger.Prelude.{
  ℕ, zero, suc, ◌%◌, not, ◌||◌, List, [], ◌∷◌, Option, none, some, ltb, leb, ◌==◌, if◌then◌else◌,
}
use vita_debugger.Prelude.Int.{ℤ, pos, is_zero}
use vita_debugger.Pmu.{
  error, Event, Owner, CounterValues, Reading, Session, cookie, backend_failure,
}
use vita_debugger.Pmu.Acquire.{
  Backend, is_empty, is_pending, owner_and_token_valid, restore_exact, restore_for,
}

-- The events of a reading, `count` of them.
pub pair_events : ℕ → List Event → List ℕ → List (Event × ℕ)
pair_events zero events values = []
pair_events (suc count) [] values = []
pair_events (suc count) (e ∷ events) [] = []
pair_events (suc count) (e ∷ events) (v ∷ values) = (e, v) ∷ pair_events count events values

unfoldable pub reading_of : Session → CounterValues → ℕ → Reading
reading_of session values completed_ms = record {
  timestamp_ms = completed_ms;
  lease_token = session.lease_token;
  flags = session.configuration.flags;
  event_count = session.configuration.event_count;
  cycles = if session.configuration.flags % 2 == 0 then 0 else values.cycles;
  events = pair_events session.configuration.event_count session.configuration.events values.events;
}

module _ (b : Backend) where
  -- A restoration that ends a call of `read`: there is no reading.
  abbrev pub give_up : ℤ → Session → b.State → ℤ × Option Reading × Session × b.State
  give_up failure session s =
      let (result, session', s') = restore_for b failure session s in (result, none, session', s')

  abbrev pub failed_as : ℤ → Session → Session
  failed_as result session = record session { last_backend_error = backend_failure result }

  -- `read` of an active session, between its two looks at the clock and behind them.
  unfoldable pub complete_read :
      Session → ℕ → CounterValues → b.State → ℤ × Option Reading × Session × b.State
  complete_read session now_ms values s =
      let (clock, completed_ms, s') = b.now_ms s in
      if not (is_zero clock)
      then give_up (backend_failure clock) (failed_as clock session) s'
      else if ltb completed_ms now_ms || ltb completed_ms session.acquired_ms
      then give_up (error 106) session s'
      else if leb session.deadline_ms completed_ms
      then give_up (error 105) session s'
      else (pos 0, some (reading_of session values completed_ms), session, s')

  unfoldable pub read_active : Session → b.State → ℤ × Option Reading × Session × b.State
  read_active session s =
      let (clock, now_ms, s₁) = b.now_ms s in
      let (result, values, s₂) = b.read s₁ session.owner.core_id session.configuration in
      if not (is_zero clock)
      then give_up (backend_failure clock) (failed_as clock session) s₁
      else if ltb now_ms session.acquired_ms
      then give_up (error 106) session s₁
      else if leb session.deadline_ms now_ms
      then give_up (error 105) session s₁
      else if not (is_zero result)
      then give_up (backend_failure result) (failed_as result session) s₂
      else complete_read session now_ms values s₂

  unfoldable pub read : Session → Owner → ℕ → b.State → ℤ × Option Reading × Session × b.State
  read session owner lease_token s = elim (owner_and_token_valid session owner lease_token) [
    | some failure ↦ (failure, none, session, s)
    | none ↦
        if is_pending session.state then (error 104, none, session, s) else read_active session s
  ]

  unfoldable pub restore : Session → Owner → ℕ → b.State → ℤ × Session × b.State
  restore session owner lease_token s = elim (owner_and_token_valid session owner lease_token) [
    | some failure ↦ (failure, session, s)
    | none ↦ restore_exact b session s
  ]

  -- `watchdog` of an active session.
  unfoldable pub watch_active : Session → b.State → ℤ × Session × b.State
  watch_active session s =
      let (clock, now_ms, s') = b.now_ms s in
      if not (is_zero clock)
      then restore_for b (backend_failure clock) (failed_as clock session) s'
      else if ltb now_ms session.acquired_ms
      then restore_for b (error 106) session s'
      else if ltb now_ms session.deadline_ms
      then (pos 0, session, s')
      else restore_for b (pos 1) session s'

  unfoldable pub watchdog : Session → b.State → ℤ × Session × b.State
  watchdog session s =
      if not (session.initialization_cookie == cookie)
      then (error 100, session, s)
      else if is_empty session.state
      then (pos 0, session, s)
      else if is_pending session.state
      then restore_for b (pos 1) session s
      else watch_active session s
