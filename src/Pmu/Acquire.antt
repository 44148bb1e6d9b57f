-- ===== src/Pmu/Acquire.antt =====
-- Taking and giving back a lease in kernel/src/pmu_session.c.
use Prim.Native.Nat.{bit_and}
use vita_debugger.Prelude.{
  ℕ, ◌+◌, ◌/◌, ◌%◌, ◌^◌, inl, inr, Bool, true, false, not, ◌&&◌, ◌||◌, Option, none, some, ltb, leb,
  ◌==◌, if◌then◌else◌, replicate,
}
use vita_debugger.Prelude.Int.{ℤ, pos, is_neg, is_zero}
use vita_debugger.Pmu.{
  error, Request, Owner, Snapshot, Configuration, CounterValues, SessionState, empty, active,
  restore_pending, Session, cookie, no_event, restored_owned_fields_equal, owner_valid, owner_equal,
  backend_failure, request_valid, make_configuration, saturating_deadline,
}

-- `struct vd_pmu_session_backend`: each callback gives its int, what it writes and the state after
-- it, which stands for the hardware, the clock and whatever is behind the context.
pub record Backend : Type 1 where
  pub State : Type 0
  pub snapshot : State → ℕ → ℤ × Snapshot × State
  pub configure : State → ℕ → Configuration → ℤ × State
  pub read : State → ℕ → Configuration → ℤ × CounterValues × State
  pub restore : State → ℕ → Configuration → Snapshot → ℤ × State
  pub now_ms : State → ℤ × ℕ × State

abbrev pub is_empty : SessionState → Bool
is_empty empty = true
is_empty active = false
is_empty restore_pending = false

abbrev pub is_pending : SessionState → Bool
is_pending empty = false
is_pending active = false
is_pending restore_pending = true

abbrev no_owner : Owner
no_owner = record { owner_pid = pos 0; owner_token = 0; core_id = 0 }

abbrev no_configuration : Configuration
no_configuration = record {
  flags = 0;
  event_count = 0;
  control_flags = 0;
  events = replicate 4 no_event;
}

abbrev no_snapshot : Snapshot
no_snapshot = record {
  event_counter_count = 0;
  raw_pmcr = 0;
  raw_pmcntenset = 0;
  raw_pmovsr = 0;
  raw_pmselr = 0;
  raw_pmccntr = 0;
  raw_pmuserenr = 0;
  raw_pmintenset = 0;
  raw_pmxevtyper = replicate 6 0;
  raw_pmxevcntr = replicate 6 0;
}

unfoldable pub clear_lease : Session → Session
clear_lease session = record {
  initialization_cookie = session.initialization_cookie;
  next_lease_token = if session.next_lease_token == 0 then 1 else session.next_lease_token;
  lease_token = 0;
  acquired_ms = 0;
  deadline_ms = 0;
  state = empty;
  last_backend_error = pos 0;
  owner = no_owner;
  configuration = no_configuration;
  original = no_snapshot;
}

unfoldable pub take_lease_token : Session → Session
take_lease_token session =
    let token = if session.next_lease_token == 0 then 1 else session.next_lease_token in
    let next = (token + 1) % 2 ^ 64 in
    record session { lease_token = token; next_lease_token = if next == 0 then 1 else next }

-- `vdPmuSessionInit`
pub init : Session → Session
init session =
    if session.initialization_cookie == cookie
    then session
    else if not (session.initialization_cookie == 0)
    then session
    else record (clear_lease session) { initialization_cookie = cookie; next_lease_token = 1 }

-- What `owner_and_token_valid` gives: an error, or `none` for 0.
unfoldable pub owner_and_token_valid : Session → Owner → ℕ → Option ℤ
owner_and_token_valid session owner lease_token =
    if not (session.initialization_cookie == cookie) || is_empty session.state
    then some (error 107)
    else if not (owner_valid owner)
        || (lease_token == 0
            || (not (lease_token == session.lease_token) || not (owner_equal owner session.owner)))
    then some (error 102)
    else none

-- `vdPmuSessionIsActive`
pub is_active : Session → Bool
is_active session = session.initialization_cookie == cookie && not (is_empty session.state)

module _ (b : Backend) where
  unfoldable pub restore_exact : Session → b.State → ℤ × Session × b.State
  restore_exact session s =
      let pending = record session { state = restore_pending } in
      let core = session.owner.core_id in
      let (result, s₁) = b.restore s core session.configuration session.original in
      let (result', verification, s₂) = b.snapshot s₁ core in
      if not (is_zero result)
      then (error 104, record pending { last_backend_error = backend_failure result }, s₁)
      else if not (is_zero result')
      then (error 104, record pending { last_backend_error = backend_failure result' }, s₂)
      else if not (restored_owned_fields_equal verification session.original session.configuration)
      then (error 104, record pending { last_backend_error = error 104 }, s₂)
      else (pos 0, clear_lease pending, s₂)

  -- `result = restore_exact(session); return result < 0 ? result : failure;`
  unfoldable pub restore_for : ℤ → Session → b.State → ℤ × Session × b.State
  restore_for failure session s =
      let (result, session', s') = restore_exact session s in
      (if is_neg result then result else failure, session', s')

  -- The end of `acquire` from the call of `configure` on, and the token that it gives.
  unfoldable pub abandon : ℤ → Session → b.State → ℤ × Option ℕ × Session × b.State
  abandon failure session s =
      let (result, session', s') = restore_exact session s in
      (
        if is_neg result then result else failure,
        if is_neg result then some session.lease_token else none,
        session',
        s',
      )

  unfoldable pub configure_lease : Session → b.State → ℤ × Option ℕ × Session × b.State
  configure_lease session s =
      let (result, s₁) = b.configure s session.owner.core_id session.configuration in
      let (clock, configured_ms, s₂) = b.now_ms s₁ in
      if not (is_zero result)
      then abandon (backend_failure result)
          (record session { last_backend_error = backend_failure result }) s₁
      else if not (is_zero clock)
      then abandon (backend_failure clock)
          (record session { last_backend_error = backend_failure clock }) s₂
      else if ltb configured_ms session.acquired_ms
      then abandon (error 106) (record session { last_backend_error = pos 0 }) s₂
      else if leb session.deadline_ms configured_ms
      then abandon (error 105) (record session { last_backend_error = pos 0 }) s₂
      else (pos 0, some session.lease_token, record session { state = active }, s₂)

  abbrev pub published : Session → Owner → Configuration → Snapshot → ℕ → ℕ → Session
  published session owner configuration original start_ms deadline_ms =
      record (take_lease_token (record session {
        owner = owner;
        configuration = configuration;
        original = original;
        acquired_ms = start_ms;
        deadline_ms = deadline_ms;
        last_backend_error = pos 0;
      })) { state = restore_pending }

  -- `acquire` behind the two first callbacks.
  unfoldable pub acquire_from :
      Session → Owner → Request → Snapshot → ℕ → b.State → ℤ × Option ℕ × Session × b.State
  acquire_from session owner request original start_ms s =
      let deadline = saturating_deadline start_ms request.lease_ms in
      let (clock, before_ms, s') = b.now_ms s in
      if not (original.event_counter_count == 6)
        || (not (bit_and original.raw_pmcr 6 == 0)
            || (not ((original.raw_pmcr / 2 ^ 11) % 32 == original.event_counter_count)
                || leb original.event_counter_count original.raw_pmselr))
      then (error 100, none, session, s)
      else elim (make_configuration request original) [
        | inl failure ↦ (backend_failure failure, none, session, s)
        | inr configuration ↦
            if not (is_zero clock)
            then (backend_failure clock, none, session, s')
            else if ltb before_ms start_ms
            then (error 106, none, session, s')
            else if leb deadline before_ms
            then (error 105, none, session, s')
            else configure_lease (published session owner configuration original start_ms deadline)
                s'
      ]

  unfoldable pub acquire : Session → Owner → Request → b.State → ℤ × Option ℕ × Session × b.State
  acquire session owner request s =
      let (clock, start_ms, s₁) = b.now_ms s in
      let (result, original, s₂) = b.snapshot s₁ owner.core_id in
      if not (session.initialization_cookie == cookie)
        || (not (owner_valid owner) || not (request_valid request))
      then (error 100, none, session, s)
      else if is_pending session.state
      then (error 104, none, session, s)
      else if not (is_empty session.state)
      then (error 101, none, session, s)
      else if not (is_zero clock)
      then (backend_failure clock, none, session, s₁)
      else if not (is_zero result)
      then (backend_failure result, none, session, s₂)
      else acquire_from session owner request original start_ms s₂
