-- ===== src/Pmu.antt =====
-- Leases of the performance counters: kernel/src/pmu_session.c. The backend's callbacks are a
-- parameter, the same for all calls: the copy of it in the session is left out, and so are the words
-- that are reserved in the structures of the answer. The caller's pointers are given.
pub mod Acquire
pub mod Restored
pub mod Taken
pub mod Rights
pub mod Leases
use Prim.Native.Nat.{bit_and}
use vita_debugger.Prelude.{
  ℕ, zero, suc, ◌+◌, ◌-◌, ◌/◌, ◌%◌, ◌^◌, ◌⊎◌, inl, inr, Bool, true, false, not, ◌&&◌, ◌||◌, List,
  [], ◌∷◌, Option, none, some, length, get_or, ltb, leb, ◌==◌, if◌then◌else◌, same_bytes,
}
use vita_debugger.Prelude.Int.{ℤ, pos, negsuc, is_neg, is_zero}

-- The numbers of the errors, `error n` for -n.
abbrev pub error : ℕ → ℤ
error n = negsuc (n - 1)

-- `struct vd_pmu_event_metadata`
pub record Event : Type 0 where
  pub event_id : ℕ
  pub event_code : ℕ
  pub physical_counter : ℕ

-- `struct vd_pmu_session_request`
pub record Request : Type 0 where
  pub struct_size : ℕ
  pub abi_version : ℕ
  pub lease_ms : ℕ
  pub flags : ℕ
  pub event_count : ℕ
  pub event_ids : List ℕ
  pub reserved : List ℕ

-- `struct vd_pmu_session_owner`
pub record Owner : Type 0 where
  pub owner_pid : ℤ
  pub owner_token : ℕ
  pub core_id : ℕ

-- `struct vd_pmu_snapshot`
pub record Snapshot : Type 0 where
  pub event_counter_count : ℕ
  pub raw_pmcr : ℕ
  pub raw_pmcntenset : ℕ
  pub raw_pmovsr : ℕ
  pub raw_pmselr : ℕ
  pub raw_pmccntr : ℕ
  pub raw_pmuserenr : ℕ
  pub raw_pmintenset : ℕ
  pub raw_pmxevtyper : List ℕ
  pub raw_pmxevcntr : List ℕ

-- `struct vd_pmu_configuration`
pub record Configuration : Type 0 where
  pub flags : ℕ
  pub event_count : ℕ
  pub control_flags : ℕ
  pub events : List Event

-- `struct vd_pmu_counter_values`
pub record CounterValues : Type 0 where
  pub cycles : ℕ
  pub events : List ℕ

-- `struct vd_pmu_reading`
pub record Reading : Type 0 where
  pub timestamp_ms : ℕ
  pub lease_token : ℕ
  pub flags : ℕ
  pub event_count : ℕ
  pub cycles : ℕ
  pub events : List (Event × ℕ)

-- `enum vd_pmu_session_state`
pub data SessionState : Type 0 where
  empty active restore_pending : SessionState

-- `struct vd_pmu_session`
pub record Session : Type 0 where
  pub initialization_cookie : ℕ
  pub next_lease_token : ℕ
  pub lease_token : ℕ
  pub acquired_ms : ℕ
  pub deadline_ms : ℕ
  pub state : SessionState
  pub last_backend_error : ℤ
  pub owner : Owner
  pub configuration : Configuration
  pub original : Snapshot

abbrev pub cookie : ℕ
cookie = 0x504D5531

-- PMCR's reset bits left out, and the enable, interrupt and overflow bits of the six counters and
-- the cycle counter.
abbrev pub without_reset : ℕ → ℕ
without_reset n = bit_and n 0xfffffff9

abbrev pub implemented : ℕ → ℕ
implemented n = bit_and n 0x8000003f

abbrev pub no_event : Event
no_event = record { event_id = 0; event_code = 0; physical_counter = 0 }

pub restored_owned_fields_equal : Snapshot → Snapshot → Configuration → Bool
restored_owned_fields_equal current original configuration =
    configuration.event_count == 1
    && ((get_or configuration.events 0 no_event).physical_counter == 5
        && (current.event_counter_count == original.event_counter_count
            && (without_reset current.raw_pmcr == without_reset original.raw_pmcr
                && (implemented current.raw_pmcntenset == implemented original.raw_pmcntenset
                    && (implemented current.raw_pmovsr == implemented original.raw_pmovsr
                        && (current.raw_pmselr == original.raw_pmselr
                            && (current.raw_pmccntr == original.raw_pmccntr
                                && (current.raw_pmuserenr == original.raw_pmuserenr
                                    && (implemented current.raw_pmintenset
                                          == implemented original.raw_pmintenset
                                        && (same_bytes current.raw_pmxevtyper
                                              original.raw_pmxevtyper
                                            && same_bytes current.raw_pmxevcntr
                                                original.raw_pmxevcntr))))))))))

pub owner_valid : Owner → Bool
owner_valid owner =
    not (is_neg owner.owner_pid) && (not (owner.owner_token == 0) && ltb owner.core_id 4)

abbrev pub same_int : ℤ → ℤ → Bool
same_int (pos m) (pos n) = m == n
same_int (pos m) (negsuc n) = false
same_int (negsuc m) (pos n) = false
same_int (negsuc m) (negsuc n) = m == n

pub owner_equal : Owner → Owner → Bool
owner_equal left right =
    same_int left.owner_pid right.owner_pid
    && (left.owner_token == right.owner_token && left.core_id == right.core_id)

pub backend_failure : ℤ → ℤ
backend_failure result = if is_neg result then result else error 109

-- `g_allowlisted_events`: each event's number and its code.
abbrev allowlisted_events : List (ℕ × ℕ)
allowlisted_events =
    (1, 0x01)
    ∷ (2, 0x03)
    ∷ (3, 0x04)
    ∷ (4, 0x10)
    ∷ (5, 0x12)
    ∷ (6, 0x70)
    ∷ (7, 0x71)
    ∷ (8, 0x72)
    ∷ (9, 0x73)
    ∷ (10, 0x74)
    ∷ (11, 0x00)
    ∷ []

pub lookup_in : List (ℕ × ℕ) → ℕ → Option Event
lookup_in [] event_id = none
lookup_in ((id, code) ∷ events) event_id =
    if id == event_id
    then some (record { event_id = event_id; event_code = code; physical_counter = 0 })
    else lookup_in events event_id

-- `vdPmuSessionLookupEvent`; `none` is its error.
pub lookup_event : ℕ → Option Event
lookup_event event_id = lookup_in allowlisted_events event_id

abbrev pub is_known : ℕ → Bool
is_known event_id = elim (lookup_event event_id) [ none ↦ false | some e ↦ true ]

abbrev pub occurs : ℕ → List ℕ → Bool
occurs x [] = false
occurs x (y ∷ ys) = x == y || occurs x ys

-- The loop of `request_valid` over the event numbers, from `i` on, behind those that are `seen`.
pub ids_valid : ℕ → ℕ → List ℕ → List ℕ → Bool
ids_valid event_count i seen [] = true
ids_valid event_count i seen (id ∷ ids) =
    let rest = ids_valid event_count (i + 1) (id ∷ seen) ids in
    if leb event_count i
    then id == 0 && rest
    else not (id == 0) && (is_known id && (not (occurs id seen) && rest))

pub request_valid : Request → Bool
request_valid request =
    request.struct_size == 48
    && (request.abi_version == 1
        && (leb 250 request.lease_ms
            && (leb request.lease_ms 5000
                && (request.flags == 0
                    && (request.event_count == 1
                        && (same_bytes request.reserved (0 ∷ 0 ∷ 0 ∷ [])
                            && ids_valid request.event_count 0 [] request.event_ids))))))

-- The events of a configuration: the first `count` are looked up, the others are zero.
pub make_events : ℕ → List ℕ → Option (List Event)
make_events count [] = some []
make_events zero (id ∷ ids) = elim (make_events zero ids) [
  | none ↦ none
  | some events ↦ some (no_event ∷ events)
]
make_events (suc count) (id ∷ ids) = elim (lookup_event id) [
  | none ↦ none
  | some event ↦ elim (make_events count ids) [
    | none ↦ none
    | some events ↦ some (record event { physical_counter = 5 } ∷ events)
  ]
]

-- The error, or what goes to `configuration`.
pub make_configuration : Request → Snapshot → ℤ ⊎ Configuration
make_configuration request snapshot =
    if not (implemented snapshot.raw_pmcntenset == 0)
      || (not (implemented snapshot.raw_pmintenset == 0)
          || not (implemented snapshot.raw_pmovsr == 0))
    then inl (error 108)
    else elim (make_events request.event_count request.event_ids) [
      | none ↦ inl (error 103)
      | some events ↦ inr (record {
        flags = request.flags;
        event_count = request.event_count;
        control_flags = if snapshot.raw_pmcr % 2 == 0 then 1 else 0;
        events = events;
      })
    ]

pub saturating_deadline : ℕ → ℕ → ℕ
saturating_deadline now_ms lease_ms =
    if ltb (2 ^ 64 - 1 - now_ms) lease_ms then 2 ^ 64 - 1 else now_ms + lease_ms
