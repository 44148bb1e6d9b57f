-- ===== src/Tests/Counters.antt =====
-- A backend of idle counters, and instances of what is proved of their leases.
use vita_debugger.Prelude.{ℕ, ◌+◌, ◌*◌, ◌≡◌, ◌⊎◌, refl, true, [], ◌∷◌, none, replicate}
use vita_debugger.Prelude.Int.{ℤ, pos, is_neg}
use vita_debugger.Pmu.{Owner, Snapshot, Configuration, Request, Session, cookie, active, empty}
use vita_debugger.Pmu.Acquire.{Backend, acquire}
use vita_debugger.Pmu.Leases.{read, restore, watchdog}
use vita_debugger.Pmu.Restored.{IsReadOnly, IsKept, Settles, lease_calls-Settles}
use vita_debugger.Pmu.Taken.{Leaves, acquire-Leaves}
use vita_debugger.Pmu.Rights.{IsEntitled, InLease, lease_rights}

abbrev idle : Snapshot
idle = record {
  event_counter_count = 6;
  raw_pmcr = 6 * 2048;
  raw_pmcntenset = 0;
  raw_pmovsr = 0;
  raw_pmselr = 0;
  raw_pmccntr = 0;
  raw_pmuserenr = 0;
  raw_pmintenset = 0;
  raw_pmxevtyper = replicate 6 0;
  raw_pmxevcntr = replicate 6 0;
}

-- The counters and the clock, which every look moves on.
abbrev machine : Backend
machine = record {
  State = Snapshot × ℕ;
  snapshot = λ s core. (pos 0, s.0, s);
  configure = λ s core c. (pos 0, (record s.0 { raw_pmcntenset = 32 }, s.1));
  read = λ s core c. (pos 0, record { cycles = 0; events = 7 ∷ [] }, s);
  restore = λ s core c original. (pos 0, (original, s.1));
  now_ms = λ s. (pos 0, s.1, (s.0, s.1 + 1));
}

machine-IsReadOnly : IsReadOnly machine
machine-IsReadOnly = record {
  hardware = λ s core. s.0;
  snapshot_exact = λ s core e. refl;
  snapshot_keeps = λ s core. refl;
  read_keeps = λ s core c. refl;
  now_keeps = λ s. refl;
}

abbrev caller : Owner
caller = record { owner_pid = pos 5; owner_token = 9; core_id = 1 }

abbrev request : Request
request = record {
  struct_size = 48;
  abi_version = 1;
  lease_ms = 500;
  flags = 0;
  event_count = 1;
  event_ids = 2 ∷ 0 ∷ 0 ∷ 0 ∷ [];
  reserved = 0 ∷ 0 ∷ 0 ∷ [];
}

abbrev lane : Configuration
lane = record {
  flags = 0;
  event_count = 1;
  control_flags = 1;
  events = record { event_id = 2; event_code = 3; physical_counter = 5 } ∷ [];
}

abbrev leased : Session
leased = record {
  initialization_cookie = cookie;
  next_lease_token = 2;
  lease_token = 1;
  acquired_ms = 100;
  deadline_ms = 600;
  state = active;
  last_backend_error = pos 0;
  owner = caller;
  configuration = lane;
  original = idle;
}

abbrev unleased : Session
unleased = record leased { lease_token = 0; state = empty }

leased-IsKept : IsKept machine machine-IsReadOnly 1 lane idle leased
leased-IsKept = record {
  stands = refl;
  core_at = refl;
  configuration_at = refl;
  original_at = refl;
}

abbrev running : Snapshot × ℕ
running = (record idle { raw_pmcntenset = 32 }, 300)

acquire-Leaves_example :
    Leaves machine machine-IsReadOnly 1
      (machine-IsReadOnly.hardware (idle, 100) 1)
      unleased
      (machine-IsReadOnly.hardware (idle, 100))
      (acquire machine unleased caller request (idle, 100))
acquire-Leaves_example =
    acquire-Leaves machine machine-IsReadOnly unleased caller request (idle, 100)

lease_calls-Settles_example :
    Settles machine machine-IsReadOnly 1 lane idle
      (read machine leased caller 1 running).2
      (read machine leased caller 1 running).3
    × Settles machine machine-IsReadOnly 1 lane idle
        (restore machine leased caller 1 running).1
        (restore machine leased caller 1 running).2
    × Settles machine machine-IsReadOnly 1 lane idle
        (watchdog machine leased running).1
        (watchdog machine leased running).2
lease_calls-Settles_example =
    lease_calls-Settles machine machine-IsReadOnly 1 lane idle leased leased-IsKept caller 1 running

lease_rights_example :
    ((failure : ℤ) × (is_neg failure ≡ true)
      × (read machine leased caller 1 running ≡ (failure, none, leased, running))
      × (restore machine leased caller 1 running ≡ (failure, leased, running)))
    ⊎ (IsEntitled leased caller 1 × InLease machine leased (read machine leased caller 1 running))
lease_rights_example = lease_rights machine leased caller 1 running
