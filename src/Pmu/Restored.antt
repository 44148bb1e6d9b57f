-- ===== src/Pmu/Restored.antt =====
-- What becomes of the hardware's state in kernel/src/pmu_session.c: while a lease stands, the session
-- keeps what it was before, and without a lease it was seen to be as before.
use vita_debugger.Prelude.{
  ℕ, ◌≡◌, refl, ◌⊎◌, inl, inr, true, false, ◌||◌, ltb, leb, ◌==◌, Bool-cases, Option-cases,
}
use vita_debugger.Prelude.Int.{ℤ, is_zero}
use vita_debugger.Pmu.{
  Owner, Snapshot, Configuration, CounterValues, empty, Session, cookie, backend_failure,
  restored_owned_fields_equal,
}
use vita_debugger.Pmu.Acquire.{
  Backend, is_empty, is_pending, owner_and_token_valid, restore_exact, restore_for, clear_lease,
}
use vita_debugger.Pmu.Leases.{complete_read, read_active, read, restore, watch_active, watchdog}

-- What is relied on: of the hardware, which is the counters of every core, a snapshot shows a core's
-- if it succeeds, and neither it nor a reading nor the clock changes any.
pub record IsReadOnly (b : Backend) : Type 0 where
  pub hardware : b.State → ℕ → Snapshot
  pub snapshot_exact :
      (s : b.State) (core : ℕ)
      → is_zero (b.snapshot s core).0 ≡ true
      → (b.snapshot s core).1 ≡ hardware s core
  pub snapshot_keeps : (s : b.State) (core : ℕ) → hardware (b.snapshot s core).2 ≡ hardware s
  pub read_keeps :
      (s : b.State) (core : ℕ) (c : Configuration) → hardware (b.read s core c).2 ≡ hardware s
  pub now_keeps : (s : b.State) → hardware (b.now_ms s).2 ≡ hardware s

module _ (b : Backend) (f : IsReadOnly b) where
  -- A lease that keeps what the hardware was, or none, where the hardware is as it was.
  pub record IsKept (core : ℕ) (c : Configuration) (original : Snapshot) (session : Session)
      : Type 0 where
    pub stands : is_empty session.state ≡ false
    pub core_at : session.owner.core_id ≡ core
    pub configuration_at : session.configuration ≡ c
    pub original_at : session.original ≡ original

  abbrev pub Settles : ℕ → Configuration → Snapshot → Session → b.State → Type 0
  Settles core c original session s =
      IsKept core c original session
      ⊎ ((session.state ≡ empty)
          × (restored_owned_fields_equal (f.hardware s core) original c ≡ true))

  restore_exact-Settles :
      (core : ℕ) (c : Configuration) (original : Snapshot) (session : Session) (s : b.State)
      → session.owner.core_id ≡ core
      → session.configuration ≡ c
      → session.original ≡ original
      → Settles core c original (restore_exact b session s).1 (restore_exact b session s).2
  unfolding restore_exact clear_lease
  restore_exact-Settles core c original session s e e' e'' =
      let (result, s₁) = b.restore s session.owner.core_id session.configuration session.original in
      let (result', verification, s₂) = b.snapshot s₁ session.owner.core_id in
      elim (Bool-cases (is_zero result)) [
        | inr z ↦
            rw z (
              inl (record { stands = refl; core_at = e; configuration_at = e'; original_at = e'' }))
        | inl z ↦ elim (Bool-cases (is_zero result')) [
          | inr z' ↦
              rw (z, z')
                (inl
                  (record { stands = refl; core_at = e; configuration_at = e'; original_at = e'' }))
          | inl z' ↦
              elim (Bool-cases
                (restored_owned_fields_equal verification session.original session.configuration)) [
                  | inr z'' ↦
                      rw (z, z', z'')
                        (inl (record {
                          stands = refl;
                          core_at = e;
                          configuration_at = e';
                          original_at = e'';
                        }))
                  | inl z'' ↦
                      rw (z, z', z'')
                        (inr (
                          refl,
                          rw
                              (
                                ← e,
                                ← e',
                                ← e'',
                                f.snapshot_keeps s₁ session.owner.core_id,
                                ← f.snapshot_exact s₁ session.owner.core_id z',
                              )
                              z'',
                        ))
                ]
        ]
      ]

  -- A restoration of a lease that is kept, whatever its last error is noted as.
  pub give_back :
      (core : ℕ) (c : Configuration) (original : Snapshot) (session : Session) (last : ℤ)
      (s : b.State)
      → IsKept core c original session
      → let noted = record session { last_backend_error = last } in
        Settles core c original (restore_exact b noted s).1 (restore_exact b noted s).2
  give_back core c original session last s k =
      restore_exact-Settles core c original (record session { last_backend_error = last }) s
        k.core_at k.configuration_at k.original_at

  module _ (core : ℕ) (c : Configuration) (original : Snapshot) (session : Session)
      (k : IsKept core c original session) where
    complete_read-Settles :
        (now_ms : ℕ) (values : CounterValues) (s : b.State)
        → Settles core c original
            (complete_read b session now_ms values s).2
            (complete_read b session now_ms values s).3
    unfolding complete_read restore_for
    complete_read-Settles now_ms values s =
        let (clock, completed_ms, s') = b.now_ms s in
        elim (Bool-cases (is_zero clock)) [
          | inr z ↦ rw z (give_back core c original session (backend_failure clock) s' k)
          | inl z ↦
              elim (Bool-cases (ltb completed_ms now_ms || ltb completed_ms session.acquired_ms)) [
                | inl y ↦
                    rw (z, y) (give_back core c original session session.last_backend_error s' k)
                | inr y ↦ elim (Bool-cases (leb session.deadline_ms completed_ms)) [
                  | inl x ↦
                      rw (z, y, x)
                        (give_back core c original session session.last_backend_error s' k)
                  | inr x ↦ rw (z, y, x) (inl k)
                ]
              ]
        ]

    read_active-Settles :
        (s : b.State)
        → Settles core c original (read_active b session s).2 (read_active b session s).3
    unfolding read_active restore_for
    read_active-Settles s =
        let (clock, now_ms, s₁) = b.now_ms s in
        let (result, values, s₂) = b.read s₁ session.owner.core_id session.configuration in
        elim (Bool-cases (is_zero clock)) [
          | inr z ↦ rw z (give_back core c original session (backend_failure clock) s₁ k)
          | inl z ↦ elim (Bool-cases (ltb now_ms session.acquired_ms)) [
            | inl y ↦ rw (z, y) (give_back core c original session session.last_backend_error s₁ k)
            | inr y ↦ elim (Bool-cases (leb session.deadline_ms now_ms)) [
              | inl x ↦
                  rw (z, y, x) (give_back core c original session session.last_backend_error s₁ k)
              | inr x ↦ elim (Bool-cases (is_zero result)) [
                | inr w ↦
                    rw (z, y, x, w)
                      (give_back core c original session (backend_failure result) s₂ k)
                | inl w ↦ rw (z, y, x, w) (complete_read-Settles now_ms values s₂)
              ]
            ]
          ]
        ]

    watch_active-Settles :
        (s : b.State)
        → Settles core c original (watch_active b session s).1 (watch_active b session s).2
    unfolding watch_active restore_for
    watch_active-Settles s =
        let (clock, now_ms, s') = b.now_ms s in
        elim (Bool-cases (is_zero clock)) [
          | inr z ↦ rw z (give_back core c original session (backend_failure clock) s' k)
          | inl z ↦ elim (Bool-cases (ltb now_ms session.acquired_ms)) [
            | inl y ↦ rw (z, y) (give_back core c original session session.last_backend_error s' k)
            | inr y ↦ elim (Bool-cases (ltb now_ms session.deadline_ms)) [
              | inl x ↦ rw (z, y, x) (inl k)
              | inr x ↦
                  rw (z, y, x) (give_back core c original session session.last_backend_error s' k)
            ]
          ]
        ]

    read-Settles :
        (owner : Owner) (token : ℕ) (s : b.State)
        → Settles core c original (read b session owner token s).2 (read b session owner token s).3
    unfolding read
    read-Settles owner token s = elim (Option-cases (owner_and_token_valid session owner token)) [
      | inr (failure, e) ↦ rw (read, e) (inl k)
      | inl e ↦ elim (Bool-cases (is_pending session.state)) [
        | inl p ↦ rw (read, e, p) (inl k)
        | inr p ↦ rw (read, e, p) (read_active-Settles s)
      ]
    ]

    restore-Settles :
        (owner : Owner) (token : ℕ) (s : b.State)
        → Settles core c original
            (restore b session owner token s).1
            (restore b session owner token s).2
    unfolding restore
    restore-Settles owner token s =
        elim (Option-cases (owner_and_token_valid session owner token)) [
          | inr (failure, e) ↦ rw (restore, e) (inl k)
          | inl e ↦
              rw (restore, e) (give_back core c original session session.last_backend_error s k)
        ]

    watchdog-Settles :
        (s : b.State) → Settles core c original (watchdog b session s).1 (watchdog b session s).2
    unfolding watchdog restore_for
    watchdog-Settles s = elim (Bool-cases (session.initialization_cookie == cookie)) [
      | inr e ↦ rw e (inl k)
      | inl e ↦ elim (Bool-cases (is_pending session.state)) [
        | inl p ↦
            rw (e, k.stands, p) (give_back core c original session session.last_backend_error s k)
        | inr p ↦ rw (e, k.stands, p) (watch_active-Settles s)
      ]
    ]

    -- While a lease stands and keeps a configuration and what the hardware of its core was, a call of
    -- `vdPmuSessionRead`, `vdPmuSessionRestore` or `vdPmuSessionWatchdog`, with whatever owner and
    -- token and whether its callbacks fail or not, leaves the lease standing with both, or no lease
    -- and the hardware of the core equal to that, in the fields that a lease owns.
    pub lease_calls-Settles :
        (owner : Owner) (token : ℕ) (s : b.State)
        → Settles core c original (read b session owner token s).2 (read b session owner token s).3
          × Settles core c original
              (restore b session owner token s).1
              (restore b session owner token s).2
          × Settles core c original (watchdog b session s).1 (watchdog b session s).2
    lease_calls-Settles owner token s =
        (read-Settles owner token s, restore-Settles owner token s, watchdog-Settles s)
