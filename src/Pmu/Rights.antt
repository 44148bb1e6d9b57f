-- ===== src/Pmu/Rights.antt =====
-- Who may use a lease of kernel/src/pmu_session.c, and when.
use vita_debugger.Prelude.{
  ℕ, ◌≤◌, ◌<◌, ◌≡◌, refl, ◌⊎◌, inl, inr, true, false, not, ◌||◌, Option, none, some, ltb, leb, ◌==◌,
  Bool-cases, arith,
}
use vita_debugger.Prelude.Int.{ℤ, pos, is_neg, is_zero}
use vita_debugger.Pmu.{
  error, Owner, Reading, Session, cookie, CounterValues, owner_valid, owner_equal,
}
use vita_debugger.Pmu.Acquire.{Backend, is_empty, is_pending, owner_and_token_valid}
use vita_debugger.Pmu.Leases.{complete_read, reading_of, read_active, read, restore}

-- The lease is the caller's.
pub record IsEntitled (session : Session) (owner : Owner) (token : ℕ) : Type 0 where
  pub valid : owner_valid owner ≡ true
  pub same_owner : owner_equal owner session.owner ≡ true
  pub same_token : token ≡ session.lease_token
  pub stands : is_empty session.state ≡ false

owner_and_token_valid-cases :
    (session : Session) (owner : Owner) (token : ℕ)
    → ((failure : ℤ) × (is_neg failure ≡ true)
        × (owner_and_token_valid session owner token ≡ some failure))
      ⊎ (IsEntitled session owner token × (owner_and_token_valid session owner token ≡ none))
unfolding owner_and_token_valid
owner_and_token_valid-cases session owner token =
    elim (Bool-cases (not (session.initialization_cookie == cookie) || is_empty session.state)) [
      | inl e ↦ inl (error 107, refl, rw e refl)
      | inr e ↦
          elim (Bool-cases (
            not (owner_valid owner)
            || (token == 0
                || (not (token == session.lease_token)
                    || not (owner_equal owner session.owner))))) [
                      | inl d ↦ inl (error 102, refl, rw (e, d) refl)
                      | inr d ↦ inr (
                        record {
                          valid = ground arith;
                          same_owner = ground arith;
                          same_token = ground arith;
                          stands = ground arith;
                        },
                        rw (e, d) refl,
                      )
                    ]
    ]

module _ (b : Backend) where
  -- A reading, if there is one, is of the lease, and of a moment within it.
  abbrev pub InLease : Session → ℤ × Option Reading × Session × b.State → Type 0
  InLease session (result, reading, session', s') =
      (reading ≡ none)
      ⊎ ((r : Reading) × (reading ≡ some r)
          × (result ≡ pos 0)
          × (session' ≡ session)
          × (r.lease_token ≡ session.lease_token)
          × (session.acquired_ms ≤ r.timestamp_ms)
          × (r.timestamp_ms < session.deadline_ms))

  complete_read-InLease :
      (session : Session) (now_ms : ℕ) (values : CounterValues) (s : b.State)
      → InLease session (complete_read b session now_ms values s)
  unfolding complete_read reading_of
  complete_read-InLease session now_ms values s =
      let (clock, completed_ms, s') = b.now_ms s in
      elim (Bool-cases (is_zero clock)) [
        | inr z ↦ rw z (inl refl)
        | inl z ↦
            elim (Bool-cases (ltb completed_ms now_ms || ltb completed_ms session.acquired_ms)) [
              | inl y ↦ rw (z, y) (inl refl)
              | inr y ↦ elim (Bool-cases (leb session.deadline_ms completed_ms)) [
                | inl x ↦ rw (z, y, x) (inl refl)
                | inr x ↦
                    rw (z, y, x)
                      (inr (
                        reading_of session values completed_ms,
                        refl,
                        refl,
                        refl,
                        refl,
                        since now_ms y,
                        until x,
                      ))
              ]
            ]
      ]
    where
      since :
          {t : ℕ} (n : ℕ) → (ltb t n || ltb t session.acquired_ms) ≡ false → session.acquired_ms ≤ t
      since n e = ground arith

      until : {t : ℕ} → leb session.deadline_ms t ≡ false → t < session.deadline_ms
      until e = ground arith

  read_active-InLease :
      (session : Session) (s : b.State) → InLease session (read_active b session s)
  unfolding read_active
  read_active-InLease session s =
      let (clock, now_ms, s₁) = b.now_ms s in
      let (result, values, s₂) = b.read s₁ session.owner.core_id session.configuration in
      elim (Bool-cases (is_zero clock)) [
        | inr z ↦ rw z (inl refl)
        | inl z ↦ elim (Bool-cases (ltb now_ms session.acquired_ms)) [
          | inl y ↦ rw (z, y) (inl refl)
          | inr y ↦ elim (Bool-cases (leb session.deadline_ms now_ms)) [
            | inl x ↦ rw (z, y, x) (inl refl)
            | inr x ↦ elim (Bool-cases (is_zero result)) [
              | inr w ↦ rw (z, y, x, w) (inl refl)
              | inl w ↦ rw (z, y, x, w) (complete_read-InLease session now_ms values s₂)
            ]
          ]
        ]
      ]

  -- Without a standing lease, or with another owner or token than the lease's,
  -- `vdPmuSessionRead` and `vdPmuSessionRestore` fail with an error and touch neither the session nor
  -- the hardware, the clock included. To the owner with the token a reading that succeeds leaves the
  -- session as it is, bears the token and lies within the lease.
  pub lease_rights :
      (session : Session) (owner : Owner) (token : ℕ) (s : b.State)
      → ((failure : ℤ) × (is_neg failure ≡ true)
          × (read b session owner token s ≡ (failure, none, session, s))
          × (restore b session owner token s ≡ (failure, session, s)))
        ⊎ (IsEntitled session owner token × InLease session (read b session owner token s))
  unfolding read restore
  lease_rights session owner token s = elim (owner_and_token_valid-cases session owner token) [
    | inl (failure, negative, e) ↦ inl (failure, negative, rw (read, e) refl, rw (restore, e) refl)
    | inr (entitled, e) ↦ elim (Bool-cases (is_pending session.state)) [
      | inl p ↦ inr (entitled, rw (read, e, p) (inl refl))
      | inr p ↦ inr (entitled, rw (read, e, p) (read_active-InLease session s))
    ]
  ]
