-- ===== src/Pmu/Taken.antt =====
-- What `vdPmuSessionAcquire` of kernel/src/pmu_session.c does to the hardware and the session.
use Prim.Native.Nat.{bit_and}
use vita_debugger.Prelude.{
  ℕ, subst, ◌/◌, ◌%◌, ◌^◌, ◌≡◌, refl, ap, ◌∙◌, ◌⊎◌, inl, inr, not, ◌||◌, Option, ltb, leb, ◌==◌,
  Bool-cases,
}
use vita_debugger.Prelude.Int.{ℤ, pos, is_zero}
use vita_debugger.Pmu.{
  Owner, Snapshot, Configuration, Session, cookie, backend_failure, make_configuration,
  saturating_deadline, owner_valid, request_valid, Request,
}
use vita_debugger.Pmu.Acquire.{
  Backend, is_empty, is_pending, take_lease_token, abandon, configure_lease, published,
  acquire_from, acquire,
}
use vita_debugger.Pmu.Restored.{IsReadOnly, IsKept, Settles, give_back}

sum-cases {ℓ κ} :
    {A : Type ℓ} {B : Type κ} (x : A ⊎ B) → ((a : A) × (x ≡ inl a)) ⊎ ((b : B) × (x ≡ inr b))
sum-cases (inl a) = inl (a, refl)
sum-cases (inr b) = inr (b, refl)

module _ (b : Backend) (f : IsReadOnly b) where
  -- Nothing happened, or a lease is kept or given back.
  abbrev pub Leaves :
      ℕ → Snapshot → Session → (ℕ → Snapshot) → ℤ × Option ℕ × Session × b.State → Type 0
  Leaves core original session before (result, token, session', s') =
      ((session' ≡ session) × (f.hardware s' ≡ before))
      ⊎ ((c : Configuration) × Settles b f core c original session' s')

  configure_lease-Settles :
      (core : ℕ) (c : Configuration) (original : Snapshot) (session : Session) (s : b.State)
      → IsKept b f core c original session
      → Settles b f core c original (configure_lease b session s).2 (configure_lease b session s).3
  unfolding configure_lease abandon
  configure_lease-Settles core c original session s k =
      let (result, s₁) = b.configure s session.owner.core_id session.configuration in
      let (clock, configured_ms, s₂) = b.now_ms s₁ in
      elim (Bool-cases (is_zero result)) [
        | inr z ↦ rw z (give_back b f core c original session (backend_failure result) s₁ k)
        | inl z ↦ elim (Bool-cases (is_zero clock)) [
          | inr y ↦ rw (z, y) (give_back b f core c original session (backend_failure clock) s₂ k)
          | inl y ↦ elim (Bool-cases (ltb configured_ms session.acquired_ms)) [
            | inl x ↦ rw (z, y, x) (give_back b f core c original session (pos 0) s₂ k)
            | inr x ↦ elim (Bool-cases (leb session.deadline_ms configured_ms)) [
              | inl w ↦ rw (z, y, x, w) (give_back b f core c original session (pos 0) s₂ k)
              | inr w ↦
                  rw (z, y, x, w)
                    (inl (record {
                      stands = refl;
                      core_at = k.core_at;
                      configuration_at = k.configuration_at;
                      original_at = k.original_at;
                    }))
            ]
          ]
        ]
      ]

  published-IsKept :
      (session : Session) (owner : Owner) (c : Configuration) (original : Snapshot)
      (start deadline : ℕ)
      → IsKept b f owner.core_id c original (published b session owner c original start deadline)
  unfolding take_lease_token
  published-IsKept session owner c original start deadline = record {
    stands = refl;
    core_at = refl;
    configuration_at = refl;
    original_at = refl;
  }

  acquire_from-Leaves :
      (session : Session) (owner : Owner) (request : Request) (original : Snapshot) (start : ℕ)
      (s : b.State)
      → Leaves owner.core_id original session
          (f.hardware s)
          (acquire_from b session owner request original start s)
  unfolding acquire_from
  acquire_from-Leaves session owner request original start s =
      let deadline = saturating_deadline start request.lease_ms in
      let (clock, before_ms, s') = b.now_ms s in
      elim (Bool-cases (
        not (original.event_counter_count == 6)
        || (not (bit_and original.raw_pmcr 6 == 0)
            || (not ((original.raw_pmcr / 2 ^ 11) % 32 == original.event_counter_count)
                || leb original.event_counter_count original.raw_pmselr)))) [
                  | inl g ↦ rw g (inl (refl, refl))
                  | inr g ↦ elim (sum-cases (make_configuration request original)) [
                    | inl (failure, m) ↦ rw (acquire_from, g, m) (inl (refl, refl))
                    | inr (c, m) ↦ elim (Bool-cases (is_zero clock)) [
                      | inr z ↦ rw (acquire_from, g, m, z) (inl (refl, f.now_keeps s))
                      | inl z ↦ elim (Bool-cases (ltb before_ms start)) [
                        | inl y ↦ rw (acquire_from, g, m, z, y) (inl (refl, f.now_keeps s))
                        | inr y ↦ elim (Bool-cases (leb deadline before_ms)) [
                          | inl x ↦ rw (acquire_from, g, m, z, y, x) (inl (refl, f.now_keeps s))
                          | inr x ↦
                              rw (acquire_from, g, m, z, y, x)
                                (inr (
                                  c,
                                  configure_lease-Settles owner.core_id c original
                                      (published b session owner c original start deadline) s'
                                      (published-IsKept session owner c original start deadline),
                                ))
                        ]
                      ]
                    ]
                  ]
                ]

  -- `vdPmuSessionAcquire`, whether its callbacks fail or not, leaves the session and the hardware as
  -- they were, or, with some configuration, the session with a lease that keeps what the hardware of
  -- the owner's core was before the call, or no lease and the hardware of that core equal to what it
  -- was, in the fields that a lease owns.
  pub acquire-Leaves :
      (session : Session) (owner : Owner) (request : Request) (s : b.State)
      → Leaves owner.core_id
          (f.hardware s owner.core_id)
          session
          (f.hardware s)
          (acquire b session owner request s)
  unfolding acquire
  acquire-Leaves session owner request s =
      let (clock, start_ms, s₁) = b.now_ms s in
      let (result, original, s₂) = b.snapshot s₁ owner.core_id in
      let kept = f.snapshot_keeps s₁ owner.core_id ∙ f.now_keeps s in
      elim (Bool-cases (
        not (session.initialization_cookie == cookie)
        || (not (owner_valid owner) || not (request_valid request)))) [
          | inl e ↦ rw e (inl (refl, refl))
          | inr e ↦ elim (Bool-cases (is_pending session.state)) [
            | inl p ↦ rw (e, p) (inl (refl, refl))
            | inr p ↦ elim (Bool-cases (is_empty session.state)) [
              | inr q ↦ rw (e, p, q) (inl (refl, refl))
              | inl q ↦ elim (Bool-cases (is_zero clock)) [
                | inr z ↦ rw (e, p, q, z) (inl (refl, f.now_keeps s))
                | inl z ↦ elim (Bool-cases (is_zero result)) [
                  | inr y ↦ rw (e, p, q, z, y) (inl (refl, kept))
                  | inl y ↦
                      rw (e, p, q, z, y)
                        (subst
                          (λ o.
                            Leaves owner.core_id o session (f.hardware s)
                              (acquire_from b session owner request original start_ms s₂))
                          (f.snapshot_exact s₁ owner.core_id y
                            ∙ ap (λ h. h owner.core_id) (f.now_keeps s))
                          (subst
                            (λ h.
                              Leaves owner.core_id original session h
                                (acquire_from b session owner request original start_ms s₂))
                            kept (acquire_from-Leaves session owner request original start_ms s₂)))
                ]
              ]
            ]
          ]
        ]
