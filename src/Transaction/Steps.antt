-- ===== src/Transaction/Steps.antt =====
-- The steps of a memory transaction: what each result says of the target's memory and of the
-- transaction, which until it is cleared keeps the bytes to restore.
use vita_debugger.Prelude.{
  ℕ, ◌≡◌, ◌⊎◌, refl, ap, ◌∙◌, Bool, true, false, not, ◌&&◌, ◌||◌, List, Option, none, some, ltb,
  ◌==◌, take, arith, Bool-cases, ==_iff, inl, inr,
}
use vita_debugger.Target.{Target, IsFaithful, view, view-same}
use vita_debugger.Spans.{spans_overlap}
use vita_debugger.Transaction.{
  Result, ok, invalid, read_failed, write_failed_restored, restore_pending, state_error, idle,
  prepared, applied, is_idle, is_prepared, Phase, Buffer, is_null, base_of, bytes_of, filled,
  Transaction, clear_transaction, past_end, sync_negative, verify_bytes, restore_original, prepare,
  settle, restore, apply,
}
use vita_debugger.Transaction.Obliged.{unready, Obliged, unready-Obliged, Obliged-unready}
use vita_debugger.Transaction.Verify.{verify_bytes_lem}

is_idle_lem : (state : Phase) → is_idle state ≡ true → state ≡ idle
is_idle_lem idle h = refl
is_idle_lem prepared h = absurd (cc h)
is_idle_lem applied h = absurd (cc h)

filled_lem :
    (buffer : Option Buffer) (contents : List ℕ)
    → is_null buffer ≡ false
    → bytes_of (filled buffer contents) ≡ contents
filled_lem none contents h = absurd (cc h)
filled_lem (some buffer) contents h = refl

filled_null :
    (buffer : Option Buffer) (contents : List ℕ) → is_null (filled buffer contents) ≡ is_null buffer
filled_null none contents = refl
filled_null (some buffer) contents = refl

module _ (t : Target) (f : IsFaithful t) where
  abbrev pub OriginalBack : ℕ → List ℕ → ℕ → Result × t.State → Type 0
  OriginalBack a original size (r, s') =
      ((r ≡ write_failed_restored) × (view (f.byte s') a size ≡ take size original))
      ⊎ (r ≡ restore_pending)

  verified-view :
      (s : t.State) (a : ℕ) (expected : List ℕ) (size : ℕ)
      → (verify_bytes t s a expected size).0 ≡ true
      → view (f.byte (verify_bytes t s a expected size).1) a size ≡ take size expected
  verified-view s a expected size h =
      view-same _ _ a size (verify_bytes_lem t f s a expected size).1
      ∙ (verify_bytes_lem t f s a expected size).0 h

  -- Rewriting the original bytes reports that they are back only if they are.
  pub restore_original_lem :
      (s : t.State) (a : ℕ) (original : List ℕ) (size : ℕ)
      → OriginalBack a original size (restore_original t s a original size)
  unfolding restore_original
  restore_original_lem s a original size =
      elim (Bool-cases (written == size && (not failed && seen))) [
        | inr doubt ↦ rw doubt (inr refl)
        | inl exact ↦ rw exact (inl (refl, verified-view s₂ a original size (third _ _ _ exact)))
      ]
    where
      written : ℕ
      written = (t.write s a (take size original)).0

      failed : Bool
      failed = (sync_negative t (t.write s a (take size original)).1 a size).0

      s₂ : t.State
      s₂ = (sync_negative t (t.write s a (take size original)).1 a size).1

      seen : Bool
      seen = (verify_bytes t s₂ a original size).0

      third : (p q r : Bool) → (p && (not q && r)) ≡ true → r ≡ true
      third p q r h = ground arith

  -- What a call of `restore` has come to, from a transaction.
  abbrev pub Restored : Transaction → Result × Transaction × t.State → Type 0
  Restored tx (r, tx', s') =
      ((r ≡ write_failed_restored)
        × (tx' ≡ clear_transaction tx)
        × (view (f.byte s') tx.address tx.size ≡ take tx.size (bytes_of tx.original)))
      ⊎ ((r ≡ restore_pending) × (tx' ≡ tx))

  settle_lem :
      (tx : Transaction) (done : Result × t.State)
      → OriginalBack tx.address (bytes_of tx.original) tx.size done
      → Restored tx (settle t tx done)
  unfolding settle
  settle_lem tx (r, s) (inl (e, back)) = rw e (inl (refl, refl, back))
  settle_lem tx (r, s) (inr e) = rw e (inr (refl, refl))

  restore-Restored :
      (tx : Transaction) (s : t.State)
      → ((unready tx ≡ true) × (restore t tx s ≡ (state_error, tx, s)))
        ⊎ ((unready tx ≡ false) × Restored tx (restore t tx s))
  unfolding restore
  restore-Restored tx s = elim (Bool-cases (unready tx)) [
    | inl e ↦ inl (e, rw e refl)
    | inr e ↦ inr (
      e,
      rw e (settle_lem tx _ (restore_original_lem s tx.address (bytes_of tx.original) tx.size)),
    )
  ]

  -- A transaction that was not prepared or applied, or whose original bytes are none or do not fit
  -- its buffer, is refused with STATE_ERROR, and neither it nor the target is touched. Of any other,
  -- the original bytes are back in the range and it is cleared, with WRITE_FAILED_RESTORED; or it is
  -- as it was, with RESTORE_PENDING.
  pub restore_lem :
      (tx : Transaction) (s : t.State)
      → ((¬ Obliged tx) × (restore t tx s ≡ (state_error, tx, s)))
        ⊎ (Obliged tx × Restored tx (restore t tx s))
  restore_lem tx s = elim (restore-Restored tx s) [
    | inl (u, e) ↦ inl (λ o. absurd (clash (Obliged-unready tx o) u), e)
    | inr (u, done) ↦ inr (unready-Obliged tx u, done)
  ]
    where
      clash : unready tx ≡ false → unready tx ≡ true → ⊥
      clash p q = cc (p, q)

  -- What preparing a transaction for a range has come to.
  abbrev pub Prepared : Transaction → ℕ → ℕ → t.State → Result × Transaction × t.State → Type 0
  Prepared tx a size s (r, tx', s') =
      ((b : ℕ) → f.byte s' b ≡ f.byte s b)
      × (((r ≡ ok)
            × (tx.state ≡ idle)
            × (tx'.state ≡ prepared)
            × (tx'.address ≡ a)
            × (tx'.size ≡ size)
            × (unready tx' ≡ false)
            × (take size (bytes_of tx'.original) ≡ view (f.byte s) a size))
          ⊎ (((r ≡ invalid) ⊎ ((r ≡ read_failed) ⊎ ((r ≡ ok) × (size ≡ 0))))
              × (record tx' { original = tx.original } ≡ tx)))

  -- Preparing a transaction, on a target whose full reads are right, changes no byte of memory, and
  -- the buffer aside leaves the transaction as it was, unless it succeeds for a size other than 0.
  -- Then the transaction is prepared for the range, fit to be restored, and its buffer holds the
  -- bytes in the range.
  pub prepare_lem :
      (tx : Transaction) (a size : ℕ) (s : t.State) → Prepared tx a size s (prepare t tx a size s)
  unfolding prepare
  prepare_lem tx a size s = elim (Bool-cases bad) [
    | inl e ↦ rw e (λ b. refl, inr (inl refl, refl))
    | inr e ↦ elim (Bool-cases (size == 0)) [
      | inl z ↦ rw (e, z) (λ b. refl, inr (inr (inr (refl, (==_iff _ _).0 z)), refl))
      | inr nz ↦ elim (Bool-cases ((t.read s a size).0 == size)) [
        | inr short ↦ rw (e, nz, short) (f.read_keeps s a size, inr (inr (inl refl), refl))
        | inl full ↦
            rw (e, nz, full)
              (
                f.read_keeps s a size,
                inl (
                  refl,
                  is_idle_lem tx.state (ground arith),
                  refl,
                  refl,
                  refl,
                  ready (ground arith) (ground arith) nz,
                  ap (take size) (filled_lem tx.original _ (ground arith))
                      ∙ f.read_exact s a size ((==_iff _ _).0 full),
                ),
              )
      ]
    ]
  ]
    where
      bad : Bool
      bad =
          not (is_idle tx.state)
          || (not (size == 0) && is_null tx.original
              || (ltb tx.capacity size || not (size == 0) && past_end a size))

      ready :
          is_null tx.original ≡ false
          → ltb tx.capacity size ≡ false
          → (size == 0) ≡ false
          → (is_null (filled tx.original (t.read s a size).1)
              || ((size == 0) || ltb tx.capacity size))
            ≡ false
      ready p q r = rw (filled_null tx.original (t.read s a size).1, p, q, r) refl

  -- What applying `input` has come to, from a transaction and a state.
  abbrev pub Applied : Transaction → List ℕ → ℕ → t.State → Result × Transaction × t.State → Type 0
  Applied tx input size s (r, tx', s') =
      ((r ≡ invalid) × (tx' ≡ tx) × (s' ≡ s))
      ⊎ (((r ≡ ok)
            × (tx' ≡ record tx { state = applied })
            × (view (f.byte s') tx.address size ≡ take size input))
          ⊎ (((unready tx ≡ true) × (r ≡ state_error) × (tx' ≡ tx)) ⊎ Restored tx (r, tx', s')))

  -- Applying a write has one of five results. It is refused, without a touch; the input stands in the
  -- range and the transaction, now applied, keeps the original; it failed, the original bytes are
  -- back in the range and the transaction is cleared; it failed and the transaction is as it was,
  -- with its original bytes, for another attempt to restore; or it failed on a transaction that
  -- cannot be restored, which is none that `prepare` has prepared.
  pub apply_lem :
      (tx : Transaction) (input : Option Buffer) (size : ℕ) (s : t.State)
      → Applied tx (bytes_of input) size s (apply t tx input size s)
  unfolding apply
  apply_lem tx input size s = elim (Bool-cases bad) [
    | inl e ↦ rw e (inl (refl, refl, refl))
    | inr e ↦ elim (Bool-cases (written == size)) [
      | inr short ↦ rw (e, short) (inr (inr (undo s₁)))
      | inl full ↦ elim (Bool-cases failed) [
        | inl sync ↦ rw (e, full, sync) (inr (inr (undo s₂)))
        | inr synced ↦ elim (Bool-cases (verify_bytes t s₂ tx.address (bytes_of input) size).0) [
          | inr differs ↦ rw (e, full, synced, differs) (inr (inr (undo s₃)))
          | inl same ↦
              rw (e, full, synced, same)
                (inr (inl (refl, refl, verified-view s₂ tx.address (bytes_of input) size same)))
        ]
      ]
    ]
  ]
    where
      bad : Bool
      bad =
          is_null input
          || (not (is_prepared tx.state)
              || (not (size == tx.size)
                  || spans_overlap (base_of input) size (base_of tx.original) tx.size))

      written : ℕ
      written = (t.write s tx.address (take size (bytes_of input))).0

      s₁ : t.State
      s₁ = (t.write s tx.address (take size (bytes_of input))).1

      failed : Bool
      failed = (sync_negative t s₁ tx.address size).0

      s₂ : t.State
      s₂ = (sync_negative t s₁ tx.address size).1

      s₃ : t.State
      s₃ = (verify_bytes t s₂ tx.address (bytes_of input) size).1

      undo :
          (s : t.State)
          → ((unready tx ≡ true) × ((restore t tx s).0 ≡ state_error) × ((restore t tx s).1 ≡ tx))
            ⊎ Restored tx (restore t tx s)
      undo s = elim (restore-Restored tx s) [
        | inl (u, e) ↦ inl (u, ap (λ r. r.0) e, ap (λ r. r.1) e)
        | inr (u, done) ↦ inr done
      ]
