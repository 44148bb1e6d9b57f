-- ===== src/Transaction/Write.antt =====
-- The one-shot write, `uvdb_memory_write_transaction`, and the retry of its restoration,
-- `uvdb_memory_restore_transaction`.
use vita_debugger.Prelude.{
  ℕ, ◌-◌, ◌≡◌, ◌≤◌, ◌≢◌, ◌⊎◌, refl, sym, ap, ◌∙◌, Bool, true, false, not, ◌&&◌, ◌||◌, List, Option,
  ltb, ◌==◌, take, arith, Bool-cases, ==_iff, inl, inr,
}
use mathlib.Core.Path.{ap₂}
use vita_debugger.Target.{Target, IsFaithful, uintptr_max, view}
use vita_debugger.Spans.{spans_overlap}
use vita_debugger.Transaction.{
  Result, ok, invalid, read_failed, write_failed_restored, restore_pending, idle, prepared, Buffer,
  is_null, base_of, bytes_of, Transaction, init, past_end, prepare, apply, commit, then_apply,
  then_commit, write_transaction, restore_transaction, restored_result,
}
use vita_debugger.Transaction.Obliged.{unready}
use vita_debugger.Transaction.Steps.{
  prepare_lem, apply_lem, Applied, restore_original_lem, OriginalBack,
}

-- The arguments that `uvdb_memory_restore_transaction` takes.
abbrev pub Retriable : ℕ → ℕ → Option Buffer → ℕ → Type 0
Retriable a size scratch scratch_size =
    (size ≤ scratch_size)
    × ((size ≡ 0) ⊎ ((is_null scratch ≡ false) × (a ≤ uintptr_max - (size - 1))))

module _ (t : Target) (f : IsFaithful t) where
  -- The results of a write of `input` to a range that held `before`, once the range was captured.
  abbrev pub Written : ℕ → List ℕ → List ℕ → ℕ → Result × Option Buffer × t.State → Type 0
  Written a before input size (r, scratch, s') =
      ((r ≡ ok) × (view (f.byte s') a size ≡ take size input))
      ⊎ (((r ≡ write_failed_restored) × (view (f.byte s') a size ≡ before))
          ⊎ ((r ≡ restore_pending) × (take size (bytes_of scratch) ≡ before)))

  abbrev pub Untouched : t.State → Result × Option Buffer × t.State → Type 0
  Untouched s (r, scratch, s') =
      ((r ≡ invalid) ⊎ (r ≡ read_failed)) × ((b : ℕ) → f.byte s' b ≡ f.byte s b)

  -- The same with the transaction itself.
  abbrev pub Ended : Result × Transaction × t.State → Result × Option Buffer × t.State
  Ended (r, tx, s) = (r, tx.original, s)

  then_commit-Written :
      (tx : Transaction) (a : ℕ) (before input : List ℕ) (size : ℕ) (s : t.State)
      (done : Result × Transaction × t.State)
      → Applied t f tx input size s done
      → tx.address ≡ a
      → tx.size ≡ size
      → unready tx ≡ false
      → take size (bytes_of tx.original) ≡ before
      → Untouched s (Ended (then_commit t done))
        ⊎ Written a before input size (Ended (then_commit t done))
  unfolding then_commit commit
  then_commit-Written tx a before input size s (r, tx', s') (inl (e, e', e'')) ea es u keep =
      rw (e, e') (inl (inl refl, λ b. ap (λ s. f.byte s b) e''))
  then_commit-Written tx a before input size s (r, tx', s') (inr (inl (e, e', stands))) ea es u
        keep =
      rw (e, e') (inr (inl (refl, ap (λ a. view (f.byte s') a size) (sym ea) ∙ stands)))
  then_commit-Written tx a before input size s (r, tx', s') (inr (inr (inl (v, e, e')))) ea es u
        keep =
      absurd (cc (v, u))
  then_commit-Written tx a before input size s (r, tx', s') (inr (inr (inr (inl (e, e', back))))) ea
        es u keep =
      rw (e, e')
        (inr (
          inr (
            inl (
              refl,
              ap₂ (view (f.byte s')) (sym ea) (sym es)
                  ∙ back
                  ∙ ap (λ n. take n (bytes_of tx.original)) es
                  ∙ keep,
            ))))
  then_commit-Written tx a before input size s (r, tx', s') (inr (inr (inr (inr (e, e'))))) ea es u
        keep =
      rw (e, e') (inr (inr (inr (refl, keep))))

  -- The chain of the three calls, from a transaction that was prepared.
  then_apply-Written :
      (a : ℕ) (input : Option Buffer) (size : ℕ) (s : t.State)
      (done : Result × Transaction × t.State)
      → done.0 ≡ ok
      → ((b : ℕ) → f.byte done.2 b ≡ f.byte s b)
      → done.1.address ≡ a
      → done.1.size ≡ size
      → unready done.1 ≡ false
      → take size (bytes_of done.1.original) ≡ view (f.byte s) a size
      → Untouched s (Ended (then_apply t input size done))
        ⊎ Written a
            (view (f.byte s) a size)
            (bytes_of input)
            size
            (Ended (then_apply t input size done))
  unfolding then_apply
  then_apply-Written a input size s (r, tx, s₁) e keeps ea es u keep =
      rw e
        (elim (then_commit-Written tx a _ (bytes_of input) size s₁ (apply t tx input size s₁)
          (apply_lem t f tx input size s₁) ea es u keep) [
            | inl (result, same) ↦ inl (result, λ b. same b ∙ keeps b)
            | inr written ↦ inr written
          ])

  then_apply_skip :
      (input : Option Buffer) (size : ℕ) (done : Result × Transaction × t.State)
      → done.0 ≢ ok
      → then_apply t input size done ≡ done
  unfolding then_apply
  then_apply_skip input size (ok, tx, s) h = absurd (h refl)
  then_apply_skip input size (_, tx, s) h = refl

  -- On a target whose full reads are right, a one-shot write that is not of 0 bytes is INVALID or
  -- READ_FAILED with no byte changed, or the range held some bytes before, and: with OK the input
  -- stands in the range; with WRITE_FAILED_RESTORED those bytes stand in it; with RESTORE_PENDING the
  -- scratch buffer holds them. It ends with no other result.
  pub write_transaction_lem :
      (a : ℕ) (input : Option Buffer) (size : ℕ) (scratch : Option Buffer) (scratch_size : ℕ)
      (s : t.State)
      → size ≢ 0
      → Untouched s (write_transaction t a input size scratch scratch_size s)
        ⊎ Written a
            (view (f.byte s) a size)
            (bytes_of input)
            size
            (write_transaction t a input size scratch scratch_size s)
  unfolding write_transaction init
  write_transaction_lem a input size scratch scratch_size s nz = elim (Bool-cases bad) [
    | inl e ↦ rw e (inl (inl refl, λ b. refl))
    | inr e ↦ rw (e, size_test nz) (chain (prepare_lem t f (init scratch scratch_size) a size s))
  ]
    where
      bad : Bool
      bad =
          not (size == 0) && (is_null input || is_null scratch)
          || (ltb scratch_size size
              || (not (size == 0) && past_end a size
                  || spans_overlap (base_of input) size (base_of scratch) size))

      size_test : size ≢ 0 → (size == 0) ≡ false
      size_test h = ground arith

      start : Result × Transaction × t.State
      start = prepare t (init scratch scratch_size) a size s

      failed :
          start.0 ≢ ok
          → (start.0 ≡ invalid) ⊎ (start.0 ≡ read_failed)
          → ((b : ℕ) → f.byte start.2 b ≡ f.byte s b)
          → Untouched s (Ended (then_apply t input size start))
      failed h r keeps = rw (then_apply_skip input size start h) (r, keeps)

      chain :
          ((b : ℕ) → f.byte start.2 b ≡ f.byte s b)
            × (((start.0 ≡ ok)
                  × ((init scratch scratch_size).state ≡ idle)
                  × (start.1.state ≡ prepared)
                  × (start.1.address ≡ a)
                  × (start.1.size ≡ size)
                  × (unready start.1 ≡ false)
                  × (take size (bytes_of start.1.original) ≡ view (f.byte s) a size))
                ⊎ (((start.0 ≡ invalid) ⊎ ((start.0 ≡ read_failed) ⊎ ((start.0 ≡ ok) × (size ≡ 0))))
                    × (record start.1 { original = scratch } ≡ init scratch scratch_size)))
          → Untouched s (Ended (then_apply t input size start))
            ⊎ Written a
                (view (f.byte s) a size)
                (bytes_of input)
                size
                (Ended (then_apply t input size start))
      chain (keeps, inl (e, _, _, ea, es, u, keep)) =
          then_apply-Written a input size s start e keeps ea es u keep
      chain (keeps, inr (inl e, _)) = inl (failed (λ z. cc (z, e)) (inl e) keeps)
      chain (keeps, inr (inr (inl e), _)) = inl (failed (λ z. cc (z, e)) (inr e) keeps)
      chain (keeps, inr (inr (inr (_, z)), _)) = absurd (nz z)

  -- The three outcomes of a retry: refused, empty, or tried.
  abbrev pub Retried : ℕ → ℕ → Option Buffer → ℕ → t.State → Result × t.State → Type 0
  Retried a size scratch scratch_size s (r, s') =
      ((¬ Retriable a size scratch scratch_size) × (r ≡ invalid) × (s' ≡ s))
      ⊎ (((size ≡ 0) × (r ≡ ok) × (s' ≡ s))
          ⊎ ((size ≢ 0)
              × Retriable a size scratch scratch_size
              × (((r ≡ ok) × (view (f.byte s') a size ≡ take size (bytes_of scratch)))
                  ⊎ (r ≡ restore_pending))))

  -- Retrying the restoration of a range is INVALID exactly if the scratch buffer is smaller than the
  -- range or, for a size other than 0, not given, or if the range ends past the last address; the
  -- target is then as it was. A call of 0 bytes that is not refused is OK and leaves the target as it
  -- was too. Any other ends with OK only if the range holds the buffer's bytes, and else with
  -- RESTORE_PENDING.
  pub restore_transaction_lem :
      (a size : ℕ) (scratch : Option Buffer) (scratch_size : ℕ) (s : t.State)
      → Retried a size scratch scratch_size s (restore_transaction t a size scratch scratch_size s)
  unfolding restore_transaction
  restore_transaction_lem a size scratch scratch_size s = elim (Bool-cases bad) [
    | inl e ↦ rw e (inl (λ r. absurd (refused r e), refl, refl))
    | inr e ↦ elim (Bool-cases (size == 0)) [
      | inl z ↦ rw (e, z) (inr (inl ((==_iff _ _).0 z, refl, refl)))
      | inr nz ↦
          rw (e, nz)
            (inr (
              inr (
                λ z. cc ((==_iff size 0).1 z, nz),
                (ground arith, inr (ground arith, ground arith)),
                result _ (restore_original_lem t f s a (bytes_of scratch) size),
              )))
    ]
  ]
    where
      bad : Bool
      bad =
          not (size == 0) && is_null scratch
          || (ltb scratch_size size || not (size == 0) && past_end a size)

      refused : Retriable a size scratch scratch_size → bad ≡ true → ⊥
      refused (room, inl z) e = ground arith
      refused (room, inr (given, within)) e = ground arith

      result :
          (done : Result × t.State)
          → OriginalBack t f a (bytes_of scratch) size done
          → (((restored_result t done).0 ≡ ok)
              × (view (f.byte (restored_result t done).1) a size ≡ take size (bytes_of scratch)))
            ⊎ ((restored_result t done).0 ≡ restore_pending)
      result (r, s') (inl (e, back)) = rw e (inl (refl, back))
      result (r, s') (inr e) = rw e (inr refl)
