-- ===== src/Transaction/Working.antt =====
-- The one-shot write on a target whose operations all succeed.
use vita_debugger.Prelude.{
  ℕ, ◌+◌, ◌≤◌, ◌<◌, ◌≡◌, ◌≢◌, ◌⊎◌, refl, ◌∙◌, true, false, List, some, ltb, ◌==◌, ==_refl, take,
  length, length-take, arith, inl, inr, subst,
}
use vita_debugger.Target.{Target, IsFaithful, IsWorking, view, view-same}
use vita_debugger.Spans.{spans_overlap}
use vita_debugger.Transaction.{
  ok, prepared, applied, Buffer, base_of, Transaction, init, past_end, prepare, apply, commit,
  then_apply, then_commit, write_transaction, sync_negative, verify_bytes,
}
use vita_debugger.Transaction.Verify.{verify_bytes_lem}

module _ (t : Target) (f : IsFaithful t) (w : IsWorking t f) where
  sync_negative_lem : (s : t.State) (a n : ℕ) → sync_negative t s a n ≡ (false, (w.flush s a n).1)
  unfolding sync_negative
  sync_negative_lem s a n = rw (w.sync_given, w.flush_zero s a n) refl

  -- The state behind a write and a cache operation.
  abbrev pub stored : t.State → ℕ → List ℕ → ℕ → t.State
  stored s a bytes n = (w.flush (t.write s a (take n bytes)).1 a n).1

  stored-view :
      (s : t.State) (a : ℕ) (bytes : List ℕ) (n : ℕ)
      → n ≤ length bytes
      → view (f.byte (stored s a bytes n)) a n ≡ take n bytes
  stored-view s a bytes n h =
      view-same _ _ a n (w.flush_keeps _ a n)
      ∙ subst (λ m. view (f.byte (t.write s a (take n bytes)).1) a m ≡ take n bytes)
          (full n bytes h) (w.write_view s a (take n bytes))
    where
      full : (n : ℕ) (bytes : List ℕ) → n ≤ length bytes → length (take n bytes) ≡ n
      full n bytes h = omega (arith, length-take n bytes)

  -- A prepared write of a buffer that does not overlap the saved bytes is applied.
  apply_works :
      (tx : Transaction) (input : Buffer) (s : t.State)
      → tx.state ≡ prepared
      → spans_overlap input.base tx.size (base_of tx.original) tx.size ≡ false
      → tx.size ≤ length input.bytes
      → apply t tx (some input) tx.size s ≡ (
        ok,
        record tx { state = applied },
        (verify_bytes t (stored s tx.address input.bytes tx.size) tx.address input.bytes tx.size).1,
      )
  unfolding apply
  apply_works tx input s e apart long =
      rw (e, apart, ==_refl, w.write_full, full, ==_refl, sync_negative_lem, seen) refl
    where
      full : length (take tx.size input.bytes) ≡ tx.size
      full = omega (arith, length-take tx.size input.bytes)

      seen :
          (verify_bytes t
            (stored s tx.address input.bytes tx.size)
            tx.address
            input.bytes
            tx.size).0
          ≡ true
      seen =
          (verify_bytes_lem t f _ tx.address input.bytes tx.size).2 w.read_full
            (stored-view s tx.address input.bytes tx.size long)

  -- On a target whose operations all succeed, a one-shot write that is not of 0 bytes, to a range that
  -- does not run past the address space, from an input of that size that does not overlap a scratch
  -- buffer of at least that size, ends with OK, and the input stands in the range.
  pub write_transaction-works :
      (a : ℕ) (input : Buffer) (size : ℕ) (scratch : Buffer) (scratch_size : ℕ) (s : t.State)
      → size ≢ 0
      → size ≤ length input.bytes
      → size ≤ scratch_size
      → past_end a size ≡ false
      → spans_overlap input.base size scratch.base size ≡ false
      → let (r, _, s') = write_transaction t a (some input) size (some scratch) scratch_size s in
        (r ≡ ok)
        × (view (f.byte s') a size ≡ take size input.bytes)
        × ((b : ℕ) → (b < a) ⊎ (a + size ≤ b) → f.byte s' b ≡ f.byte s b)
  unfolding write_transaction init prepare then_apply then_commit commit
  write_transaction-works a input size scratch scratch_size s nz long room fits apart =
      rw
        (
          fits,
          apart,
          size_test nz,
          room_test room,
          w.read_full,
          ==_refl,
          apply_works tx input _ refl apart long,
        )
        (
          refl,
          view-same _ _ a size (verify_bytes_lem t f end a input.bytes size).1
              ∙ stored-view _ a input.bytes size long,
          λ b out.
              (verify_bytes_lem t f end a input.bytes size).1 b
              ∙ w.flush_keeps _ a size b
              ∙ w.write_keeps _ a (take size input.bytes) b (outside b out)
              ∙ f.read_keeps s a size b,
        )
    where
      tx : Transaction
      tx = record {
        address = a;
        size = size;
        original = some (record scratch { bytes = (t.read s a size).1 });
        capacity = scratch_size;
        state = prepared;
      }

      end : t.State
      end = stored (t.read s a size).2 a input.bytes size

      outside :
          (b : ℕ) → (b < a) ⊎ (a + size ≤ b) → (b < a) ⊎ (a + length (take size input.bytes) ≤ b)
      outside b (inl h) = inl h
      outside b (inr h) = inr (omega (arith, length-take size input.bytes))

      size_test : size ≢ 0 → (size == 0) ≡ false
      size_test h = ground arith

      room_test : size ≤ scratch_size → ltb scratch_size size ≡ false
      room_test h = ground arith
