-- ===== src/Transaction/Verify.antt =====
-- The chunked comparison of `verify_bytes` against the comparison of the whole range.
use vita_debugger.Prelude.{
  ℕ, zero, suc, ◌+◌, ◌-◌, ◌≤◌, ◌≡◌, ◌↔◌, refl, sym, ap, ◌∙◌, Bool, true, false, not, ◌||◌, List,
  ltb, ◌==◌, take, drop, same_bytes, same_bytes_sound, same_bytes_refl, ==_refl, arith, Bool-cases,
  ==_iff, inl, inr,
}
use mathlib.Core.Path.{ap₂}
use vita_debugger.Target.{Target, IsFaithful, view}
use vita_debugger.Transaction.Agrees.{
  Agrees, Agrees-split, Agrees-done, Agrees-keeps, chunk_size-le,
}
use vita_debugger.Transaction.{chunk_size, verify_from, verify_bytes}

module _ (t : Target) (f : IsFaithful t) where
  -- Verifying only reads.
  verify_from-keeps :
      (fuel : ℕ) (s : t.State) (a : ℕ) (expected : List ℕ) (offset size b : ℕ)
      → f.byte (verify_from t fuel s a expected offset size).1 b ≡ f.byte s b
  unfolding verify_from
  verify_from-keeps zero s a expected offset size b = refl
  verify_from-keeps (suc fuel) s a expected offset size b = elim (Bool-cases (ltb offset size)) [
    | inr done ↦ rw done refl
    | inl more ↦ elim (Bool-cases bad) [
      | inl e ↦ rw (more, e) (f.read_keeps s (a + offset) (chunk_size (size - offset)) b)
      | inr e ↦
          rw (more, e)
            (verify_from-keeps fuel _ a expected _ size b
              ∙ f.read_keeps s (a + offset) (chunk_size (size - offset)) b)
    ]
  ]
    where
      bad : Bool
      bad =
          not ((t.read s (a + offset) (chunk_size (size - offset))).0 == chunk_size (size - offset))
          || not (
              same_bytes
                (take (chunk_size (size - offset))
                  (t.read s (a + offset) (chunk_size (size - offset))).1)
                (take (chunk_size (size - offset)) (drop offset expected)))

  -- The two tests of one pass, and whether the pass was verified.
  failed : t.State → ℕ → List ℕ → ℕ → ℕ → Bool
  failed s a expected offset chunk =
      not ((t.read s (a + offset) chunk).0 == chunk)
      || not (
          same_bytes (take chunk (t.read s (a + offset) chunk).1)
            (take chunk (drop offset expected)))

  verify_from-zero :
      (s : t.State) (a : ℕ) (expected : List ℕ) (offset size : ℕ)
      → (verify_from t zero s a expected offset size).0 ≡ true
      → ltb offset size ≡ false
  unfolding verify_from
  verify_from-zero s a expected offset size h = ground arith

  verify_from-done :
      (fuel : ℕ) (s : t.State) (a : ℕ) (expected : List ℕ) (offset size : ℕ)
      → ltb offset size ≡ false
      → verify_from t fuel s a expected offset size ≡ (true, s)
  unfolding verify_from
  verify_from-done zero s a expected offset size done = rw done refl
  verify_from-done (suc fuel) s a expected offset size done = rw done refl

  verify_from-bad :
      (fuel : ℕ) (s : t.State) (a : ℕ) (expected : List ℕ) (offset size : ℕ)
      → ltb offset size ≡ true
      → failed s a expected offset (chunk_size (size - offset)) ≡ true
      → (verify_from t (suc fuel) s a expected offset size).0 ≡ false
  unfolding verify_from failed
  verify_from-bad fuel s a expected offset size more bad = rw (more, bad) refl

  verify_from-good :
      (fuel : ℕ) (s : t.State) (a : ℕ) (expected : List ℕ) (offset size : ℕ)
      → ltb offset size ≡ true
      → failed s a expected offset (chunk_size (size - offset)) ≡ false
      → verify_from t (suc fuel) s a expected offset size
        ≡ verify_from t fuel
            (t.read s (a + offset) (chunk_size (size - offset))).2
            a
            expected
            (offset + chunk_size (size - offset))
            size
  unfolding verify_from failed
  verify_from-good fuel s a expected offset size more good = rw (more, good) refl

  -- A pass that did not fail saw the expected bytes in memory.
  failed-view :
      (s : t.State) (a : ℕ) (expected : List ℕ) (offset chunk : ℕ)
      → failed s a expected offset chunk ≡ false
      → view (f.byte s) (a + offset) chunk ≡ take chunk (drop offset expected)
  unfolding failed
  failed-view s a expected offset chunk h =
      sym (f.read_exact s (a + offset) chunk ((==_iff _ _).0 (full _ _ h)))
      ∙ same_bytes_sound _ _ (same _ _ h)
    where
      full : (p q : Bool) → (not p || not q) ≡ false → p ≡ true
      full p q h = ground arith

      same : (p q : Bool) → (not p || not q) ≡ false → q ≡ true
      same p q h = ground arith

  view-failed :
      (s : t.State) (a : ℕ) (expected : List ℕ) (offset chunk : ℕ)
      → (t.read s (a + offset) chunk).0 ≡ chunk
      → view (f.byte s) (a + offset) chunk ≡ take chunk (drop offset expected)
      → failed s a expected offset chunk ≡ false
  unfolding failed
  view-failed s a expected offset chunk full e =
      rw (full, f.read_exact s (a + offset) chunk full, e, same_bytes_refl, ==_refl) refl

  -- What was verified from an offset on is in memory.
  verify_from-Agrees :
      (fuel : ℕ) (s : t.State) (a : ℕ) (expected : List ℕ) (offset size : ℕ)
      → offset ≤ size
      → (verify_from t fuel s a expected offset size).0 ≡ true
      → Agrees t f s a expected offset size
  verify_from-Agrees zero s a expected offset size l h =
      Agrees-done t f s a expected offset size (verify_from-zero s a expected offset size h)
  verify_from-Agrees (suc fuel) s a expected offset size l h = elim (Bool-cases (ltb offset size)) [
    | inr done ↦ Agrees-done t f s a expected offset size done
    | inl more ↦ elim (Bool-cases (failed s a expected offset chunk)) [
      | inl bad ↦ absurd (refuted more bad)
      | inr good ↦ (Agrees-split t f s a expected offset size chunk inside).1 (
        failed-view s a expected offset chunk good,
        Agrees-keeps t f s s' a expected (offset + chunk) size (f.read_keeps s (a + offset) chunk)
            (verify_from-Agrees fuel s' a expected (offset + chunk) size inside (later more good)),
      )
    ]
  ]
    where
      chunk : ℕ
      chunk = chunk_size (size - offset)

      s' : t.State
      s' = (t.read s (a + offset) chunk).2

      inside : offset + chunk ≤ size
      inside = omega (arith, chunk_size-le t f (size - offset))

      clash : true ≡ false → ⊥
      clash e = cc e

      refuted : ltb offset size ≡ true → failed s a expected offset chunk ≡ true → ⊥
      refuted more bad = clash (sym h ∙ verify_from-bad fuel s a expected offset size more bad)

      later :
          ltb offset size ≡ true
          → failed s a expected offset chunk ≡ false
          → (verify_from t fuel s' a expected (offset + chunk) size).0 ≡ true
      later more good =
          ap (λ r. r.0) (sym (verify_from-good fuel s a expected offset size more good)) ∙ h

  -- With full reads, and fuel for every byte left, what agrees is verified.
  Agrees-verify_from :
      (fuel : ℕ) (s : t.State) (a : ℕ) (expected : List ℕ) (offset size : ℕ)
      → ((s' : t.State) (b n : ℕ) → (t.read s' b n).0 ≡ n)
      → offset ≤ size
      → size ≤ offset + fuel
      → Agrees t f s a expected offset size
      → (verify_from t fuel s a expected offset size).0 ≡ true
  Agrees-verify_from zero s a expected offset size full l u e =
      ap (λ r. r.0) (verify_from-done zero s a expected offset size (ground arith))
  Agrees-verify_from (suc fuel) s a expected offset size full l u e =
      elim (Bool-cases (ltb offset size)) [
        | inr done ↦ ap (λ r. r.0) (verify_from-done (suc fuel) s a expected offset size done)
        | inl more ↦
            ap (λ r. r.0) (verify_from-good fuel s a expected offset size more (passed parts.0))
            ∙ Agrees-verify_from fuel s' a expected (offset + chunk) size full inside (grows more) (
                Agrees-keeps t f s' s a expected (offset + chunk) size
                  (λ b. sym (f.read_keeps s (a + offset) chunk b)) parts.1)
      ]
    where
      chunk : ℕ
      chunk = chunk_size (size - offset)

      s' : t.State
      s' = (t.read s (a + offset) chunk).2

      inside : offset + chunk ≤ size
      inside = omega (arith, chunk_size-le t f (size - offset))

      grows : ltb offset size ≡ true → size ≤ offset + chunk + fuel
      grows more = ground arith

      parts :
          (view (f.byte s) (a + offset) chunk ≡ take chunk (drop offset expected))
          × Agrees t f s a expected (offset + chunk) size
      parts = (Agrees-split t f s a expected offset size chunk inside).0 e

      passed :
          view (f.byte s) (a + offset) chunk ≡ take chunk (drop offset expected)
          → failed s a expected offset chunk ≡ false
      passed e = view-failed s a expected offset chunk (full s (a + offset) chunk) e

  -- What holds of the whole comparison, whether or not its reads are full.
  pub verify_bytes_lem :
      (s : t.State) (a : ℕ) (expected : List ℕ) (size : ℕ)
      → ((verify_bytes t s a expected size).0 ≡ true → view (f.byte s) a size ≡ take size expected)
        × ((b : ℕ) → f.byte (verify_bytes t s a expected size).1 b ≡ f.byte s b)
        × (((s' : t.State) (b n : ℕ) → (t.read s' b n).0 ≡ n)
            → view (f.byte s) a size ≡ take size expected
            → (verify_bytes t s a expected size).0 ≡ true)
  unfolding verify_bytes
  verify_bytes_lem s a expected size = (
    λ h. sym whole ∙ verify_from-Agrees size s a expected 0 size (omega arith) h ∙ part,
    verify_from-keeps size s a expected 0 size,
    λ full e.
        Agrees-verify_from size s a expected 0 size full (omega arith) (omega arith)
          (whole ∙ e ∙ sym part),
  )
    where
      whole : view (f.byte s) (a + 0) (size - 0) ≡ view (f.byte s) a size
      whole = ap₂ (view (f.byte s)) (omega arith) (omega arith)

      part : take (size - 0) (drop 0 expected) ≡ take size expected
      part = ap (λ n. take n expected) (omega arith)

  -- The comparison in chunks is the comparison of the whole range: on a target whose full reads are
  -- right and where every read is full, `verify_bytes` succeeds exactly if the range holds the
  -- expected bytes, and it changes no byte.
  pub verify_bytes_iff :
      ((s' : t.State) (b n : ℕ) → (t.read s' b n).0 ≡ n)
      → (s : t.State) (a : ℕ) (expected : List ℕ) (size : ℕ)
      → (((verify_bytes t s a expected size).0 ≡ true)
          ↔ (view (f.byte s) a size ≡ take size expected))
        × ((b : ℕ) → f.byte (verify_bytes t s a expected size).1 b ≡ f.byte s b)
  verify_bytes_iff full s a expected size =
      let (sound, keeps, exact) = verify_bytes_lem s a expected size in ((sound, exact full), keeps)
