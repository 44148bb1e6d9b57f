-- ===== src/Transaction/Agrees.antt =====
-- Agreement of the target's memory with expected bytes, which `verify_bytes` establishes chunk by
-- chunk.
use vita_debugger.Prelude.{
  ℕ, zero, suc, ◌+◌, ◌-◌, ◌≤◌, ◌≡◌, ◌↔◌, refl, sym, ap, ◌∙◌, false, List, ◌∷◌, ◌++◌, ltb, take,
  drop, take-append-drop, take-take, drop-take, drop-drop, arith, subst,
}
use mathlib.Core.Path.{ap₂}
use vita_debugger.Target.{Target, IsFaithful, view, view-same}
use vita_debugger.Transaction.{chunk_size}

module _ (t : Target) (f : IsFaithful t) where
  -- The bytes from an offset on are the expected ones, to the end of the range.
  abbrev pub Agrees : t.State → ℕ → List ℕ → ℕ → ℕ → Type 0
  Agrees s a expected offset size =
      view (f.byte s) (a + offset) (size - offset) ≡ take (size - offset) (drop offset expected)

  view-take : (g : ℕ → ℕ) (a m n : ℕ) → m ≤ n → take m (view g a n) ≡ view g a m
  view-take g a zero n h = refl
  view-take g a (suc m) zero h = absurd (omega arith)
  view-take g a (suc m) (suc n) h = ap (◌∷◌ (g a)) (view-take g (a + 1) m n (omega arith))

  view-drop : (g : ℕ → ℕ) (a m n : ℕ) → drop m (view g a n) ≡ view g (a + m) (n - m)
  view-drop g a zero n = ap₂ (view g) (omega arith) (omega arith)
  view-drop g a (suc m) zero = ap (view g (a + suc m)) {x = 0} (omega arith)
  view-drop g a (suc m) (suc n) = view-drop g (a + 1) m n ∙ ap₂ (view g) (omega arith) (omega arith)

  -- Agreement on the whole is agreement on the first chunk and from there on.
  pub Agrees-split :
      (s : t.State) (a : ℕ) (expected : List ℕ) (offset size chunk : ℕ)
      → offset + chunk ≤ size
      → Agrees s a expected offset size ↔ (
          (view (f.byte s) (a + offset) chunk ≡ take chunk (drop offset expected))
          × Agrees s a expected (offset + chunk) size)
  Agrees-split s a expected offset size chunk h = (
    λ whole. (
      sym (view-take (f.byte s) (a + offset) chunk (size - offset) (omega arith))
          ∙ ap (take chunk) whole
          ∙ take-take chunk (size - offset) (drop offset expected) (omega arith),
      sym first ∙ ap (drop chunk) whole ∙ second,
    ),
    λ (now, later).
        sym (take-append-drop chunk (view (f.byte s) (a + offset) (size - offset)))
        ∙ ap₂ ◌++◌
            (view-take (f.byte s) (a + offset) chunk (size - offset) (omega arith)
              ∙ now
              ∙ sym (take-take chunk (size - offset) (drop offset expected) (omega arith)))
            (first ∙ later ∙ sym second)
        ∙ take-append-drop chunk (take (size - offset) (drop offset expected)),
  )
    where
      first :
          drop chunk (view (f.byte s) (a + offset) (size - offset))
          ≡ view (f.byte s) (a + (offset + chunk)) (size - (offset + chunk))
      first =
          view-drop (f.byte s) (a + offset) chunk (size - offset)
          ∙ ap₂ (view (f.byte s)) (omega arith) (omega arith)

      second :
          drop chunk (take (size - offset) (drop offset expected))
          ≡ take (size - (offset + chunk)) (drop (offset + chunk) expected)
      second =
          drop-take chunk (size - offset) (drop offset expected)
          ∙ ap₂ take (omega arith) (drop-drop chunk offset (offset + chunk) expected refl)

  pub Agrees-done :
      (s : t.State) (a : ℕ) (expected : List ℕ) (offset size : ℕ)
      → ltb offset size ≡ false
      → Agrees s a expected offset size
  Agrees-done s a expected offset size h =
      subst (λ n. view (f.byte s) (a + offset) n ≡ take n (drop offset expected)) {x = 0}
        (ground arith) refl

  pub Agrees-keeps :
      (s s' : t.State) (a : ℕ) (expected : List ℕ) (offset size : ℕ)
      → ((b : ℕ) → f.byte s' b ≡ f.byte s b)
      → Agrees s' a expected offset size
      → Agrees s a expected offset size
  Agrees-keeps s s' a expected offset size keeps e =
      view-same _ _ (a + offset) (size - offset) (λ b. sym (keeps b)) ∙ e

  pub chunk_size-le : (left : ℕ) → chunk_size left ≤ left
  chunk_size-le left = ground arith
