-- ===== src/Console/Window.antt =====
-- A run of slots of a ring, from a slot on and round at its end.
use vita_debugger.Prelude.{
  ℕ, zero, suc, ◌+◌, ◌-◌, ◌%◌, ◌<◌, ◌≡◌, ◌≢◌, refl, ap, List, [], ◌∷◌, ◌++◌, length, All, subst,
  arith,
}
use mathlib.Core.Path.{ap₂}
use vita_debugger.Console.{slots}

module _ {ℓ} {A : Type ℓ} where
  abbrev pub window : (ℕ → A) → ℕ → ℕ → List A
  window at h zero = []
  window at h (suc n) = at h ∷ window at ((h + 1) % slots) n

  pub window-pop :
      (at : ℕ → A) (h n : ℕ) → n ≢ 0 → window at h n ≡ at h ∷ window at ((h + 1) % slots) (n - 1)
  window-pop at h zero p = absurd (p refl)
  window-pop at h (suc n) p = ap (λ k. at h ∷ window at ((h + 1) % slots) k) (omega arith)

  -- One slot more is the slot behind the last.
  pub window-snoc :
      (at : ℕ → A) (h n : ℕ)
      → h < slots
      → window at h (suc n) ≡ window at h n ++ (at ((h + n) % slots) ∷ [])
  window-snoc at h zero p = ap (λ i. at i ∷ []) (omega arith)
  window-snoc at h (suc n) p = ap (◌∷◌ (at h)) (
      rw (window-snoc at ((h + 1) % slots) n (omega arith))
        (ap (λ i. window at ((h + 1) % slots) n ++ (at i ∷ [])) (omega arith)))

  -- Only the slots of the run count.
  pub window-same :
      (at at' : ℕ → A) (h n : ℕ)
      → h < slots
      → ((k : ℕ) → k < n → at ((h + k) % slots) ≡ at' ((h + k) % slots))
      → window at h n ≡ window at' h n
  window-same at at' h zero p e = refl
  window-same at at' h (suc n) p e =
      ap₂ ◌∷◌ (subst (λ i. at i ≡ at' i) (omega arith) (e 0 (omega arith))) (
        window-same at at' ((h + 1) % slots) n (omega arith)
          (λ k lt. subst (λ i. at i ≡ at' i) (omega arith) (e (suc k) (omega arith))))

  window-All {κ} :
      (P : A → Type κ) (at : ℕ → A) (h n : ℕ) → ((i : ℕ) → P (at i)) → All P (window at h n)
  window-All P at h zero p = tt
  window-All P at h (suc n) p = (p h, window-All P at ((h + 1) % slots) n p)

  pub length-window : (at : ℕ → A) (h n : ℕ) → length (window at h n) ≡ n
  length-window at h zero = refl
  length-window at h (suc n) = ap suc (length-window at ((h + 1) % slots) n)
