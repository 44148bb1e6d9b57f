-- ===== src/Tests/Ram.antt =====
-- A target whose memory is a function and whose operations all succeed.
use vita_debugger.Prelude.{
  ℕ, zero, suc, ◌+◌, ◌%◌, ◌<◌, ◌≤◌, ◌≡◌, ◌⊎◌, inl, inr, refl, ◌∙◌, List, [], ◌∷◌, some, ◌==◌,
  ==_iff, ==_refl, if◌then◌else◌, Bool-cases, length, take-all, arith,
}
use mathlib.Core.Path.{ap₂}
use vita_debugger.Prelude.Int.{pos}
use vita_debugger.Target.{Target, IsFaithful, IsWorking, view, length-view}

abbrev overlay : (ℕ → ℕ) → ℕ → List ℕ → ℕ → ℕ
overlay s a [] b = s b
overlay s a (x ∷ xs) b = if b == a then x else overlay s (a + 1) xs b

abbrev pub ram : Target
ram = record {
  State = ℕ → ℕ;
  read = λ s a n. (n, view s a n, s);
  write = λ s a bytes. (length bytes, overlay s a bytes);
  sync = some (λ s a n. (pos 0, s));
}

pub ram-IsFaithful : IsFaithful ram
ram-IsFaithful = record {
  byte = λ s. s;
  read_exact = λ s a n e. take-all n (view s a n) (omega (arith, length-view s a n));
  read_keeps = λ s a n b. refl;
}

view-same_from : (g h : ℕ → ℕ) (a n : ℕ) → ((b : ℕ) → a ≤ b → g b ≡ h b) → view g a n ≡ view h a n
view-same_from g h a zero e = refl
view-same_from g h a (suc n) e =
    ap₂ ◌∷◌ (e a (omega arith)) (view-same_from g h (a + 1) n (λ b l. e b (omega arith)))

overlay-behind :
    (s : ℕ → ℕ) (a x : ℕ) (xs : List ℕ) (b : ℕ)
    → a + 1 ≤ b
    → overlay s a (x ∷ xs) b ≡ overlay s (a + 1) xs b
overlay-behind s a x xs b l = elim (Bool-cases (b == a)) [
  | inl e ↦ absurd (below ((==_iff b a).0 e))
  | inr e ↦ rw e refl
]
  where
    below : b ≡ a → ⊥
    below e = omega arith

overlay-view :
    (s : ℕ → ℕ) (a : ℕ) (bytes : List ℕ) → view (overlay s a bytes) a (length bytes) ≡ bytes
overlay-view s a [] = refl
overlay-view s a (x ∷ xs) =
    ap₂ ◌∷◌ (rw (==_refl a) refl)
      (view-same_from _ _ (a + 1) (length xs) (overlay-behind s a x xs) ∙ overlay-view s (a + 1) xs)

overlay-outside :
    (s : ℕ → ℕ) (a : ℕ) (bytes : List ℕ) (b : ℕ)
    → (b < a) ⊎ (a + length bytes ≤ b)
    → overlay s a bytes b ≡ s b
overlay-outside s a [] b h = refl
overlay-outside s a (x ∷ xs) b h = elim (Bool-cases (b == a)) [
  | inl e ↦ absurd (apart ((==_iff b a).0 e))
  | inr e ↦ rw e (overlay-outside s (a + 1) xs b (further h))
]
  where
    apart : b ≡ a → ⊥
    apart e = ground arith

    further : (b < a) ⊎ (a + length (x ∷ xs) ≤ b) → (b < a + 1) ⊎ (a + 1 + length xs ≤ b)
    further h = ground arith

pub ram-IsWorking : IsWorking ram ram-IsFaithful
unfolding ram-IsFaithful
ram-IsWorking = record {
  read_full = λ s a n. refl;
  write_full = λ s a bytes. refl;
  write_view = overlay-view;
  write_keeps = overlay-outside;
  flush = λ s a n. (pos 0, s);
  sync_given = refl;
  flush_zero = λ s a n. refl;
  flush_keeps = λ s a n b. refl;
}

-- A memory that holds 0, 1, 2, and so on.
abbrev pub ramp : ℕ → ℕ
ramp b = b % 256
