-- ===== src/Target.antt =====
-- The debugged target's memory, behind callbacks that are no part of the repository's core:
-- `struct uvdb_breakpoint_patch_io` (src/uvdb_breakpoint_patch.h) and
-- `struct uvdb_memory_transaction_io` (src/uvdb_memory_transaction.h). The state stands for the
-- target and for whatever the callbacks keep behind their context pointer.
use vita_debugger.Prelude.{
  ◌<◌, ◌≤◌, ◌⊎◌, inl, inr, some, ◌==◌, ==_iff, Bool-cases, subst, ℕ, zero, suc, ◌+◌, ◌-◌, ◌^◌, ◌≡◌,
  refl, sym, ap, ◌∙◌, List, [], ◌∷◌, ◌++◌, Option, arith, length, take,
}
use vita_debugger.Prelude.Int.{ℤ, pos}
use mathlib.Core.Path.{ap₂}

abbrev pub uintptr_max : ℕ
uintptr_max = 2 ^ 32 - 1

-- `read` gives the number of bytes transferred and the buffer's contents after the call, `write` the
-- number transferred, `sync` its int. A NULL `sync` is `none`.
pub record Target : Type 1 where
  pub State : Type 0
  pub read : State → ℕ → ℕ → ℕ × List ℕ × State
  pub write : State → ℕ → List ℕ → ℕ × State
  pub sync : Option (State → ℕ → ℕ → ℤ × State)

-- The `n` bytes from an address on, of a memory.
abbrev pub view : (ℕ → ℕ) → ℕ → ℕ → List ℕ
view byte a zero = []
view byte a (suc n) = byte a ∷ view byte (a + 1) n

-- What is relied on: a read of the full size has filled the buffer with the bytes in memory, and a
-- read changes no memory. Nothing is assumed of writes and cache operations, which may fail half
-- way, or of reads that fall short.
pub record IsFaithful (t : Target) : Type 0 where
  pub byte : t.State → ℕ → ℕ
  pub read_exact :
      (s : t.State) (a n : ℕ) → (t.read s a n).0 ≡ n → take n (t.read s a n).1 ≡ view (byte s) a n
  pub read_keeps : (s : t.State) (a n b : ℕ) → byte (t.read s a n).2 b ≡ byte s b

pub length-view : (byte : ℕ → ℕ) (a n : ℕ) → length (view byte a n) ≡ n
length-view byte a zero = refl
length-view byte a (suc n) = ap suc (length-view byte (a + 1) n)

pub view-same : (f g : ℕ → ℕ) (a n : ℕ) → ((b : ℕ) → f b ≡ g b) → view f a n ≡ view g a n
view-same f g a zero h = refl
view-same f g a (suc n) h = ap₂ ◌∷◌ (h a) (view-same f g (a + 1) n h)

-- A full read reports the bytes that are in memory after it.
pub read_view :
    (t : Target) (f : IsFaithful t) (s : t.State) (a n : ℕ)
    → (t.read s a n).0 ≡ n
    → view (f.byte (t.read s a n).2) a n ≡ take n (t.read s a n).1
read_view t f s a n h = view-same _ _ a n (f.read_keeps s a n) ∙ sym (f.read_exact s a n h)

pub view-add :
    (byte : ℕ → ℕ) (a n m k : ℕ) → a + n ≡ k → view byte a (n + m) ≡ view byte a n ++ view byte k m
view-add byte a zero m k e = ap₂ (view byte) (omega arith) (omega arith)
view-add byte a (suc n) m k e =
    ap (view byte a) (step n m) ∙ ap (◌∷◌ (byte a)) (view-add byte (a + 1) n m k (omega arith))
  where
    step : (n m : ℕ) → suc n + m ≡ suc (n + m)
    step n m = omega arith

-- The healthy case, for theorems that an operation succeeds: every transfer is complete, a write
-- puts its bytes in the range and nothing elsewhere, and a cache operation gives 0.
pub record IsWorking (t : Target) (f : IsFaithful t) : Type 0 where
  pub read_full : (s : t.State) (a n : ℕ) → (t.read s a n).0 ≡ n
  pub write_full : (s : t.State) (a : ℕ) (bytes : List ℕ) → (t.write s a bytes).0 ≡ length bytes
  pub write_view :
      (s : t.State) (a : ℕ) (bytes : List ℕ)
      → view (f.byte (t.write s a bytes).1) a (length bytes) ≡ bytes
  pub write_keeps :
      (s : t.State) (a : ℕ) (bytes : List ℕ) (b : ℕ)
      → (b < a) ⊎ (a + length bytes ≤ b)
      → f.byte (t.write s a bytes).1 b ≡ f.byte s b
  pub flush : t.State → ℕ → ℕ → ℤ × t.State
  pub sync_given : t.sync ≡ some flush
  pub flush_zero : (s : t.State) (a n : ℕ) → (flush s a n).0 ≡ pos 0
  pub flush_keeps : (s : t.State) (a n b : ℕ) → f.byte (flush s a n).1 b ≡ f.byte s b

-- Two memories with the same view of a range have the same bytes in it.
pub view-byte : (g h : ℕ → ℕ) (a n b : ℕ) → view g a n ≡ view h a n → a ≤ b → b < a + n → g b ≡ h b
view-byte g h a zero b e l u = absurd (omega arith)
view-byte g h a (suc n) b e l u = elim (Bool-cases (a == b)) [
  | inl same ↦ subst (λ b. g b ≡ h b) ((==_iff _ _).0 same) first
  | inr other ↦ view-byte g h (a + 1) n b rest (ground arith) (omega arith)
]
  where
    first : g a ≡ h a
    first = cc e

    rest : view g (a + 1) n ≡ view h (a + 1) n
    rest = cc e
