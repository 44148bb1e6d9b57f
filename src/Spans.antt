-- ===== src/Spans.antt =====
-- `spans_overlap`, which src/uvdb_rsp.c and src/uvdb_memory_transaction.c both define: whether two
-- spans of memory, each an address and a size, share a byte.
use vita_debugger.Prelude.{
  ℕ, ◌+◌, ◌-◌, ◌≤◌, ◌<◌, ◌≡◌, ◌↔◌, Bool, true, false, ◌||◌, arith, ltb, leb, ◌==◌, if◌then◌else◌,
}

unfoldable pub spans_overlap : ℕ → ℕ → ℕ → ℕ → Bool
spans_overlap first first_size second second_size =
    if first_size == 0 || second_size == 0
    then false
    else if leb first second
    then ltb (second - first) first_size
    else ltb (first - second) second_size

-- An address of both spans.
abbrev pub Shared : ℕ → ℕ → ℕ → ℕ → Type 0
Shared first first_size second second_size =
    (a : ℕ) × (first ≤ a) × (a < first + first_size) × (second ≤ a) × (a < second + second_size)

overlap-Shared : (f n s m : ℕ) → spans_overlap f n s m ≡ true → Shared f n s m
unfolding spans_overlap
overlap-Shared f n s m h = (f + (s - f), omega arith, ground arith, omega arith, ground arith)

Shared-overlap : (f n s m : ℕ) → Shared f n s m → spans_overlap f n s m ≡ true
unfolding spans_overlap
Shared-overlap f n s m (a, p, q, r, t) = ground arith

-- The test holds exactly if some address lies in both spans.
spans_overlap_iff :
    (first first_size second second_size : ℕ)
    → (spans_overlap first first_size second second_size ≡ true)
      ↔ Shared first first_size second second_size
spans_overlap_iff f n s m = (overlap-Shared f n s m, Shared-overlap f n s m)
