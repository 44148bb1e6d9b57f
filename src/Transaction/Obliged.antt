-- ===== src/Transaction/Obliged.antt =====
-- The transactions that can be restored, for the guard of `uvdb_memory_transaction_restore` of
-- src/uvdb_memory_transaction.c.
use vita_debugger.Prelude.{
  ◌≡◌, ◌≤◌, ◌<◌, ◌⊎◌, refl, Bool, true, false, not, ◌||◌, ltb, ◌==◌, arith, inl, inr,
}
use vita_debugger.Transaction.{
  idle, prepared, applied, is_prepared, is_applied, Phase, is_null, Transaction,
}

-- The transactions that `restore` refuses.
abbrev pub unready : Transaction → Bool
unready tx =
    not (is_prepared tx.state || is_applied tx.state)
    || (is_null tx.original || (tx.size == 0 || ltb tx.capacity tx.size))

-- What `uvdb_memory_transaction_restore` asks of a transaction: it was prepared or applied, and holds
-- original bytes that fit the buffer it was given.
abbrev pub Obliged : Transaction → Type 0
Obliged tx =
    ((tx.state ≡ prepared) ⊎ (tx.state ≡ applied))
    × (is_null tx.original ≡ false)
    × (0 < tx.size)
    × (tx.size ≤ tx.capacity)

is_pending-cases :
    (state : Phase)
    → (is_prepared state || is_applied state) ≡ true
    → (state ≡ prepared) ⊎ (state ≡ applied)
is_pending-cases idle h = absurd (cc h)
is_pending-cases prepared h = inl refl
is_pending-cases applied h = inr refl

pending-is_pending :
    (state : Phase)
    → (state ≡ prepared) ⊎ (state ≡ applied)
    → (is_prepared state || is_applied state) ≡ true
pending-is_pending state (inl e) = rw e refl
pending-is_pending state (inr e) = rw e refl

pub unready-Obliged : (tx : Transaction) → unready tx ≡ false → Obliged tx
unready-Obliged tx h =
    (is_pending-cases tx.state (ground arith), ground arith, ground arith, ground arith)

pub Obliged-unready : (tx : Transaction) → Obliged tx → unready tx ≡ false
Obliged-unready tx (state, held, some_bytes, fits) =
    ground (arith, pending-is_pending tx.state state, held, some_bytes, fits)
