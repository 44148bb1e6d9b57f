-- ===== src/Tests/Memory.antt =====
-- Breakpoints and transactions on a small memory.
use vita_debugger.Prelude.{◌<◌, ◌≤◌, ◌≡◌, ◌≢◌, ◌⊎◌, refl, ℕ, List, [], ◌∷◌, none, some, take, arith}
use vita_debugger.Spans.{spans_overlap}
use vita_debugger.Target.{view}
use vita_debugger.Patch.{
  Slot, cleared, installed, empty, PatchResult, range_is_valid, install, install_owned, still_owned,
  restore, restore_owned,
}
use vita_debugger.Patch.Install.{Refused, Outcome, install_owned_lem}
use vita_debugger.Patch.Restore.{Restored, Restorable, restore_owned_lem}
use vita_debugger.Patch.Working.{install-restore}
use vita_debugger.Transaction.{
  Buffer, Transaction, init, idle, prepared, applied, prepare, apply, write_transaction,
  restore_transaction, verify_bytes, bytes_of,
}
use vita_debugger.Transaction.Obliged.{Obliged}
use vita_debugger.Transaction.Steps.{Applied, Prepared, prepare_lem, apply_lem}
use vita_debugger.Transaction
use vita_debugger.Transaction.Steps
use vita_debugger.Transaction.Write.{
  Untouched, Written, Retried, write_transaction_lem, restore_transaction_lem,
}
use vita_debugger.Transaction.Working.{write_transaction-works}
use vita_debugger.Tests.Ram.{ram, ram-IsFaithful, ram-IsWorking, ramp}

abbrev trap : List ℕ
trap = 0xf0 ∷ 0x01 ∷ 0xf0 ∷ 0xe7 ∷ []

abbrev four : ℕ
four = 4

abbrev standing : Slot
standing = record cleared {
  address = 64;
  original = 1 ∷ 2 ∷ [];
  patch = 3 ∷ 4 ∷ [];
  size = 2;
  state = installed;
}

abbrev source : Buffer
source = record { base = 4096; bytes = trap }

abbrev scratch : Buffer
scratch = record { base = 8192; bytes = [] }

abbrev started : Transaction
started = record {
  address = 64;
  size = 4;
  original = some (record scratch { bytes = 64 ∷ 65 ∷ 66 ∷ 67 ∷ [] });
  capacity = 16;
  state = prepared;
}

install_owned_lem_example :
    Refused ram ram-IsFaithful cleared ramp (install_owned ram cleared none 64 trap 4 ramp)
    ⊎ ((empty ≡ empty)
        × Outcome ram ram-IsFaithful
            (view (ram-IsFaithful.byte ramp) 64 4)
            64
            trap
            4
            (install_owned ram cleared none 64 trap 4 ramp))
unfolding still_owned
install_owned_lem_example =
    install_owned_lem ram ram-IsFaithful cleared none 64 trap 4 ramp (λ s a n b. refl)

restore_owned_lem_example :
    ((standing.state ≡ empty)
      × (restore_owned ram standing none ramp ≡ (PatchResult.ok, standing, ramp)))
    ⊎ (((standing.state ≢ empty)
          × (¬ Restorable ram ram-IsFaithful standing)
          × (restore_owned ram standing none ramp ≡ (PatchResult.invalid_argument, standing, ramp)))
        ⊎ (Restorable ram ram-IsFaithful standing
            × Restored ram ram-IsFaithful standing (restore_owned ram standing none ramp)))
restore_owned_lem_example = restore_owned_lem ram ram-IsFaithful standing none ramp

install-restore_example :
    (slot : Slot) × (s s' : ℕ → ℕ) × (install ram cleared 64 trap 4 ramp
      ≡ (PatchResult.ok, slot, s))
    × (view (ram-IsFaithful.byte s) 64 4 ≡ take 4 trap)
    × (restore ram slot s ≡ (PatchResult.ok, cleared, s'))
    × ((b : ℕ) → ram-IsFaithful.byte s' b ≡ ram-IsFaithful.byte ramp b)
unfolding range_is_valid
install-restore_example =
    install-restore ram ram-IsFaithful ram-IsWorking cleared 64 trap 4 ramp refl refl (omega arith)

prepare_lem_example :
    Prepared ram ram-IsFaithful
      (init (some scratch) 16)
      64
      4
      ramp
      (prepare ram (init (some scratch) 16) 64 4 ramp)
prepare_lem_example = prepare_lem ram ram-IsFaithful (init (some scratch) 16) 64 4 ramp

apply_lem_example :
    Applied ram ram-IsFaithful started trap 4 ramp (apply ram started (some source) 4 ramp)
apply_lem_example = apply_lem ram ram-IsFaithful started (some source) 4 ramp

restore_lem_example :
    ((¬ Obliged started)
      × (Transaction.restore ram started ramp ≡ (Transaction.state_error, started, ramp)))
    ⊎ (Obliged started
        × Steps.Restored ram ram-IsFaithful started (Transaction.restore ram started ramp))
restore_lem_example = Steps.restore_lem ram ram-IsFaithful started ramp

write_transaction_lem_example :
    Untouched ram ram-IsFaithful ramp
      (write_transaction ram 64 (some source) 4 (some scratch) 16 ramp)
    ⊎ Written ram ram-IsFaithful 64
        (view (ram-IsFaithful.byte ramp) 64 4)
        trap
        4
        (write_transaction ram 64 (some source) 4 (some scratch) 16 ramp)
write_transaction_lem_example =
    write_transaction_lem ram ram-IsFaithful 64 (some source) 4 (some scratch) 16 ramp (omega arith)

restore_transaction_lem_example :
    Retried ram ram-IsFaithful 64 four
      (some source)
      16
      ramp
      (restore_transaction ram 64 four (some source) 16 ramp)
restore_transaction_lem_example =
    restore_transaction_lem ram ram-IsFaithful 64 four (some source) 16 ramp

write_transaction-works_example :
    ((write_transaction ram 64 (some source) 4 (some scratch) 16 ramp).0 ≡ Transaction.ok)
    × (view
          (ram-IsFaithful.byte (write_transaction ram 64 (some source) 4 (some scratch) 16 ramp).2)
          64
          4
        ≡ take 4 trap)
    × ((b : ℕ)
        → (b < 64) ⊎ (68 ≤ b)
        → ram-IsFaithful.byte (write_transaction ram 64 (some source) 4 (some scratch) 16 ramp).2 b
          ≡ ram-IsFaithful.byte ramp b)
unfolding spans_overlap
write_transaction-works_example =
    write_transaction-works ram ram-IsFaithful ram-IsWorking 64 source 4 scratch 16 ramp
      (omega arith) (omega arith) (omega arith) refl refl
