-- ===== src/Transaction.antt =====
-- Writes to the target that are undone when they fail: src/uvdb_memory_transaction.c. A buffer of
-- the caller is its address and its bytes; it does not lie in the target's memory. The callers'
-- structures and the `read` and `write` callbacks are given, so that of the tests for NULL those of
-- `sync`, of the storage and of the input are left. An address that is used is at most UINTPTR_MAX,
-- by the test in `prepare`, so that no sum here wraps around.
pub mod Agrees
pub mod Verify
pub mod Obliged
pub mod Steps
pub mod Write
pub mod Working
use vita_debugger.Prelude.{
  ℕ, zero, suc, ◌+◌, ◌-◌, Bool, true, false, not, ◌&&◌, ◌||◌, List, Option, none, some, ltb, leb,
  ◌==◌, if◌then◌else◌, take, drop, same_bytes,
}
use vita_debugger.Prelude.Int.{is_neg}
use vita_debugger.Spans.{spans_overlap}
use vita_debugger.Target.{Target, uintptr_max}

-- `enum uvdb_memory_transaction_result`
pub data Result : Type 0 where
  ok invalid read_failed write_failed_restored restore_pending state_error : Result

-- `enum uvdb_memory_transaction_state`
pub data Phase : Type 0 where
  idle prepared applied : Phase

abbrev pub is_idle : Phase → Bool
is_idle idle = true
is_idle prepared = false
is_idle applied = false

abbrev pub is_prepared : Phase → Bool
is_prepared idle = false
is_prepared prepared = true
is_prepared applied = false

abbrev pub is_applied : Phase → Bool
is_applied idle = false
is_applied prepared = false
is_applied applied = true

-- A span of the debugger's own memory. A NULL pointer is `none`.
pub record Buffer : Type 0 where
  pub base : ℕ
  pub bytes : List ℕ

abbrev pub is_null : Option Buffer → Bool
is_null none = true
is_null (some buffer) = false

abbrev pub base_of : Option Buffer → ℕ
base_of none = 0
base_of (some buffer) = buffer.base

-- The contents of a buffer, where it is used.
abbrev pub bytes_of : Option Buffer → List ℕ
bytes_of none = List.[]
bytes_of (some buffer) = buffer.bytes

-- A buffer after a call has filled it.
abbrev pub filled : Option Buffer → List ℕ → Option Buffer
filled none bytes = none
filled (some buffer) bytes = some (record buffer { bytes = bytes })

-- `struct uvdb_memory_transaction`
pub record Transaction : Type 0 where
  pub address : ℕ
  pub size : ℕ
  pub original : Option Buffer
  pub capacity : ℕ
  pub state : Phase

pub init : Option Buffer → ℕ → Transaction
init storage capacity = record {
  address = 0;
  size = 0;
  original = storage;
  capacity = capacity;
  state = idle;
}

pub clear_transaction : Transaction → Transaction
clear_transaction tx = record tx { address = 0; size = 0; state = idle }

unfoldable pub is_pending : Transaction → Bool
is_pending tx = not (is_idle tx.state)

-- `address > UINTPTR_MAX - (size - 1u)`, for a size that is not 0.
abbrev pub past_end : ℕ → ℕ → Bool
past_end address size = ltb (uintptr_max - (size - 1)) address

-- The part of an observation buffer that one pass fills.
abbrev pub chunk_size : ℕ → ℕ
chunk_size left = if ltb 64 left then 64 else left

module _ (t : Target) where
  -- A call of `sync`, if there is one: whether its result is negative.
  pub sync_negative : t.State → ℕ → ℕ → Bool × t.State
  sync_negative s address size = elim t.sync [
    | none ↦ (false, s)
    | some f ↦ let (result, s') = f s address size in (is_neg result, s')
  ]

  -- The loop of `verify_bytes` from an offset on; `true` is its result 0. Each pass is one of fuel.
  pub verify_from : ℕ → t.State → ℕ → List ℕ → ℕ → ℕ → Bool × t.State
  verify_from zero s address expected offset size = (not (ltb offset size), s)
  verify_from (suc fuel) s address expected offset size =
      let chunk = chunk_size (size - offset) in
      let (count, observed, s') = t.read s (address + offset) chunk in
      let rest = verify_from fuel s' address expected (offset + chunk) size in
      if not (ltb offset size)
      then (true, s)
      else if not (count == chunk)
          || not (same_bytes (take chunk observed) (take chunk (drop offset expected)))
      then (false, s')
      else rest

  -- A pass compares at least one byte: as many passes as bytes are enough.
  pub verify_bytes : t.State → ℕ → List ℕ → ℕ → Bool × t.State
  verify_bytes s address expected size = verify_from size s address expected 0 size

  pub restore_original : t.State → ℕ → List ℕ → ℕ → Result × t.State
  restore_original s address original size =
      let (written, s₁) = t.write s address (take size original) in
      let (negative, s₂) = sync_negative s₁ address size in
      let (verified, s₃) = verify_bytes s₂ address original size in
      if written == size && (not negative && verified)
      then (write_failed_restored, s₃)
      else (restore_pending, s₃)

  pub prepare : Transaction → ℕ → ℕ → t.State → Result × Transaction × t.State
  prepare tx address size s =
      let (count, contents, s') = t.read s address size in
      let tx' = record tx { original = filled tx.original contents } in
      if not (is_idle tx.state)
        || (not (size == 0) && is_null tx.original
            || (ltb tx.capacity size || not (size == 0) && past_end address size))
      then (invalid, tx, s)
      else if size == 0
      then (ok, tx, s)
      else if not (count == size)
      then (read_failed, tx', s')
      else (ok, record tx' { address = address; size = size; state = prepared }, s')

  -- The end of `restore`: the transaction is cleared if the bytes are back.
  pub settle : Transaction → Result × t.State → Result × Transaction × t.State
  settle tx (write_failed_restored, s) = (write_failed_restored, clear_transaction tx, s)
  settle tx (result, s) = (result, tx, s)

  unfoldable pub restore : Transaction → t.State → Result × Transaction × t.State
  restore tx s =
      let done = settle tx (restore_original s tx.address (bytes_of tx.original) tx.size) in
      if not (is_prepared tx.state || is_applied tx.state)
        || (is_null tx.original || (tx.size == 0 || ltb tx.capacity tx.size))
      then (state_error, tx, s)
      else done

  pub apply : Transaction → Option Buffer → ℕ → t.State → Result × Transaction × t.State
  apply tx input size s =
      let (written, s₁) = t.write s tx.address (take size (bytes_of input)) in
      let (negative, s₂) = sync_negative s₁ tx.address size in
      let (verified, s₃) = verify_bytes s₂ tx.address (bytes_of input) size in
      let undo₁ = restore tx s₁ in
      let undo₂ = restore tx s₂ in
      let undo₃ = restore tx s₃ in
      if is_null input
        || (not (is_prepared tx.state)
            || (not (size == tx.size)
                || spans_overlap (base_of input) size (base_of tx.original) tx.size))
      then (invalid, tx, s)
      else if not (written == size)
      then undo₁
      else if negative
      then undo₂
      else if not verified
      then undo₃
      else (ok, record tx { state = applied }, s₃)

pub commit : Transaction → Result × Transaction
commit tx = if not (is_applied tx.state) then (state_error, tx) else (ok, clear_transaction tx)

module _ (t : Target) where
  -- The calls of the one-shot write behind its argument checks, each made if the one before gave OK.
  pub then_commit : Result × Transaction × t.State → Result × Transaction × t.State
  then_commit (ok, tx, s) = let (result, tx') = commit tx in (result, tx', s)
  then_commit (result, tx, s) = (result, tx, s)

  pub then_apply :
      Option Buffer → ℕ → Result × Transaction × t.State → Result × Transaction × t.State
  then_apply input size (ok, tx, s) = then_commit (apply t tx input size s)
  then_apply input size (result, tx, s) = (result, tx, s)

  -- The transaction is a local of the source's; what is left of it is the scratch buffer.
  pub write_transaction :
      ℕ → Option Buffer → ℕ → Option Buffer → ℕ → t.State → Result × Option Buffer × t.State
  write_transaction address input size scratch scratch_size s =
      let (result, tx, s') =
        then_apply input size (prepare t (init scratch scratch_size) address size s) in
      if not (size == 0) && (is_null input || is_null scratch)
        || (ltb scratch_size size
            || (not (size == 0) && past_end address size
                || spans_overlap (base_of input) size (base_of scratch) size))
      then (invalid, scratch, s)
      else if size == 0
      then (ok, scratch, s)
      else (result, tx.original, s')

  abbrev pub restored_result : Result × t.State → Result × t.State
  restored_result (write_failed_restored, s) = (ok, s)
  restored_result (_, s) = (restore_pending, s)

  pub restore_transaction : ℕ → ℕ → Option Buffer → ℕ → t.State → Result × t.State
  restore_transaction address size scratch scratch_size s =
      let done = restored_result (restore_original t s address (bytes_of scratch) size) in
      if not (size == 0) && is_null scratch
        || (ltb scratch_size size || not (size == 0) && past_end address size)
      then (invalid, s)
      else if size == 0
      then (ok, s)
      else done
