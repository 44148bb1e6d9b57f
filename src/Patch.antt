-- ===== src/Patch.antt =====
-- Software breakpoints patched into the target: src/uvdb_breakpoint_patch.c. The slot's two arrays
-- are lists of the bytes in use. A caller passes the slot, the callbacks and the patch, so that of
-- the tests for NULL those of `sync` and of the owner are left.
pub mod Restore
pub mod Install
pub mod Working
use vita_debugger.Prelude.{
  ℕ, zero, suc, ◌+◌, ◌-◌, Bool, true, false, not, ◌&&◌, ◌||◌, List, [], Option, none, some, ltb,
  leb, ◌==◌, if◌then◌else◌, take, same_bytes,
}
use vita_debugger.Prelude.Int.{ℤ, is_zero, is_one}
use vita_debugger.Target.{Target, uintptr_max}

-- `enum uvdb_breakpoint_patch_result`
pub data PatchResult : Type 0 where
  ok invalid_argument slot_in_use original_read patch_write patch_sync patch_readback : PatchResult
  patch_mismatch restore_pending identity_error : PatchResult

-- `enum uvdb_breakpoint_patch_state`, in a uint8_t.
abbrev pub empty : ℕ
empty = 0

abbrev pub pending : ℕ
pending = 1

abbrev pub installed : ℕ
installed = 2

pub record Identity : Type 0 where
  pub target : ℕ
  pub module_id : ℕ

-- `struct uvdb_breakpoint_patch_slot`
pub record Slot : Type 0 where
  pub address : ℕ
  pub original : List ℕ
  pub patch : List ℕ
  pub size : ℕ
  pub state : ℕ
  pub identity_bound : Bool
  pub identity : Identity

abbrev pub no_identity : Identity
no_identity = record { target = 0; module_id = 0 }

-- `uvdb_breakpoint_patch_clear`, `uvdb_breakpoint_patch_slot_init`
abbrev pub cleared : Slot
cleared = record {
  address = 0;
  original = [];
  patch = [];
  size = 0;
  state = empty;
  identity_bound = false;
  identity = no_identity;
}

-- `struct uvdb_breakpoint_patch_owner`, with its callback.
pub record Owner (t : Target) : Type 0 where
  pub identity : Identity
  pub matches : t.State → ℕ → ℕ → Identity → ℤ × t.State

unfoldable pub range_is_valid : ℕ → ℕ → Bool
range_is_valid address size =
    not (address == 0)
    && (not (size == 0) && (leb size 4 && leb address (uintptr_max - (size - 1))))

pub slot_metadata_is_valid : Slot → Bool
slot_metadata_is_valid slot =
    (slot.state == pending || slot.state == installed) && range_is_valid slot.address slot.size

pub same_identity : Identity → Identity → Bool
same_identity a b = a.target == b.target && a.module_id == b.module_id

unfoldable pub requires_restore : Slot → Bool
requires_restore slot = not (slot.state == empty)

module _ (t : Target) where
  pub io_is_valid : Bool
  io_is_valid = elim t.sync [ none ↦ false | some f ↦ true ]

  -- A call of `sync`; it is made only where `io_is_valid`.
  pub sync_fails : t.State → ℕ → ℕ → Bool × t.State
  sync_fails s address size = elim t.sync [
    | none ↦ (true, s)
    | some f ↦ let (result, s') = f s address size in (not (is_zero result), s')
  ]

  pub owner_is_valid : Owner t → Bool
  owner_is_valid owner = not (owner.identity.target == 0) && not (owner.identity.module_id == 0)

  unfoldable pub asks : Owner t → t.State → ℕ → ℕ → Identity → Bool × t.State
  asks owner s address size identity =
      let (result, s') = owner.matches s address size identity in (is_one result, s')

  pub identity_matches : Slot → Option (Owner t) → t.State → Bool × t.State
  unfolding same_identity owner_is_valid
  identity_matches slot none s = (not slot.identity_bound, s)
  identity_matches slot (some owner) s =
      let asked = asks owner s slot.address slot.size slot.identity in
      if not slot.identity_bound
      then (false, s)
      else if owner_is_valid owner && same_identity slot.identity owner.identity
      then asked
      else (false, s)

  -- Write, synchronise and read back, all three whatever came of the ones before.
  pub rewrite_original : Slot → t.State → Bool × t.State
  rewrite_original slot s =
      let (written, s₁) = t.write s slot.address slot.original in
      let (failed, s₂) = sync_fails s₁ slot.address slot.size in
      let (count, readback, s₃) = t.read s₂ slot.address slot.size in
      (
        written == slot.size
            && (not failed
                && (count == slot.size && same_bytes (take slot.size readback) slot.original)),
        s₃,
      )

  pub restore_internal : Slot → Option (Owner t) → t.State → PatchResult × Slot × t.State
  restore_internal slot owner s =
      let slot' = record slot { state = pending } in
      let (mine, s₁) = identity_matches slot' owner s in
      let (exact, s₂) = rewrite_original slot' s₁ in
      if not mine
      then (identity_error, slot', s₁)
      else if exact
      then (ok, cleared, s₂)
      else (restore_pending, slot', s₂)

  -- `matches` as the two tests before installation make it; no owner is no test.
  unfoldable pub still_owned : Option (Owner t) → t.State → ℕ → ℕ → Bool × t.State
  still_owned none s address size = (true, s)
  still_owned (some owner) s address size = asks owner s address size owner.identity

  -- From the first patch write on: `some` failure, or the patch stands.
  pub apply_patch : Slot → t.State → Option PatchResult × t.State
  apply_patch slot s =
      let (written, s₁) = t.write s slot.address slot.patch in
      let (failed, s₂) = sync_fails s₁ slot.address slot.size in
      let (count, readback, s₃) = t.read s₂ slot.address slot.size in
      if not (written == slot.size)
      then (some patch_write, s₁)
      else if failed
      then (some patch_sync, s₂)
      else if not (count == slot.size)
      then (some patch_readback, s₃)
      else if not (same_bytes (take slot.size readback) slot.patch)
      then (some patch_mismatch, s₃)
      else (none, s₃)

  -- The recovery metadata that is published before the first write.
  pub published : Option (Owner t) → ℕ → ℕ → List ℕ → List ℕ → Slot
  published owner address size original patch = record {
    address = address;
    original = original;
    patch = patch;
    size = size;
    state = pending;
    identity_bound = elim owner [ none ↦ false | some o ↦ true ];
    identity = elim owner [ none ↦ no_identity | some o ↦ o.identity ];
  }

  pub rollback : PatchResult → PatchResult × Slot × t.State → PatchResult × Slot × t.State
  rollback failure (ok, slot, s) = (failure, slot, s)
  rollback failure (_, slot, s) = (restore_pending, slot, s)

  pub conclude :
      Option (Owner t) → Slot → Option PatchResult × t.State → PatchResult × Slot × t.State
  conclude owner slot (none, s) = (ok, record slot { state = installed }, s)
  conclude owner slot (some failure, s) = rollback failure (restore_internal slot owner s)

  -- The part of `install_owned` behind its argument checks.
  pub capture_and_patch :
      Slot → Option (Owner t) → ℕ → List ℕ → ℕ → t.State → PatchResult × Slot × t.State
  capture_and_patch slot owner address patch size s =
      let (before, s₁) = still_owned owner s address size in
      let (count, buffer, s₂) = t.read s₁ address size in
      let (after, s₃) = still_owned owner s₂ address size in
      let slot' = published owner address size (take size buffer) (take size patch) in
      let done = conclude owner slot' (apply_patch slot' s₃) in
      if not before
      then (identity_error, slot, s₁)
      else if not (count == size)
      then (original_read, slot, s₂)
      else if not after
      then (identity_error, slot, s₃)
      else done

  pub bad_owner : Option (Owner t) → Bool
  bad_owner none = false
  bad_owner (some owner) = not (owner_is_valid owner)

  pub install_owned :
      Slot → Option (Owner t) → ℕ → List ℕ → ℕ → t.State → PatchResult × Slot × t.State
  install_owned slot owner address patch size s =
      let done = capture_and_patch slot owner address patch size s in
      if not io_is_valid
        || (not (range_is_valid address size) || (ltb installed slot.state || bad_owner owner))
      then (invalid_argument, slot, s)
      else if not (slot.state == empty)
      then (slot_in_use, slot, s)
      else done

  pub install : Slot → ℕ → List ℕ → ℕ → t.State → PatchResult × Slot × t.State
  install slot address patch size s = install_owned slot none address patch size s

  pub restore_owned : Slot → Option (Owner t) → t.State → PatchResult × Slot × t.State
  restore_owned slot owner s =
      let done = restore_internal slot owner s in
      if slot.state == empty
      then (ok, slot, s)
      else if not io_is_valid || not (slot_metadata_is_valid slot)
      then (invalid_argument, slot, s)
      else done

  pub restore : Slot → t.State → PatchResult × Slot × t.State
  restore slot s = restore_owned slot none s
