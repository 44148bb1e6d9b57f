-- ===== src/Patch/Restore.antt =====
-- Restoring a breakpoint slot: what each result of `uvdb_breakpoint_patch_restore_owned` says of the
-- target's memory and of the obligation that the slot carries.
use vita_debugger.Prelude.{
  ◌+◌, ◌^◌, ◌≤◌, ◌<◌, none, Option-cases, ◌≡◌, ◌≢◌, ◌⊎◌, inl, inr, refl, ◌∙◌, Bool, true, false,
  not, ◌&&◌, ◌||◌, Option, ◌==◌, take, same_bytes, same_bytes_sound, arith, Bool-cases, ==_iff,
}
use vita_debugger.Target.{Target, IsFaithful, view, read_view}
use vita_debugger.Patch.{
  PatchResult, ok, invalid_argument, empty, pending, installed, Slot, range_is_valid, cleared,
  Owner, sync_fails, identity_matches, rewrite_original, restore_internal, restore_owned,
  slot_metadata_is_valid, io_is_valid,
}

-- A slot that carries an obligation for one to four bytes of the address space.
abbrev pub InRange : Slot → Type 0
InRange slot =
    ((slot.state ≡ pending) ⊎ (slot.state ≡ installed))
    × (slot.address ≢ 0)
    × (0 < slot.size)
    × (slot.size ≤ 4)
    × (slot.address + slot.size ≤ 2 ^ 32)

metadata-InRange : (slot : Slot) → slot_metadata_is_valid slot ≡ true → InRange slot
unfolding slot_metadata_is_valid range_is_valid
metadata-InRange slot h =
    (ground arith, λ z. ground arith, ground arith, ground arith, ground arith)

InRange-metadata : (slot : Slot) → InRange slot → slot_metadata_is_valid slot ≡ true
unfolding slot_metadata_is_valid range_is_valid
InRange-metadata slot (state, not_null, some_bytes, few, within) = elim state [
  | inl e ↦ ground arith
  | inr e ↦ ground arith
]

io_is_valid-given : (t : Target) → io_is_valid t ≡ true → t.sync ≢ none
unfolding io_is_valid
io_is_valid-given t h e = absurd (clash (rw (e, io_is_valid) at h))
  where
    clash : false ≡ true → ⊥
    clash d = cc

given-io_is_valid : (t : Target) → t.sync ≢ none → io_is_valid t ≡ true
unfolding io_is_valid
given-io_is_valid t h = elim (Option-cases t.sync) [ inl e ↦ absurd (h e) | inr (f, e) ↦ rw e refl ]

module _ (t : Target) (f : IsFaithful t) where
  -- A rewrite that was found exact has left the original bytes in memory.
  rewrite_original-view :
      (slot : Slot) (s : t.State)
      → (rewrite_original t slot s).0 ≡ true
      → view (f.byte (rewrite_original t slot s).1) slot.address slot.size ≡ slot.original
  unfolding rewrite_original
  rewrite_original-view slot s h =
      read_view t f after slot.address slot.size full
      ∙ same_bytes_sound (take slot.size (t.read after slot.address slot.size).1) slot.original same
    where
      after : t.State
      after = (sync_fails t (t.write s slot.address slot.original).1 slot.address slot.size).1

      tests :
          ((t.read after slot.address slot.size).0 == slot.size
            && same_bytes (take slot.size (t.read after slot.address slot.size).1) slot.original)
          ≡ true
      tests = ground arith

      full : (t.read after slot.address slot.size).0 ≡ slot.size
      full = ground arith

      same :
          same_bytes (take slot.size (t.read after slot.address slot.size).1) slot.original ≡ true
      same = ground arith

  -- The slot was cleared with the original bytes back in memory, or keeps its obligation.
  abbrev pub Restored : Slot → PatchResult × Slot × t.State → Type 0
  Restored slot (r, slot', s') =
      ((r ≡ ok) × (slot' ≡ cleared) × (view (f.byte s') slot.address slot.size ≡ slot.original))
      ⊎ ((r ≢ ok) × (slot' ≡ record slot { state = pending }))

  -- The slots that `uvdb_breakpoint_patch_restore_owned` works on.
  abbrev pub Restorable : Slot → Type 0
  Restorable slot = (t.sync ≢ none) × InRange slot

  pub restore_internal-Restored :
      (slot : Slot) (owner : Option (Owner t)) (s : t.State)
      → Restored slot (restore_internal t slot owner s)
  unfolding restore_internal
  restore_internal-Restored slot owner s = elim (Bool-cases mine) [
    | inr other ↦ rw other (inr (λ e. cc e, refl))
    | inl e ↦ elim (Bool-cases (rewrite_original t slot' s₁).0) [
      | inl exact ↦ rw (e, exact) (inl (refl, refl, rewrite_original-view slot' s₁ exact))
      | inr doubt ↦ rw (e, doubt) (inr (λ e. cc e, refl))
    ]
  ]
    where
      slot' : Slot
      slot' = record slot { state = pending }

      mine : Bool
      mine = (identity_matches t slot' owner s).0

      s₁ : t.State
      s₁ = (identity_matches t slot' owner s).1

  -- Restoring an empty slot is OK and touches nothing. A slot that is not empty is refused with
  -- INVALID_ARGUMENT, and nothing is touched, exactly if the target has no `sync`, or the slot's state
  -- is neither pending nor installed, or its address is 0, its size is not within 1 and 4, or its
  -- range ends past the last address. Any other either is cleared, with its original bytes back in
  -- memory, or the result is an error and the slot keeps its whole record, now pending.
  pub restore_owned_lem :
      (slot : Slot) (owner : Option (Owner t)) (s : t.State)
      → ((slot.state ≡ empty) × (restore_owned t slot owner s ≡ (ok, slot, s)))
        ⊎ (((slot.state ≢ empty)
              × (¬ Restorable slot)
              × (restore_owned t slot owner s ≡ (invalid_argument, slot, s)))
            ⊎ (Restorable slot × Restored slot (restore_owned t slot owner s)))
  unfolding restore_owned
  restore_owned_lem slot owner s = elim (Bool-cases (slot.state == empty)) [
    | inl e ↦ inl ((==_iff _ _).0 e, rw e refl)
    | inr e ↦ elim (Bool-cases (not (io_is_valid t) || not (slot_metadata_is_valid slot))) [
      | inl bad ↦ inr (inl (other e, refuse bad, rw (e, bad) refl))
      | inr good ↦ inr (inr (accept good, rw (e, good) (restore_internal-Restored slot owner s)))
    ]
  ]
    where
      other : (slot.state == empty) ≡ false → slot.state ≢ empty
      other e z = ground arith

      clash :
          (not (io_is_valid t) || not (slot_metadata_is_valid slot)) ≡ true
          → (not (io_is_valid t) || not (slot_metadata_is_valid slot)) ≡ false
          → ⊥
      clash p q = cc (p, q)

      accept : (not (io_is_valid t) || not (slot_metadata_is_valid slot)) ≡ false → Restorable slot
      accept good = elim (Bool-cases (slot_metadata_is_valid slot)) [
        | inl m ↦ (io_is_valid-given t (ground arith), metadata-InRange slot m)
        | inr m ↦ absurd (clash (ground arith) good)
      ]

      refuse : (not (io_is_valid t) || not (slot_metadata_is_valid slot)) ≡ true → ¬ Restorable slot
      refuse bad (given, r) =
          clash bad (ground (arith, given-io_is_valid t given, InRange-metadata slot r))
