-- ===== src/Patch/Install.antt =====
-- Installing a breakpoint: what each result of `uvdb_breakpoint_patch_install_owned` says of the
-- target's memory and of the slot, through the rollback.
use vita_debugger.Prelude.{
  ℕ, ◌≡◌, ◌≢◌, ◌⊎◌, inl, inr, refl, ap, subst, ◌∙◌, Bool, true, not, ◌||◌, List, Option, none, some,
  ltb, ◌==◌, take, same_bytes, same_bytes_sound, arith, Bool-cases, ==_iff,
}
use vita_debugger.Target.{Target, IsFaithful, view, view-same, read_view}
use vita_debugger.Patch.{
  PatchResult, ok, restore_pending, empty, pending, installed, Slot, Owner, sync_fails, apply_patch,
  restore_internal, install_owned, still_owned, published, conclude, rollback, capture_and_patch,
  io_is_valid, range_is_valid, bad_owner,
}
use vita_debugger.Patch.Restore.{Restored, restore_internal-Restored}

module _ (t : Target) (f : IsFaithful t) where
  -- An owner's test of its identity changes no memory.
  abbrev pub Observes : Option (Owner t) → Type 0
  Observes owner =
      (s : t.State) (address size b : ℕ)
      → f.byte (still_owned t owner s address size).1 b ≡ f.byte s b

  -- A patch that stands was read back from memory.
  apply_patch-view :
      (slot : Slot) (s : t.State)
      → (apply_patch t slot s).0 ≡ none
      → view (f.byte (apply_patch t slot s).1) slot.address slot.size ≡ slot.patch
  unfolding apply_patch
  apply_patch-view slot s h =
      ap (λ s'. view (f.byte s') slot.address slot.size) stands
      ∙ read_view t f after slot.address slot.size full
      ∙ same_bytes_sound (take slot.size (t.read after slot.address slot.size).1) slot.patch same
    where
      after : t.State
      after = (sync_fails t (t.write s slot.address slot.patch).1 slot.address slot.size).1

      stands : (apply_patch t slot s).1 ≡ (t.read after slot.address slot.size).2
      stands = ground arith

      full : (t.read after slot.address slot.size).0 ≡ slot.size
      full = ground arith

      same : same_bytes (take slot.size (t.read after slot.address slot.size).1) slot.patch ≡ true
      same = ground arith

  -- The outcomes of an installation that got past the argument tests, from a memory that held
  -- `before` in the range: the patch is in place, the range holds `before` again, or the slot keeps
  -- `before` with the obligation to restore it.
  abbrev pub Outcome : List ℕ → ℕ → List ℕ → ℕ → PatchResult × Slot × t.State → Type 0
  Outcome before address patch size (r, slot', s') =
      ((r ≡ ok)
        × (slot'.state ≡ installed)
        × ((slot'.address ≡ address) × (slot'.size ≡ size) × (slot'.original ≡ before))
        × (view (f.byte s') address size ≡ take size patch))
      ⊎ (((r ≢ ok)
            × (r ≢ restore_pending)
            × (slot'.state ≡ empty)
            × (view (f.byte s') address size ≡ before))
          ⊎ ((r ≡ restore_pending)
              × (slot'.state ≡ pending)
              × ((slot'.address ≡ address) × (slot'.size ≡ size) × (slot'.original ≡ before))))

  rollback_pending :
      (failure r : PatchResult) (slot : Slot) (s : t.State)
      → r ≢ ok
      → rollback t failure (r, slot, s) ≡ (restore_pending, slot, s)
  unfolding rollback
  rollback_pending failure ok slot s h = absurd (h refl)
  rollback_pending failure _ slot s h = refl

  -- No step of applying a patch fails with a result that `rollback` or the caller takes for another.
  apply_patch-failure :
      (slot : Slot) (s : t.State) (failure : PatchResult)
      → (apply_patch t slot s).0 ≡ some failure
      → (failure ≢ ok) × (failure ≢ restore_pending)
  unfolding apply_patch
  apply_patch-failure slot s failure h = ground arith

  rollback-Outcome :
      (slot : Slot) (patch : List ℕ) (failure : PatchResult) (done : PatchResult × Slot × t.State)
      → slot.state ≡ pending
      → (failure ≢ ok) × (failure ≢ restore_pending)
      → Restored t f slot done
      → Outcome slot.original slot.address patch slot.size (rollback t failure done)
  unfolding rollback
  rollback-Outcome slot patch failure (r, slot', s) p fails (inl (e, e', back)) =
      rw (e, e') (inr (inl (fails.0, fails.1, refl, back)))
  rollback-Outcome slot patch failure (r, slot', s) p fails (inr (other, e)) =
      rw (rollback_pending failure r slot' s other, e) (inr (inr (refl, refl, (refl, refl, refl))))

  conclude-Outcome :
      (owner : Option (Owner t)) (slot : Slot) (patch : List ℕ)
      (done : Option PatchResult × t.State)
      → slot.state ≡ pending
      → slot.patch ≡ take slot.size patch
      → (done.0 ≡ none → view (f.byte done.1) slot.address slot.size ≡ slot.patch)
      → ((failure : PatchResult)
          → done.0 ≡ some failure
          → (failure ≢ ok) × (failure ≢ restore_pending))
      → Outcome slot.original slot.address patch slot.size (conclude t owner slot done)
  unfolding conclude
  conclude-Outcome owner slot patch (none, s) p e stands fails =
      inl (refl, refl, (refl, refl, refl), stands refl ∙ e)
  conclude-Outcome owner slot patch (some failure, s) p e stands fails =
      rollback-Outcome slot patch failure (restore_internal t slot owner s) p (fails failure refl)
        (restore_internal-Restored t f slot owner s)

  -- The installation was refused before anything was written.
  abbrev pub Refused : Slot → t.State → PatchResult × Slot × t.State → Type 0
  Refused slot s (r, slot', s') =
      (r ≢ ok) × (r ≢ restore_pending) × (slot' ≡ slot) × ((b : ℕ) → f.byte s' b ≡ f.byte s b)

  capture_and_patch_lem :
      (slot : Slot) (owner : Option (Owner t)) (address : ℕ) (patch : List ℕ) (size : ℕ)
      (s : t.State)
      → Observes owner
      → Refused slot s (capture_and_patch t slot owner address patch size s)
        ⊎ Outcome
            (view (f.byte s) address size)
            address
            patch
            size
            (capture_and_patch t slot owner address patch size s)
  unfolding capture_and_patch published
  capture_and_patch_lem slot owner address patch size s observes =
      elim (Bool-cases (still_owned t owner s address size).0) [
        | inr e ↦ rw e (inl (λ z. cc z, λ z. cc z, refl, observes s address size))
        | inl e ↦ elim (Bool-cases ((t.read s₁ address size).0 == size)) [
          | inr e' ↦ rw (e, e') (inl (λ z. cc z, λ z. cc z, refl, keeps₂))
          | inl e' ↦ elim (Bool-cases (still_owned t owner s₂ address size).0) [
            | inr e'' ↦ rw (e, e', e'') (inl (λ z. cc z, λ z. cc z, refl, keeps₃))
            | inl e'' ↦ rw (e, e', e'') (inr (patched ((==_iff _ _).0 e')))
          ]
        ]
      ]
    where
      s₁ : t.State
      s₁ = (still_owned t owner s address size).1

      s₂ : t.State
      s₂ = (t.read s₁ address size).2

      keeps₂ : (b : ℕ) → f.byte s₂ b ≡ f.byte s b
      keeps₂ b = f.read_keeps s₁ address size b ∙ observes s address size b

      keeps₃ : (b : ℕ) → f.byte (still_owned t owner s₂ address size).1 b ≡ f.byte s b
      keeps₃ b = observes s₂ address size b ∙ keeps₂ b

      s₃ : t.State
      s₃ = (still_owned t owner s₂ address size).1

      slot' : Slot
      slot' =
          published t owner address size (take size (t.read s₁ address size).1) (take size patch)

      captured :
          (t.read s₁ address size).0 ≡ size
          → take size (t.read s₁ address size).1 ≡ view (f.byte s) address size
      captured full =
          f.read_exact s₁ address size full ∙ view-same _ _ address size (observes s address size)

      patched :
          (t.read s₁ address size).0 ≡ size
          → Outcome
              (view (f.byte s) address size)
              address
              patch
              size
              (conclude t owner slot' (apply_patch t slot' s₃))
      patched full =
          subst
            (λ before.
              Outcome before address patch size (conclude t owner slot' (apply_patch t slot' s₃)))
            (captured full)
            (conclude-Outcome owner slot' patch (apply_patch t slot' s₃) refl refl
              (apply_patch-view slot' s₃) (apply_patch-failure slot' s₃))

  -- On a target whose full reads are right, for an owner whose test changes no memory, installing
  -- ends in one of four ways. It is refused, and neither the slot nor any byte has changed. Or the
  -- slot was empty, and it now is installed, records the bytes that stood in the range, and the patch
  -- stands there; or it is empty, with an error, and the range holds its former bytes; or the result
  -- is RESTORE_PENDING and the slot, pending, records the range and its former bytes.
  pub install_owned_lem :
      (slot : Slot) (owner : Option (Owner t)) (address : ℕ) (patch : List ℕ) (size : ℕ)
      (s : t.State)
      → Observes owner
      → Refused slot s (install_owned t slot owner address patch size s)
        ⊎ ((slot.state ≡ empty)
            × Outcome
                (view (f.byte s) address size)
                address
                patch
                size
                (install_owned t slot owner address patch size s))
  unfolding install_owned
  install_owned_lem slot owner address patch size s observes = elim (Bool-cases bad) [
    | inl e ↦ rw e (inl (λ z. cc z, λ z. cc z, refl, λ b. refl))
    | inr e ↦ elim (Bool-cases (slot.state == empty)) [
      | inr e' ↦ rw (e, e') (inl (λ z. cc z, λ z. cc z, refl, λ b. refl))
      | inl e' ↦
          rw (e, e')
            (elim (capture_and_patch_lem slot owner address patch size s observes) [
              | inl refused ↦ inl refused
              | inr outcome ↦ inr ((==_iff _ _).0 e', outcome)
            ])
    ]
  ]
    where
      bad : Bool
      bad =
          not (io_is_valid t)
          || (not (range_is_valid address size) || (ltb installed slot.state || bad_owner t owner))
