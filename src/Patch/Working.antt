-- ===== src/Patch/Working.antt =====
-- A breakpoint on a target whose operations all succeed: installing and restoring it, through
-- `uvdb_breakpoint_patch_install` and `uvdb_breakpoint_patch_restore`.
use vita_debugger.Prelude.{
  ℕ, ◌+◌, ◌<◌, ◌≤◌, ◌≡◌, ◌⊎◌, inl, inr, refl, sym, ap, subst, ◌∙◌, true, false, ◌&&◌, List, none,
  ltb, leb, take, length, length-take, same_bytes_refl, arith, Bool-cases, ==_refl,
}
use vita_debugger.Target.{
  Target, IsFaithful, IsWorking, view, view-same, view-byte, length-view, read_view,
}
use vita_debugger.Patch.{
  ok, empty, pending, installed, Slot, cleared, sync_fails, bad_owner, identity_matches,
  still_owned, apply_patch, restore_internal, install_owned, install, restore, restore_owned,
  published, conclude, capture_and_patch, io_is_valid, range_is_valid, rewrite_original,
  slot_metadata_is_valid,
}

module _ (t : Target) (f : IsFaithful t) (w : IsWorking t f) where
  -- The state behind a write, a cache operation and a read.
  abbrev pub after : t.State → ℕ → List ℕ → ℕ → t.State
  after s a bytes n = (t.read (w.flush (t.write s a bytes).1 a n).1 a n).2

  sync_fails_lem : (s : t.State) (a n : ℕ) → sync_fails t s a n ≡ (false, (w.flush s a n).1)
  unfolding sync_fails
  sync_fails_lem s a n = rw (w.sync_given, w.flush_zero s a n) refl

  io_is_valid_lem : io_is_valid t ≡ true
  unfolding io_is_valid
  io_is_valid_lem = rw w.sync_given refl

  after-keeps :
      (s : t.State) (a : ℕ) (bytes : List ℕ) (n b : ℕ)
      → f.byte (after s a bytes n) b ≡ f.byte (t.write s a bytes).1 b
  after-keeps s a bytes n b = f.read_keeps _ a n b ∙ w.flush_keeps _ a n b

  readback :
      (s : t.State) (a : ℕ) (bytes : List ℕ) (n : ℕ)
      → length bytes ≡ n
      → take n (t.read (w.flush (t.write s a bytes).1 a n).1 a n).1 ≡ bytes
  readback s a bytes n e =
      f.read_exact _ a n (w.read_full _ a n)
      ∙ view-same _ _ a n (w.flush_keeps _ a n)
      ∙ subst (λ n. view (f.byte (t.write s a bytes).1) a n ≡ bytes) e (w.write_view s a bytes)

  apply_patch_lem :
      (slot : Slot) (s : t.State)
      → length slot.patch ≡ slot.size
      → apply_patch t slot s ≡ (none, after s slot.address slot.patch slot.size)
  unfolding apply_patch
  apply_patch_lem slot s e =
      rw
        (
          sync_fails_lem,
          w.write_full,
          w.read_full,
          readback s slot.address slot.patch slot.size e,
          same_bytes_refl slot.patch,
          e,
          ==_refl,
        )
        refl

  rewrite_original_lem :
      (slot : Slot) (s : t.State)
      → length slot.original ≡ slot.size
      → rewrite_original t slot s ≡ (true, after s slot.address slot.original slot.size)
  unfolding rewrite_original
  rewrite_original_lem slot s e =
      rw
        (
          sync_fails_lem,
          w.write_full,
          w.read_full,
          readback s slot.address slot.original slot.size e,
          same_bytes_refl slot.original,
          e,
          ==_refl,
        )
        refl

  -- The slot that an installation without an owner leaves.
  abbrev pub standing : ℕ → List ℕ → ℕ → t.State → Slot
  standing a patch n s = record (published t none a n (take n (t.read s a n).1) (take n patch)) {
    state = installed;
  }

  install_lem :
      (slot : Slot) (a : ℕ) (patch : List ℕ) (n : ℕ) (s : t.State)
      → slot.state ≡ empty
      → range_is_valid a n ≡ true
      → n ≤ length patch
      → install t slot a patch n s
        ≡ (ok, standing a patch n s, after (t.read s a n).2 a (take n patch) n)
  unfolding install install_owned bad_owner capture_and_patch still_owned conclude published
  install_lem slot a patch n s e valid long =
      rw
        (
          io_is_valid_lem,
          valid,
          e,
          w.read_full,
          ==_refl,
          apply_patch_lem slot' (t.read s a n).2 full,
        )
        refl
    where
      slot' : Slot
      slot' = published t none a n (take n (t.read s a n).1) (take n patch)

      full : length (take n patch) ≡ n
      full = omega (arith, length-take n patch)

  restore_lem :
      (slot : Slot) (s : t.State)
      → slot.state ≡ installed
      → slot.identity_bound ≡ false
      → range_is_valid slot.address slot.size ≡ true
      → length slot.original ≡ slot.size
      → restore t slot s ≡ (ok, cleared, after s slot.address slot.original slot.size)
  unfolding restore restore_owned restore_internal identity_matches slot_metadata_is_valid
  restore_lem slot s e bound valid full =
      rw (io_is_valid_lem, valid, e, rewrite_original_lem slot' s full, bound) refl
    where
      slot' : Slot
      slot' = record slot { state = pending }

  after-view :
      (s : t.State) (a : ℕ) (bytes : List ℕ) (n : ℕ)
      → length bytes ≡ n
      → view (f.byte (after s a bytes n)) a n ≡ bytes
  after-view s a bytes n e =
      view-same _ _ a n (after-keeps s a bytes n)
      ∙ subst (λ n. view (f.byte (t.write s a bytes).1) a n ≡ bytes) e (w.write_view s a bytes)

  -- A pair of writes to one range, the second of what the first found there, leaves every byte.
  after-after :
      (s : t.State) (a n : ℕ) (first second : List ℕ)
      → length first ≡ n
      → length second ≡ n
      → second ≡ view (f.byte s) a n
      → (b : ℕ) → f.byte (after (after s a first n) a second n) b ≡ f.byte s b
  after-after s a n first second p q e b = elim (Bool-cases (leb a b && ltb b (a + n))) [
    | inl inside ↦ view-byte _ _ a n b (after-view _ a second n q ∙ e) (ground arith) (ground arith)
    | inr outside ↦ keeps _ second b (ground arith) ∙ keeps s first b (ground arith)
  ]
    where
      keeps :
          (s' : t.State) (bytes : List ℕ) (b : ℕ)
          → (b < a) ⊎ (a + length bytes ≤ b)
          → f.byte (after s' a bytes n) b ≡ f.byte s' b
      keeps s' bytes b h = after-keeps s' a bytes n b ∙ w.write_keeps s' a bytes b h

  -- On a target whose operations all succeed, a patch is installed into an empty slot for a valid
  -- range and stands in memory, and restoring the slot then clears it and puts every byte of memory
  -- back to what it was.
  pub install-restore :
      (slot : Slot) (a : ℕ) (patch : List ℕ) (n : ℕ) (s : t.State)
      → slot.state ≡ empty
      → range_is_valid a n ≡ true
      → n ≤ length patch
      → (slot' : Slot) × (s' s'' : t.State) × (install t slot a patch n s ≡ (ok, slot', s'))
        × (view (f.byte s') a n ≡ take n patch)
        × (restore t slot' s' ≡ (ok, cleared, s''))
        × ((b : ℕ) → f.byte s'' b ≡ f.byte s b)
  unfolding published
  install-restore slot a patch n s e valid long = (
    standing a patch n s,
    after (t.read s a n).2 a (take n patch) n,
    after (after (t.read s a n).2 a (take n patch) n) a (take n (t.read s a n).1) n,
    install_lem slot a patch n s e valid long,
    after-view _ a (take n patch) n full,
    restore_lem (standing a patch n s) _ refl refl valid size,
    λ b.
        after-after (t.read s a n).2 a n (take n patch) (take n (t.read s a n).1) full size held b
        ∙ f.read_keeps s a n b,
  )
    where
      full : length (take n patch) ≡ n
      full = omega (arith, length-take n patch)

      held : take n (t.read s a n).1 ≡ view (f.byte (t.read s a n).2) a n
      held = sym (read_view t f s a n (w.read_full s a n))

      size : length (take n (t.read s a n).1) ≡ n
      size = ap length held ∙ length-view _ a n
