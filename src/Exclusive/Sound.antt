-- ===== src/Exclusive/Sound.antt =====
-- The scans of src/uvdb_exclusive_step.c find the straight-line walks from an exclusive load to the
-- store or the clearing that ends it.
use vita_debugger.Prelude.{
  ℕ, zero, suc, ◌+◌, ◌-◌, ◌≡◌, refl, ◌∙◌, inl, inr, Bool, true, false, not, ◌||◌, List, Option,
  none, some, ltb, ◌==◌, if◌then◌else◌, Bool-cases, Option-cases,
}
use vita_debugger.Prelude.Int.{ℤ}
use mathlib.Core.Option.{map}
use vita_debugger.Exclusive.{Family, Kind, other, load, store, clear, add_u32, load_le32}
use vita_debugger.Exclusive.Arm.{arm_pc_writer, arm_may_block, decode_arm_exclusive}
use vita_debugger.Exclusive.Thumb.{decode_thumb_exclusive}
use vita_debugger.Exclusive.Scan.{
  Limits, StepTarget, is_load, is_store, is_clear, read_all, set_target, matches, scan_arm_from,
  fetch_thumb, thumb_goes_on, scan_thumb_from,
}
use vita_debugger.Exclusive.Walk.{Code, End, walk}

-- Whether an instruction of a kind ends a sequence, if a store fits the load; and whether the
-- sequence goes on behind it, if another instruction is harmless.
abbrev pub ends_as : Kind → Bool → Bool
ends_as other fits = false
ends_as load fits = false
ends_as store fits = fits
ends_as clear fits = true

abbrev pub goes_on_as : Kind → Bool → Bool
goes_on_as other harmless = harmless
goes_on_as load harmless = false
goes_on_as store harmless = false
goes_on_as clear harmless = false

-- The tests of a pass, as those two.
by_kind {ℓ} :
    {A : Type ℓ} (kind : Kind) (misfit harm : Bool) (target rest : Option A)
    → (if is_load kind
        then none
        else if is_store kind
        then (if misfit then none else target)
        else if is_clear kind
        then target
        else if harm
        then none
        else rest)
      ≡ (if ends_as kind (not misfit)
          then target
          else if not (goes_on_as kind (not harm))
          then none
          else rest)
by_kind other misfit true target rest = refl
by_kind other misfit false target rest = refl
by_kind load misfit harm target rest = refl
by_kind store true harm target rest = refl
by_kind store false harm target rest = refl
by_kind clear misfit harm target rest = refl

abbrev pub target_of : ℕ → End → StepTarget
target_of breakpoint_size e = record {
  address = e.address;
  breakpoint_size = breakpoint_size;
  scanned_instructions = e.instructions;
  scanned_bytes = e.bytes;
}

-- A pass of the loop, as one of the walk.
pass-walk :
    (ended on : Bool) (next : Option ℕ) (breakpoint_size instructions bytes : ℕ)
    (rest : Option StepTarget) (rest' : Option End)
    → rest ≡ map (target_of breakpoint_size) rest'
    → (if ended
        then elim next [
          | none ↦ none
          | some address ↦ some (record {
            address = address;
            breakpoint_size = breakpoint_size;
            scanned_instructions = instructions;
            scanned_bytes = bytes;
          })
        ]
        else if not on
        then none
        else elim next [ none ↦ none | some address ↦ rest ])
      ≡ map (target_of breakpoint_size) (
          if ended
          then elim next [
            | none ↦ none
            | some address ↦
                some (record { address = address; instructions = instructions; bytes = bytes })
          ]
          else if not on
          then none
          else elim next [ none ↦ none | some address ↦ rest' ])
pass-walk true on none breakpoint_size instructions bytes rest rest' e = refl
pass-walk true on (some next) breakpoint_size instructions bytes rest rest' e = refl
pass-walk false false next breakpoint_size instructions bytes rest rest' e = refl
pass-walk false true none breakpoint_size instructions bytes rest rest' e = refl
pass-walk false true (some next) breakpoint_size instructions bytes rest rest' e = e

module _ (read : ℕ → ℕ → ℤ × List ℕ) (limits : Limits) where
  -- A32, behind a load of a family at a base register.
  abbrev pub fetch_arm : ℕ → ℕ → Option ℕ
  fetch_arm pc left =
      let (count, encoded) = read pc 4 in
      if ltb left 4 || not (read_all count 4) then none else some (load_le32 encoded)

  abbrev pub arm_code : Family → ℕ → Code
  arm_code kept base = record {
    Item = ℕ;
    fetch = fetch_arm;
    size = λ i. 4;
    ends = λ i.
        let decoded = decode_arm_exclusive i in
        ends_as decoded.kind
          (not (not (matches decoded kept base) || not (decoded.condition == 0xe)));
    goes_on =
        λ i. goes_on_as (decode_arm_exclusive i).kind (not (arm_pc_writer i || arm_may_block i));
  }

  abbrev pub thumb_code : Family → ℕ → Code
  thumb_code kept base = record {
    Item = ℕ × ℕ × ℕ;
    fetch = fetch_thumb read limits;
    size = λ (first, second, size). size;
    ends = λ (first, second, size).
        let decoded = decode_thumb_exclusive first second size in
        ends_as decoded.kind (not (not (matches decoded kept base)));
    goes_on = λ (first, second, size).
        goes_on_as (decode_thumb_exclusive first second size).kind
          (not (not (thumb_goes_on read limits first second size)));
  }

  pub scan_arm_from-walk :
      (fuel : ℕ) (kept : Family) (base pc instructions bytes : ℕ)
      → scan_arm_from read limits fuel kept base pc instructions bytes
        ≡ map (target_of 4) (walk (arm_code kept base) limits.byte_limit fuel pc instructions bytes)
  unfolding scan_arm_from walk set_target
  scan_arm_from-walk zero kept base pc instructions bytes = refl
  scan_arm_from-walk (suc fuel) kept base pc instructions bytes =
      elim (Bool-cases (ltb (limits.byte_limit - bytes) 4 || not (read_all (read pc 4).0 4))) [
        | inl e ↦ rw (scan_arm_from, walk, e) refl
        | inr e ↦
            let i = load_le32 (read pc 4).1 in
            let decoded = decode_arm_exclusive i in
            rw (scan_arm_from, walk, e)
              (by_kind decoded.kind
                  (not (matches decoded kept base) || not (decoded.condition == 0xe))
                  (arm_pc_writer i || arm_may_block i)
                  (set_target pc 4 4 (instructions + 1) (bytes + 4))
                  (elim (add_u32 pc 4) [
                    | none ↦ none
                    | some next ↦
                        scan_arm_from read limits fuel kept base (pc + 4) (instructions + 1)
                          (bytes + 4)
                  ])
                ∙ pass-walk _ _ (add_u32 pc 4) 4 _ _ _ _
                    (scan_arm_from-walk fuel kept base (pc + 4) (instructions + 1) (bytes + 4)))
      ]

  pub scan_thumb_from-walk :
      (fuel : ℕ) (kept : Family) (base pc instructions bytes : ℕ)
      → scan_thumb_from read limits fuel kept base pc instructions bytes
        ≡ map
            (target_of 2)
            (walk (thumb_code kept base) limits.byte_limit fuel pc instructions bytes)
  unfolding scan_thumb_from walk set_target
  scan_thumb_from-walk zero kept base pc instructions bytes = refl
  scan_thumb_from-walk (suc fuel) kept base pc instructions bytes =
      elim (Option-cases (fetch_thumb read limits pc (limits.byte_limit - bytes))) [
        | inl e ↦ rw (scan_thumb_from, walk, e) refl
        | inr ((first, second, size), e) ↦
            let decoded = decode_thumb_exclusive first second size in
            rw (scan_thumb_from, walk, e)
              (by_kind decoded.kind (not (matches decoded kept base))
                  (not (thumb_goes_on read limits first second size))
                  (set_target pc size 2 (instructions + 1) (bytes + size))
                  (elim (add_u32 pc size) [
                    | none ↦ none
                    | some next ↦
                        scan_thumb_from read limits fuel kept base (pc + size) (instructions + 1)
                          (bytes + size)
                  ])
                ∙ pass-walk _ _ (add_u32 pc size) 2 _ _ _ _ (
                    scan_thumb_from-walk fuel kept base (pc + size) (instructions + 1)
                      (bytes + size)))
      ]
