-- ===== src/Exclusive/Scanned.antt =====
-- What `uvdb_exclusive_step_scan` gives, and when.
use vita_debugger.Prelude.{
  ℕ, ◌+◌, ◌-◌, ◌%◌, ◌^◌, ◌≤◌, ◌<◌, ◌≡◌, ◌↔◌, sym, ◌∙◌, inl, inr, ◌⊎◌, true, false, not, ◌||◌, List,
  some, ◌==◌, Bool-cases, Option-cases, arith,
}
use vita_debugger.Prelude.Int.{ℤ}
use vita_debugger.Exclusive.{bit, thumb_itstate}
use vita_debugger.Exclusive.Arm.{decode_arm_exclusive}
use vita_debugger.Exclusive.Thumb.{decode_thumb_exclusive}
use vita_debugger.Exclusive.Scan.{
  Limits, StepTarget, limits_valid, is_load, fetch_thumb, scan_thumb, scan,
}
use vita_debugger.Exclusive.Walk.{Code, End, Line, IsCode, add_u32-cases, Line-bounds, Line-later}
use vita_debugger.Exclusive.Sound.{target_of, arm_code, thumb_code, scan_thumb_from-walk}
use vita_debugger.Exclusive.Steps.{
  IsArmStep, IsThumbStep, thumb-IsCode, arm-IsCode, from_walk, none-some, scan_arm_sound,
  scan_arm_complete,
}

module _ (read : ℕ → ℕ → ℤ × List ℕ) (limits : Limits) where
  scan_thumb_sound :
      (pc : ℕ) (t : StepTarget) → scan_thumb read limits pc ≡ some t → IsThumbStep read limits pc t
  unfolding scan_thumb
  scan_thumb_sound pc t h = elim (Option-cases (fetch_thumb read limits pc limits.byte_limit)) [
    | inl f ↦ absurd (none-some read limits (rw (scan_thumb, f) at h))
    | inr ((first, second, size), f) ↦
        let decoded = decode_thumb_exclusive first second size in
        let fits =
          thumb-IsCode read limits decoded.family decoded.base pc limits.byte_limit
            (first, second, size) f in
        elim (Bool-cases
          (limits.instruction_limit == 0 || (not (is_load decoded.kind) || not decoded.valid))) [
            | inl d ↦ absurd (none-some read limits (rw (scan_thumb, f, d) at h))
            | inr d ↦ elim (add_u32-cases pc size (omega (arith, fits))) [
              | inr (lt, a) ↦ absurd (none-some read limits (rw (scan_thumb, f, d, a) at h))
              | inl (le, a) ↦
                  let (end, line, few, target) =
                    (from_walk read limits (thumb_code read limits decoded.family decoded.base) 2
                        (limits.instruction_limit - 1) (pc + size) size t
                        (thumb-IsCode read limits decoded.family decoded.base)).0
                      (sym (
                          scan_thumb_from-walk read limits (limits.instruction_limit - 1)
                            decoded.family decoded.base (pc + size) 1 size)
                        ∙ (rw (scan_thumb, f, d, a) at h)) in
                  record {
                    first = first;
                    second = second;
                    size = size;
                    at = f;
                    loads = ground arith;
                    sound = ground arith;
                    inside = le;
                    end = end;
                    line = line;
                    few = ground arith;
                    target = target;
                  }
            ]
          ]
  ]

  scan_thumb_complete :
      (pc : ℕ) (t : StepTarget) → IsThumbStep read limits pc t → scan_thumb read limits pc ≡ some t
  unfolding scan_thumb
  scan_thumb_complete pc t s =
      let decoded = decode_thumb_exclusive s.first s.second s.size in
      let fits =
        thumb-IsCode read limits decoded.family decoded.base pc limits.byte_limit
          (s.first, s.second, s.size) s.at in
      let found =
        (from_walk read limits (thumb_code read limits decoded.family decoded.base) 2
            (limits.instruction_limit - 1) (pc + s.size) s.size t
            (thumb-IsCode read limits decoded.family decoded.base)).1
          (s.end, s.line, omega (arith, s.few), s.target) in
      elim (add_u32-cases pc s.size (omega (arith, fits))) [
        | inr (lt, a) ↦ absurd (omega (arith, lt, s.inside))
        | inl (le, a) ↦
            rw (scan_thumb, s.at, some_left, s.loads, s.sound, a)
              (scan_thumb_from-walk read limits (limits.instruction_limit - 1) decoded.family
                  decoded.base (pc + s.size) 1 s.size
                ∙ found)
      ]
    where
      some_left : (limits.instruction_limit == 0) ≡ false
      some_left = ground (arith, s.few, Line-later _ _ s.line)

  -- `uvdb_exclusive_step_scan` gives a target exactly for valid limits, a processor state without J
  -- and E and an aligned address (and for Thumb an empty ITSTATE), where the code at the address is a
  -- sequence: a valid exclusive load (of A32, one whose condition passes) whose walk, over no branch,
  -- no other load and nothing that may block, ends within the limits with a store that fits it or
  -- with a clearing. The target is the address behind that end.
  pub scan_iff :
      (pc cpsr : ℕ) (t : StepTarget)
      → (scan read limits pc cpsr ≡ some t) ↔ (
          (limits_valid limits ≡ true)
          × ((bit cpsr 24 || bit cpsr 9) ≡ false)
          × (((bit cpsr 5 ≡ true)
                × (pc % 2 ≡ 0)
                × (thumb_itstate cpsr ≡ 0)
                × IsThumbStep read limits pc t)
              ⊎ ((bit cpsr 5 ≡ false) × (pc % 4 ≡ 0) × IsArmStep read limits pc cpsr t)))
  unfolding scan
  scan_iff pc cpsr t = (
    λ h. elim (Bool-cases (limits_valid limits)) [
      | inr e ↦ absurd (none-some read limits (rw e at h))
      | inl e ↦ elim (Bool-cases (bit cpsr 24 || bit cpsr 9)) [
        | inl d ↦ absurd (none-some read limits (rw (e, d) at h))
        | inr d ↦ elim (Bool-cases (bit cpsr 5)) [
          | inl b ↦ elim (Bool-cases (pc % 2 == 1 || not (thumb_itstate cpsr == 0))) [
            | inl a ↦ absurd (none-some read limits (rw (e, d, b, a) at h))
            | inr a ↦ (
              e,
              d,
              inl (b, ground arith, ground arith, scan_thumb_sound pc t (rw (e, d, b, a) at h)),
            )
          ]
          | inr b ↦ elim (Bool-cases (pc % 4 == 0)) [
            | inr a ↦ absurd (none-some read limits (rw (e, d, b, a) at h))
            | inl a ↦ (
              e,
              d,
              inr (b, ground arith, scan_arm_sound read limits pc cpsr t (rw (e, d, b, a) at h)),
            )
          ]
        ]
      ]
    ],
    λ (e, d, way). elim way [
      | inl (b, even, idle, s) ↦
          rw (e, d, b, test_odd even, test_idle idle) (scan_thumb_complete pc t s)
      | inr (b, even, s) ↦ rw (e, d, b, test_even even) (scan_arm_complete read limits pc cpsr t s)
    ],
  )
    where
      test_odd : pc % 2 ≡ 0 → (pc % 2 == 1) ≡ false
      test_odd e = ground arith

      test_idle : thumb_itstate cpsr ≡ 0 → (thumb_itstate cpsr == 0) ≡ true
      test_idle e = ground arith

      test_even : pc % 4 ≡ 0 → (pc % 4 == 0) ≡ true
      test_even e = ground arith

  limits_lem :
      limits_valid limits ≡ true → (limits.instruction_limit ≤ 64) × (limits.byte_limit ≤ 256)
  unfolding limits_valid
  limits_lem h = ground arith

  target-bounds :
      (code : Code) (size pc first : ℕ) (end : End) (t : StepTarget)
      → IsCode code limits.byte_limit
      → Line code limits.byte_limit (pc + first) 1 first end
      → first ≤ limits.byte_limit
      → t ≡ target_of size end
      → (t.address ≡ pc + t.scanned_bytes)
        × (t.address < 2 ^ 32)
        × (1 < t.scanned_instructions)
        × (t.scanned_bytes ≤ limits.byte_limit)
        × (t.scanned_instructions ≡ end.instructions)
  target-bounds code size pc first end t fits line le e =
      rw e (omega (arith, Line-bounds code limits.byte_limit fits line le))

  -- A target that `uvdb_exclusive_step_scan` gives lies as many bytes behind the address as were
  -- scanned, without wrapping around, behind two instructions at least, and both counts keep to the
  -- caller's limits, which are 64 instructions and 256 bytes at most.
  pub scan-bounds :
      (pc cpsr : ℕ) (t : StepTarget)
      → scan read limits pc cpsr ≡ some t
      → (t.address ≡ pc + t.scanned_bytes)
        × (t.address < 2 ^ 32)
        × (1 < t.scanned_instructions)
        × (t.scanned_instructions ≤ limits.instruction_limit)
        × (limits.instruction_limit ≤ 64)
        × (t.scanned_bytes ≤ limits.byte_limit)
        × (limits.byte_limit ≤ 256)
  scan-bounds pc cpsr t h =
      let (valid, idle, way) = (scan_iff pc cpsr t).0 h in
      elim way [
        | inl (thumb, even, none_left, s) ↦
            let decoded = decode_thumb_exclusive s.first s.second s.size in
            let fits = thumb-IsCode read limits decoded.family decoded.base in
            omega (
              arith,
              limits_lem valid,
              s.few,
              target-bounds (thumb_code read limits decoded.family decoded.base) 2 pc s.size s.end t
                  fits s.line (fits pc limits.byte_limit (s.first, s.second, s.size) s.at).2
                  s.target,
            )
        | inr (arm, even, s) ↦
            let decoded = decode_arm_exclusive s.first in
            let fits = arm-IsCode read limits decoded.family decoded.base in
            omega (
              arith,
              limits_lem valid,
              s.few,
              target-bounds (arm_code read limits decoded.family decoded.base) 4 pc 4 s.end t fits
                  s.line (fits pc limits.byte_limit s.first s.at).2 s.target,
            )
      ]
