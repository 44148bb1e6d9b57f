-- ===== src/Exclusive/Steps.antt =====
-- The sequences that `uvdb_exclusive_step_scan` takes a target behind, and those of A32 code.
use vita_debugger.Prelude.{
  ℕ, ◌+◌, ◌-◌, ◌≤◌, ◌≡◌, ◌↔◌, sym, ap, ◌∙◌, inl, inr, Bool, true, false, not, ◌||◌, List, none,
  some, ltb, ◌==◌, Bool-cases, Option-cases, arith,
}
use vita_debugger.Prelude.Int.{ℤ}
use mathlib.Core.Option.{map}
use vita_debugger.Exclusive.{Family, uint32_max, load_le32, condition_passed}
use vita_debugger.Exclusive.Arm.{decode_arm_exclusive}
use vita_debugger.Exclusive.Thumb.{decode_thumb_exclusive}
use vita_debugger.Exclusive.Scan.{Limits, StepTarget, is_load, read_all, scan_arm, fetch_thumb}
use vita_debugger.Exclusive.Walk.{
  Code, End, Line, IsCode, walk, walk_iff, add_u32-cases, Line-later,
}
use vita_debugger.Exclusive.Sound.{target_of, fetch_arm, arm_code, thumb_code, scan_arm_from-walk}

module _ (read : ℕ → ℕ → ℤ × List ℕ) (limits : Limits) where
  -- A sequence of A32 code at `pc`, and the target behind it.
  pub record IsArmStep (pc cpsr : ℕ) (t : StepTarget) : Type 0 where
    pub first : ℕ
    pub at : fetch_arm read limits pc limits.byte_limit ≡ some first
    pub loads : is_load (decode_arm_exclusive first).kind ≡ true
    pub sound : (decode_arm_exclusive first).valid ≡ true
    pub passes : condition_passed (decode_arm_exclusive first).condition cpsr ≡ true
    pub inside : pc + 4 ≤ uint32_max
    pub end : End
    pub line :
        Line
          (arm_code read limits
            (decode_arm_exclusive first).family
            (decode_arm_exclusive first).base)
          limits.byte_limit
          (pc + 4)
          1
          4
          end
    pub few : end.instructions ≤ limits.instruction_limit
    pub target : t ≡ target_of 4 end

  -- The same of Thumb code.
  pub record IsThumbStep (pc : ℕ) (t : StepTarget) : Type 0 where
    pub first : ℕ
    pub second : ℕ
    pub size : ℕ
    pub at : fetch_thumb read limits pc limits.byte_limit ≡ some (first, second, size)
    pub loads : is_load (decode_thumb_exclusive first second size).kind ≡ true
    pub sound : (decode_thumb_exclusive first second size).valid ≡ true
    pub inside : pc + size ≤ uint32_max
    pub end : End
    pub line :
        Line
          (thumb_code read limits
            (decode_thumb_exclusive first second size).family
            (decode_thumb_exclusive first second size).base)
          limits.byte_limit
          (pc + size)
          1
          size
          end
    pub few : end.instructions ≤ limits.instruction_limit
    pub target : t ≡ target_of 2 end

  pub arm-IsCode :
      (kept : Family) (base : ℕ) → IsCode (arm_code read limits kept base) limits.byte_limit
  arm-IsCode kept base pc left i e = ground arith

  pub thumb-IsCode :
      (kept : Family) (base : ℕ) → IsCode (thumb_code read limits kept base) limits.byte_limit
  unfolding fetch_thumb
  thumb-IsCode kept base pc left (first, second, size) e = ground arith

  pub none-some : {t : StepTarget} → none ≡ some t → ⊥
  none-some p = cc

  some_inj : {t t' : StepTarget} → some t ≡ some t' → t ≡ t'
  some_inj p = cc

  -- What the loop finds behind the first instruction, as a walk.
  pub from_walk :
      (code : Code) (size fuel pc bytes : ℕ) (t : StepTarget)
      → IsCode code limits.byte_limit
      → (map (target_of size) (walk code limits.byte_limit fuel pc 1 bytes) ≡ some t) ↔ (
          (e : End) × Line code limits.byte_limit pc 1 bytes e
          × (e.instructions ≤ 1 + fuel)
          × (t ≡ target_of size e))
  from_walk code size fuel pc bytes t fits = (
    λ h. elim (Option-cases (walk code limits.byte_limit fuel pc 1 bytes)) [
      | inl e ↦ absurd (none-some (rw e at h))
      | inr (end, e) ↦
          let (line, few) = (walk_iff code limits.byte_limit fuel pc 1 bytes end fits).0 e in
          (end, line, few, sym (some_inj (rw e at h)))
    ],
    λ (end, line, few, target).
        rw ((walk_iff code limits.byte_limit fuel pc 1 bytes end fits).1 (line, few))
          (ap some (sym target)),
  )

  pub scan_arm_sound :
      (pc cpsr : ℕ) (t : StepTarget) → scan_arm read limits pc cpsr ≡ some t → IsArmStep pc cpsr t
  unfolding scan_arm
  scan_arm_sound pc cpsr t h =
      let i = load_le32 (read pc 4).1 in
      let decoded = decode_arm_exclusive i in
      elim (Bool-cases (
        limits.instruction_limit == 0
        || (ltb limits.byte_limit 4 || not (read_all (read pc 4).0 4)))) [
          | inl e ↦ absurd (none-some (rw e at h))
          | inr e ↦
              elim (Bool-cases (
                not (is_load decoded.kind)
                || (not decoded.valid || not (condition_passed decoded.condition cpsr)))) [
                  | inl d ↦ absurd (none-some (rw (e, d) at h))
                  | inr d ↦ elim (add_u32-cases pc 4 (omega arith)) [
                    | inr (lt, a) ↦ absurd (none-some (rw (e, d, a) at h))
                    | inl (le, a) ↦
                        let (end, line, few, target) =
                          (from_walk (arm_code read limits decoded.family decoded.base) 4
                              (limits.instruction_limit - 1) (pc + 4) 4 t
                              (arm-IsCode decoded.family decoded.base)).0
                            (sym (
                                scan_arm_from-walk read limits (limits.instruction_limit - 1)
                                  decoded.family decoded.base (pc + 4) 1 4)
                              ∙ (rw (e, d, a) at h)) in
                        record {
                          first = i;
                          at = ground arith;
                          loads = ground arith;
                          sound = ground arith;
                          passes = ground arith;
                          inside = le;
                          end = end;
                          line = line;
                          few = ground arith;
                          target = target;
                        }
                  ]
                ]
        ]

  fetched_arm :
      (pc left i : ℕ)
      → fetch_arm read limits pc left ≡ some i
      → ((ltb left 4 || not (read_all (read pc 4).0 4)) ≡ false) × (load_le32 (read pc 4).1 ≡ i)
  fetched_arm pc left i e = ground arith

  not_both : (a b : Bool) → a ≡ true → b ≡ true → (not a || not b) ≡ false
  not_both a b e e' = ground arith

  pub scan_arm_complete :
      (pc cpsr : ℕ) (t : StepTarget) → IsArmStep pc cpsr t → scan_arm read limits pc cpsr ≡ some t
  unfolding scan_arm
  scan_arm_complete pc cpsr t s =
      let decoded = decode_arm_exclusive s.first in
      let (readable, first) = fetched_arm pc limits.byte_limit s.first s.at in
      let found =
        (from_walk (arm_code read limits decoded.family decoded.base) 4
            (limits.instruction_limit - 1) (pc + 4) 4 t (arm-IsCode decoded.family decoded.base)).1
          (s.end, s.line, omega (arith, s.few), s.target) in
      elim (add_u32-cases pc 4 (omega arith)) [
        | inr (lt, a) ↦ absurd (omega (arith, lt, s.inside))
        | inl (le, a) ↦
            rw (some_left, readable, first, s.loads, s.sound, s.passes, a, first)
              (scan_arm_from-walk read limits (limits.instruction_limit - 1) decoded.family
                  decoded.base (pc + 4) 1 4
                ∙ found)
      ]
    where
      some_left : (limits.instruction_limit == 0) ≡ false
      some_left = ground (arith, s.few, Line-later _ _ s.line)
