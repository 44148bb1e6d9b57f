-- ===== src/Exclusive/Scan.antt =====
-- The loops of src/uvdb_exclusive_step.c. A read of the target is a function of the address and the
-- size: its count, which is negative for a failure, and the bytes.

use vita_debugger.Prelude.{
  ℕ, zero, suc, ◌+◌, ◌-◌, ◌/◌, ◌%◌, ◌^◌, Bool, true, false, not, ◌&&◌, ◌||◌, List, Option, none,
  some, ltb, ◌==◌, if◌then◌else◌,
}
use vita_debugger.Prelude.Int.{ℤ, pos, negsuc}
use vita_debugger.Exclusive.{
  Family, Kind, load, store, clear, Instruction, add_u32, bit, masked, same_family,
  condition_passed, thumb_itstate, load_le16, load_le32,
}
use vita_debugger.Exclusive.Arm.{arm_pc_writer, arm_may_block, decode_arm_exclusive}
use vita_debugger.Exclusive.Thumb.{
  thumb16_pc_writer, thumb32_pc_writer, thumb_may_block, decode_thumb_exclusive,
}

-- `struct uvdb_exclusive_step_limits`
pub record Limits : Type 0 where
  pub instruction_limit : ℕ
  pub byte_limit : ℕ

-- `struct uvdb_exclusive_step_target`
pub record StepTarget : Type 0 where
  pub address : ℕ
  pub breakpoint_size : ℕ
  pub scanned_instructions : ℕ
  pub scanned_bytes : ℕ

unfoldable pub limits_valid : Limits → Bool
limits_valid limits =
    not (limits.instruction_limit == 0)
    && not (ltb 64 limits.instruction_limit)
    && not (limits.byte_limit == 0)
    && not (ltb 256 limits.byte_limit)

abbrev pub is_load : Kind → Bool
is_load load = true
is_load kind = false

abbrev pub is_store : Kind → Bool
is_store store = true
is_store kind = false

abbrev pub is_clear : Kind → Bool
is_clear clear = true
is_clear kind = false

-- `count == size`, for a count that is an int.
abbrev pub read_all : ℤ → ℕ → Bool
read_all (pos count) size = count == size
read_all (negsuc count) size = false

-- The result for a terminator of some size at `pc`.
unfoldable pub set_target : ℕ → ℕ → ℕ → ℕ → ℕ → Option StepTarget
set_target pc size breakpoint_size instructions bytes = elim (add_u32 pc size) [
  | none ↦ none
  | some next ↦ some (record {
    address = next;
    breakpoint_size = breakpoint_size;
    scanned_instructions = instructions;
    scanned_bytes = bytes;
  })
]

unfoldable pub matches : Instruction → Family → ℕ → Bool
matches decoded family base =
    decoded.valid && same_family decoded.family family && decoded.base == base

module _ (read : ℕ → ℕ → ℤ × List ℕ) (limits : Limits) where
  -- The loop of `scan_arm` after the first instruction, on fuel: `pc`, `instructions` and `bytes` are
  -- the variables at the head of the loop, and the fuel is what the limit leaves of instructions.
  unfoldable pub scan_arm_from : ℕ → Family → ℕ → ℕ → ℕ → ℕ → Option StepTarget
  scan_arm_from zero kept base pc instructions bytes = none
  scan_arm_from (suc fuel) kept base pc instructions bytes =
      let (count, encoded) = read pc 4 in
      let instruction = load_le32 encoded in
      let decoded = decode_arm_exclusive instruction in
      let target = set_target pc 4 4 (instructions + 1) (bytes + 4) in
      let rest = scan_arm_from fuel kept base (pc + 4) (instructions + 1) (bytes + 4) in
      if ltb (limits.byte_limit - bytes) 4 || not (read_all count 4)
      then none
      else if is_load decoded.kind
      then none
      else if is_store decoded.kind
      then (if not (matches decoded kept base) || not (decoded.condition == 0xe)
          then none
          else target)
      else if is_clear decoded.kind
      then target
      else if arm_pc_writer instruction || arm_may_block instruction
      then none
      else elim (add_u32 pc 4) [ none ↦ none | some next ↦ rest ]

  -- The first pass, and the loop behind it.
  unfoldable pub scan_arm : ℕ → ℕ → Option StepTarget
  scan_arm pc cpsr =
      let (count, encoded) = read pc 4 in
      let decoded = decode_arm_exclusive (load_le32 encoded) in
      let rest =
        scan_arm_from (limits.instruction_limit - 1) decoded.family decoded.base (pc + 4) 1 4 in
      if limits.instruction_limit == 0 || (ltb limits.byte_limit 4 || not (read_all count 4))
      then none
      else if not (is_load decoded.kind)
          || (not decoded.valid || not (condition_passed decoded.condition cpsr))
      then none
      else elim (add_u32 pc 4) [ none ↦ none | some next ↦ rest ]

  -- The reads of a pass of `scan_thumb`: the two halfwords, 0 for a second that there is not, and the
  -- size of the instruction. `left` is what the limit leaves of bytes.
  unfoldable pub fetch_thumb : ℕ → ℕ → Option (ℕ × ℕ × ℕ)
  fetch_thumb pc left =
      let (count, encoded) = read pc 2 in
      let (count', encoded') = read (pc + 2) 2 in
      let first = load_le16 encoded in
      let top = first / 2 ^ 11 in
      if ltb left 2 || not (read_all count 2)
      then none
      else if not (top == 0x1d || (top == 0x1e || top == 0x1f))
      then some (first, 0, 2)
      else if ltb left 4
      then none
      else elim (add_u32 pc 2) [
        | none ↦ none
        | some next ↦ if not (read_all count' 2) then none else some (first, load_le16 encoded', 4)
      ]

  -- A Thumb instruction that ends no sequence and goes on behind itself.
  pub thumb_goes_on : ℕ → ℕ → ℕ → Bool
  thumb_goes_on first second size =
      not (masked first 0xff00 0xbf00 && not (first % 16 == 0))
      && not (
          thumb_may_block first second
          || (if size == 2 then thumb16_pc_writer first else thumb32_pc_writer first second))

  unfoldable pub scan_thumb_from : ℕ → Family → ℕ → ℕ → ℕ → ℕ → Option StepTarget
  scan_thumb_from zero kept base pc instructions bytes = none
  scan_thumb_from (suc fuel) kept base pc instructions bytes =
      let at = fetch_thumb pc (limits.byte_limit - bytes) in
      elim at [
        | none ↦ none
        | some (first, second, size) ↦
            let decoded = decode_thumb_exclusive first second size in
            let target = set_target pc size 2 (instructions + 1) (bytes + size) in
            if is_load decoded.kind
            then none
            else if is_store decoded.kind
            then (if not (matches decoded kept base) then none else target)
            else if is_clear decoded.kind
            then target
            else if not (thumb_goes_on first second size)
            then none
            else elim (add_u32 pc size) [
              | none ↦ none
              | some next ↦
                  scan_thumb_from fuel kept base (pc + size) (instructions + 1) (bytes + size)
            ]
      ]

  unfoldable pub scan_thumb : ℕ → Option StepTarget
  scan_thumb pc = elim (fetch_thumb pc limits.byte_limit) [
    | none ↦ none
    | some (first, second, size) ↦
        let decoded = decode_thumb_exclusive first second size in
        if limits.instruction_limit == 0 || (not (is_load decoded.kind) || not decoded.valid)
        then none
        else elim (add_u32 pc size) [
          | none ↦ none
          | some next ↦
              scan_thumb_from (limits.instruction_limit - 1) decoded.family decoded.base (pc + size)
                1 size
        ]
  ]

  -- `uvdb_exclusive_step_scan`, whose `read_memory` and `target` are given: the target, if it is 1.
  unfoldable pub scan : ℕ → ℕ → Option StepTarget
  scan pc cpsr =
      let thumb = bit cpsr 5 in
      if not (limits_valid limits)
      then none
      else if bit cpsr 24 || bit cpsr 9
      then none
      else if (thumb && (pc % 2 == 1 || not (thumb_itstate cpsr == 0)))
          || (not thumb && not (pc % 4 == 0))
      then none
      else if thumb
      then scan_thumb pc
      else scan_arm pc cpsr
