-- ===== src/Tests/Exclusives.antt =====
-- A sequence of A32 code, and instances of what is proved of its scan.
use vita_debugger.Prelude.{
  ℕ, ◌+◌, ◌≤◌, ◌<◌, ◌^◌, ◌≡◌, ◌↔◌, ◌⊎◌, refl, true, false, List, [], ◌∷◌, some, ◌==◌, if◌then◌else◌,
  ◌||◌, ◌%◌,
}
use vita_debugger.Prelude.Int.{ℤ, pos}
use vita_debugger.Exclusive.{
  bit, thumb_itstate, add_u32, condition_passed, condition_base, load_le32,
}
use vita_debugger.Exclusive.Arm.{
  decode_arm_exclusive, arm_load_family, arm_store_family, arm_pc_writer, arm_may_block,
}
use vita_debugger.Exclusive.Scan.{
  Limits, StepTarget, limits_valid, scan, scan_arm, scan_arm_from, set_target, matches,
}
use vita_debugger.Exclusive.Steps.{IsArmStep, IsThumbStep}
use vita_debugger.Exclusive.Scanned.{scan_iff, scan-bounds}

-- LDREX r1, [r0]; ADD r1, r1, #1; STREX r2, r1, [r0]
abbrev code : ℕ → ℕ → ℤ × List ℕ
code address size = (
  pos size,
  if address == 0x1000
      then 0x9f ∷ 0x1f ∷ 0x90 ∷ 0xe1 ∷ []
      else if address == 0x1004
      then 0x01 ∷ 0x10 ∷ 0x81 ∷ 0xe2 ∷ []
      else 0x91 ∷ 0x2f ∷ 0x80 ∷ 0xe1 ∷ [],
)

abbrev limits : Limits
limits = record { instruction_limit = 64; byte_limit = 256 }

abbrev target : StepTarget
target = record {
  address = 0x100c;
  breakpoint_size = 4;
  scanned_instructions = 3;
  scanned_bytes = 12;
}

scanned : scan code limits 0x1000 0 ≡ some target
unfolding scan limits_valid scan_arm scan_arm_from set_target matches add_u32 condition_passed
    condition_base load_le32 decode_arm_exclusive arm_load_family arm_store_family arm_pc_writer
    arm_may_block
scanned = refl

scan-bounds_example :
    (target.address ≡ 0x1000 + target.scanned_bytes)
    × (target.address < 2 ^ 32)
    × (1 < target.scanned_instructions)
    × (target.scanned_instructions ≤ limits.instruction_limit)
    × (limits.instruction_limit ≤ 64)
    × (target.scanned_bytes ≤ limits.byte_limit)
    × (limits.byte_limit ≤ 256)
scan-bounds_example = scan-bounds code limits 0x1000 0 target scanned

scan_iff_example : (scan code limits 0x1000 0 ≡ some target) ↔ (
    (limits_valid limits ≡ true)
    × ((bit 0 24 || bit 0 9) ≡ false)
    × (((bit 0 5 ≡ true)
          × (0x1000 % 2 ≡ 0)
          × (thumb_itstate 0 ≡ 0)
          × IsThumbStep code limits 0x1000 target)
        ⊎ ((bit 0 5 ≡ false) × (0x1000 % 4 ≡ 0) × IsArmStep code limits 0x1000 0 target)))
scan_iff_example = scan_iff code limits 0x1000 0 target
