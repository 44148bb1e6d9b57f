-- ===== src/Exclusive/Arm.antt =====
-- The decoder of A32 instructions in src/uvdb_exclusive_step.c.
use Prim.Native.Nat.{bit_and}
use vita_debugger.Prelude.{
  ℕ, ◌+◌, ◌/◌, ◌%◌, ◌^◌, Bool, true, false, not, ◌&&◌, ◌||◌, ◌==◌, if◌then◌else◌,
}
use vita_debugger.Exclusive.{
  Family, no_family, word, byte, half, double, other, load, store, clear, Instruction, bit, masked,
  same_family, is_double,
}

unfoldable pub arm_pc_writer : ℕ → Bool
arm_pc_writer instruction =
    let conditional = not (instruction / 2 ^ 28 == 0xf) in
    let opcode_class = (instruction / 2 ^ 25) % 8 in
    masked instruction 0xfe50ffff 0xf8100a00
    || (conditional && masked instruction 0x0fffffff 0x0160006e)
    || masked instruction 0xfe000000 0xfa000000
    || (conditional && masked instruction 0x0e000000 0x0a000000)
    || (conditional
        && (masked instruction 0x0ffffff0 0x012fff10
            || masked instruction 0x0ffffff0 0x012fff20
            || masked instruction 0x0ffffff0 0x012fff30))
    || (conditional && masked instruction 0x0e100000 0x08100000 && bit instruction 15)
    || (conditional && masked instruction 0x0c10f000 0x0410f000)
    || (conditional
        && masked instruction 0x0000f000 0x0000f000
        && (opcode_class == 1
            || (opcode_class == 0 && (not (bit instruction 4) || not (bit instruction 7)))))

unfoldable pub arm_may_block : ℕ → Bool
arm_may_block instruction =
    (not (instruction / 2 ^ 28 == 0xf) && masked instruction 0x0f000000 0x0f000000)
    || masked instruction 0x0fffffff 0x0320f002
    || masked instruction 0x0fffffff 0x0320f003

-- The families of the shapes of LDREX and STREX; `no_family` for another shape.
unfoldable pub arm_load_family : ℕ → Family
arm_load_family shape =
    if shape == 0x01900f9f
    then word
    else if shape == 0x01d00f9f
    then byte
    else if shape == 0x01f00f9f
    then half
    else if shape == 0x01b00f9f
    then double
    else no_family

unfoldable pub arm_store_family : ℕ → Family
arm_store_family shape =
    if shape == 0x01800f90
    then word
    else if shape == 0x01c00f90
    then byte
    else if shape == 0x01e00f90
    then half
    else if shape == 0x01a00f90
    then double
    else no_family

unfoldable pub decode_arm_exclusive : ℕ → Instruction
decode_arm_exclusive instruction =
    let condition = instruction / 2 ^ 28 in
    let loaded = arm_load_family (bit_and instruction 0x0ff00fff) in
    let stored = arm_store_family (bit_and instruction 0x0ff00ff0) in
    let rn = (instruction / 2 ^ 16) % 16 in
    let rt = (instruction / 2 ^ 12) % 16 in
    let value = instruction % 16 in
    if instruction == 0xf57ff01f
    then record { kind = clear; family = no_family; base = 0; condition = condition; valid = true }
    else if not (same_family loaded no_family)
    then record {
      kind = load;
      family = loaded;
      base = rn;
      condition = condition;
      valid =
          not (condition == 0xf)
          && not (rn == 15)
          && not (rt == 15)
          && (not (is_double loaded) || (rt % 2 == 0 && not (rt == 14)));
    }
    else if not (same_family stored no_family)
    then record {
      kind = store;
      family = stored;
      base = rn;
      condition = condition;
      valid =
          not (condition == 0xf)
          && not (rn == 15)
          && not (rt == 15)
          && not (value == 15)
          && not (rt == rn)
          && not (rt == value)
          && (not (is_double stored)
              || (value % 2 == 0 && not (value == 14) && not (rt == value + 1)));
    }
    else record { kind = other; family = no_family; base = 0; condition = condition; valid = false }
