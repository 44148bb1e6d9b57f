-- ===== src/Exclusive/Thumb.antt =====
-- The decoder of Thumb instructions in src/uvdb_exclusive_step.c.
use Prim.Native.Nat.{bit_and}
use vita_debugger.Prelude.{
  ℕ, ◌+◌, ◌/◌, ◌%◌, ◌^◌, Bool, true, false, not, ◌&&◌, ◌||◌, ltb, ◌==◌, if◌then◌else◌,
}
use vita_debugger.Exclusive.{
  Family, no_family, word, byte, half, double, Kind, other, load, store, clear, Instruction, bit,
  masked, same, same_family, is_double,
}

pub thumb16_pc_writer : ℕ → Bool
thumb16_pc_writer instruction =
    let rd = instruction % 8 + bit_and (instruction / 2 ^ 4) 8 in
    (masked instruction 0xf000 0xd000 && ltb (bit_and instruction 0x0f00) 0x0e00)
    || masked instruction 0xf800 0xe000
    || masked instruction 0xff07 0x4700
    || masked instruction 0xff00 0xbd00
    || masked instruction 0xf500 0xb100
    || ((masked instruction 0xff00 0x4400 || masked instruction 0xff00 0x4600) && rd == 15)

pub thumb32_pc_writer : ℕ → ℕ → Bool
thumb32_pc_writer first second =
    (masked first 0xf800 0xf000
      && bit second 15
      && (bit second 12
          || masked second 0xd001 0xc000
          || (masked second 0xd000 0x8000 && not (masked first 0x0380 0x0380))))
    || (masked first 0xfff0 0xe8d0 && masked second 0xffe0 0xf000)
    || (masked first 0xfe50 0xe810 && (same (bit first 7) (bit first 8) || bit second 15))
    || (masked first 0xff70 0xf850 && masked second 0xf000 0xf000)
    || (masked first 0xffef 0xea4f && masked second 0xfff0 0x0f00)
    || (masked first 0xfff0 0xf3c0 && second == 0x8f00)
    || (first == 0xf3de && masked second 0xff00 0x8f00)

pub thumb_may_block : ℕ → ℕ → Bool
thumb_may_block first second =
    masked first 0xff00 0xdf00
    || first == 0xbf20
    || first == 0xbf30
    || (first == 0xf3af && (second == 0x8002 || second == 0x8003))

-- The families of the second halfwords of LDREXB, LDREXH and LDREXD, and of the stores.
pub thumb_load_family : ℕ → Family
thumb_load_family second =
    if masked second 0x0fff 0x0f4f
    then byte
    else if masked second 0x0fff 0x0f5f
    then half
    else if masked second 0x00ff 0x007f
    then double
    else no_family

pub thumb_store_family : ℕ → Family
thumb_store_family second =
    if masked second 0x0ff0 0x0f40
    then byte
    else if masked second 0x0ff0 0x0f50
    then half
    else if masked second 0x00f0 0x0070
    then double
    else no_family

-- An instruction that is always executed.
abbrev decoded : Kind → Family → ℕ → Bool → Instruction
decoded kind family base valid = record {
  kind = kind;
  family = family;
  base = base;
  condition = 0xe;
  valid = valid;
}

pub decode_thumb_exclusive : ℕ → ℕ → ℕ → Instruction
decode_thumb_exclusive first second size =
    let rn = first % 16 in
    let rt = second / 2 ^ 12 in
    let rt2 = (second / 2 ^ 8) % 16 in
    let rd = second % 16 in
    let loaded = thumb_load_family second in
    let stored = thumb_store_family second in
    let plain = not (rn == 15) && not (rt == 13) && not (rt == 15) in
    if not (size == 4)
    then decoded other no_family 0 false
    else if first == 0xf3bf && second == 0x8f2f
    then decoded clear no_family 0 true
    else if masked first 0xfff0 0xe850 && masked second 0x0f00 0x0f00
    then decoded load word rn plain
    else if masked first 0xfff0 0xe8d0
    then (if same_family loaded no_family
        then decoded other no_family rn false
        else decoded load loaded rn (
            plain
            && (not (is_double loaded)
                || (not (rt == 13) && not (rt2 == 13) && not (rt2 == 15) && not (rt == rt2)))))
    else if masked first 0xfff0 0xe840
    then decoded store word rn
        (plain && not (rt2 == 13) && not (rt2 == 15) && not (rt2 == rn) && not (rt2 == rt))
    else if masked first 0xfff0 0xe8c0
    then (if same_family stored no_family
        then decoded other no_family rn false
        else decoded store stored rn (
            plain
            && not (rd == 13)
            && not (rd == 15)
            && not (rd == rn)
            && not (rd == rt)
            && (not (is_double stored)
                || (not (rt == 13)
                    && not (rt2 == 13)
                    && not (rt2 == 15)
                    && not (rt == rt2)
                    && not (rd == rt2)))))
    else decoded other no_family 0 false
