-- ===== src/Exclusive.antt =====
-- Stepping over an exclusive sequence: src/uvdb_exclusive_step.c. An instruction is a number below
-- 2 ^ 32, and a halfword of Thumb one below 2 ^ 16. What both
-- instruction sets use stands here, their decoders in Arm and Thumb, the loops in Scan.
pub mod Arm
pub mod Thumb
pub mod Scan
pub mod Walk
pub mod Sound
pub mod Steps
pub mod Scanned
use Prim.Native.Nat.{bit_and}
use vita_debugger.Prelude.{
  ℕ, ◌+◌, ◌-◌, ◌*◌, ◌/◌, ◌%◌, ◌^◌, Bool, true, false, not, ◌&&◌, ◌||◌, List, Option, none, some,
  get_or, ltb, leb, ◌==◌, if◌then◌else◌,
}

-- `enum exclusive_family`
pub data Family : Type 0 where
  no_family word byte half double : Family

-- `enum exclusive_kind`
pub data Kind : Type 0 where
  other load store clear : Kind

-- `struct exclusive_instruction`
pub record Instruction : Type 0 where
  pub kind : Kind
  pub family : Family
  pub base : ℕ
  pub condition : ℕ
  pub valid : Bool

abbrev pub uint32_max : ℕ
uint32_max = 2 ^ 32 - 1

-- `add_u32`, which gives a sum only where it does not wrap around.
unfoldable pub add_u32 : ℕ → ℕ → Option ℕ
add_u32 value increment =
    if ltb (uint32_max - increment) value then none else some (value + increment)

abbrev pub bit : ℕ → ℕ → Bool
bit n i = (n / 2 ^ i) % 2 == 1

-- `(n & mask) == value`
abbrev pub masked : ℕ → ℕ → ℕ → Bool
masked n mask value = bit_and n mask == value

abbrev pub same : Bool → Bool → Bool
same true b = b
same false b = not b

-- The `switch` of `condition_passed`.
unfoldable pub condition_base : ℕ → ℕ → Bool
condition_base condition cpsr =
    let n = bit cpsr 31 in
    let z = bit cpsr 30 in
    let c = bit cpsr 29 in
    let v = bit cpsr 28 in
    let pair = condition / 2 in
    if pair == 0
    then z
    else if pair == 1
    then c
    else if pair == 2
    then n
    else if pair == 3
    then v
    else if pair == 4
    then c && not z
    else if pair == 5
    then same n v
    else if pair == 6
    then not z && same n v
    else condition == 14

unfoldable pub condition_passed : ℕ → ℕ → Bool
condition_passed condition cpsr =
    if leb 15 condition
    then false
    else if condition % 2 == 1
    then not (condition_base condition cpsr)
    else condition_base condition cpsr

pub thumb_itstate : ℕ → ℕ
thumb_itstate cpsr = bit_and (cpsr / 2 ^ 8) 0xfc + (cpsr / 2 ^ 25) % 4

pub load_le16 : List ℕ → ℕ
load_le16 bytes = get_or bytes 0 0 + get_or bytes 1 0 * 2 ^ 8

unfoldable pub load_le32 : List ℕ → ℕ
load_le32 bytes =
    get_or bytes 0 0
    + get_or bytes 1 0 * 2 ^ 8
    + get_or bytes 2 0 * 2 ^ 16
    + get_or bytes 3 0 * 2 ^ 24

abbrev pub same_family : Family → Family → Bool
same_family no_family no_family = true
same_family word word = true
same_family byte byte = true
same_family half half = true
same_family double double = true
same_family f g = false

abbrev pub is_double : Family → Bool
is_double f = same_family f double
