-- ===== src/Rsp/Registers/Write.antt =====
-- `P` packets: one register is written as `p` reads it, and every write can be undone.

use vita_debugger.Prelude.{
  ℕ, zero, suc, ◌^◌, ◌≤◌, ◌<◌, ◌≡◌, ◌≢◌, ◌⊎◌, inl, inr, refl, sym, ◌∙◌, true, List, [], ◌∷◌, ◌++◌,
  Option, none, some, arith, leb, length, All, get_or, set, set-set-get_or, get_or-set_self,
  get_or-set_other, Bool-cases, ◌==◌, if◌then◌else◌, length-append,
}
use vita_debugger.Rsp.Hex.{write_u32_le, hex_value}
use vita_debugger.Rsp.Hex.Words.{IsWord, length-write_u32_le}
use vita_debugger.Rsp.Numbers.{parse_register_number, parse_u32_hex, parse_hex-hex_field}
use vita_debugger.Rsp.Packets.{behind}
use vita_debugger.Rsp.Packets.Fields.{scan_to-Free, parse_u32_hex-Free, parse_u32_hex-is_empty}
use vita_debugger.Rsp.Registers.{
  CoreRegisters, VfpRegisters, RegisterWrite, Description, ok, valid_layout, describe_register,
  single_text, exactly, encode_described, encode_single_register, is_mutable, read_write,
  split_write, parse_core_register_write_packet, apply_core_register_write, core, cpsr,
}
use vita_debugger.Rsp.Registers.Core.{IsCore, validate-write_u32_le, read-write_u32_le}

-- The value of a register that a `P` packet may change.
abbrev pub register_value : CoreRegisters → ℕ → ℕ
register_value regs n = if leb n 15 then get_or regs.r n 0 else regs.psr

-- The numbers of those registers.
abbrev pub IsMutable : ℕ → Type 0
IsMutable n = (n ≤ 15) ⊎ (n ≡ 25)

-- A write to a register of the file gives that register the value and leaves every other register
-- that can be written as it was, and the inverse write that is reported asks for the register's old
-- value: applied in turn, it restores the whole file and reports the first write.
pub apply_core_register_write_inverse :
    (regs : CoreRegisters) (w : RegisterWrite) (n : ℕ)
    → IsCore regs
    → IsMutable w.register_number
    → IsMutable n
    → (after : CoreRegisters) × (inverse : RegisterWrite) × (apply_core_register_write regs w
        ≡ some (after, inverse))
      × (register_value after n
          ≡ (if n == w.register_number then w.value else register_value regs n))
      × (inverse ≡ record w { value = register_value regs w.register_number })
      × (apply_core_register_write after inverse ≡ some (regs, w))
unfolding apply_core_register_write
apply_core_register_write_inverse regs w n v (inl low) m = (
  record regs { r = set regs.r w.register_number w.value },
  record w { value = get_or regs.r w.register_number 0 },
  ground arith,
  elim (Bool-cases (n == w.register_number)) [
    | inl same ↦
        ground (arith, get_or-set_self regs.r w.register_number w.value 0 (omega (arith, v.count)))
    | inr other ↦
        ground (arith, get_or-set_other regs.r w.register_number n w.value 0 (λ e. ground arith))
  ],
  ground arith,
  ground (
    arith,
    get_or-set_self regs.r w.register_number w.value 0 (omega (arith, v.count)),
    set-set-get_or regs.r w.register_number w.value 0 (omega (arith, v.count)),
  ),
)
apply_core_register_write_inverse regs w n v (inr psr) m = (
  record regs { psr = w.value },
  record w { value = regs.psr },
  ground arith,
  elim m [ inl low ↦ ground arith | inr e ↦ ground arith ],
  ground arith,
  ground arith,
)

-- Any other write is refused.
apply_core_register_write-none :
    (regs : CoreRegisters) (w : RegisterWrite)
    → 15 < w.register_number
    → w.register_number ≢ 25
    → apply_core_register_write regs w ≡ none
unfolding apply_core_register_write
apply_core_register_write-none regs w h k = ground arith

All-get_or : (ws : List ℕ) (n : ℕ) → All IsWord ws → get_or ws n 0 < 2 ^ 32
All-get_or [] n h = omega arith
All-get_or (w ∷ ws) zero h = h.0
All-get_or (w ∷ ws) (suc n) h = All-get_or ws n h.1

register_value-lt : (regs : CoreRegisters) (n : ℕ) → IsCore regs → register_value regs n < 2 ^ 32
register_value-lt regs n v = ground (arith, All-get_or regs.r n v.words, v.psr_word)

-- How a register that a `P` packet may change is described, in either layout.
abbrev mutable_description : ℕ → Description
mutable_description n =
    if leb n 15
    then record { kind = core; index = n; byte_size = 4 }
    else record { kind = cpsr; index = 0; byte_size = 4 }

describe-IsMutable :
    (n include_vfp : ℕ)
    → valid_layout include_vfp ≡ true
    → IsMutable n
    → describe_register n include_vfp ≡ some (mutable_description n)
unfolding describe_register
describe-IsMutable n include_vfp h (inl low) = ground arith
describe-IsMutable n include_vfp h (inr e) = ground arith

encode-IsMutable :
    (capacity : ℕ) (regs : CoreRegisters) (vfp : Option VfpRegisters) (include_vfp n : ℕ)
    → 8 ≤ capacity
    → valid_layout include_vfp ≡ true
    → IsMutable n
    → encode_single_register capacity (some regs) vfp include_vfp n
      ≡ (8, some (write_u32_le (register_value regs n)))
unfolding encode_single_register encode_described single_text exactly
encode-IsMutable capacity regs vfp include_vfp n room h (inl low) =
    ground
      (arith, describe-IsMutable n include_vfp h (inl low), length-write_u32_le (get_or regs.r n 0))
encode-IsMutable capacity regs vfp include_vfp n room h (inr e) =
    ground (arith, describe-IsMutable n include_vfp h (inr e), length-write_u32_le regs.psr)

equals_unread : hex_value b'=' ≡ none
unfolding hex_value
equals_unread = refl

register-u32 :
    (text : List ℕ) (n : ℕ) → parse_register_number text ≡ some n → parse_u32_hex text ≡ some n
register-u32 text n h = (parse_hex-hex_field text).0 ∙ sym (parse_hex-hex_field text).1 ∙ h

split-IsMutable :
    (number_text value_text : List ℕ) (include_vfp n : ℕ)
    → valid_layout include_vfp ≡ true
    → parse_register_number number_text ≡ some n
    → length value_text ≡ 8
    → IsMutable n
    → split_write (b'P' ∷ (number_text ++ b'=' ∷ value_text)) include_vfp
      ≡ some (n, mutable_description n, value_text)
unfolding split_write behind
split-IsMutable number_text value_text include_vfp n h e size m = ground (
  arith,
  length-append number_text (b'=' ∷ value_text),
  parse_u32_hex-is_empty number_text n (register-u32 number_text n e),
  scan_to-Free b'=' number_text value_text
      (parse_u32_hex-Free b'=' number_text n equals_unread (register-u32 number_text n e)),
  describe-IsMutable n include_vfp h m,
)

read-IsMutable :
    (n v : ℕ)
    → v < 2 ^ 32
    → IsMutable n
    → read_write n (mutable_description n) (write_u32_le v)
      ≡ ok (record { register_number = n; value = v })
unfolding read_write is_mutable
read-IsMutable n v h (inl low) = ground (arith, validate-write_u32_le v, read-write_u32_le v h)
read-IsMutable n v h (inr e) = ground (arith, validate-write_u32_le v, read-write_u32_le v h)

-- In either layout a register that may be changed is read as eight digits, and the `P` packet that
-- carries its number and those digits asks for its own value.
pub parse-encode_single_register :
    (capacity : ℕ) (regs : CoreRegisters) (vfp : Option VfpRegisters) (include_vfp n : ℕ)
    (number_text : List ℕ)
    → IsCore regs
    → 8 ≤ capacity
    → valid_layout include_vfp ≡ true
    → IsMutable n
    → parse_register_number number_text ≡ some n
    → (text : List ℕ) × (encode_single_register capacity (some regs) vfp include_vfp n
        ≡ (8, some text))
      × (parse_core_register_write_packet (b'P' ∷ (number_text ++ b'=' ∷ text)) include_vfp
          ≡ ok (record { register_number = n; value = register_value regs n }))
unfolding parse_core_register_write_packet
parse-encode_single_register capacity regs vfp include_vfp n number_text v room h m e = (
  write_u32_le (register_value regs n),
  encode-IsMutable capacity regs vfp include_vfp n room h m,
  rw
      (
        split-IsMutable number_text (write_u32_le (register_value regs n)) include_vfp n h e
            (length-write_u32_le (register_value regs n)) m,
        parse_core_register_write_packet,
      )
      (read-IsMutable n (register_value regs n) (register_value-lt regs n v) m),
)
