-- ===== src/Codec.antt =====
-- Breakpoint and watchpoint register values of the ARMv7 debug unit:
-- kernel/src/armv7_debug_codec.c. Words are uint32_t; `& VD_ARMV7_WORD_MASK` is `% 4`, `& ~` of it is
-- a subtraction, and `& (length - 1u)`, for a length of 2 or 4, is `% length`. The encoding to fill is
-- given, so that the tests for NULL are left out.
pub mod Tables
pub mod Watch
use Prim.Native.Nat.{bit_or}
use vita_debugger.Prelude.{
  ℕ, zero, suc, ◌+◌, ◌-◌, ◌*◌, ◌/◌, ◌%◌, ◌^◌, Bool, true, false, not, ◌&&◌, ◌||◌, ltb, ◌==◌,
  if◌then◌else◌,
}

-- `enum vd_armv7_debug_result`
pub data CodecResult : Type 0 where
  ok invalid_length invalid_alignment crosses_word invalid_access : CodecResult

-- `struct vd_armv7_debug_encoding`
pub record Encoding : Type 0 where
  pub value : ℕ
  pub control : ℕ

abbrev pub no_encoding : Encoding
no_encoding = record { value = 0; control = 0 }

abbrev pub ctrl_enable : ℕ
ctrl_enable = 1

abbrev pub ctrl_user : ℕ
ctrl_user = 2 * 2

abbrev pub ctrl_any : ℕ
ctrl_any = 3 * 2

abbrev pub context_brp_index : ℕ
context_brp_index = 5

pub contiguous_bas : ℕ → ℕ → ℕ
contiguous_bas offset length = (2 ^ length - 1) * 2 ^ offset % 2 ^ 32

pub exec_control : ℕ → ℕ
exec_control bas =
    bit_or
      (bit_or (bit_or (bit_or (1 * 2 ^ 20) (context_brp_index * 2 ^ 16)) (bas * 2 ^ 5)) ctrl_user)
      ctrl_enable

pub watch_control : ℕ → ℕ → ℕ
watch_control bas access =
    bit_or
      (bit_or
        (bit_or (bit_or (bit_or (1 * 2 ^ 20) (context_brp_index * 2 ^ 16)) (bas * 2 ^ 5))
          (access * 2 ^ 3))
        ctrl_user)
      ctrl_enable

pub encode_linked_exec : ℕ → ℕ → CodecResult × Encoding
encode_linked_exec address length =
    let offset = address % 4 in
    let bas = contiguous_bas offset length in
    if not (length == 2) && not (length == 4)
    then (invalid_length, no_encoding)
    else if not (address % length == 0)
    then (invalid_alignment, no_encoding)
    else if ltb (4 - offset) length
    then (crosses_word, no_encoding)
    else if not (bas == 3) && (not (bas == 12) && not (bas == 15))
    then (invalid_alignment, no_encoding)
    else (ok, record { value = address - offset; control = exec_control bas })

pub encode_linked_context : ℕ → CodecResult × Encoding
encode_linked_context context_id = (
  ok,
  record {
    value = context_id;
    control = bit_or (bit_or (bit_or (3 * 2 ^ 20) (15 * 2 ^ 5)) ctrl_any) ctrl_enable;
  },
)

-- An access is the enumeration's value: 1 read, 2 write, 3 either.
pub encode_linked_watch : ℕ → ℕ → ℕ → CodecResult × Encoding
encode_linked_watch address length access =
    let offset = address % 4 in
    if not (length == 1) && (not (length == 2) && not (length == 4))
    then (invalid_length, no_encoding)
    else if not (access == 1) && (not (access == 2) && not (access == 3))
    then (invalid_access, no_encoding)
    else if ltb (4 - offset) length
    then (crosses_word, no_encoding)
    else (
      ok,
      record {
        value = address - offset;
        control = watch_control (contiguous_bas offset length) access;
      },
    )

-- `fsr & 0x400` and `fsr & 0xf`, which share no bit.
pub fsr_status : ℕ → ℕ
fsr_status fsr = fsr / 2 ^ 10 % 2 * 2 ^ 10 / 2 ^ 6 + fsr % 2 ^ 4

pub fsr_is_debug_event : ℕ → Bool
fsr_is_debug_event fsr = fsr_status fsr == 2

pub range_contains : ℕ → ℕ → ℕ → Bool
range_contains range_start range_length address =
    if range_length == 0 || ltb address range_start
    then false
    else ltb (address - range_start) range_length
