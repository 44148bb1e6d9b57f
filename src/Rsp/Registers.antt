-- ===== src/Rsp/Registers.antt =====
-- Register packets of src/uvdb_rsp.c: `describe_register`, `uvdb_rsp_encode_register_packet`,
-- `uvdb_rsp_parse_register_read_packet`, `uvdb_rsp_encode_single_register`,
-- `uvdb_rsp_parse_core_register_write_packet`, `uvdb_rsp_apply_core_register_write` and
-- `uvdb_rsp_parse_core_register_packet`. A register file is the list of its words; a snapshot that
-- may be NULL is an option. An encoder returns the new `*output_size` and what it writes.
pub mod Layout
pub mod Write
pub mod Core
use vita_debugger.Prelude.{
  ℕ, zero, suc, ◌+◌, ◌-◌, ◌*◌, Bool, true, false, not, ◌&&◌, ◌||◌, List, [], ◌∷◌, ◌++◌, Option,
  none, some, ltb, leb, ◌==◌, if◌then◌else◌, length, get_or, set, take, drop,
}
use vita_debugger.Rsp.Hex.{
  ◌>>=◌, write_u32_le, write_u64_le, write_unavailable, validate_hex_value, read_u32_le_hex,
  validate_unavailable_or_hex_bytes,
}
use vita_debugger.Rsp.Numbers.{parse_register_number}
use vita_debugger.Rsp.Packets.{scan_to, guard, ◌>>◌, is_empty, behind}

pub data RegisterKind : Type 0 where
  core cpsr legacy_fpa legacy_fps vfp_d vfp_fpscr : RegisterKind

-- `struct register_description`
pub record Description : Type 0 where
  pub kind : RegisterKind
  pub index : ℕ
  pub byte_size : ℕ

-- `struct uvdb_rsp_core_registers`, 16 registers and CPSR.
pub record CoreRegisters : Type 0 where
  pub r : List ℕ
  pub psr : ℕ

-- `struct uvdb_rsp_vfp_registers`, 32 double registers and FPSCR.
pub record VfpRegisters : Type 0 where
  pub d : List ℕ
  pub fpscr : ℕ

pub record RegisterWrite : Type 0 where
  pub register_number : ℕ
  pub value : ℕ

-- UVDB_RSP_REGISTER_OK with what is written through the pointer, INVALID and UNSUPPORTED.
pub data RegisterResult {ℓ} (A : Type ℓ) : Type ℓ where
  ok : A → RegisterResult A
  invalid unsupported : RegisterResult A

abbrev pub legacy_fpa_bytes : ℕ
legacy_fpa_bytes = 8 * 12 + 4

abbrev pub core_packet_hex_size : ℕ
core_packet_hex_size = (16 * 4 + legacy_fpa_bytes + 4) * 2

abbrev pub vfp_packet_bytes : ℕ
vfp_packet_bytes = 32 * 8 + 4

abbrev pub vfp_packet_hex_size : ℕ
vfp_packet_hex_size = (16 * 4 + 4 + vfp_packet_bytes) * 2

unfoldable pub valid_layout : ℕ → Bool
valid_layout include_vfp = include_vfp == 0 || include_vfp == 1

pub describe_register : ℕ → ℕ → Option Description
unfolding valid_layout
describe_register register_number include_vfp =
    if not (valid_layout include_vfp)
    then none
    else if leb register_number 15
    then some (record { kind = core; index = register_number; byte_size = 4 })
    else if register_number == 25
    then some (record { kind = cpsr; index = 0; byte_size = 4 })
    else if not (include_vfp == 0) && (leb 26 register_number && leb register_number 57)
    then some (record { kind = vfp_d; index = register_number - 26; byte_size = 8 })
    else if not (include_vfp == 0) && register_number == 58
    then some (record { kind = vfp_fpscr; index = 0; byte_size = 4 })
    else if include_vfp == 0 && (leb 16 register_number && leb register_number 23)
    then some (record { kind = legacy_fpa; index = register_number - 16; byte_size = 12 })
    else if include_vfp == 0 && register_number == 24
    then some (record { kind = legacy_fps; index = 0; byte_size = 4 })
    else none

pub write_words : List ℕ → List ℕ
write_words [] = []
write_words (w ∷ ws) = write_u32_le w ++ write_words ws

pub write_doubles : List ℕ → List ℕ
write_doubles [] = []
write_doubles (d ∷ ds) = write_u64_le d ++ write_doubles ds

pub write_vfp : Option VfpRegisters → List ℕ
write_vfp none = write_unavailable vfp_packet_bytes
write_vfp (some vfp) = write_doubles vfp.d ++ write_u32_le vfp.fpscr

-- The text of a `g` packet in either layout.
pub register_text : CoreRegisters → Option VfpRegisters → ℕ → List ℕ
register_text regs vfp include_vfp =
    write_words regs.r
    ++ (if include_vfp == 0
        then write_unavailable legacy_fpa_bytes ++ write_u32_le regs.psr
        else write_u32_le regs.psr ++ write_vfp vfp)

-- The cursor must end exactly at the required size.
pub exactly : ℕ → List ℕ → ℕ × Option (List ℕ)
exactly required text = (required, if length text == required then some text else none)

pub encode_register_packet :
    ℕ → Option CoreRegisters → Option VfpRegisters → ℕ → ℕ × Option (List ℕ)
encode_register_packet capacity none vfp include_vfp =
    if not (valid_layout include_vfp)
    then (0, none)
    else (if include_vfp == 0 then core_packet_hex_size else vfp_packet_hex_size, none)
encode_register_packet capacity (some regs) vfp include_vfp =
    if not (valid_layout include_vfp)
    then (0, none)
    else let required = if include_vfp == 0 then core_packet_hex_size else vfp_packet_hex_size in
      if ltb capacity required
      then (required, none)
      else exactly required (register_text regs vfp include_vfp)

unfoldable pub parse_register_read_packet : List ℕ → ℕ → Option ℕ
parse_register_read_packet [] include_vfp = none
parse_register_read_packet (c ∷ text) include_vfp = do
  guard (not (ltb (length text + 1) 2))
  guard (c == b'p')
  guard (valid_layout include_vfp)
  parsed ← parse_register_number text
  description ← describe_register parsed include_vfp
  some parsed

-- The switch of `uvdb_rsp_encode_single_register`.
pub single_text :
    Option CoreRegisters → Option VfpRegisters → Description → RegisterKind → Option (List ℕ)
single_text regs vfp description core = do
  r ← regs
  some (write_u32_le (get_or r.r description.index 0))
single_text regs vfp description cpsr = do r ← regs; some (write_u32_le r.psr)
single_text regs vfp description legacy_fpa = some (write_unavailable description.byte_size)
single_text regs vfp description legacy_fps = some (write_unavailable description.byte_size)
single_text regs none description vfp_d = some (write_unavailable description.byte_size)
single_text regs (some v) description vfp_d = some (write_u64_le (get_or v.d description.index 0))
single_text regs none description vfp_fpscr = some (write_unavailable description.byte_size)
single_text regs (some v) description vfp_fpscr = some (write_u32_le v.fpscr)

pub encode_described :
    ℕ → Option CoreRegisters → Option VfpRegisters → Option Description → ℕ × Option (List ℕ)
encode_described capacity regs vfp none = (0, none)
encode_described capacity regs vfp (some description) =
    let required = description.byte_size * 2 in
    if ltb capacity required
    then (required, none)
    else elim (single_text regs vfp description description.kind) [
      | none ↦ (required, none)
      | some text ↦ exactly required text
    ]

pub encode_single_register :
    ℕ → Option CoreRegisters → Option VfpRegisters → ℕ → ℕ → ℕ × Option (List ℕ)
encode_single_register capacity regs vfp include_vfp register_number =
    encode_described capacity regs vfp (describe_register register_number include_vfp)

abbrev pub or_invalid {ℓ} : {A : Type ℓ} → Option A → RegisterResult A
or_invalid none = invalid
or_invalid (some a) = ok a

pub is_mutable : RegisterKind → Bool
is_mutable core = true
is_mutable cpsr = true
is_mutable _ = false

pub read_write : ℕ → Description → List ℕ → RegisterResult RegisterWrite
read_write register_number description value_text =
    if not (validate_hex_value value_text description.byte_size)
    then invalid
    else if not (is_mutable description.kind)
    then unsupported
    else or_invalid (do
      value ← read_u32_le_hex value_text
      some (record { register_number = register_number; value = value }))

-- The number, its description and the text of the value in a `P` packet.
pub split_write : List ℕ → ℕ → Option (ℕ × Description × List ℕ)
split_write [] include_vfp = none
split_write (c ∷ body) include_vfp = do
  guard (not (ltb (length body + 1) 4))
  guard (c == b'P')
  guard (valid_layout include_vfp)
  let (number_text, equals) = scan_to b'=' body
  guard (not (is_empty number_text))
  value_text ← behind equals
  register_number ← parse_register_number number_text
  description ← describe_register register_number include_vfp
  some (register_number, description, value_text)

pub parse_core_register_write_packet : List ℕ → ℕ → RegisterResult RegisterWrite
parse_core_register_write_packet packet include_vfp = elim (split_write packet include_vfp) [
  | none ↦ invalid
  | some (n, description, value_text) ↦ read_write n description value_text
]

-- The registers after the write, and the write that undoes it.
pub apply_core_register_write :
    CoreRegisters → RegisterWrite → Option (CoreRegisters × RegisterWrite)
apply_core_register_write regs write =
    if leb write.register_number 15
    then some (
      record regs { r = set regs.r write.register_number write.value },
      record write { value = get_or regs.r write.register_number 0 },
    )
    else if write.register_number == 25
    then some (record regs { psr = write.value }, record write { value = regs.psr })
    else none

-- `count` words of eight characters each.
pub read_words : ℕ → List ℕ → Option (List ℕ)
read_words zero text = some []
read_words (suc count) text = do
  word ← read_u32_le_hex text
  words ← read_words count (drop 8 text)
  some (word ∷ words)

abbrev pub core_hex_size : ℕ
core_hex_size = 16 * 4 * 2

pub parse_core_register_packet : List ℕ → ℕ → RegisterResult CoreRegisters
parse_core_register_packet [] include_vfp = invalid
parse_core_register_packet (c ∷ values) include_vfp =
    let psr_text = drop (core_hex_size + legacy_fpa_bytes * 2) values in
    if not
      (valid_layout include_vfp && (length values + 1 == 1 + core_packet_hex_size && c == b'G'))
    then invalid
    else if not (include_vfp == 0)
    then unsupported
    else if not (
        validate_hex_value (take core_hex_size values) (16 * 4)
        && (validate_unavailable_or_hex_bytes (drop core_hex_size values) legacy_fpa_bytes
            && validate_hex_value (take 8 psr_text) 4))
    then invalid
    else or_invalid (do
      r ← read_words 16 values
      psr ← read_u32_le_hex psr_text
      some (record { r = r; psr = psr }))
