-- ===== src/Rsp/Packets.antt =====
-- The packet parsers of src/uvdb_rsp.c: `parse_memory_packet` with its two callers,
-- `uvdb_rsp_parse_software_breakpoint_packet`, `uvdb_rsp_parse_xfer_range`,
-- `uvdb_rsp_parse_fileio_packet` and `uvdb_rsp_parse_fileio_result_packet`. -1 is `none`; a pointer
-- into the packet is the list of the characters from there on.
pub mod Fields
pub mod Memory
pub mod Requests
pub mod Fileio
use vita_debugger.Prelude.{
  ℕ, zero, suc, ◌+◌, ◌-◌, ◌*◌, ◌/◌, ◌%◌, ◌^◌, Bool, true, false, not, ◌&&◌, ◌||◌, List, [], ◌∷◌,
  Option, none, some, ltb, ◌==◌, if◌then◌else◌, length,
}
use vita_debugger.Rsp.Hex.{◌>>=◌, validate_hex_value}
use vita_debugger.Rsp.Numbers.{parse_u32_hex, parse_u64_hex}

-- `while (i < size && text[i] != mark) ++i`: what stands before the mark, and what from it on.
pub scan_to : ℕ → List ℕ → List ℕ × List ℕ
scan_to mark [] = ([], [])
scan_to mark (c ∷ cs) =
    let (before, from) = scan_to mark cs in if c == mark then ([], c ∷ cs) else (c ∷ before, from)

abbrev pub guard : Bool → Option (Unit {0})
guard true = some tt
guard false = none

infixl 5 ◌>>◌
abbrev pub ◌>>◌ {ℓ} : {B : Type ℓ} → Option (Unit {0}) → Option B → Option B
none >> k = none
some u >> k = k

pub is_empty : List ℕ → Bool
is_empty [] = true
is_empty (c ∷ cs) = false

-- The text behind the mark that a scan has stopped at; none at the end.
unfoldable pub behind : List ℕ → Option (List ℕ)
behind [] = none
behind (c ∷ cs) = some cs

-- `struct uvdb_rsp_memory_request`; `data` is NULL in a read.
pub record MemoryRequest : Type 0 where
  pub address : ℕ
  pub size : ℕ
  pub data_text : Option (List ℕ)

-- What the two kinds of packet share: both numbers parse, the size is within bounds, and the range
-- ends at 2 ^ 32 at most.
pub parse_memory_range : List ℕ → List ℕ → ℕ → Option (ℕ × ℕ)
parse_memory_range address_text length_text maximum_size = do
  guard (not (is_empty address_text))
  guard (not (is_empty length_text))
  address ← parse_u32_hex address_text
  size ← parse_u32_hex length_text
  guard (not (ltb maximum_size size))
  guard (not (ltb (2 ^ 32) (address + size)))
  some (address, size)

pub parse_memory_read_packet : List ℕ → ℕ → Option MemoryRequest
parse_memory_read_packet [] maximum_size = none
parse_memory_read_packet (c ∷ body) maximum_size = do
  guard (not (ltb (length body + 1) 4))
  guard (c == b'm')
  let (address_text, comma) = scan_to b',' body
  length_text ← behind comma
  range ← parse_memory_range address_text length_text maximum_size
  some (record { address = range.0; size = range.1; data_text = none })

pub parse_memory_write_packet : List ℕ → ℕ → Option MemoryRequest
parse_memory_write_packet [] maximum_size = none
parse_memory_write_packet (c ∷ body) maximum_size = do
  guard (not (ltb (length body + 1) 5))
  guard (c == b'M')
  let (address_text, comma) = scan_to b',' body
  rest ← behind comma
  let (length_text, colon) = scan_to b':' rest
  bytes_text ← behind colon
  range ← parse_memory_range address_text length_text maximum_size
  guard (not (ltb ((2 ^ 32 - 1) / 2) range.1))
  guard (length bytes_text == range.1 * 2)
  guard (validate_hex_value bytes_text range.1)
  some (record { address = range.0; size = range.1; data_text = some bytes_text })

-- `insert`, `address` and `kind` of a `Z0` or `z0` packet.
pub record BreakpointRequest : Type 0 where
  pub insert : Bool
  pub address : ℕ
  pub kind : ℕ

pub parse_software_breakpoint_packet : List ℕ → Option BreakpointRequest
parse_software_breakpoint_packet (z ∷ type ∷ first ∷ body) = do
  guard (not (ltb (length body + 3) 6))
  guard (z == b'Z' || z == b'z')
  guard (type == b'0' && first == b',')
  let (address_text, comma) = scan_to b',' body
  guard (not (is_empty address_text))
  kind_text ← behind comma
  guard (not (is_empty kind_text))
  address ← parse_u32_hex address_text
  kind ← parse_u32_hex kind_text
  some (record { insert = z == b'Z'; address = address; kind = kind })
parse_software_breakpoint_packet _ = none

-- `struct uvdb_rsp_xfer_range`
pub record XferRange : Type 0 where
  pub offset : ℕ
  pub span : ℕ

pub parse_xfer_range : List ℕ → Option XferRange
parse_xfer_range text = do
  guard (not (ltb (length text) 3))
  let (offset_text, comma) = scan_to b',' text
  guard (not (is_empty offset_text))
  length_text ← behind comma
  guard (not (is_empty length_text))
  offset ← parse_u64_hex offset_text
  span ← parse_u64_hex length_text
  guard (not (ltb (2 ^ 64 - 1 - span) offset))
  some (record { offset = offset; span = span })

-- `struct uvdb_rsp_fileio_result`; the flags 0 and 1 are `false` and `true`.
pub record FileioResult : Type 0 where
  pub result : ℕ
  pub error_number : ℕ
  pub has_error_number : Bool
  pub interrupted : Bool
  pub attachment : Option (List ℕ)

-- The sign and the digits of the result; `none` if nothing follows a '-'.
pub fileio_sign : List ℕ → Option (Bool × List ℕ)
fileio_sign [] = some (false, [])
fileio_sign (c ∷ cs) =
    if c == b'-' then (if is_empty cs then none else some (true, cs)) else some (false, c ∷ cs)

-- What follows the error number: nothing, or ",C".
pub fileio_interrupt : List ℕ → Option Bool
fileio_interrupt [] = some false
fileio_interrupt (comma ∷ []) = none
fileio_interrupt (comma ∷ c ∷ []) = if c == b'C' then some true else none
fileio_interrupt (comma ∷ c ∷ d ∷ cs) = none

-- What follows the result: nothing, or a comma and an error number.
pub fileio_errno : List ℕ → Option (ℕ × Bool × Bool)
fileio_errno [] = some (0, false, false)
fileio_errno (comma ∷ rest) = do
  guard (not (is_empty rest))
  let (error_text, more) = scan_to b',' rest
  error ← parse_u32_hex error_text
  interrupted ← fileio_interrupt more
  some (error, true, interrupted)

pub parse_fileio_packet : List ℕ → Option FileioResult
parse_fileio_packet [] = none
parse_fileio_packet (f ∷ body) = do
  guard (not (is_empty body))
  guard (f == b'F')
  let (header, semicolon) = scan_to b';' body
  signed ← fileio_sign header
  let (result_text, errno) = scan_to b',' signed.1
  magnitude ← parse_u32_hex result_text
  guard (not (signed.0 && ltb 0x8000_0000 magnitude))
  tail ← fileio_errno errno
  some (record {
    result = if signed.0 then (2 ^ 32 - magnitude) % 2 ^ 32 else magnitude;
    error_number = tail.0;
    has_error_number = tail.1;
    interrupted = tail.2;
    attachment = behind semicolon;
  })

unfoldable pub parse_fileio_result_packet : List ℕ → Option ℕ
parse_fileio_result_packet packet = do parsed ← parse_fileio_packet packet; some parsed.result
