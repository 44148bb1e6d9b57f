-- ===== src/Tests/Fields.antt =====
-- The texts of requests and replies.
use vita_debugger.Prelude.{
  ℕ, ◌-◌, ◌^◌, ◌≡◌, ◌⊎◌, ◌↔◌, ◌++◌, drop, refl, ◌∙◌, List, [], ◌∷◌, length, false, true, none, some,
  arith,
}
use vita_debugger.Spans.{spans_overlap}
use vita_debugger.Rsp.Hex.{hex_value, decode_hex_bytes, encode_console_payload, read_bytes}
use vita_debugger.Rsp.Hex.Bytes.{IsDecodable, Decoded, decode_hex_bytes_lem}
use vita_debugger.Rsp.Hex.Console.{decode-encode_console_payload}
use vita_debugger.Rsp.Numbers.{
  parse_u32_hex, parse_u64_hex, parse_register_number, number, hex_field, parse_hex-hex_field,
}
use vita_debugger.Rsp.Packets.{
  MemoryRequest, parse_memory_read_packet, parse_memory_write_packet, BreakpointRequest,
  parse_software_breakpoint_packet, XferRange, parse_fileio_packet,
}
use vita_debugger.Rsp.Packets.Memory.{
  IsRead, IsWrite, parse_memory_read_packet_iff, parse_memory_write_packet_iff,
}
use vita_debugger.Rsp.Packets.Requests.{IsBreakpoint, parse_software_breakpoint_packet_iff}
use vita_debugger.Rsp.Packets.Fileio.{reply_text, parse_fileio_packet-reply}

abbrev digits : List ℕ
digits = b'4' ∷ b'f' ∷ b'4' ∷ b'b' ∷ []

abbrev zeros : List ℕ
zeros = 0 ∷ 0 ∷ 0 ∷ []

decode_hex_bytes_lem_example :
    (IsDecodable 64 2 4096 digits
      × Decoded digits
      × (decode_hex_bytes 64 2 4096 digits zeros ≡ (true, read_bytes digits ++ drop 2 zeros)))
    ⊎ ((¬ IsDecodable 64 2 4096 digits)
        × (decode_hex_bytes 64 2 4096 digits zeros ≡ (false, zeros)))
decode_hex_bytes_lem_example = decode_hex_bytes_lem 64 2 4096 digits zeros

abbrev okay : List ℕ
okay = b'O' ∷ b'K' ∷ []

decode-encode_console_payload_example :
    (text : List ℕ) × (encode_console_payload 64 5 4096 okay ≡ (5, some (b'O' ∷ text)))
    × (length text ≡ 4)
    × (decode_hex_bytes 8192 2 64 text zeros ≡ (true, okay ++ drop 2 zeros))
unfolding spans_overlap
decode-encode_console_payload_example =
    decode-encode_console_payload 64 5 4096 okay 8192 64 zeros (omega arith, (omega arith, tt))
      (omega arith) (omega arith) refl refl

parse_hex-hex_field_example :
    (parse_u32_hex digits ≡ hex_field 8 digits)
    × (parse_register_number digits ≡ hex_field 8 digits)
    × (parse_u64_hex digits ≡ hex_field 16 digits)
parse_hex-hex_field_example = parse_hex-hex_field digits

abbrev read_text : List ℕ
read_text = b'm' ∷ b'8' ∷ b'0' ∷ b',' ∷ b'4' ∷ []

abbrev read_request : MemoryRequest
read_request = record { address = 0x80; size = 4; data_text = none }

parse_memory_read_packet_iff_example :
    (parse_memory_read_packet read_text 64 ≡ some read_request) ↔ IsRead read_text 64 read_request
parse_memory_read_packet_iff_example = parse_memory_read_packet_iff read_text 64 read_request

abbrev write_text : List ℕ
write_text = b'M' ∷ b'8' ∷ b'0' ∷ b',' ∷ b'2' ∷ b':' ∷ digits

abbrev write_request : MemoryRequest
write_request = record { address = 0x80; size = 2; data_text = some digits }

parse_memory_write_packet_iff_example :
    (parse_memory_write_packet write_text 64 ≡ some write_request)
    ↔ IsWrite write_text 64 write_request
parse_memory_write_packet_iff_example = parse_memory_write_packet_iff write_text 64 write_request

abbrev insert_text : List ℕ
insert_text = b'Z' ∷ b'0' ∷ b',' ∷ b'8' ∷ b'0' ∷ b',' ∷ b'2' ∷ []

abbrev insert_request : BreakpointRequest
insert_request = record { address = 0x80; kind = 2; insert = true }

parse_software_breakpoint_packet_iff_example :
    (parse_software_breakpoint_packet insert_text ≡ some insert_request)
    ↔ IsBreakpoint insert_text insert_request
parse_software_breakpoint_packet_iff_example =
    parse_software_breakpoint_packet_iff insert_text insert_request

abbrev range_text : List ℕ
range_text = b'1' ∷ b'0' ∷ b',' ∷ b'f' ∷ b'f' ∷ []

abbrev range : XferRange
range = record { offset = 16; span = 255 }

parse_fileio_packet-reply_example :
    parse_fileio_packet (reply_text true (b'1' ∷ []) (some (b'4' ∷ [], true)) none)
    ≡ some (record {
      result = 2 ^ 32 - 1;
      error_number = 4;
      has_error_number = true;
      interrupted = true;
      attachment = none;
    })
unfolding number hex_value
parse_fileio_packet-reply_example =
    parse_fileio_packet-reply true (b'1' ∷ []) (some (b'4' ∷ [], true)) none 1 (4, true, true)
      ((parse_hex-hex_field (b'1' ∷ [])).0 ∙ refl) (λ e. omega arith)
      ((parse_hex-hex_field (b'4' ∷ [])).0 ∙ refl, refl, refl)
