-- ===== src/Rsp/Frame.antt =====
-- Packet framing `$PAYLOAD#CC`: `uvdb_rsp_scan_frame`, `uvdb_rsp_frame_should_nack` and the request
-- lifetime of src/uvdb_rsp_frame.c, and the writer of a frame in src/uvdb.c (`buffer_start_packet`,
-- `buffer_end_packet`, `int2hex`), with a buffer that has room for what is written.
pub mod Marker
pub mod Complete
pub mod Progress
pub mod Lifetime
use vita_debugger.Prelude.{
  ℕ, suc, ◌+◌, ◌-◌, ◌*◌, ◌/◌, ◌%◌, Bool, true, false, not, ◌&&◌, List, [], ◌∷◌, ◌++◌, Option, none,
  some, ltb, leb, ◌==◌, if◌then◌else◌, length, take, drop,
}
use vita_debugger.Rsp.Hex.{hex_value}

pub data Status : Type 0 where
  discard incomplete complete : Status

-- `struct uvdb_rsp_frame`
pub record Frame : Type 0 where
  pub payload_offset : ℕ
  pub payload_size : ℕ
  pub consumed_size : ℕ
  pub request_nack : ℕ

abbrev pub no_frame : Frame
no_frame = record { payload_offset = 0; payload_size = 0; consumed_size = 0; request_nack = 0 }

-- The first loop: the number of bytes before a '$'.
pub find_start : List ℕ → ℕ
find_start [] = 0
find_start (c ∷ cs) = if c == b'$' then 0 else suc (find_start cs)

-- How the second loop ends: at a malformed byte, with the bytes to drop; at the '#', with its index
-- and the bytes behind it; or at the end of the input.
pub data Scan : Type 0 where
  malformed : (consumed : ℕ) → Scan
  at_hash : (marker : ℕ) → (rest : List ℕ) → Scan
  ran_out : Scan

-- The second loop, on the bytes from index `marker` on.
pub scan_marker : ℕ → Bool → ℕ → List ℕ → Scan
scan_marker max escaped marker [] = ran_out
scan_marker max true marker (c ∷ cs) =
    let next = scan_marker max false (marker + 1) cs in
    if leb max (marker - 1) then malformed (marker + 1) else next
scan_marker max false marker (c ∷ cs) =
    let escape = scan_marker max true (marker + 1) cs in
    let next = scan_marker max false (marker + 1) cs in
    if c == b'#'
    then at_hash marker cs
    else if c == b'}'
    then (if leb max (marker - 1) then malformed (marker + 1) else escape)
    else if c == b'$'
    then malformed marker
    else if leb max (marker - 1)
    then malformed (marker + 1)
    else next

-- The uint8_t sum of the payload.
unfoldable pub checksum : ℕ → List ℕ → ℕ
checksum sum [] = sum
checksum sum (b ∷ bs) = checksum ((sum + b) % 256) bs

pub nack : ℕ → Status × Frame
nack consumed = (discard, record no_frame { consumed_size = consumed; request_nack = 1 })

-- `high << 4 | low` is a sum, for `low` is below 16.
pub check_sum : ℕ → List ℕ → Option ℕ → Option ℕ → Status × Frame
check_sum marker payload none low = nack (marker + 3)
check_sum marker payload (some high) none = nack (marker + 3)
check_sum marker payload (some high) (some low) =
    if not (checksum 0 payload == (high * 16 + low) % 256) then nack (marker + 3) else (
      complete,
      record {
        payload_offset = 1;
        payload_size = marker - 1;
        consumed_size = marker + 3;
        request_nack = 0;
      },
    )

-- With the '#' at `marker`: fewer than two bytes behind it are an incomplete frame.
pub read_footer : ℕ → List ℕ → List ℕ → Status × Frame
read_footer marker payload [] = (incomplete, no_frame)
read_footer marker payload (h ∷ []) = (incomplete, no_frame)
read_footer marker payload (h ∷ l ∷ rest) = check_sum marker payload (hex_value h) (hex_value l)

-- What follows the second loop; `body` is the input after its '$'.
pub finish : ℕ → List ℕ → Scan → Status × Frame
finish max body (malformed consumed) = nack consumed
finish max body ran_out =
    if ltb max (length body) then nack (length body + 1) else (incomplete, no_frame)
finish max body (at_hash marker rest) =
    if ltb max (marker - 1)
    then nack (marker + 1)
    else read_footer marker (take (marker - 1) body) rest

pub scan_frame : List ℕ → ℕ → Status × Frame
unfolding find_start scan_marker finish read_footer check_sum nack checksum hex_value
scan_frame [] max = (incomplete, no_frame)
scan_frame (c ∷ cs) max =
    let start = find_start (c ∷ cs) in
    let scanned = finish max cs (scan_marker max false 1 cs) in
    if not (start == 0) then (discard, record no_frame { consumed_size = start }) else scanned

-- `no_ack_mode` is an int of which only 0 and 1 are accepted.
pub frame_should_nack : Frame → ℕ → Bool
frame_should_nack frame no_ack_mode =
    if not (no_ack_mode == 0) && not (no_ack_mode == 1)
    then false
    else no_ack_mode == 0 && frame.request_nack == 1

-- The output buffer: what has been written, and where the packet's payload starts.
pub record OutBuffer : Type 0 where
  pub written : List ℕ
  pub packet_start : ℕ

pub int2hex : ℕ → ℕ
int2hex value = if ltb value 10 then value + b'0' else value - 10 + b'a'

pub buffer_write : OutBuffer → List ℕ → OutBuffer
buffer_write buf source = record buf { written = buf.written ++ source }

pub buffer_start_packet : OutBuffer → OutBuffer
unfolding buffer_write
buffer_start_packet buf =
    let started = buffer_write buf (b'$' ∷ []) in
    record started { packet_start = length started.written }

pub buffer_end_packet : OutBuffer → OutBuffer
unfolding buffer_write checksum int2hex
buffer_end_packet buf =
    let sum = checksum 0 (drop buf.packet_start buf.written) in
    buffer_write buf (b'#' ∷ int2hex (sum / 16) ∷ int2hex (sum % 16) ∷ [])

-- A whole packet, as the handlers of uvdb.c write one.
pub send_packet : OutBuffer → List ℕ → OutBuffer
unfolding buffer_start_packet buffer_end_packet
send_packet buf payload = buffer_end_packet (buffer_write (buffer_start_packet buf) payload)
