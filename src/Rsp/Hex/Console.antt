-- ===== src/Rsp/Hex/Console.antt =====
-- Console output in `O` packets: what `uvdb_rsp_encode_console_payload` writes decodes to the bytes
-- that it was given.
use vita_debugger.Prelude.{
  ℕ, ◌+◌, ◌-◌, ◌*◌, ◌/◌, ◌≤◌, ◌≡◌, refl, true, false, List, [], ◌∷◌, ◌++◌, drop, some, arith,
  length, All,
}
use vita_debugger.Spans.{spans_overlap}
use vita_debugger.Rsp.Hex.{
  size_max, write_bytes, encode_console_payload, decode_hex_bytes, validate_hex_value,
}
use vita_debugger.Rsp.Hex.Bytes.{
  IsByte, length-write_bytes, read_bytes-write_bytes, all_hex-write_bytes,
}

decode-write_bytes :
    (into from : ℕ) (bytes before : List ℕ)
    → All IsByte bytes
    → length bytes ≤ (size_max - 1) / 2
    → spans_overlap into (length bytes) from (length bytes * 2) ≡ false
    → decode_hex_bytes into (length bytes) from (write_bytes bytes) before
      ≡ (true, bytes ++ drop (length bytes) before)
unfolding decode_hex_bytes validate_hex_value write_bytes
decode-write_bytes into from [] before valid small clear = refl
decode-write_bytes into from (b ∷ bs) before valid small clear = ground (
  arith,
  length-write_bytes (b ∷ bs),
  all_hex-write_bytes (b ∷ bs) valid,
  read_bytes-write_bytes (b ∷ bs) valid,
)

-- With room for it and no overlap, the payload is an 'O' and a text of two digits for each byte,
-- and decoding that text into an output that it does not overlap gives the bytes back, and leaves
-- the memory behind the output as it was.
pub decode-encode_console_payload :
    (output capacity at : ℕ) (bytes : List ℕ) (into from : ℕ) (before : List ℕ)
    → All IsByte bytes
    → length bytes ≤ (size_max - 1) / 2
    → 1 + length bytes * 2 ≤ capacity
    → spans_overlap output (1 + length bytes * 2) at (length bytes) ≡ false
    → spans_overlap into (length bytes) from (length bytes * 2) ≡ false
    → (text : List ℕ) × (encode_console_payload output capacity at bytes
        ≡ (1 + length bytes * 2, some (b'O' ∷ text)))
      × (length text ≡ length bytes * 2)
      × (decode_hex_bytes into (length bytes) from text before
          ≡ (true, bytes ++ drop (length bytes) before))
unfolding encode_console_payload
decode-encode_console_payload output capacity at bytes into from before valid small room apart
      clear =
    (
      write_bytes bytes,
      ground arith,
      length-write_bytes bytes,
      decode-write_bytes into from bytes before valid small clear,
    )
