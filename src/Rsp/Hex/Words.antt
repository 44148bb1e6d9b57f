-- ===== src/Rsp/Hex/Words.antt =====
-- 32-bit words as eight hexadecimal digits, lowest byte first.
use vita_debugger.Prelude.{
  ℕ, suc, ◌+◌, ◌*◌, ◌/◌, ◌%◌, ◌^◌, ◌<◌, ◌≡◌, refl, true, List, ◌++◌, some, arith, length,
  append_assoc, ap, ◌∙◌,
}
use vita_debugger.Rsp.Hex.{
  hex_digit, write_byte, write_u32_le, read_le, read_u32_le_hex, all_hex, is_hex,
}
use vita_debugger.Rsp.Hex.Bytes.{read_byte-write, is_hex-hex_digit}

abbrev pub IsWord : ℕ → Type 0
IsWord w = w < 2 ^ 32

pub length-write_u32_le : (v : ℕ) → length (write_u32_le v) ≡ 8
unfolding write_u32_le write_byte
length-write_u32_le v = refl

read_le-write_byte :
    (n b : ℕ) (rest : List ℕ) (v : ℕ)
    → b < 256
    → read_le n rest ≡ some v
    → read_le (suc n) (write_byte b ++ rest) ≡ some (b + 256 * v)
unfolding read_le write_byte
read_le-write_byte n b rest v h e = ground (arith, read_byte-write b h)

-- A word that was written is read back, whatever follows it.
pub read_u32_le_hex-write :
    (v : ℕ) (rest : List ℕ) → v < 2 ^ 32 → read_u32_le_hex (write_u32_le v ++ rest) ≡ some v
unfolding read_u32_le_hex write_u32_le read_le
read_u32_le_hex-write v rest h = simp append_assoc (bytes ∙ ap some (omega arith))
  where
    tail : read_le 0 rest ≡ some 0
    tail = refl

    bytes :
        read_le 4 (
          write_byte (v % 256)
          ++ (write_byte (v / 2 ^ 8 % 256)
              ++ (write_byte (v / 2 ^ 16 % 256) ++ (write_byte (v / 2 ^ 24 % 256) ++ rest))))
        ≡ some (
            v % 256
            + 256
              * (v / 2 ^ 8 % 256 + 256 * (v / 2 ^ 16 % 256 + 256 * (v / 2 ^ 24 % 256 + 256 * 0))))
    bytes = read_le-write_byte 3 (v % 256) _ _ (omega arith) (
        read_le-write_byte 2 (v / 2 ^ 8 % 256) _ _ (omega arith) (
          read_le-write_byte 1 (v / 2 ^ 16 % 256) _ _ (omega arith)
            (read_le-write_byte 0 (v / 2 ^ 24 % 256) rest 0 (omega arith) tail)))

byte_digits :
    (b : ℕ) → b < 256 → (is_hex (hex_digit (b / 16)) ≡ true) × (is_hex (hex_digit (b % 16)) ≡ true)
byte_digits b h = (is_hex-hex_digit _ (omega arith), is_hex-hex_digit _ (omega arith))

pub all_hex-write_u32_le : (v : ℕ) (rest : List ℕ) → all_hex (write_u32_le v ++ rest) ≡ all_hex rest
unfolding write_u32_le write_byte all_hex
all_hex-write_u32_le v rest = ground (
  arith,
  byte_digits (v % 256) (omega arith),
  byte_digits (v / 2 ^ 8 % 256) (omega arith),
  byte_digits (v / 2 ^ 16 % 256) (omega arith),
  byte_digits (v / 2 ^ 24 % 256) (omega arith),
)
