-- ===== src/Rsp/Hex.antt =====
-- Hexadecimal digits and bytes: `hex_digit`, `hex_value`, `write_byte`, `write_u32_le`,
-- `write_u64_le`, `write_unavailable`, `validate_hex_value`, `read_u32_le_hex`,
-- `validate_unavailable_or_hex_bytes`, `uvdb_rsp_encode_console_payload` and
-- `uvdb_rsp_decode_hex_bytes` of src/uvdb_rsp.c. A function that writes through a cursor is the list
-- of the characters written; size_t has 32 bits.
pub mod Bytes
pub mod Words
pub mod Console
use vita_debugger.Prelude.{
  ℕ, zero, suc, ◌+◌, ◌-◌, ◌*◌, ◌/◌, ◌%◌, ◌^◌, ◌<◌, ◌≡◌, Bool, true, false, not, ◌&&◌, ◌||◌, List,
  [], ◌∷◌, ◌++◌, Option, none, some, arith, ltb, leb, ◌==◌, if◌then◌else◌, length, drop,
}
use vita_debugger.Spans.{spans_overlap}

abbrev pub size_max : ℕ
size_max = 2 ^ 32 - 1

infixl 5 ◌>>=◌
abbrev pub ◌>>=◌ {ℓ κ} : {A : Type ℓ} {B : Type κ} → Option A → (A → Option B) → Option B
none >>= f = none
some a >>= f = f a

unfoldable pub hex_digit : ℕ → ℕ
hex_digit value = if ltb value 10 then b'0' + value else b'a' + value - 10

-- `none` is the -1 of both C functions of this name.
unfoldable pub hex_value : ℕ → Option ℕ
hex_value digit =
    if leb b'0' digit && leb digit b'9'
    then some (digit - b'0')
    else if leb b'a' digit && leb digit b'f'
    then some (digit - b'a' + 10)
    else if leb b'A' digit && leb digit b'F'
    then some (digit - b'A' + 10)
    else none

unfoldable pub write_byte : ℕ → List ℕ
write_byte value = hex_digit (value / 16) ∷ hex_digit (value % 16) ∷ []

-- `(uint8_t)(value >> (i * 8))` for each `i` of the loop.
pub write_u32_le : ℕ → List ℕ
write_u32_le value =
    write_byte (value % 256)
    ++ (write_byte (value / 2 ^ 8 % 256)
        ++ (write_byte (value / 2 ^ 16 % 256) ++ write_byte (value / 2 ^ 24 % 256)))

unfoldable pub write_u64_le : ℕ → List ℕ
write_u64_le value =
    write_byte (value % 256)
    ++ (write_byte (value / 2 ^ 8 % 256)
        ++ (write_byte (value / 2 ^ 16 % 256)
            ++ (write_byte (value / 2 ^ 24 % 256)
                ++ (write_byte (value / 2 ^ 32 % 256)
                    ++ (write_byte (value / 2 ^ 40 % 256)
                        ++ (write_byte (value / 2 ^ 48 % 256)
                            ++ write_byte (value / 2 ^ 56 % 256)))))))

unfoldable pub write_unavailable : ℕ → List ℕ
write_unavailable zero = []
write_unavailable (suc n) = b'x' ∷ b'x' ∷ write_unavailable n

pub is_hex : ℕ → Bool
is_hex c = elim (hex_value c) [ none ↦ false | some v ↦ true ]

unfoldable pub all_hex : List ℕ → Bool
all_hex [] = true
all_hex (c ∷ cs) = is_hex c && all_hex cs

unfoldable pub validate_hex_value : List ℕ → ℕ → Bool
validate_hex_value text expected_bytes =
    not (ltb (size_max / 2) expected_bytes) && (length text == expected_bytes * 2 && all_hex text)

-- `high << 4 | low` is a sum, for `low` is below 16.
pub read_byte : ℕ → ℕ → Option ℕ
read_byte h l = do high ← hex_value h; low ← hex_value l; some (high * 16 + low)

-- `count` rounds of the loop of `read_u32_le_hex`: the first byte is the lowest. A text that ends
-- early is `none`; every caller has measured its text before.
pub read_le : ℕ → List ℕ → Option ℕ
read_le zero text = some 0
read_le (suc count) [] = none
read_le (suc count) (h ∷ []) = none
read_le (suc count) (h ∷ l ∷ text) = do
  byte ← read_byte h l
  above ← read_le count text
  some (byte + 256 * above)

pub read_u32_le_hex : List ℕ → Option ℕ
read_u32_le_hex text = read_le 4 text

-- Each of `byte_count` pairs is "xx", in either case, or two hexadecimal digits.
unfoldable pub validate_unavailable_or_hex_bytes : List ℕ → ℕ → Bool
validate_unavailable_or_hex_bytes text zero = true
validate_unavailable_or_hex_bytes [] (suc n) = false
validate_unavailable_or_hex_bytes (a ∷ []) (suc n) = false
validate_unavailable_or_hex_bytes (a ∷ b ∷ text) (suc n) =
    ((a == b'x' || a == b'X') && (b == b'x' || b == b'X') || is_hex a && is_hex b)
    && validate_unavailable_or_hex_bytes text n

pub write_bytes : List ℕ → List ℕ
write_bytes [] = []
write_bytes (b ∷ bs) = write_byte b ++ write_bytes bs

-- The new `*output_size`, and what is written, or `none` for -1.
pub encode_console_payload : (output capacity at : ℕ) → List ℕ → ℕ × Option (List ℕ)
encode_console_payload output capacity at bytes =
    if ltb ((size_max - 1) / 2) (length bytes)
    then (size_max, none)
    else let required = 1 + length bytes * 2 in
      if ltb capacity required
      then (required, none)
      else if spans_overlap output required at (length bytes)
      then (required, none)
      else (required, some (b'O' ∷ write_bytes bytes))

-- A nibble of the decoding loop, which was set to 0 and ignores the result of `hex_value`.
unfoldable pub nibble : ℕ → ℕ
nibble digit = elim (hex_value digit) [ none ↦ 0 | some value ↦ value ]

-- The bytes that the decoding loop stores, one for each two characters.
pub read_bytes : List ℕ → List ℕ
read_bytes [] = []
read_bytes (h ∷ []) = []
read_bytes (h ∷ l ∷ text) = (nibble h * 16 + nibble l) ∷ read_bytes text

-- Whether the result is 0, and what is in the memory from the output on, which held `before`: the
-- loop stores its bytes over the first of it.
pub decode_hex_bytes : (output output_size at : ℕ) → List ℕ → List ℕ → Bool × List ℕ
decode_hex_bytes output output_size at text before =
    if ltb (size_max / 2) output_size || not (length text == output_size * 2)
    then (false, before)
    else if output_size == 0
    then (true, before)
    else if spans_overlap output output_size at (length text)
    then (false, before)
    else if not (validate_hex_value text output_size)
    then (false, before)
    else (true, read_bytes text ++ drop output_size before)

pub hex_value-hex_digit : (n : ℕ) → n < 16 → hex_value (hex_digit n) ≡ some n
unfolding hex_value hex_digit
hex_value-hex_digit n h = ground arith

pub hex_value-lt : (c v : ℕ) → hex_value c ≡ some v → v < 16
unfolding hex_value
hex_value-lt c v h = ground arith
