-- ===== src/Rsp/Hex/Bytes.antt =====
-- Spans of bytes in hexadecimal: what is written is read back, and decoding is all or nothing.
use vita_debugger.Prelude.{
  ℕ, zero, suc, Bool, drop, ◌++◌, ◌==◌, ◌+◌, ◌*◌, ◌/◌, ◌%◌, ◌<◌, ◌≤◌, ◌≡◌, refl, true, false, ◌&&◌,
  List, [], ◌∷◌, some, arith, leb, if◌then◌else◌, length, All, map, Option-cases, Bool-cases, ◌⊎◌,
  inl, inr,
}
use vita_debugger.Spans.{spans_overlap}
use vita_debugger.Rsp.Hex.{
  size_max, hex_digit, hex_value, write_byte, is_hex, all_hex, validate_hex_value, read_byte,
  write_bytes, nibble, read_bytes, decode_hex_bytes, hex_value-hex_digit, hex_value-lt,
}

abbrev pub IsByte : ℕ → Type 0
IsByte b = b < 256

pub read_byte-write :
    (b : ℕ) → b < 256 → read_byte (hex_digit (b / 16)) (hex_digit (b % 16)) ≡ some b
unfolding read_byte
read_byte-write b h = ground (arith, hex_value-hex_digit (b / 16), hex_value-hex_digit (b % 16))

nibble-hex_digit : (n : ℕ) → n < 16 → nibble (hex_digit n) ≡ n
unfolding nibble
nibble-hex_digit n h = rw (hex_value-hex_digit n h, nibble) refl

pub is_hex-hex_digit : (n : ℕ) → n < 16 → is_hex (hex_digit n) ≡ true
unfolding is_hex
is_hex-hex_digit n h = ground (arith, hex_value-hex_digit n h)

pub length-write_bytes : (bytes : List ℕ) → length (write_bytes bytes) ≡ length bytes * 2
unfolding write_bytes write_byte
length-write_bytes [] = refl
length-write_bytes (b ∷ bs) = omega (arith, length-write_bytes bs)

pub read_bytes-write_bytes :
    (bytes : List ℕ) → All IsByte bytes → read_bytes (write_bytes bytes) ≡ bytes
unfolding write_bytes write_byte read_bytes
read_bytes-write_bytes [] h = refl
read_bytes-write_bytes (b ∷ bs) h = ground (
  arith,
  nibble-hex_digit (b / 16) (omega (arith, h.0)),
  nibble-hex_digit (b % 16) (omega arith),
  read_bytes-write_bytes bs h.1,
)

pub all_hex-write_bytes : (bytes : List ℕ) → All IsByte bytes → all_hex (write_bytes bytes) ≡ true
unfolding write_bytes write_byte all_hex
all_hex-write_bytes [] h = refl
all_hex-write_bytes (b ∷ bs) h =
    ground (arith, is_hex-hex_digit (b / 16), is_hex-hex_digit (b % 16), all_hex-write_bytes bs h.1)

-- The digit that `hex_digit` would have written for the same value.
abbrev pub lower : ℕ → ℕ
lower c = if leb b'A' c && leb c b'F' then c + 32 else c

hex_digit-hex_value : (c v : ℕ) → hex_value c ≡ some v → hex_digit v ≡ lower c
unfolding hex_value hex_digit
hex_digit-hex_value c v h = ground arith

hex_value-is_hex : (c : ℕ) → is_hex c ≡ true → (v : ℕ) × (hex_value c ≡ some v) × (v < 16)
unfolding is_hex
hex_value-is_hex c h = elim (Option-cases (hex_value c)) [
  | inl e ↦ absurd (absurd_of (rw (e, is_hex) at h))
  | inr (v, e) ↦ (v, e, hex_value-lt c v e)
]
  where
    absurd_of : false ≡ true → ⊥
    absurd_of e = cc

-- Two hexadecimal digits are one byte, and that byte is written as the same digits.
nibbles-is_hex :
    (h l : ℕ)
    → is_hex h ≡ true
    → is_hex l ≡ true
    → (nibble h * 16 + nibble l < 256)
      × (write_byte (nibble h * 16 + nibble l) ≡ lower h ∷ lower l ∷ [])
unfolding nibble write_byte
nibbles-is_hex h l ph pl =
    let (x, eh, lt_x) = hex_value-is_hex h ph in
    let (y, el, lt_y) = hex_value-is_hex l pl in
    let hi : (x * 16 + y) / 16 ≡ x = omega arith in
    let lo : (x * 16 + y) % 16 ≡ y = omega arith in
    rw (eh, nibble, el)
      (omega arith, rw (hi, lo, hex_digit-hex_value h x eh, hex_digit-hex_value l y el) refl)

-- The loop has stored bytes that are written as the digits of the text.
pub record Decoded (text : List ℕ) : Type 0 where
  pub valid : All IsByte (read_bytes text)
  pub digits : write_bytes (read_bytes text) ≡ map lower text

Decoded-cons :
    (h l : ℕ) (text : List ℕ)
    → is_hex h ≡ true
    → is_hex l ≡ true
    → Decoded text
    → Decoded (h ∷ l ∷ text)
unfolding read_bytes write_bytes
Decoded-cons h l text ph pl d =
    let (small, w) = nibbles-is_hex h l ph pl in
    record { valid = (small, d.valid); digits = rw (w, d.digits) refl }

all_hex-Decoded : (n : ℕ) (text : List ℕ) → length text ≡ n * 2 → all_hex text ≡ true → Decoded text
unfolding all_hex read_bytes write_bytes
all_hex-Decoded zero [] e h = record { valid = tt; digits = refl }
all_hex-Decoded zero (c ∷ cs) e h = absurd (omega arith)
all_hex-Decoded (suc n) [] e h = absurd (omega arith)
all_hex-Decoded (suc n) (c ∷ []) e h = absurd (omega arith)
all_hex-Decoded (suc n) (c ∷ d ∷ text) e h =
    Decoded-cons c d text (ground arith) (ground arith)
      (all_hex-Decoded n text (omega arith) (ground arith))

-- A hexadecimal digit, in either case.
abbrev pub IsDigit : ℕ → Type 0
IsDigit c = ((b'0' ≤ c) × (c ≤ b'9')) ⊎ (((b'a' ≤ c) × (c ≤ b'f')) ⊎ ((b'A' ≤ c) × (c ≤ b'F')))

is_hex-IsDigit : (c : ℕ) → is_hex c ≡ true → IsDigit c
unfolding is_hex hex_value
is_hex-IsDigit c h = ground arith

IsDigit-is_hex : (c : ℕ) → IsDigit c → is_hex c ≡ true
unfolding is_hex hex_value
IsDigit-is_hex c h = ground arith

all_hex-All : (text : List ℕ) → all_hex text ≡ true → All IsDigit text
unfolding all_hex
all_hex-All [] h = tt
all_hex-All (c ∷ cs) h = (is_hex-IsDigit c (ground arith), all_hex-All cs (ground arith))

All-all_hex : (text : List ℕ) → All IsDigit text → all_hex text ≡ true
unfolding all_hex
All-all_hex [] h = refl
All-all_hex (c ∷ cs) h = ground (arith, IsDigit-is_hex c h.0, All-all_hex cs h.1)

-- The calls of `uvdb_rsp_decode_hex_bytes` that succeed.
abbrev pub IsDecodable : (output output_size at : ℕ) → List ℕ → Type 0
IsDecodable output output_size at text =
    (output_size ≤ size_max / 2)
    × (length text ≡ output_size * 2)
    × ((output_size ≡ 0)
        ⊎ ((spans_overlap output output_size at (length text) ≡ false) × All IsDigit text))

-- Decoding succeeds exactly if the text has two characters for each byte of the output, the output's
-- size is at most half of SIZE_MAX, and, for a size other than 0, the text does not overlap the
-- output and is all hexadecimal digits. Then the output holds bytes that are written as the text's
-- digits, in lower case, and the memory behind it is as it was. Any other call fails and changes no
-- byte of the memory.
pub decode_hex_bytes_lem :
    (output output_size at : ℕ) (text before : List ℕ)
    → (IsDecodable output output_size at text
        × Decoded text
        × (decode_hex_bytes output output_size at text before
            ≡ (true, read_bytes text ++ drop output_size before)))
      ⊎ ((¬ IsDecodable output output_size at text)
          × (decode_hex_bytes output output_size at text before ≡ (false, before)))
unfolding decode_hex_bytes validate_hex_value all_hex read_bytes write_bytes
decode_hex_bytes_lem output zero at [] before =
    inl ((omega arith, refl, inl refl), record { valid = tt; digits = refl }, refl)
decode_hex_bytes_lem output zero at (c ∷ cs) before =
    inr (λ d. absurd (omega (arith, d.1)), ground arith)
decode_hex_bytes_lem output (suc n) at text before = elim (Bool-cases (sized n text)) [
  | inr other ↦ inr (λ d. absurd (clash _ (ground (arith, d.0, d.1)) other), ground arith)
  | inl fits ↦ elim (Bool-cases (spans_overlap output (suc n) at (length text))) [
    | inl over ↦
        inr (
          λ d. elim d.2 [ inl e ↦ omega arith | inr (apart, _) ↦ clash _ over apart ],
          ground arith,
        )
    | inr apart ↦ elim (Bool-cases (all_hex text)) [
      | inl good ↦ inl (
        (ground arith, ground arith, inr (apart, all_hex-All text good)),
        all_hex-Decoded (suc n) text (ground arith) good,
        ground arith,
      )
      | inr bad ↦ inr (
        λ d. elim d.2 [
          | inl e ↦ omega arith
          | inr (_, digits) ↦ clash _ (All-all_hex text digits) bad
        ],
        ground arith,
      )
    ]
  ]
]
  where
    sized : ℕ → List ℕ → Bool
    sized n text = leb (suc n) (size_max / 2) && (length text == suc n * 2)

    clash : (b : Bool) → b ≡ true → b ≡ false → ⊥
    clash b p q = cc (p, q)
