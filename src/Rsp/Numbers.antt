-- ===== src/Rsp/Numbers.antt =====
-- Hexadecimal numbers: `parse_u32_hex`, `parse_u64_hex` and `parse_register_number` of
-- src/uvdb_rsp.c.
use native.Mathlib.Nat.{mod-eq_of_lt, pow-suc, one-le-pow, pow-le-pow_right}
use vita_debugger.Prelude.{
  ℕ, ◌+◌, ◌-◌, ◌*◌, ◌/◌, ◌%◌, ◌^◌, ◌<◌, ◌≤◌, ◌≡◌, refl, false, ◌||◌, List, [], ◌∷◌, Option, none,
  some, arith, ltb, ◌==◌, if◌then◌else◌, length, ◌∙◌, ap, Option-cases, Bool-cases, inl, inr,
}
use vita_debugger.Rsp.Hex.{hex_value, hex_value-lt}

-- The loop of the parsers, in an unsigned type whose largest value is `limit`.
pub parse_digits : ℕ → ℕ → List ℕ → Option ℕ
parse_digits limit value [] = some value
parse_digits limit value (c ∷ cs) = elim (hex_value c) [
  | none ↦ none
  | some nibble ↦
      let rest = parse_digits limit ((value * 16 + nibble) % (limit + 1)) cs in
      if ltb ((limit - nibble) / 16) value then none else rest
]

unfoldable pub parse_u32_hex : List ℕ → Option ℕ
parse_u32_hex text =
    if length text == 0 || ltb 8 (length text) then none else parse_digits (2 ^ 32 - 1) 0 text

unfoldable pub parse_u64_hex : List ℕ → Option ℕ
parse_u64_hex text =
    if length text == 0 || ltb 16 (length text) then none else parse_digits (2 ^ 64 - 1) 0 text

-- The two functions have the same text.
pub parse_register_number : List ℕ → Option ℕ
parse_register_number text =
    if length text == 0 || ltb 8 (length text) then none else parse_digits (2 ^ 32 - 1) 0 text

-- The number that digits stand for, behind digits for `value`.
unfoldable pub number : ℕ → List ℕ → Option ℕ
number value [] = some value
number value (c ∷ cs) = elim (hex_value c) [
  | none ↦ none
  | some nibble ↦ number (value * 16 + nibble) cs
]

-- One digit, where the number so far leaves room for it.
parse_digits-cons :
    (limit value nibble : ℕ) (c : ℕ) (cs : List ℕ)
    → hex_value c ≡ some nibble
    → value * 16 + nibble ≤ limit
    → parse_digits limit value (c ∷ cs) ≡ parse_digits limit (value * 16 + nibble) cs
unfolding parse_digits
parse_digits-cons limit value nibble c cs e room =
    let fits : ltb ((limit - nibble) / 16) value ≡ false = ground arith in
    let same : (value * 16 + nibble) % (limit + 1) ≡ value * 16 + nibble =
      mod-eq_of_lt {n = value * 16 + nibble} {m = limit + 1} (omega arith) in
    rw (e, parse_digits, fits, same)

mul-le_of_digit : (nibble p : ℕ) → nibble < 16 → nibble * p ≤ 15 * p
mul-le_of_digit nibble p h = grind arith

shift_room :
    (bound value nibble p q : ℕ)
    → q ≡ p * 16
    → nibble < 16
    → (value + 1) * q ≤ bound
    → (value * 16 + nibble + 1) * p ≤ bound
shift_room bound value nibble p q e h room =
    omega (arith, mul-le_of_digit nibble p h, ap (λ (t : ℕ). (value + 1) * t) e)

le-mul_pos : (a p : ℕ) → 1 ≤ p → a ≤ a * p
le-mul_pos a p h = grind arith

-- While `value`, followed by the digits left, cannot exceed the limit, no digit is refused.
parse_digits-number :
    (limit value : ℕ) (text : List ℕ)
    → (value + 1) * 16 ^ length text ≤ limit + 1
    → parse_digits limit value text ≡ number value text
unfolding parse_digits number
parse_digits-number limit value [] h = refl
parse_digits-number limit value (c ∷ cs) h = elim (Option-cases (hex_value c)) [
  | inl e ↦ rw (e, parse_digits, number)
  | inr (nibble, e) ↦
      let more =
        shift_room (limit + 1) value nibble (16 ^ length cs) (16 ^ length (c ∷ cs))
          (pow-suc 16 (length cs)) (hex_value-lt c nibble e) h in
      let room : value * 16 + nibble ≤ limit = omega (
        arith,
        more,
        le-mul_pos (value * 16 + nibble + 1) (16 ^ length cs)
            (one-le-pow (length cs) 16 (omega arith)),
      ) in
      rw (e, number)
        (parse_digits-cons limit value nibble c cs e room
          ∙ parse_digits-number limit (value * 16 + nibble) cs more)
]

-- A field of one to `most` hexadecimal digits, at its exact value.
abbrev pub hex_field : ℕ → List ℕ → Option ℕ
hex_field most text = if length text == 0 || ltb most (length text) then none else number 0 text

parse_digits-hex_field :
    (most limit : ℕ) (text : List ℕ)
    → 16 ^ most ≤ limit + 1
    → (if length text == 0 || ltb most (length text) then none else parse_digits limit 0 text)
      ≡ hex_field most text
parse_digits-hex_field most limit text h = elim (Bool-cases (ltb most (length text))) [
  | inl over ↦ rw over (ground arith)
  | inr fits ↦
      let power : 16 ^ length text ≤ 16 ^ most =
        pow-le-pow_right {n = 16} (omega arith) {i = length text} {j = most} (ground arith) in
      rw (parse_digits-number limit 0 text (omega (arith, power)))
]

-- A 32-bit number, a register number and a 64-bit number are parsed alike: accepted are exactly the
-- texts of one to 8, 8 or 16 hexadecimal digits, at their exact value, and so the parsers' test for
-- an overflow refuses none of them.
pub parse_hex-hex_field :
    (text : List ℕ)
    → (parse_u32_hex text ≡ hex_field 8 text)
      × (parse_register_number text ≡ hex_field 8 text)
      × (parse_u64_hex text ≡ hex_field 16 text)
unfolding parse_u32_hex parse_u64_hex parse_register_number
parse_hex-hex_field text = (
  parse_digits-hex_field 8 (2 ^ 32 - 1) text (omega arith),
  parse_digits-hex_field 8 (2 ^ 32 - 1) text (omega arith),
  parse_digits-hex_field 16 (2 ^ 64 - 1) text (omega arith),
)

number-bound :
    (value : ℕ) (text : List ℕ) (v : ℕ)
    → number value text ≡ some v
    → v < (value + 1) * 16 ^ length text
unfolding number
number-bound value [] v h = ground arith
number-bound value (c ∷ cs) v h = elim (Option-cases (hex_value c)) [
  | inl e ↦ absurd (absurd_of (rw (e, number) at h))
  | inr (nibble, e) ↦
      let ih = number-bound (value * 16 + nibble) cs v (rw (e, number) at h) in
      let room =
        shift_room ((value + 1) * 16 ^ length (c ∷ cs)) value nibble (16 ^ length cs)
          (16 ^ length (c ∷ cs)) (pow-suc 16 (length cs)) (hex_value-lt c nibble e) (omega arith) in
      omega (arith, ih, room)
]
  where
    absurd_of : none ≡ some v → ⊥
    absurd_of q = cc

hex_field-lt : (most : ℕ) (text : List ℕ) (v : ℕ) → hex_field most text ≡ some v → v < 16 ^ most
hex_field-lt most text v h = elim (Bool-cases (length text == 0 || ltb most (length text))) [
  | inl bad ↦ absurd (none_some (rw bad at h))
  | inr good ↦
      let power : 16 ^ length text ≤ 16 ^ most =
        pow-le-pow_right {n = 16} (omega arith) {i = length text} {j = most} (ground arith) in
      omega (arith, number-bound 0 text v (rw good at h), power)
]
  where
    none_some : none ≡ some v → ⊥
    none_some q = cc

-- A number that parses fits its type.
pub parse_u32_hex-lt : (text : List ℕ) (v : ℕ) → parse_u32_hex text ≡ some v → v < 2 ^ 32
parse_u32_hex-lt text v h = hex_field-lt 8 text v (rw (parse_hex-hex_field text).0 at h)

pub parse_u64_hex-lt : (text : List ℕ) (v : ℕ) → parse_u64_hex text ≡ some v → v < 2 ^ 64
parse_u64_hex-lt text v h = hex_field-lt 16 text v (rw (parse_hex-hex_field text).2 at h)
