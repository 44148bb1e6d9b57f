-- ===== src/Rsp/Registers/Core.antt =====
-- The legacy `g` and `G` packets carry the same sixteen registers and CPSR.
use vita_debugger.Prelude.{
  ℕ, zero, suc, ◌+◌, ◌*◌, ◌^◌, ◌≤◌, ◌<◌, ◌≡◌, refl, sym, ap, ◌∙◌, true, List, [], ◌∷◌, ◌++◌, Option,
  some, arith, ◌==◌, length, All, take, drop, take-append, drop-append, length-append, append_assoc,
  append-nil, take-all, ==_iff,
}
use vita_debugger.Rsp.Hex.{
  write_u32_le, write_unavailable, validate_hex_value, read_u32_le_hex, all_hex,
  validate_unavailable_or_hex_bytes,
}
use vita_debugger.Rsp.Hex.Words.{
  IsWord, length-write_u32_le, read_u32_le_hex-write, all_hex-write_u32_le,
}
use vita_debugger.Rsp.Registers.{
  CoreRegisters, VfpRegisters, ok, legacy_fpa_bytes, core_packet_hex_size, core_hex_size,
  write_words, register_text, exactly, encode_register_packet, valid_layout, read_words,
  parse_core_register_packet,
}

-- Sixteen registers and a status register of 32 bits.
pub record IsCore (regs : CoreRegisters) : Type 0 where
  pub count : length regs.r ≡ 16
  pub words : All IsWord regs.r
  pub psr_word : regs.psr < 2 ^ 32

pub length-write_words : (ws : List ℕ) → length (write_words ws) ≡ length ws * 8
unfolding write_words
length-write_words [] = refl
length-write_words (w ∷ ws) = omega (
  arith,
  length-append (write_u32_le w) (write_words ws),
  length-write_u32_le w,
  length-write_words ws,
)

pub length-write_unavailable : (n : ℕ) → length (write_unavailable n) ≡ n * 2
unfolding write_unavailable
length-write_unavailable zero = refl
length-write_unavailable (suc n) = omega (arith, length-write_unavailable n)

all_hex-write_words : (ws rest : List ℕ) → all_hex (write_words ws ++ rest) ≡ all_hex rest
unfolding write_words
all_hex-write_words [] rest = refl
all_hex-write_words (w ∷ ws) rest =
    simp append_assoc
      (all_hex-write_u32_le w (write_words ws ++ rest) ∙ all_hex-write_words ws rest)

validate-write_unavailable :
    (n : ℕ) (rest : List ℕ)
    → validate_unavailable_or_hex_bytes (write_unavailable n ++ rest) n ≡ true
unfolding write_unavailable validate_unavailable_or_hex_bytes
validate-write_unavailable zero rest = refl
validate-write_unavailable (suc n) rest = validate-write_unavailable n rest

read_words-write_words :
    (ws rest : List ℕ) (n : ℕ)
    → length ws ≡ n
    → All IsWord ws
    → read_words n (write_words ws ++ rest) ≡ some ws
unfolding write_words read_words
read_words-write_words [] rest zero e h = refl
read_words-write_words [] rest (suc n) e h = absurd (omega arith)
read_words-write_words (w ∷ ws) rest zero e h = absurd (omega arith)
read_words-write_words (w ∷ ws) rest (suc n) e h = simp append_assoc (
    rw (
      read_u32_le_hex-write w (write_words ws ++ rest) h.0,
      drop-append 8 (write_u32_le w) (write_words ws ++ rest) (length-write_u32_le w),
      read_words-write_words ws rest n (omega arith) h.1,
    ))

all_hex-nil : all_hex [] ≡ true
unfolding all_hex
all_hex-nil = refl

-- The text of the legacy `G` packet, in its three parts.
abbrev legacy_text : List ℕ → ℕ → List ℕ
legacy_text r psr = write_words r ++ (write_unavailable legacy_fpa_bytes ++ write_u32_le psr)

length-legacy_text : (r : List ℕ) (psr : ℕ) → length r ≡ 16 → length (legacy_text r psr) ≡ 336
length-legacy_text r psr e = omega (
  arith,
  length-append (write_words r) (write_unavailable legacy_fpa_bytes ++ write_u32_le psr),
  length-append (write_unavailable legacy_fpa_bytes) (write_u32_le psr),
  length-write_words r,
  length-write_unavailable legacy_fpa_bytes,
  length-write_u32_le psr,
)

validate-write_words :
    (ws : List ℕ) (n : ℕ)
    → n ≤ 2 ^ 20
    → length ws * 4 ≡ n
    → validate_hex_value (write_words ws) n ≡ true
unfolding validate_hex_value
validate-write_words ws n small e = ground (
  arith,
  length-write_words ws,
  all_hex-write_words ws [],
  append-nil (write_words ws),
  all_hex-nil,
)

pub validate-write_u32_le : (v : ℕ) → validate_hex_value (write_u32_le v) 4 ≡ true
unfolding validate_hex_value
validate-write_u32_le v = ground (
  arith,
  length-write_u32_le v,
  all_hex-write_u32_le v [],
  append-nil (write_u32_le v),
  all_hex-nil,
)

pub read-write_u32_le : (v : ℕ) → v < 2 ^ 32 → read_u32_le_hex (write_u32_le v) ≡ some v
read-write_u32_le v h =
    ap read_u32_le_hex (sym (append-nil (write_u32_le v))) ∙ read_u32_le_hex-write v [] h

psr_part : (r : List ℕ) (psr : ℕ) → length r ≡ 16 → drop 328 (legacy_text r psr) ≡ write_u32_le psr
psr_part r psr e = simp (← append_assoc) (
    drop-append 328 (write_words r ++ write_unavailable legacy_fpa_bytes) (write_u32_le psr) (
      omega (
        arith,
        length-append (write_words r) (write_unavailable legacy_fpa_bytes),
        length-write_words r,
        length-write_unavailable legacy_fpa_bytes,
      )))

-- What `uvdb_rsp_parse_core_register_packet` reads of a packet whose three parts are well formed.
accepted :
    (values r : List ℕ) (psr : ℕ)
    → length values ≡ 336
    → validate_hex_value (take core_hex_size values) (16 * 4) ≡ true
    → validate_unavailable_or_hex_bytes (drop core_hex_size values) legacy_fpa_bytes ≡ true
    → validate_hex_value (take 8 (drop 328 values)) 4 ≡ true
    → read_words 16 values ≡ some r
    → read_u32_le_hex (drop 328 values) ≡ some psr
    → parse_core_register_packet (b'G' ∷ values) 0 ≡ ok (record { r = r; psr = psr })
unfolding parse_core_register_packet valid_layout
accepted values r psr size a b c e f =
    let right_size : (length values + 1 == 337) ≡ true =
      (==_iff _ 337).1 (ap (λ (n : ℕ). n + 1) size) in
    rw (right_size, a, b, c, e, f)

parse-legacy_text :
    (regs : CoreRegisters)
    → IsCore regs
    → parse_core_register_packet (b'G' ∷ legacy_text regs.r regs.psr) 0 ≡ ok regs
parse-legacy_text regs v =
    accepted (legacy_text r psr) r psr (length-legacy_text r psr v.count)
      (rw (take-append 128 (write_words r) tail words_length)
        (validate-write_words r 64 (omega arith) (omega (arith, v.count))))
      (rw (drop-append 128 (write_words r) tail words_length)
        (validate-write_unavailable legacy_fpa_bytes (write_u32_le psr)))
      (rw
        (
          psr_part r psr v.count,
          take-all 8 (write_u32_le psr) (omega (arith, length-write_u32_le psr)),
        )
        (validate-write_u32_le psr))
      (read_words-write_words r tail 16 v.count v.words)
      (rw (psr_part r psr v.count) (read-write_u32_le psr v.psr_word))
  where
    open regs use {r, psr}

    tail : List ℕ
    tail = write_unavailable legacy_fpa_bytes ++ write_u32_le psr

    words_length : length (write_words r) ≡ 128
    words_length = omega (arith, length-write_words r, v.count)

-- A register file that is written as a legacy `g` packet fills it exactly, and the `G` packet with
-- that text sets the same registers.
pub parse-encode_register_packet :
    (capacity : ℕ) (regs : CoreRegisters) (vfp : Option VfpRegisters)
    → IsCore regs
    → core_packet_hex_size ≤ capacity
    → (text : List ℕ) × (encode_register_packet capacity (some regs) vfp 0
        ≡ (core_packet_hex_size, some text))
      × (length text ≡ core_packet_hex_size)
      × (parse_core_register_packet (b'G' ∷ text) 0 ≡ ok regs)
unfolding encode_register_packet valid_layout register_text exactly
parse-encode_register_packet capacity regs vfp v room = (
  legacy_text regs.r regs.psr,
  ground (arith, length-legacy_text regs.r regs.psr v.count),
  length-legacy_text regs.r regs.psr v.count,
  parse-legacy_text regs v,
)
