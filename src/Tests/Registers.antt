-- ===== src/Tests/Registers.antt =====
-- The register packets of a file whose registers hold their numbers.
use vita_debugger.Prelude.{
  ℕ, ◌<◌, ◌≤◌, ◌≡◌, ◌⊎◌, inl, inr, if◌then◌else◌, ◌==◌, refl, ◌∙◌, List, [], ◌∷◌, ◌++◌, length,
  true, false, none, some, arith,
}
use vita_debugger.Policies.{Bank}
use vita_debugger.Rsp.Hex.{hex_value}
use vita_debugger.Rsp.Numbers.{number, parse_hex-hex_field}
use vita_debugger.Rsp.Registers.{
  CoreRegisters, RegisterWrite, ok, valid_layout, core_packet_hex_size, encode_register_packet,
  parse_core_register_packet, encode_single_register, parse_core_register_write_packet,
  apply_core_register_write,
}
use vita_debugger.Rsp.Registers.Core.{IsCore, parse-encode_register_packet}
use vita_debugger.Rsp.Registers.Write.{
  register_value, apply_core_register_write_inverse, parse-encode_single_register,
}
use vita_debugger.Rsp.Registers.Layout.{packet_size, encode_register_packet-size}

abbrev registers : CoreRegisters
registers = record {
  r = 0 ∷ 1 ∷ 2 ∷ 3 ∷ 4 ∷ 5 ∷ 6 ∷ 7 ∷ 8 ∷ 9 ∷ 10 ∷ 11 ∷ 12 ∷ 13 ∷ 14 ∷ 15 ∷ [];
  psr = 0x10;
}

registers-IsCore : IsCore registers
registers-IsCore = record { count = refl; words = ground arith; psr_word = omega arith }

abbrev to_r3 : RegisterWrite
to_r3 = record { register_number = 3; value = 0xbeef }

parse-encode_register_packet_example :
    (text : List ℕ) × (encode_register_packet 400 (some registers) none 0
      ≡ (core_packet_hex_size, some text))
    × (length text ≡ core_packet_hex_size)
    × (parse_core_register_packet (b'G' ∷ text) 0 ≡ ok registers)
parse-encode_register_packet_example =
    parse-encode_register_packet 400 registers none registers-IsCore (omega arith)

encode_register_packet-size_example :
    ((valid_layout 1 ≡ true)
      × (packet_size 1 ≤ 400)
      × (text : List ℕ) × (encode_register_packet 400 (some registers) none 1
          ≡ (packet_size 1, some text))
      × (length text ≡ packet_size 1))
    ⊎ ((valid_layout 1 ≡ true)
        × (400 < packet_size 1)
        × (encode_register_packet 400 (some registers) none 1 ≡ (packet_size 1, none)))
    ⊎ ((valid_layout 1 ≡ false) × (encode_register_packet 400 (some registers) none 1 ≡ (0, none)))
encode_register_packet-size_example =
    encode_register_packet-size 400 registers none 1 registers-IsCore tt

apply_core_register_write_inverse_example :
    (after : CoreRegisters) × (inverse : RegisterWrite) × (apply_core_register_write registers to_r3
      ≡ some (after, inverse))
    × (register_value after 25
        ≡ (if 25 == to_r3.register_number then 0xbeef else register_value registers 25))
    × (inverse ≡ record to_r3 { value = register_value registers 3 })
    × (apply_core_register_write after inverse ≡ some (registers, to_r3))
apply_core_register_write_inverse_example =
    apply_core_register_write_inverse registers to_r3 25 registers-IsCore (inl (omega arith))
      (inr refl)

parse-encode_single_register_example :
    (text : List ℕ) × (encode_single_register 8 (some registers) none 0 3 ≡ (8, some text))
    × (parse_core_register_write_packet (b'P' ∷ (b'3' ∷ []) ++ b'=' ∷ text) 0
        ≡ ok (record { register_number = 3; value = register_value registers 3 }))
unfolding number hex_value valid_layout
parse-encode_single_register_example =
    parse-encode_single_register 8 registers none 0 3 (b'3' ∷ []) registers-IsCore (omega arith)
      refl (inl (omega arith)) ((parse_hex-hex_field (b'3' ∷ [])).1 ∙ refl)

abbrev kernel_bank : Bank
kernel_bank = record { sp = 0x1000; pc = 0x2000; cpsr = 0x13 }

abbrev user_bank : Bank
user_bank = record { sp = 0x81000000; pc = 0x81002000; cpsr = 0x30 }
