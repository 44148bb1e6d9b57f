-- ===== src/Rsp/Registers/Layout.antt =====
-- The sizes of register packets, in the legacy layout and in the explicit one with VFP registers.
use vita_debugger.Prelude.{
  ℕ, ◌*◌, ◌≤◌, ◌<◌, ◌≡◌, ◌⊎◌, inl, inr, refl, true, false, List, [], ◌∷◌, ◌++◌, Option, none, some,
  arith, ◌==◌, length, if◌then◌else◌, length-append, Bool-cases, ==_iff, ltb, ltb→lt, le_of_ltb,
}
use vita_debugger.Rsp.Hex.{write_u32_le, write_u64_le, write_byte, write_unavailable}
use vita_debugger.Rsp.Hex.Words.{length-write_u32_le}
use vita_debugger.Rsp.Registers.{
  CoreRegisters, VfpRegisters, core_packet_hex_size, vfp_packet_hex_size, vfp_packet_bytes,
  legacy_fpa_bytes, valid_layout, write_words, write_doubles, write_vfp, register_text, exactly,
  encode_register_packet,
}
use vita_debugger.Rsp.Registers.Core.{IsCore, length-write_words, length-write_unavailable}

-- A VFP snapshot is absent, or has 32 double registers.
abbrev pub IsVfp : Option VfpRegisters → Type 0
IsVfp none = Unit {0}
IsVfp (some vfp) = length vfp.d ≡ 32

length-write_u64_le : (v : ℕ) → length (write_u64_le v) ≡ 16
unfolding write_u64_le write_byte
length-write_u64_le v = refl

length-write_doubles : (ds : List ℕ) → length (write_doubles ds) ≡ length ds * 16
unfolding write_doubles
length-write_doubles [] = refl
length-write_doubles (d ∷ ds) = omega (
  arith,
  length-append (write_u64_le d) (write_doubles ds),
  length-write_u64_le d,
  length-write_doubles ds,
)

length-write_vfp : (vfp : Option VfpRegisters) → IsVfp vfp → length (write_vfp vfp) ≡ 520
unfolding write_vfp
length-write_vfp none h = length-write_unavailable vfp_packet_bytes
length-write_vfp (some vfp) h = omega (
  arith,
  length-append (write_doubles vfp.d) (write_u32_le vfp.fpscr),
  length-write_doubles vfp.d,
  length-write_u32_le vfp.fpscr,
)

-- The size of a `g` packet's text.
abbrev pub packet_size : ℕ → ℕ
packet_size include_vfp = if include_vfp == 0 then core_packet_hex_size else vfp_packet_hex_size

length-register_text :
    (regs : CoreRegisters) (vfp : Option VfpRegisters) (include_vfp : ℕ)
    → IsCore regs
    → IsVfp vfp
    → length (register_text regs vfp include_vfp) ≡ packet_size include_vfp
unfolding register_text
length-register_text regs vfp include_vfp c v = elim (Bool-cases (include_vfp == 0)) [
  | inl e ↦ rw e (
      omega (
        arith,
        length-append (write_words regs.r)
            (write_unavailable legacy_fpa_bytes ++ write_u32_le regs.psr),
        length-append (write_unavailable legacy_fpa_bytes) (write_u32_le regs.psr),
        length-write_words regs.r,
        length-write_unavailable legacy_fpa_bytes,
        length-write_u32_le regs.psr,
        c.count,
      ))
  | inr e ↦ rw e (
      omega (
        arith,
        length-append (write_words regs.r) (write_u32_le regs.psr ++ write_vfp vfp),
        length-append (write_u32_le regs.psr) (write_vfp vfp),
        length-write_words regs.r,
        length-write_vfp vfp v,
        length-write_u32_le regs.psr,
        c.count,
      ))
]

exactly_lem :
    (required : ℕ) (text : List ℕ)
    → length text ≡ required
    → exactly required text ≡ (required, some text)
unfolding exactly
exactly_lem required text e = rw ((==_iff (length text) required).1 e)

-- Whatever the snapshots hold, the packet is written exactly if the layout is valid and there is
-- room, and it then has the size that is announced either way.
pub encode_register_packet-size :
    (capacity : ℕ) (regs : CoreRegisters) (vfp : Option VfpRegisters) (include_vfp : ℕ)
    → IsCore regs
    → IsVfp vfp
    → ((valid_layout include_vfp ≡ true)
        × (packet_size include_vfp ≤ capacity)
        × (text : List ℕ) × (encode_register_packet capacity (some regs) vfp include_vfp
            ≡ (packet_size include_vfp, some text))
        × (length text ≡ packet_size include_vfp))
      ⊎ ((valid_layout include_vfp ≡ true)
          × (capacity < packet_size include_vfp)
          × (encode_register_packet capacity (some regs) vfp include_vfp
              ≡ (packet_size include_vfp, none)))
      ⊎ ((valid_layout include_vfp ≡ false)
          × (encode_register_packet capacity (some regs) vfp include_vfp ≡ (0, none)))
unfolding encode_register_packet
encode_register_packet-size capacity regs vfp include_vfp c v =
    let written =
      exactly_lem (packet_size include_vfp) (register_text regs vfp include_vfp)
        (length-register_text regs vfp include_vfp c v) in
    elim (Bool-cases (valid_layout include_vfp)) [
      | inr bad ↦ inr (inr (bad, rw (bad, encode_register_packet)))
      | inl good ↦ elim (Bool-cases (ltb capacity (packet_size include_vfp))) [
        | inl tight ↦ inr (inl (good, ltb→lt _ _ tight, rw (good, tight, encode_register_packet)))
        | inr room ↦ inl (
          good,
          le_of_ltb capacity (packet_size include_vfp) room,
          register_text regs vfp include_vfp,
          rw (good, room, encode_register_packet) written,
          length-register_text regs vfp include_vfp c v,
        )
      ]
    ]
