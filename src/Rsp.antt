-- ===== src/Rsp.antt =====
-- The GDB remote serial protocol: framing, hexadecimal numbers and spans, packets.
pub mod Hex
pub mod Frame
pub mod Numbers
pub mod Packets
pub mod Registers
