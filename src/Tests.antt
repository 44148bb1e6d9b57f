-- ===== src/Tests.antt =====
-- The theorems at concrete inputs.
mod Ram
mod Memory
mod Frames
mod Fields
mod Registers
mod Gates
mod Consoles
mod Exclusives
mod Counters
mod Guards
