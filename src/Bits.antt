-- ===== src/Bits.antt =====
-- Machine words: the masks and bit tests of src/duma.c as arithmetic.
mod Step
pub mod Mask
pub mod LowBit
