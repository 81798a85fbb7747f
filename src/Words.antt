-- ===== src/Words.antt =====
-- Arithmetic on `size_t`, 64 bits wide: additions and subtractions wrap, and a mask is `bit_and`.
pub mod Defs
mod Round
pub use Round.*
