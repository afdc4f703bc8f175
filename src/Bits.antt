-- ===== src/Bits.antt =====
-- Bit operations of the program's machine words, and what they mean as arithmetic and as sets.
mod Step
mod Words
mod Sets
mod Field
pub use Step.{bit_or_step, bit_or_cut}
pub use Words.*
pub use Sets.*
pub use Field.*
