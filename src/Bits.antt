-- ===== src/Bits.antt =====
-- The laws of `^`, `&`, `|` and of the shifts that the program's arithmetic rests on, at every width.
mod Step
mod Digit
mod Xor
mod Fields
pub use Step.*
unfoldable pub use Digit.*
pub use Xor.*
pub use Fields.*
