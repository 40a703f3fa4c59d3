-- ===== src/Python.antt =====
-- What the modules take from Python itself: exceptions, generators, sequences, dicts, floats and
-- `struct`. A Python `int` is an ℕ where no negative ones occur, and otherwise a ℤ.
mod Exceptions
mod Generator
mod Sequence
mod Struct
pub mod Dict
pub mod Integer
pub mod Float
pub use Exceptions.*
unfoldable pub use Generator.*
unfoldable pub use Sequence.*
unfoldable pub use Struct.*
