-- ===== src/Prelude/Bits.antt =====
-- `&`, `|` and `^` as arithmetic. A bitwise operation is known by its equation for the lowest
-- digit; all else is proved once, for any operation with such an equation.
mod Digits
mod Fields
pub use Digits.{bit_and_halves, bit_or_halves, bit_xor_halves}
pub use Fields.*
