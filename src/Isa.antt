-- ===== src/Isa.antt =====
-- crates/ex3-core/src/isa.rs: 16-bit addresses and immediates, the instructions, their 32-bit
-- encoding and their mnemonics. The proofs stand in the children RoundTrip, Legality and Names.
mod Ops
pub mod Address
pub mod Immediate16
mod Codec
pub mod Layout
pub mod RoundTrip
pub mod Legality
pub mod Names
mod Tests
pub mod Mnemonics
pub use Ops.*
unfoldable pub use Codec.*
