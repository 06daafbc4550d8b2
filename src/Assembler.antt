-- ===== src/Assembler.antt =====
-- crates/ex3-core/src/assembler.rs: the two-pass assembler, from source text to a memory image.
mod Types
mod Numbers
mod Instructions
mod Resolve
mod Parse
mod Passes
pub mod Resolved
pub mod Emission
pub mod Order
pub mod FirstPass
pub mod SecondPass
pub mod Labels
pub mod Image
pub mod StackWords
pub mod Fuel
mod Tests
unfoldable pub use Types.*
unfoldable pub use Numbers.*
unfoldable pub use Instructions.*
unfoldable pub use Resolve.*
unfoldable pub use Parse.*
unfoldable pub use Passes.*
