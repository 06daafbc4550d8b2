-- ===== src/Emulator/Invariant.antt =====
-- The ranges of the machine's registers, memory and peripherals: what the types `u8`, `u16`, `u32`
-- and `u64` of the source promise, with the five bits of the status register and the four of the
-- interrupt mask.
mod Defs
mod Registers
mod Execution
mod Stepping
pub use Defs.*
pub use Stepping.{execute-IsMachine, step-IsMachine}
pub use Execution.{sp_relative_operation-counterpart}
