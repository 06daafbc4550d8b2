-- ===== src/Emulator.antt =====
-- crates/ex3-core/src/emulator.rs: the processor, its memory and its peripherals.
pub mod Memory
pub mod Bus
pub mod DeterministicBus
pub mod LegacyBus
pub mod State
pub mod Alu
pub mod Execute
pub mod Step
pub mod Branches
pub mod Invariant
pub mod Stack
pub mod Run
pub mod Constants
pub mod Samples
mod Tests
