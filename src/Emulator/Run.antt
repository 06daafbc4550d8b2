-- ===== src/Emulator/Run.antt =====
-- `Cpu::run`: what its loop counts, that it ends, and what it returns.
mod Counting
mod Termination
pub use Counting.*
pub use Termination.*
