-- ===== src/Cc/Codegen.antt =====
-- crates/ex3-core/src/cc/codegen: from a resolved program to assembly.
pub mod Counts
pub mod Frame
pub mod Emitter
pub mod Expressions
pub mod Stack
pub mod Plan
mod Tests
