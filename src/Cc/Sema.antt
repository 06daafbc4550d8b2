-- ===== src/Cc/Sema.antt =====
-- crates/ex3-core/src/cc/sema: semantic analysis.
pub mod Ir
pub mod Builtins
pub mod Resolver
pub mod Statements
pub mod Symbols
pub mod Collect
pub mod ConstantValue
pub mod ControlFlow
pub mod Resolve
pub mod Typing
pub mod Samples
mod Tests
