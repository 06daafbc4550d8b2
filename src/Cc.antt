-- ===== src/Cc.antt =====
-- crates/ex3-core/src/cc: the C compiler, from its lexer to the plan of its stack frames.
pub mod Ast
pub mod Diagnostic
pub mod Lexer
pub mod Parser
pub mod ConstEval
pub mod Sema
pub mod Codegen
pub mod FrontEnd
