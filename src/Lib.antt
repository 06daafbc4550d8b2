-- ===== src/Lib.antt =====
-- EX3: a 32-bit accumulator machine with 64K words of memory, its assembler, its emulator and its
-- debugger, in the crate crates/ex3-core. The assembler encodes with the instruction set, the
-- debugger drives the emulator, the emulator decodes with the instruction set and talks to its
-- peripherals through a bus.
--
-- Isa models crates/ex3-core/src/isa.rs: Isa.Address and Isa.Immediate16 the 16-bit addresses and
-- immediates, Isa.Ops the instructions (`Instruction` and the five operation enums), Isa.Codec
-- `encode` and `decode`, Isa.Mnemonics the names (`memory_name` and its like, and `FromStr`, here
-- `parse_memory_op` and its like). Isa.Layout, Isa.RoundTrip, Isa.Legality and Isa.Names hold the
-- proofs.
--
-- Emulator models crates/ex3-core/src/emulator.rs: Emulator.State the registers and flags,
-- Emulator.Memory the memory as a function from addresses to words, Emulator.Bus the trait `IoBus`
-- as a record of operations with the laws `IsByteBus` that a client relies on,
-- Emulator.DeterministicBus and Emulator.LegacyBus its two real implementations, Emulator.Alu the
-- arithmetic and the flags, Emulator.Execute `Cpu::execute` with one function for each instruction
-- format, Emulator.Step `Cpu::step` and `Cpu::run`. A record `Machine` holds what `Cpu::step`
-- reads and writes: the processor's two fields and the memory and the bus that it borrows.
-- Emulator.Branches, Emulator.Constants, Emulator.Invariant, Emulator.Stack and Emulator.Run hold
-- the proofs.
--
-- Debugger models crates/ex3-core/src/debugger.rs: breakpoints, a list of which only the
-- membership is observed, and `Debugger::run`. Debugger.Breakpoints, Debugger.Runs and
-- Debugger.Equivalence hold the proofs.
--
-- Assembler models crates/ex3-core/src/assembler.rs: Assembler.Types its data, Assembler.Parse
-- `parse`, Assembler.Numbers the operands, Assembler.Instructions `resolve_instruction`,
-- Assembler.Resolve `resolve`, Assembler.Passes `Assembler::assemble`, whose variables are the
-- records `Pass1` and `Pass2`, each vector with its newest element first until the result puts it
-- in order. The symbols, a sorted map in the source, are an association list. Assembler.Resolved,
-- Assembler.FirstPass, Assembler.SecondPass, Assembler.Labels, Assembler.Emission,
-- Assembler.Order, Assembler.Image, Assembler.StackWords and Assembler.Fuel hold the proofs.
--
-- Cc models the C compiler in crates/ex3-core/src/cc, whose phases run one after the other: from
-- characters to tokens, a tree, a resolved program and a plan of its stack frames. Cc.Ast is the
-- tree of ast.rs. Cc.Diagnostic has the errors; a phase gives a value or a `Failure`, which
-- `rejects` the program or `panics` where an `expect`, an `unreachable!` or an index of the source
-- would. Cc.ConstEval is the evaluator `evaluate` of sema/const_eval.rs, which folds constants;
-- Cc.ConstEval.Division and Cc.ConstEval.Machine hold the proofs.
--
-- Cc.Lexer models lexer.rs: Cc.Lexer.Words the keywords and symbols, Cc.Lexer.Scanning the cursor,
-- Cc.Lexer `lex`. A source is the sequence of its bytes, each as a character, and what is left of
-- it stands for the offset. Cc.Lexer.Progress and Cc.Lexer.Tokens hold the proofs.
--
-- Cc.Parser models parser.rs: Cc.Parser.State the position among the tokens and the steps of one
-- token, Cc.Parser.Operators the precedence, Cc.Parser.Expressions, Cc.Parser.Statements and
-- Cc.Parser the rest up to `parse`. A chain of tests on the next token is a function by clauses on
-- it, or on the `Start` of a statement. Parsing stops for an error in the source, for an index
-- that is out of range or for want of fuel; Cc.Parser.Totality and its child modules hold the
-- proofs.
--
-- Cc.FrontEnd models `compile_with_debug_info` of mod.rs before `generate`: the four phases in a
-- row. Cc.FrontEnd.Acceptance composes their theorems.
--
-- Cc.Sema models sema/: Ir the resolved program of ir.rs, Builtins the functions of builtins.rs,
-- Symbols and Collect the first pass of symbols.rs over labels, switches and declarations,
-- Resolver, Statements and Resolve the second pass of resolver.rs, ControlFlow the graph of
-- control_flow.rs with its search, ConstantValue the constants of the resolver. The mutable fields
-- of the source's `Resolver` are the record `Resolver`, the borrowed ones the record `Context`. A
-- map is an association list with the latest entry first (Prelude.Maps), and vectors that only
-- grow have their newest element first. Cc.Sema.Typing has the rules of scope and type that a
-- resolved program obeys, with their proofs in its child modules; Cc.Sema.ControlFlow and
-- Cc.Sema.ConstantValue have child modules with theirs.
--
-- Cc.Codegen models codegen/frame.rs, `plan` of codegen/mod.rs and the code of expressions
-- (codegen/expr.rs, with what it uses of function.rs, emitter.rs and builtins.rs): Emitter the
-- lines, before they are texts and without the debug records, Expressions the lines of an
-- expression, Counts the temporaries and pushed words that code needs, Frame the layout of a frame
-- with its offsets, bounds and debug information, Plan the frames of a program.
-- Cc.Codegen.Frame.Bounds, Cc.Codegen.Frame.Debug, Cc.Codegen.Stack (with Code and Bodies),
-- Cc.Codegen.Plan.Symbols and Cc.Codegen.Plan.Analyzed hold the proofs.
--
-- Output models crates/ex3-core/src/output.rs: `format_mem`, `format_probe` and `parse_mem`.
-- Output.Digits, Output.Lines and Output.RoundTrip hold the proofs.
--
-- Prelude has what the parts share: Boolean tests, machine words with their wrap-around, integers,
-- results, the functions of Rust's texts that the assembler uses (Prelude.Text), and the lemmas on
-- the bits of a number. A value of type u8, u16, u32 or u64 is a natural number, whose range is a
-- hypothesis where a theorem needs it, and arithmetic on it is written with its modulus.
--
-- Bounds: the loops of `Cpu::run` and `Debugger::run` are recursions on fuel, one unit for each
-- turn, which give `none` when it runs out. `2 * max_steps + 2` units are enough, since a turn
-- either counts an instruction or enters an interrupt, which turns interrupts off. The counters of
-- 64 bits wrap, as in the source but for one: `steps` of `Debugger::run` is raised by a plain
-- addition, which wraps in a release build as the model does and which a debug build checks. The
-- loop over the labels of a line has its number of characters as fuel, since each turn takes a
-- separator off. The lexer has the number of bytes as fuel, since each turn of its loop takes one.
-- The parser takes a unit for each call and each turn of a loop; at most nine of them follow one
-- another before a token is taken, and there are 16 for each token and 16 more. The search in the
-- control flow graph has one unit for each edge and one more, since a turn takes a node off the
-- stack and an edge is put on it once. Indices and sizes of type usize are natural numbers without
-- a bound, except where `validate` tests for an overflow.
--
-- Not modelled: the texts of errors, of registers and of instructions; the code generation behind
-- the frames and the expressions (the texts that the emitter writes, the code of statements, the
-- runtime), the end of the compiler's driver, the debug information and the stack view; and the
-- parts of the repository that only convert values or draw (the command line tool, the browser
-- bindings, the user interface).
pub mod Prelude
pub mod Isa
pub mod Emulator
pub mod Debugger
pub mod Assembler
pub mod Cc
pub mod Output
