-- ===== src/Cc/FrontEnd.antt =====
-- The phases of `compile_with_debug_info` of crates/ex3-core/src/cc/mod.rs before `generate`.
pub mod Acceptance
mod Tests
use Prim.Native.String.{String}
use ex3_rust.Prelude.{Option, none, some, List, [], ◌∷◌, Result, ok, err}
use ex3_rust.Cc.Ast.{Program}
use ex3_rust.Cc.Diagnostic.{CcError, Failure, rejects, panics}
use ex3_rust.Cc.Lexer.{Token, lex}
use ex3_rust.Cc.Parser.State.{Stop}
use ex3_rust.Cc.Parser.{parse}
use ex3_rust.Cc.Sema.Ir.{AnalyzedProgram}
use ex3_rust.Cc.Sema.Resolve.{analyze}
use ex3_rust.Cc.Codegen.Plan.{FramePlan, plan}

abbrev pub Compiled : Type 0
Compiled = Result (AnalyzedProgram × FramePlan) (Failure (List CcError))

abbrev pub planned : AnalyzedProgram → Result FramePlan (List CcError) → Compiled
planned analyzed (ok frames) = ok (analyzed, frames)
planned analyzed (err errors) = err (rejects errors)

abbrev pub analyzed_program : Result AnalyzedProgram (Failure (List CcError)) → Compiled
analyzed_program (ok analyzed) = planned analyzed (plan analyzed)
analyzed_program (err failure) = err failure

-- `parse` makes a list of its one error.
abbrev pub parsed_program : Result Program Stop → Option Compiled
parsed_program (ok program) = some (analyzed_program (analyze program))
parsed_program (err (Stop.invalid e)) = some (err (rejects (e ∷ [])))
parsed_program (err Stop.out_of_range) = some (err panics)
parsed_program (err Stop.out_of_fuel) = none

abbrev pub lexed : Option (Result (List Token) (List CcError)) → Option Compiled
lexed none = none
lexed (some (err errors)) = some (err (rejects errors))
lexed (some (ok tokens)) = parsed_program (parse tokens)

-- `none` when a phase runs out of fuel.
unfoldable pub front_end : String → Option Compiled
unfolding lex parse analyze plan
front_end source = lexed (lex source)
