-- ===== src/Cc/FrontEnd/Acceptance.antt =====
-- Every source is refused with errors, or accepted with a typed program and its frames.
use Prim.Native.String.{String}
use ex3_rust.Prelude.{◌≡◌, refl, ap, ◌∙◌, some, List, Result, ok, err, All, OnOk, passes, fails}
use ex3_rust.Cc.Ast.{Program}
use ex3_rust.Cc.Diagnostic.{CcError, Failure, rejects, panics}
use ex3_rust.Cc.Lexer.{Token}
use ex3_rust.Cc.Lexer.Tokens.{AreTokens, lex-AreTokens}
use ex3_rust.Cc.Parser.State.{Stop}
use ex3_rust.Cc.Parser.{parse}
use ex3_rust.Cc.Parser.Totality.Programs.{IsParse, parse-IsParse}
use ex3_rust.Cc.Sema.Ir.{AnalyzedProgram}
use ex3_rust.Cc.Sema.Resolve.{analyze}
use ex3_rust.Cc.Sema.Typing.Declared.{IsScalarItem}
use ex3_rust.Cc.Sema.Typing.Programs.{IsAnalysis, analyze-safe, analyze-IsAnalysis}
use ex3_rust.Cc.Codegen.Plan.{FramePlan, plan}
use ex3_rust.Cc.Codegen.Plan.Analyzed.{AreFramed, IsPlanned, plan-IsPlanned}
use ex3_rust.Cc.FrontEnd.{Compiled, planned, analyzed_program, parsed_program, lexed, front_end}

-- What the phases before `generate` give.
pub data IsCompiled : Compiled → Type 0 where
  accepted :
      (program : Program) {analyzed : AnalyzedProgram} {frames : FramePlan}
      → IsAnalysis program analyzed
      → AreFramed analyzed.functions analyzed.debug_functions frames.frames frames.debug_frames
      → IsCompiled (ok (analyzed, frames))
  refused : (errors : List CcError) → IsCompiled (err (rejects errors))

planned-IsCompiled :
    (program : Program) (analyzed : AnalyzedProgram) (r : Result FramePlan (List CcError))
    → IsAnalysis program analyzed
    → IsPlanned analyzed r
    → IsCompiled (planned analyzed r)
planned-IsCompiled program analyzed (ok frames) a p = IsCompiled.accepted program a p
planned-IsCompiled program analyzed (err errors) a p = IsCompiled.refused errors

analyzed_program-IsCompiled :
    (program : Program) (r : Result AnalyzedProgram (Failure (List CcError)))
    → All IsScalarItem program.items
    → analyze program ≡ r
    → IsCompiled (analyzed_program r)
analyzed_program-IsCompiled program (ok analyzed) h e =
    planned-IsCompiled program analyzed (plan analyzed) (analyze-IsAnalysis program analyzed h e)
      (plan-IsPlanned program analyzed h e)
analyzed_program-IsCompiled program (err (rejects errors)) h e = IsCompiled.refused errors
analyzed_program-IsCompiled program (err panics) h e = absurd (analyze-safe program h e)

parsed_program-IsCompiled :
    (r : Result Program Stop)
    → IsParse r
    → (c : Compiled) × (parsed_program r ≡ some c) × IsCompiled c
parsed_program-IsCompiled _ (IsParse.parsed {p} h) =
    (analyzed_program (analyze p), refl, analyzed_program-IsCompiled p (analyze p) h refl)
parsed_program-IsCompiled _ (IsParse.rejected {e}) = (_, refl, IsCompiled.refused _)

lexed-IsCompiled :
    (r : Result (List Token) (List CcError))
    → OnOk AreTokens r
    → (c : Compiled) × (lexed (some r) ≡ some c) × IsCompiled c
lexed-IsCompiled _ (passes {a = tokens} h) =
    parsed_program-IsCompiled (parse tokens) (parse-IsParse tokens h)
lexed-IsCompiled _ (fails {e}) = (err (rejects e), refl, IsCompiled.refused e)

-- On every source the lexer, the parser, the analysis and the plan end with their fuel, and none
-- of them panics: the source is refused with errors, or accepted as a program that obeys the rules
-- of scope and type and whose functions have frames as `plan` promises.
pub front_end-IsCompiled :
    (source : String) → (c : Compiled) × (front_end source ≡ some c) × IsCompiled c
unfolding front_end
front_end-IsCompiled source =
    let (r, found, tokens) = lex-AreTokens source in
    let (c, made, good) = lexed-IsCompiled r tokens in (c, ap lexed found ∙ made, good)
