-- ===== src/Cc/FrontEnd/Tests.antt =====
-- Tests of the phases before `generate`.
use Prim.Native.String.{String}
use ex3_rust.Prelude.{◌≡◌, refl, Bool, true, false, Option, some, ok}
use ex3_rust.Prelude.{find}
use ex3_rust.Prelude.Maps.{lookup}
use ex3_rust.Prelude.Text.{unsigned_from_str_radix, starts_with}
use ex3_rust.Cc.Lexer.Words.{find_two, find_one}
use ex3_rust.Cc.ConstEval.{evaluate}
use ex3_rust.Cc.Sema.Symbols.{validate_function, validate_switches, collect_labels, is_reserved}
use ex3_rust.Cc.Sema.Statements.{statement}
use ex3_rust.Cc.Sema.Resolver.{expression}
use ex3_rust.Cc.Sema.ControlFlow.{may_reach_function_end}
use ex3_rust.Cc.Codegen.Frame.{validate, plan as plan_frame, debug_info}
use ex3_rust.Cc.FrontEnd.{Compiled, front_end}
use ex3_rust.Cc.FrontEnd.Acceptance.{IsCompiled, front_end-IsCompiled}

abbrev source : String
source = "int x = 3; int main(void) { int y = x; while (y) { y = y - 1; } return y; }"

front_end-IsCompiled_example : (c : Compiled) × (front_end source ≡ some c) × IsCompiled c
front_end-IsCompiled_example = front_end-IsCompiled source

abbrev is_accepted : Option Compiled → Bool
is_accepted (some (ok c)) = true
is_accepted c = false

accepts : is_accepted (front_end source) ≡ true
unfolding front_end find_two find_one unsigned_from_str_radix lookup validate_function
    validate_switches collect_labels find is_reserved starts_with evaluate statement expression
    may_reach_function_end validate plan_frame debug_info
accepts = refl
