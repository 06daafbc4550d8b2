-- ===== src/Cc/Codegen/Plan.antt =====
-- `plan` of crates/ex3-core/src/cc/codegen/mod.rs: the frames of all functions, or errors.
pub mod Symbols
pub mod Analyzed
use Prim.Native.String.{String}
use ex3_rust.Prelude.{List, [], ◌∷◌, in_order, map, Result, ok, err, unless_errors, ◌>>=◌}
use ex3_rust.Cc.Diagnostic.{CcError}
use ex3_rust.Cc.Sema.Ir.{ResolvedFunction, FunctionDebugSymbols, AnalyzedProgram}
use ex3_rust.Cc.Codegen.Frame.{
  FrameLayout, FunctionFrameDebugInfo, plan as plan_frame, validate, debug_info,
}

pub record FramePlan : Type 0 where
  pub frames : List FrameLayout
  pub debug_frames : List FunctionFrameDebugInfo

abbrev pub Errors : Type 0
Errors = List CcError

-- The variables of `plan`, each vector with its newest element first.
pub record Planned : Type 0 where
  pub frames : List FrameLayout
  pub debug_frames : List FunctionFrameDebugInfo
  pub errors : Errors

abbrev pub plan_error : ResolvedFunction → String → Planned → Planned
plan_error f message p = record p {
  errors = record { span = f.span; message = message } ∷ p.errors;
}

abbrev pub push_debug_info :
    ResolvedFunction → Result FunctionFrameDebugInfo String → Planned → Planned
push_debug_info f (ok info) p = record p { debug_frames = info ∷ p.debug_frames }
push_debug_info f (err message) p = plan_error f message p

abbrev pub push_frame :
    FrameLayout
    → ResolvedFunction
    → FunctionDebugSymbols
    → Result (Unit {0}) String
    → Planned
    → Planned
push_frame frame f symbols (err message) p = plan_error f message p
push_frame frame f symbols (ok u) p = push_debug_info f (debug_info frame symbols) p

unfoldable pub plan_function : ResolvedFunction → FunctionDebugSymbols → Planned → Planned
plan_function f symbols p =
    let frame = plan_frame f in
    let after = push_frame frame f symbols (validate frame f) p in
    record after { frames = frame ∷ after.frames }

-- The loop, over the functions with their symbols as `zip` pairs them.
unfoldable pub plan_functions :
    List ResolvedFunction → List FunctionDebugSymbols → Planned → Planned
unfolding plan_function
plan_functions [] symbols p = p
plan_functions (f ∷ fs) [] p = p
plan_functions (f ∷ fs) (s ∷ symbols) p = plan_functions fs symbols (plan_function f s p)

abbrev pub unplanned : Planned
unplanned = record { frames = []; debug_frames = []; errors = [] }

unfoldable pub plan : AnalyzedProgram → Result FramePlan Errors
unfolding plan_functions
plan program =
    let p = plan_functions program.functions program.debug_functions unplanned in
    unless_errors (record { frames = in_order p.frames; debug_frames = in_order p.debug_frames })
      (in_order p.errors)
