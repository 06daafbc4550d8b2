-- ===== src/Cc/Codegen/Plan/Analyzed.antt =====
-- The plan of an analyzed program: a described frame for each function, or frames that are too large.
use Prim.Native.String.{String}
use mathlib.Core.List.{append-nil, append_assoc}
use ex3_rust.Prelude.{
  ◌≡◌, ◌≢◌, refl, sym, ap, ◌∙◌, subst, arith, List, [], ◌∷◌, ◌++◌, in_order, length, length-append,
  map, All, All-append, Result, ok, err, unless_errors,
}
use ex3_rust.Cc.Ast.{Program}
use ex3_rust.Cc.Diagnostic.{CcError}
use ex3_rust.Cc.Sema.Ir.{ResolvedFunction, FunctionDebugSymbols, AnalyzedProgram}
use ex3_rust.Cc.Sema.Resolve.{analyze}
use ex3_rust.Cc.Sema.Typing.Declared.{IsScalarItem}
use ex3_rust.Cc.Sema.Typing.Programs.{Made, analyze-IsAnalysis}
use ex3_rust.Cc.Codegen.Counts.{maximum_dynamic_slots_statement}
use ex3_rust.Cc.Codegen.Frame.{
  FrameLayout, FunctionFrameDebugInfo, plan as plan_frame, validate, debug_info, too_large,
}
use ex3_rust.Cc.Codegen.Frame.Bounds.{IsAddressed, validate-IsAddressed, validate-too_large}
use ex3_rust.Cc.Codegen.Frame.Debug.{Fits, Describes, Gives, gives, debug_info-Describes}
use ex3_rust.Cc.Codegen.Plan.Symbols.{IsRunnableBody, AreFit, AreResolved-AreFit}
use ex3_rust.Cc.Codegen.Plan.{
  FramePlan, Errors, Planned, push_debug_info, push_frame, plan_function, plan_functions, unplanned,
  plan,
}

-- Each function has its own frame, whose places are addressed, and information that describes it;
-- the code of its expressions stays in that frame and within that many pushed words.
pub data AreFramed
    : List ResolvedFunction
      → List FunctionDebugSymbols
      → List FrameLayout
      → List FunctionFrameDebugInfo
      → Type 0 where
  no_frames : AreFramed [] [] [] []
  framed :
      {fs : List ResolvedFunction} {symbols : List FunctionDebugSymbols} {frames : List FrameLayout}
      {infos : List FunctionFrameDebugInfo} (f : ResolvedFunction) (s : FunctionDebugSymbols)
      (info : FunctionFrameDebugInfo)
      → IsAddressed (plan_frame f) (maximum_dynamic_slots_statement f.body)
      → Describes (plan_frame f) s info
      → IsRunnableBody f
      → AreFramed fs symbols frames infos
      → AreFramed (f ∷ fs) (s ∷ symbols) (plan_frame f ∷ frames) (info ∷ infos)

abbrev pub AreTooLarge : Errors → Type 0
AreTooLarge = All (λ (e : CcError). e.message ≡ too_large)

abbrev pub IsPlanned : AnalyzedProgram → Result FramePlan Errors → Type 0
IsPlanned program (ok p) =
    AreFramed program.functions program.debug_functions p.frames p.debug_frames
IsPlanned program (err errors) = AreTooLarge errors × (errors ≢ [])

-- What the loop adds to its three vectors.
record Adds (fs : List ResolvedFunction) (symbols : List FunctionDebugSymbols) (p q : Planned)
    : Type 0 where
  messages : AreTooLarge p.errors → AreTooLarge q.errors
  complete :
      q.errors ≡ []
      → (p.errors ≡ [])
        × (frames : List FrameLayout) × (infos : List FunctionFrameDebugInfo) × (in_order q.frames
            ≡ in_order p.frames ++ frames)
        × (in_order q.debug_frames ≡ in_order p.debug_frames ++ infos)
        × AreFramed fs symbols frames infos

-- One turn of the loop: an error, or a frame with its information.
data Turn (f : ResolvedFunction) (s : FunctionDebugSymbols) (p : Planned) : Planned → Type 0 where
  refused :
      {q : Planned} (e : CcError) → q.errors ≡ e ∷ p.errors → e.message ≡ too_large → Turn f s p q
  added :
      (info : FunctionFrameDebugInfo)
      → IsAddressed (plan_frame f) (maximum_dynamic_slots_statement f.body)
      → Describes (plan_frame f) s info
      → Turn f s p (record {
        frames = plan_frame f ∷ p.frames;
        debug_frames = info ∷ p.debug_frames;
        errors = p.errors;
      })

-- The frame is pushed after its information.
abbrev after_frame : ResolvedFunction → Planned → Planned
after_frame f q = record q { frames = plan_frame f ∷ q.frames }

push_debug_info-Turn :
    (f : ResolvedFunction) (s : FunctionDebugSymbols) (p : Planned)
    (r : Result FunctionFrameDebugInfo String)
    → IsAddressed (plan_frame f) (maximum_dynamic_slots_statement f.body)
    → Gives (Describes (plan_frame f) s) r
    → Turn f s p (after_frame f (push_debug_info f r p))
push_debug_info-Turn f s p _ addressed (gives {a = info} h) = Turn.added info addressed h

push_frame-Turn :
    (f : ResolvedFunction) (s : FunctionDebugSymbols) (p : Planned) (r : Result (Unit {0}) String)
    → validate (plan_frame f) f ≡ r
    → Fits (plan_frame f) s
    → Turn f s p (after_frame f (push_frame (plan_frame f) f s r p))
push_frame-Turn f s p (err message) e fit =
    Turn.refused (record { span = f.span; message = message }) refl
      (validate-too_large (plan_frame f) f message e)
push_frame-Turn f s p (ok u) e fit =
    let addressed = validate-IsAddressed (plan_frame f) f e in
    push_debug_info-Turn f s p (debug_info (plan_frame f) s) addressed
      (debug_info-Describes (plan_frame f) (maximum_dynamic_slots_statement f.body) s addressed fit)

Turn-Adds :
    (f : ResolvedFunction) (s : FunctionDebugSymbols) (fs : List ResolvedFunction)
    (symbols : List FunctionDebugSymbols) (p q after : Planned)
    → IsRunnableBody f
    → Turn f s p q
    → Adds fs symbols q after
    → Adds (f ∷ fs) (s ∷ symbols) p after
Turn-Adds f s fs symbols p q after body (Turn.refused e grown large) adds = record {
  messages = λ h. adds.messages (subst AreTooLarge (sym grown) (large, h));
  complete = λ clean. absurd (let none_left = (adds.complete clean).0 in cc (grown, none_left));
}
Turn-Adds f s fs symbols p _ after body (Turn.added info addressed described) adds = record {
  messages = adds.messages;
  complete = λ clean.
      let (none_left, frames, infos, e, k, all) = adds.complete clean in
      (
        none_left,
        plan_frame f ∷ frames,
        info ∷ infos,
        e ∙ append_assoc (in_order p.frames) (plan_frame f ∷ []) frames,
        k ∙ append_assoc (in_order p.debug_frames) (info ∷ []) infos,
        AreFramed.framed f s info addressed described body all,
      );
}

plan_functions-Adds :
    (fs : List ResolvedFunction) (symbols : List FunctionDebugSymbols) (p : Planned)
    → AreFit fs symbols
    → Adds fs symbols p (plan_functions fs symbols p)
unfolding plan_functions plan_function
plan_functions-Adds _ _ p AreFit.no_functions = record {
  messages = λ h. h;
  complete = λ clean. (
    clean,
    [],
    [],
    sym (append-nil (in_order p.frames)),
    sym (append-nil (in_order p.debug_frames)),
    AreFramed.no_frames,
  );
}
plan_functions-Adds _ _ p (AreFit.fits {fs} {symbols} f s fit body all) =
    Turn-Adds f s fs symbols p _ _ body (push_frame-Turn f s p (validate (plan_frame f) f) refl fit)
      (plan_functions-Adds fs symbols (plan_function f s p) all)

in_order-nil : {A : Type 0} (xs : List A) → in_order xs ≡ [] → xs ≡ []
in_order-nil [] e = refl
in_order-nil (x ∷ xs) e =
    absurd
      (let k = length-append (in_order xs) (x ∷ []) in let n = ap length e in omega (arith, k, n))

AreTooLarge-in_order : (es : Errors) → AreTooLarge es → AreTooLarge (in_order es)
AreTooLarge-in_order [] h = tt
AreTooLarge-in_order (e ∷ es) (h, hs) =
    All-append (λ (x : CcError). x.message ≡ too_large) (in_order es) (e ∷ [])
      (AreTooLarge-in_order es hs) (h, tt)

unless_errors-IsPlanned :
    (program : AnalyzedProgram) (p : Planned) (es : Errors)
    → in_order p.errors ≡ es
    → AreTooLarge p.errors
    → (p.errors ≡ []
        → AreFramed program.functions program.debug_functions
            (in_order p.frames)
            (in_order p.debug_frames))
    → IsPlanned program (
        unless_errors
          (record { frames = in_order p.frames; debug_frames = in_order p.debug_frames })
          es)
unless_errors-IsPlanned program p [] e large made = made (in_order-nil p.errors e)
unless_errors-IsPlanned program p (x ∷ xs) e large made =
    (subst AreTooLarge e (AreTooLarge-in_order p.errors large), λ absent. cc absent)

plan-AreFit :
    (program : AnalyzedProgram)
    → AreFit program.functions program.debug_functions
    → IsPlanned program (plan program)
unfolding plan
plan-AreFit program fit =
    let after = plan_functions program.functions program.debug_functions unplanned in
    let adds = plan_functions-Adds program.functions program.debug_functions unplanned fit in
    unless_errors-IsPlanned program after (in_order after.errors) refl (adds.messages tt) (λ clean.
      let (_, frames, infos, e, k, all) = adds.complete clean in
      subst
        (λ x. AreFramed program.functions program.debug_functions x (in_order after.debug_frames))
        (sym e)
        (subst (λ x. AreFramed program.functions program.debug_functions frames x) (sym k) all))

pub plan-IsPlanned :
    (program : Program) (analyzed : AnalyzedProgram)
    → All IsScalarItem program.items
    → analyze program ≡ ok analyzed
    → IsPlanned analyzed (plan analyzed)
plan-IsPlanned program analyzed h e =
    let a = analyze-IsAnalysis program analyzed h e in
    plan-AreFit analyzed (
      subst (λ fs. AreFit fs analyzed.debug_functions) (sym a.functions)
        (subst (λ symbols. AreFit (map (λ (m : Made). m.0) a.made) symbols) (sym a.debug_functions)
          (AreResolved-AreFit a.tables program.items a.made a.resolved)))
