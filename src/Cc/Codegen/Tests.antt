-- ===== src/Cc/Codegen/Tests.antt =====
-- Tests of the plan of the frames and of the code of an expression.
use ex3_rust.Prelude.{◌≡◌, refl, List, [], ◌∷◌, Result, ok, err}
use ex3_rust.Prelude.{pos}
use ex3_rust.Cc.Ast.{scalar, int32, BinOp}
use ex3_rust.Cc.Sema.Ir.{ResolvedExpr, ResolvedVariable}
use ex3_rust.Cc.Sema.Samples.{analyzed}
use ex3_rust.Cc.Codegen.Frame.{FrameLayout, plan as plan_frame, validate, debug_info}
use ex3_rust.Cc.Codegen.Emitter.{Line}
use ex3_rust.Cc.Codegen.Expressions.{root, generate_expression}
use ex3_rust.Cc.Codegen.Plan.{FramePlan, Errors, plan}

abbrev frames_of : Result FramePlan Errors → List FrameLayout
frames_of (ok p) = p.frames
frames_of (err errors) = []

plans :
    frames_of (plan analyzed)
    ≡ record { local_count = 1; temporary_count = 2; parameter_count = 0 } ∷ []
unfolding plan plan_frame validate debug_info
plans = refl

-- `x * 70000` in a frame of one local, which is `x`.
abbrev product : ResolvedExpr
product =
    ResolvedExpr.binary BinOp.mul (ResolvedExpr.load (ResolvedVariable.local 0) (scalar int32))
      (ResolvedExpr.number 70000 (scalar int32)) int32 (scalar int32)

abbrev product_frame : FrameLayout
product_frame = record { local_count = 1; temporary_count = 2; parameter_count = 0 }

generates :
    (generate_expression product_frame product root 0).0
    ≡ Line.load_sp 0
      ∷ Line.store_sp 1
      ∷ Line.clear
      ∷ Line.load_high 1
      ∷ Line.load_low 4464
      ∷ Line.store_sp 2
      ∷ Line.load_sp 2
      ∷ Line.push
      ∷ Line.load_sp 2
      ∷ Line.push
      ∷ Line.call "__ex3_mul_i32"
      ∷ Line.adjust_sp (pos 2)
      ∷ []
unfolding generate_expression
generates = refl
