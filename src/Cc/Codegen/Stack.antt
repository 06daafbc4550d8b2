-- ===== src/Cc/Codegen/Stack.antt =====
-- How many words stand on the stack, above a function's frame, under the code of an expression.
pub mod Code
pub mod Bodies
use Prim.Native.Nat.{◌-◌ as ◌∸◌}
use Prim.Native.String.{String}
use ex3_rust.Prelude.{
  ℕ, zero, suc, ◌+◌, ◌≤◌, ◌<◌, ◌≡◌, refl, sym, subst, arith, ◌/◌, ◌%◌, ◌^◌, Bool, true, false,
  if◌then◌else◌, List, [], ◌∷◌, ◌++◌, pos, negsuc, signed32,
}
use ex3_rust.Cc.Ast.{ScalarType, UnOp, BinOp}
use ex3_rust.Cc.Sema.Ir.{ResolvedVariable}
use ex3_rust.Cc.Codegen.Counts.{runtime_arguments}
use ex3_rust.Cc.Codegen.Frame.{FrameLayout}
use ex3_rust.Cc.Codegen.Frame.Bounds.{Place, IsPlace, offset}
use ex3_rust.Cc.Codegen.Emitter.{BranchCondition, StackBinaryOp, Line}
use ex3_rust.Cc.Codegen.Expressions.{
  EvalContext, is_immediate, by_type, next_temp, context_offset, load_variable, store_variable,
  load_constant, unary_code, stack_operation, runtime_operation, comparison, operation,
  drop_arguments,
}

-- The words on the stack behind a line; a called function leaves the stack as it was.
abbrev pub depth_after : Line → ℕ → ℕ
depth_after Line.push d = suc d
depth_after (Line.adjust_sp (pos n)) d = d ∸ n
depth_after line d = d

-- The offset, above the given number of pushed words, is that of a place of the frame.
abbrev pub Names : FrameLayout → ℕ → ℕ → Type 0
Names frame d o = (place : Place) × IsPlace frame place × (o ≡ offset frame place d)

-- A word is pushed only below the limit, only pushed words are dropped, and an offset from the stack
-- pointer names a place of the frame.
abbrev pub IsWithin : FrameLayout → ℕ → Line → ℕ → Type 0
IsWithin frame limit Line.push d = d < limit
IsWithin frame limit (Line.adjust_sp (pos n)) d = n ≤ d
IsWithin frame limit (Line.adjust_sp (negsuc n)) d = ⊥
IsWithin frame limit (Line.load_sp o) d = Names frame d o
IsWithin frame limit (Line.store_sp o) d = Names frame d o
IsWithin frame limit (Line.compare_sp o) d = Names frame d o
IsWithin frame limit (Line.stack_binary op o) d = Names frame d o
IsWithin frame limit line d = Unit

-- The lines start with `d` words on the stack and end with `k`, with `limit` at most between.
unfoldable pub Pushes : FrameLayout → ℕ → ℕ → List Line → ℕ → Type 0
Pushes frame limit d [] k = d ≡ k
Pushes frame limit d (line ∷ lines) k =
    IsWithin frame limit line d × Pushes frame limit (depth_after line d) lines k

pub Pushes-append :
    (frame : FrameLayout) (limit d m k : ℕ) (lines more : List Line)
    → Pushes frame limit d lines m
    → Pushes frame limit m more k
    → Pushes frame limit d (lines ++ more) k
unfolding Pushes
Pushes-append frame limit d m k [] more h later =
    subst (λ x. Pushes frame limit x more k) (sym h) later
Pushes-append frame limit d m k (line ∷ lines) more (h, hs) later =
    (h, Pushes-append frame limit (depth_after line d) m k lines more hs later)

-- A variable that has a place of the frame, if it is not global.
abbrev pub IsFitting : FrameLayout → ResolvedVariable → Type 0
IsFitting frame (ResolvedVariable.local slot) = slot < frame.local_count
IsFitting frame (ResolvedVariable.parameter index) = index < frame.parameter_count
IsFitting frame (ResolvedVariable.global symbol) = Unit

pub load_variable-Pushes :
    (frame : FrameLayout) (limit d : ℕ) (x : ResolvedVariable)
    → IsFitting frame x
    → Pushes frame limit d (load_variable frame x d) d
unfolding Pushes
load_variable-Pushes frame limit d (ResolvedVariable.local slot) h =
    ((Place.local slot, h, refl), refl)
load_variable-Pushes frame limit d (ResolvedVariable.parameter index) h =
    ((Place.parameter index, h, refl), refl)
load_variable-Pushes frame limit d (ResolvedVariable.global symbol) h = (tt, refl)

pub store_variable-Pushes :
    (frame : FrameLayout) (limit d : ℕ) (x : ResolvedVariable)
    → IsFitting frame x
    → Pushes frame limit d (store_variable frame x d) d
unfolding Pushes
store_variable-Pushes frame limit d (ResolvedVariable.local slot) h =
    ((Place.local slot, h, refl), refl)
store_variable-Pushes frame limit d (ResolvedVariable.parameter index) h =
    ((Place.parameter index, h, refl), refl)
store_variable-Pushes frame limit d (ResolvedVariable.global symbol) h = (tt, refl)

if-Pushes :
    (frame : FrameLayout) (limit d : ℕ) (test : Bool) (lines other : List Line)
    → Pushes frame limit d lines d
    → Pushes frame limit d other d
    → Pushes frame limit d (if test then lines else other) d
if-Pushes frame limit d true lines other h k = h
if-Pushes frame limit d false lines other h k = k

pub load_constant-Pushes :
    (frame : FrameLayout) (limit d value : ℕ) → Pushes frame limit d (load_constant value) d
unfolding Pushes
load_constant-Pushes frame limit d value =
    if-Pushes frame limit d (is_immediate (signed32 value))
      (Line.load_immediate (signed32 value) ∷ [])
      (Line.clear ∷ Line.load_high (value / 2 ^ 16) ∷ Line.load_low (value % 2 ^ 16) ∷ [])
      (tt, refl) (tt, (tt, (tt, refl)))

-- The first temporary of a context, and the next one.
pub first_temporary :
    (frame : FrameLayout) (c : EvalContext)
    → c.temporary < frame.temporary_count
    → Names frame c.adjustment (context_offset frame c)
first_temporary frame c h = (Place.temporary c.temporary, h, refl)

pub second_temporary :
    (frame : FrameLayout) (c : EvalContext)
    → suc c.temporary < frame.temporary_count
    → Names frame c.adjustment (context_offset frame (next_temp c))
second_temporary frame c h = (Place.temporary (suc c.temporary), h, refl)

-- What the code of an operator needs of the temporaries.
abbrev pub HasTemporary : FrameLayout → UnOp → EvalContext → Type 0
HasTemporary frame UnOp.neg c = c.temporary < frame.temporary_count
HasTemporary frame op c = Unit

pub unary_code-Pushes :
    (frame : FrameLayout) (limit : ℕ) (op : UnOp) (c : EvalContext) (next : ℕ)
    → HasTemporary frame op c
    → Pushes frame limit c.adjustment (unary_code frame op c next).0 c.adjustment
unfolding Pushes
unary_code-Pushes frame limit UnOp.plus c next h = refl
unary_code-Pushes frame limit UnOp.bit_not c next h = (tt, refl)
unary_code-Pushes frame limit UnOp.neg c next h =
    (first_temporary frame c h, (tt, (first_temporary frame c h, refl)))
unary_code-Pushes frame limit UnOp.not c next h = (tt, (tt, (tt, (tt, (tt, (tt, (tt, refl)))))))

runtime_operation-Pushes :
    (frame : FrameLayout) (limit : ℕ) (name : String) (ty : ScalarType) (c : EvalContext) (next : ℕ)
    → suc c.temporary < frame.temporary_count
    → c.adjustment + 2 ≤ limit
    → Pushes frame limit c.adjustment (runtime_operation frame name ty c next).0 c.adjustment
unfolding Pushes
runtime_operation-Pushes frame limit name ty c next h k = (
  second_temporary frame c h,
  (
    omega arith,
    (
      (Place.temporary c.temporary, omega arith, omega arith),
      (omega arith, (tt, (omega arith, omega arith))),
    ),
  ),
)

stack_operation-Pushes :
    (frame : FrameLayout) (limit : ℕ) (op : StackBinaryOp) (c : EvalContext) (next : ℕ)
    → suc c.temporary < frame.temporary_count
    → Pushes frame limit c.adjustment (stack_operation frame op c next).0 c.adjustment
unfolding Pushes
stack_operation-Pushes frame limit op c next h =
    (first_temporary frame c (omega arith), (second_temporary frame c h, refl))

comparison-Pushes :
    (frame : FrameLayout) (limit : ℕ) (condition : BranchCondition) (c : EvalContext) (next : ℕ)
    → suc c.temporary < frame.temporary_count
    → Pushes frame limit c.adjustment (comparison frame condition c next).0 c.adjustment
unfolding Pushes
comparison-Pushes frame limit condition c next h = (
  first_temporary frame c (omega arith),
  (second_temporary frame c h, (tt, (tt, (tt, (tt, (tt, (tt, refl))))))),
)

pub operation-Pushes :
    (frame : FrameLayout) (limit : ℕ) (op : BinOp) (ty : ScalarType) (c : EvalContext) (next : ℕ)
    → suc c.temporary < frame.temporary_count
    → c.adjustment + runtime_arguments op ≤ limit
    → Pushes frame limit c.adjustment (operation frame op ty c next).0 c.adjustment
unfolding Pushes
operation-Pushes frame limit BinOp.mul ty c next h k =
    runtime_operation-Pushes frame limit "mul" ty c next h k
operation-Pushes frame limit BinOp.div ty c next h k =
    runtime_operation-Pushes frame limit "div" ty c next h k
operation-Pushes frame limit BinOp.mod_op ty c next h k =
    runtime_operation-Pushes frame limit "mod" ty c next h k
operation-Pushes frame limit BinOp.add ty c next h k =
    stack_operation-Pushes frame limit StackBinaryOp.add c next h
operation-Pushes frame limit BinOp.sub ty c next h k =
    stack_operation-Pushes frame limit StackBinaryOp.subtract c next h
operation-Pushes frame limit BinOp.bit_and ty c next h k =
    stack_operation-Pushes frame limit StackBinaryOp.and c next h
operation-Pushes frame limit BinOp.bit_xor ty c next h k =
    stack_operation-Pushes frame limit StackBinaryOp.xor c next h
operation-Pushes frame limit BinOp.bit_or ty c next h k =
    stack_operation-Pushes frame limit StackBinaryOp.or c next h
operation-Pushes frame limit BinOp.eq ty c next h k =
    comparison-Pushes frame limit BranchCondition.equal c next h
operation-Pushes frame limit BinOp.ne ty c next h k =
    comparison-Pushes frame limit BranchCondition.not_equal c next h
operation-Pushes frame limit BinOp.lt ty c next h k =
    comparison-Pushes frame limit
      (by_type ty BranchCondition.unsigned_less BranchCondition.signed_less) c next h
operation-Pushes frame limit BinOp.le ty c next h k =
    comparison-Pushes frame limit
      (by_type ty BranchCondition.unsigned_less_equal BranchCondition.signed_less_equal) c next h
operation-Pushes frame limit BinOp.gt ty c next h k =
    comparison-Pushes frame limit
      (by_type ty BranchCondition.unsigned_greater BranchCondition.signed_greater) c next h
operation-Pushes frame limit BinOp.ge ty c next h k =
    comparison-Pushes frame limit
      (by_type ty BranchCondition.unsigned_greater_equal BranchCondition.signed_greater_equal) c
      next h
operation-Pushes frame limit BinOp.and ty c next h k = refl
operation-Pushes frame limit BinOp.or ty c next h k = refl

pub drop_arguments-Pushes :
    (frame : FrameLayout) (limit d n : ℕ) → Pushes frame limit (d + n) (drop_arguments n) d
unfolding Pushes
drop_arguments-Pushes frame limit d zero = omega arith
drop_arguments-Pushes frame limit d (suc n) = (omega arith, omega arith)
