-- ===== src/Cc/Codegen/Expressions.antt =====
-- The code of expressions: crates/ex3-core/src/cc/codegen/expr.rs, with `EvalContext` of frame.rs and
-- the loads and stores of function.rs. What only feeds the debug records is left out, with its
-- conversions to 16 and 32 bits, and so is the flag `uses_runtime`. `LabelFactory` is the next free
-- number, and a generator gives its lines with the number behind them.
use Prim.Native.String.{String, ◌++◌ as str_append}
use ex3_rust.Prelude.{
  ℕ, zero, suc, ◌+◌, ◌/◌, ◌%◌, ◌^◌, Bool, true, false, ◌&&◌, if◌then◌else◌, List, [], ◌∷◌, ◌++◌, ℤ,
  pos, negsuc, signed32, leb_ℤ,
}
use ex3_rust.Cc.Ast.{ScalarType, int32, uint32, UnOp, BinOp}
use ex3_rust.Cc.Sema.Ir.{
  putchar, getchar, ResolvedCallee, ResolvedVariable, ResolvedExpr, ResolvedArgs,
}
use ex3_rust.Cc.Sema.Typing.{count}
use ex3_rust.Cc.Codegen.Frame.{FrameLayout, local_offset, temporary_offset, parameter_offset}
use ex3_rust.Cc.Codegen.Emitter.{Label, LabelKind, BranchCondition, StackBinaryOp, Line}

pub record EvalContext : Type 0 where
  pub temporary : ℕ
  pub adjustment : ℕ

-- `EvalContext::root`.
abbrev pub root : EvalContext
root = record { temporary = 0; adjustment = 0 }

abbrev pub next_temp : EvalContext → EvalContext
next_temp c = record c { temporary = suc c.temporary }

-- `with_dynamic_slot`, as often as words are pushed.
abbrev pub with_dynamic_slots : ℕ → EvalContext → EvalContext
with_dynamic_slots n c = record c { adjustment = c.adjustment + n }

abbrev pub Generated : Type 0
Generated = List Line × ℕ

-- `temporary_offset` of function.rs.
abbrev pub context_offset : FrameLayout → EvalContext → ℕ
context_offset frame c = temporary_offset frame c.temporary c.adjustment

abbrev pub load_variable : FrameLayout → ResolvedVariable → ℕ → List Line
load_variable frame (ResolvedVariable.local slot) adjustment =
    Line.load_sp (local_offset frame slot adjustment) ∷ []
load_variable frame (ResolvedVariable.parameter index) adjustment =
    Line.load_sp (parameter_offset frame index adjustment) ∷ []
load_variable frame (ResolvedVariable.global symbol) adjustment = Line.load_global symbol ∷ []

abbrev pub store_variable : FrameLayout → ResolvedVariable → ℕ → List Line
store_variable frame (ResolvedVariable.local slot) adjustment =
    Line.store_sp (local_offset frame slot adjustment) ∷ []
store_variable frame (ResolvedVariable.parameter index) adjustment =
    Line.store_sp (parameter_offset frame index adjustment) ∷ []
store_variable frame (ResolvedVariable.global symbol) adjustment = Line.store_global symbol ∷ []

-- `(-32768..=32767).contains`.
abbrev pub is_immediate : ℤ → Bool
is_immediate value = leb_ℤ (negsuc 32767) value && leb_ℤ value (pos 32767)

abbrev pub load_constant : ℕ → List Line
load_constant value =
    if is_immediate (signed32 value)
    then Line.load_immediate (signed32 value) ∷ []
    else Line.clear ∷ Line.load_high (value / 2 ^ 16) ∷ Line.load_low (value % 2 ^ 16) ∷ []

-- Loads one of two numbers, by a branch to the second.
abbrev pub choose : BranchCondition → (taken end : Label) → List Line
choose condition taken end =
    Line.branch condition taken
    ∷ Line.load_immediate (pos 0)
    ∷ Line.jump end
    ∷ Line.label taken
    ∷ Line.load_immediate (pos 1)
    ∷ Line.label end
    ∷ []

abbrev pub fresh_label : LabelKind → ℕ → Label
fresh_label kind next = record { id = next; kind = kind }

abbrev pub emit_boolean_branch : BranchCondition → ℕ → Generated
emit_boolean_branch condition next = (
  choose condition (fresh_label LabelKind.true_part next)
      (fresh_label LabelKind.bool_end (suc next)),
  next + 2,
)

-- `comparison_condition`, on the six comparisons.
abbrev pub by_type : ScalarType → (unsigned signed : BranchCondition) → BranchCondition
by_type uint32 unsigned signed = unsigned
by_type int32 unsigned signed = signed

-- `generate_unary`, behind the code of the operand.
abbrev pub unary_code : FrameLayout → UnOp → EvalContext → ℕ → Generated
unary_code frame UnOp.plus c next = ([], next)
unary_code frame UnOp.bit_not c next = (Line.complement ∷ [], next)
unary_code frame UnOp.neg c next = (
  Line.store_sp (context_offset frame c)
      ∷ Line.clear
      ∷ Line.stack_binary StackBinaryOp.subtract (context_offset frame c)
      ∷ [],
  next,
)
unary_code frame UnOp.not c next = (
  Line.compare_zero
      ∷ choose BranchCondition.equal (fresh_label LabelKind.not next)
          (fresh_label LabelKind.not_end (suc next)),
  next + 2,
)

abbrev pub stack_operation : FrameLayout → StackBinaryOp → EvalContext → ℕ → Generated
stack_operation frame op c next = (
  Line.load_sp (context_offset frame c)
      ∷ Line.stack_binary op (context_offset frame (next_temp c))
      ∷ [],
  next,
)

abbrev pub type_name : ScalarType → String
type_name uint32 = "u32"
type_name int32 = "i32"

-- A helper of the runtime: the right operand is pushed, then the left one.
abbrev pub runtime_operation : FrameLayout → String → ScalarType → EvalContext → ℕ → Generated
runtime_operation frame name ty c next = (
  Line.load_sp (context_offset frame (next_temp c))
      ∷ Line.push
      ∷ Line.load_sp (temporary_offset frame c.temporary (c.adjustment + 1))
      ∷ Line.push
      ∷ Line.call (str_append "__ex3_" (str_append name (str_append "_" (type_name ty))))
      ∷ Line.adjust_sp (pos 2)
      ∷ [],
  next,
)

abbrev pub comparison : FrameLayout → BranchCondition → EvalContext → ℕ → Generated
comparison frame condition c next =
    let (lines, after) = emit_boolean_branch condition next in
    (
      Line.load_sp (context_offset frame c)
          ∷ Line.compare_sp (context_offset frame (next_temp c))
          ∷ lines,
      after,
    )

-- The last `match` of `generate_binary_expression`, with the left operand in the temporary of the
-- context and the right one in the next.
abbrev pub operation : FrameLayout → BinOp → ScalarType → EvalContext → ℕ → Generated
operation frame BinOp.add ty c next = stack_operation frame StackBinaryOp.add c next
operation frame BinOp.sub ty c next = stack_operation frame StackBinaryOp.subtract c next
operation frame BinOp.bit_and ty c next = stack_operation frame StackBinaryOp.and c next
operation frame BinOp.bit_xor ty c next = stack_operation frame StackBinaryOp.xor c next
operation frame BinOp.bit_or ty c next = stack_operation frame StackBinaryOp.or c next
operation frame BinOp.mul ty c next = runtime_operation frame "mul" ty c next
operation frame BinOp.div ty c next = runtime_operation frame "div" ty c next
operation frame BinOp.mod_op ty c next = runtime_operation frame "mod" ty c next
operation frame BinOp.eq ty c next = comparison frame BranchCondition.equal c next
operation frame BinOp.ne ty c next = comparison frame BranchCondition.not_equal c next
operation frame BinOp.lt ty c next =
    comparison frame (by_type ty BranchCondition.unsigned_less BranchCondition.signed_less) c next
operation frame BinOp.le ty c next =
    comparison frame
      (by_type ty BranchCondition.unsigned_less_equal BranchCondition.signed_less_equal) c next
operation frame BinOp.gt ty c next =
    comparison frame (by_type ty BranchCondition.unsigned_greater BranchCondition.signed_greater) c
      next
operation frame BinOp.ge ty c next =
    comparison frame
      (by_type ty BranchCondition.unsigned_greater_equal BranchCondition.signed_greater_equal) c
      next
-- `generate_expression` sends these two to `generate_logical_expression`.
operation frame BinOp.and ty c next = ([], next)
operation frame BinOp.or ty c next = ([], next)

abbrev pub is_logical : BinOp → Bool
is_logical BinOp.and = true
is_logical BinOp.or = true
is_logical op = false

abbrev pub is_and : BinOp → Bool
is_and BinOp.and = true
is_and op = false

-- The two jumps out of a logical expression, and its end, by the operation.
abbrev pub short_circuit : BinOp → Label → List Line
short_circuit op short =
    Line.compare_zero
    ∷ Line.branch (if is_and op then BranchCondition.equal else BranchCondition.not_equal) short
    ∷ []

abbrev pub logical_end : BinOp → (short end : Label) → List Line
logical_end op short end =
    Line.load_immediate (if is_and op then pos 1 else pos 0)
    ∷ Line.jump end
    ∷ Line.label short
    ∷ Line.load_immediate (if is_and op then pos 0 else pos 1)
    ∷ Line.label end
    ∷ []

-- `builtins::lookup` gives the names of the built-in functions.
abbrev pub callee_name : ResolvedCallee → String
callee_name (ResolvedCallee.user name) = name
callee_name (ResolvedCallee.builtin putchar) = "__ex3_putchar"
callee_name (ResolvedCallee.builtin getchar) = "__ex3_getchar"

abbrev pub drop_arguments : ℕ → List Line
drop_arguments zero = []
drop_arguments (suc n) = Line.adjust_sp (pos (suc n)) ∷ []

unfoldable mutual
  pub generate_expression : FrameLayout → ResolvedExpr → EvalContext → ℕ → Generated
  generate_expression frame (ResolvedExpr.number value ty) c next = (load_constant value, next)
  generate_expression frame (ResolvedExpr.load x ty) c next =
      (load_variable frame x c.adjustment, next)
  generate_expression frame (ResolvedExpr.assign x e ty) c next =
      let (lines, after) = generate_expression frame e c next in
      (lines ++ store_variable frame x c.adjustment, after)
  generate_expression frame (ResolvedExpr.unary op e ty) c next =
      let (lines, after) = generate_expression frame e c next in
      let (more, last) = unary_code frame op c after in (lines ++ more, last)
  generate_expression frame (ResolvedExpr.binary op lhs rhs operand_type ty) c next =
      elim (is_logical op) [
        | true ↦
            let short = fresh_label LabelKind.logic next in
            let end = fresh_label LabelKind.logic_end (suc next) in
            let (left, n₁) = generate_expression frame lhs c (next + 2) in
            let (right, n₂) = generate_expression frame rhs c n₁ in
            (
              left
                  ++ (short_circuit op short
                      ++ (right ++ (short_circuit op short ++ logical_end op short end))),
              n₂,
            )
        | false ↦
            let (left, n₁) = generate_expression frame lhs c next in
            let (right, n₂) = generate_expression frame rhs (next_temp c) n₁ in
            let (lines, n₃) = operation frame op operand_type c n₂ in
            (
              left
                  ++ (Line.store_sp (context_offset frame c)
                      ∷ (right ++ (Line.store_sp (context_offset frame (next_temp c)) ∷ lines))),
              n₃,
            )
      ]
  generate_expression frame (ResolvedExpr.call callee args ty) c next =
      let (lines, after) = generate_arguments frame args c next in
      (lines ++ (Line.call (callee_name callee) ∷ drop_arguments (count args)), after)

  -- The arguments, the last one first, each pushed.
  pub generate_arguments : FrameLayout → ResolvedArgs → EvalContext → ℕ → Generated
  generate_arguments frame ResolvedArgs.nil c next = ([], next)
  generate_arguments frame (ResolvedArgs.cons e es) c next =
      let (later, n₁) = generate_arguments frame es c next in
      let (lines, n₂) = generate_expression frame e (with_dynamic_slots (count es) c) n₁ in
      (later ++ (lines ++ Line.push ∷ []), n₂)
