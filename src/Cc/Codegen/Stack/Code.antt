-- ===== src/Cc/Codegen/Stack/Code.antt =====
-- The words that the code of an expression pushes, by induction on the expression.
use ex3_rust.Prelude.{ℕ, suc, ◌+◌, ◌≤◌, ◌≡◌, refl, arith, Bool, true, false}
use ex3_rust.Cc.Ast.{UnOp, BinOp, CcType}
use ex3_rust.Cc.Sema.Ir.{ResolvedVariable, ResolvedExpr, ResolvedArgs}
use ex3_rust.Cc.Sema.Typing.{Frame, IsVariable, IsTyped, IsValue, AreValues, common, count}
use ex3_rust.Cc.Codegen.Counts.{
  temporary_count_unary, temporary_count_binary, temporary_count_expression,
  temporary_count_arguments, maximum_dynamic_slots_expression, maximum_dynamic_slots_arguments,
}
use ex3_rust.Cc.Codegen.Frame.{FrameLayout}
use ex3_rust.Cc.Codegen.Expressions.{
  EvalContext, next_temp, with_dynamic_slots, Generated, is_logical, generate_expression,
  generate_arguments,
}
use ex3_rust.Cc.Codegen.Stack.{
  Pushes, Pushes-append, IsFitting, load_variable-Pushes, store_variable-Pushes,
  load_constant-Pushes, HasTemporary, first_temporary, second_temporary, unary_code-Pushes,
  operation-Pushes, drop_arguments-Pushes,
}

HasTemporary-count :
    (frame : FrameLayout) (op : UnOp) (n : ℕ) (c : EvalContext)
    → c.temporary + temporary_count_unary op n ≤ frame.temporary_count
    → HasTemporary frame op c × (c.temporary + n ≤ frame.temporary_count)
HasTemporary-count frame UnOp.neg n c h = (omega arith, omega arith)
HasTemporary-count frame UnOp.not n c h = (tt, h)
HasTemporary-count frame UnOp.plus n c h = (tt, h)
HasTemporary-count frame UnOp.bit_not n c h = (tt, h)

-- The operands of an operation, of which only the logical ones share their temporaries.
temporary_count_binary-operands :
    (op : BinOp) (m n : ℕ)
    → (m ≤ temporary_count_binary op m n)
      × (n ≤ temporary_count_binary op m n)
      × (is_logical op ≡ false
          → (suc n ≤ temporary_count_binary op m n) × (2 ≤ temporary_count_binary op m n))
temporary_count_binary-operands BinOp.and m n =
    (omega arith, omega arith, λ absent. absurd (cc absent))
temporary_count_binary-operands BinOp.or m n =
    (omega arith, omega arith, λ absent. absurd (cc absent))
temporary_count_binary-operands BinOp.mul m n =
    (omega arith, omega arith, λ e. (omega arith, omega arith))
temporary_count_binary-operands BinOp.div m n =
    (omega arith, omega arith, λ e. (omega arith, omega arith))
temporary_count_binary-operands BinOp.mod_op m n =
    (omega arith, omega arith, λ e. (omega arith, omega arith))
temporary_count_binary-operands BinOp.add m n =
    (omega arith, omega arith, λ e. (omega arith, omega arith))
temporary_count_binary-operands BinOp.sub m n =
    (omega arith, omega arith, λ e. (omega arith, omega arith))
temporary_count_binary-operands BinOp.bit_and m n =
    (omega arith, omega arith, λ e. (omega arith, omega arith))
temporary_count_binary-operands BinOp.bit_xor m n =
    (omega arith, omega arith, λ e. (omega arith, omega arith))
temporary_count_binary-operands BinOp.bit_or m n =
    (omega arith, omega arith, λ e. (omega arith, omega arith))
temporary_count_binary-operands BinOp.eq m n =
    (omega arith, omega arith, λ e. (omega arith, omega arith))
temporary_count_binary-operands BinOp.ne m n =
    (omega arith, omega arith, λ e. (omega arith, omega arith))
temporary_count_binary-operands BinOp.lt m n =
    (omega arith, omega arith, λ e. (omega arith, omega arith))
temporary_count_binary-operands BinOp.le m n =
    (omega arith, omega arith, λ e. (omega arith, omega arith))
temporary_count_binary-operands BinOp.gt m n =
    (omega arith, omega arith, λ e. (omega arith, omega arith))
temporary_count_binary-operands BinOp.ge m n =
    (omega arith, omega arith, λ e. (omega arith, omega arith))

either-Pushes :
    (frame : FrameLayout) (limit d : ℕ) (test : Bool) (x y : Generated)
    → (test ≡ true → Pushes frame limit d x.0 d)
    → (test ≡ false → Pushes frame limit d y.0 d)
    → Pushes frame limit d (elim test as (λ b. Generated) [ true ↦ x | false ↦ y ]).0 d
either-Pushes frame limit d true x y h k = h refl
either-Pushes frame limit d false x y h k = k refl

module _ (frame : FrameLayout) (limit : ℕ) (f : Frame)
    (fitting : (x : ResolvedVariable) (ty : CcType) → IsVariable f x ty → IsFitting frame x) where
  mutual
    unfolding Pushes generate_expression maximum_dynamic_slots_expression temporary_count_expression

    pub expression-Pushes :
        (e : ResolvedExpr) (c : EvalContext) (next : ℕ)
        → IsTyped f e
        → c.adjustment + maximum_dynamic_slots_expression e ≤ limit
        → c.temporary + temporary_count_expression e ≤ frame.temporary_count
        → Pushes frame limit c.adjustment (generate_expression frame e c next).0 c.adjustment
    expression-Pushes (ResolvedExpr.number value ty) c next t h k =
        load_constant-Pushes frame limit c.adjustment value
    expression-Pushes (ResolvedExpr.load x ty) c next (IsTyped.load v) h k =
        load_variable-Pushes frame limit c.adjustment x (fitting x ty v)
    expression-Pushes (ResolvedExpr.assign x e ty) c next (IsTyped.assign v value) h k =
        Pushes-append frame limit c.adjustment c.adjustment c.adjustment _ _
          (value-Pushes e c next value h k)
          (store_variable-Pushes frame limit c.adjustment x (fitting x ty v))
    expression-Pushes (ResolvedExpr.unary op e _) c next (IsTyped.unary ty t same) h k =
        let (own, operand) = HasTemporary-count frame op (temporary_count_expression e) c k in
        Pushes-append frame limit c.adjustment c.adjustment c.adjustment _ _
          (expression-Pushes e c next t h operand) (unary_code-Pushes frame limit op c _ own)
    expression-Pushes (ResolvedExpr.binary op lhs rhs _ _) c next (IsTyped.binary l r s e t k) h m =
        let d = c.adjustment in
        let l_limit : d + maximum_dynamic_slots_expression lhs ≤ limit = omega (arith, h) in
        let r_limit : d + maximum_dynamic_slots_expression rhs ≤ limit = omega (arith, h) in
        let (l_count, r_count, apart) =
          temporary_count_binary-operands op (temporary_count_expression lhs)
            (temporary_count_expression rhs) in
        let left = λ (n : ℕ). expression-Pushes lhs c n s l_limit (omega (arith, m, l_count)) in
        either-Pushes frame limit d (is_logical op) _ _
          (λ logical. Pushes-append frame limit d d d _ _ (left (next + 2)) (
            tt,
            (
              tt,
              Pushes-append frame limit d d d _ _
                  (expression-Pushes rhs c _ t r_limit (omega (arith, m, r_count)))
                  (tt, (tt, (tt, (tt, (tt, (tt, (tt, refl))))))),
            ),
          ))
          (λ plain.
            let (r_next, two) = apart plain in
            Pushes-append frame limit d d d _ _ (left next) (
              first_temporary frame c (omega (arith, m, two)),
              Pushes-append frame limit d d d _ _
                  (expression-Pushes rhs (next_temp c) _ t r_limit (omega (arith, m, r_next)))
                  (
                    second_temporary frame c (omega (arith, m, two)),
                    operation-Pushes frame limit op (common l r) c _ (omega (arith, m, two))
                        (omega (arith, h)),
                  ),
            ))
    expression-Pushes (ResolvedExpr.call callee args _) c next
          (IsTyped.call name signature known callable arity values) h k =
        Pushes-append frame limit c.adjustment (c.adjustment + count args) c.adjustment _ _
          (arguments-Pushes args c next values (omega (arith, h)) (omega (arith, h)) k)
          (tt, drop_arguments-Pushes frame limit c.adjustment (count args))

    pub value-Pushes :
        (e : ResolvedExpr) (c : EvalContext) (next : ℕ)
        → IsValue f e
        → c.adjustment + maximum_dynamic_slots_expression e ≤ limit
        → c.temporary + temporary_count_expression e ≤ frame.temporary_count
        → Pushes frame limit c.adjustment (generate_expression frame e c next).0 c.adjustment
    value-Pushes e c next (IsValue.scalar_value ty t same) h k = expression-Pushes e c next t h k

    arguments-Pushes :
        (es : ResolvedArgs) (c : EvalContext) (next : ℕ)
        → AreValues f es
        → c.adjustment + maximum_dynamic_slots_arguments es ≤ limit
        → c.adjustment + count es ≤ limit
        → c.temporary + temporary_count_arguments es ≤ frame.temporary_count
        → Pushes frame limit c.adjustment
            (generate_arguments frame es c next).0
            (c.adjustment + count es)
    arguments-Pushes ResolvedArgs.nil c next values h k m = omega arith
    arguments-Pushes (ResolvedArgs.cons e es) c next (AreValues.cons value values) h k m =
        Pushes-append frame limit c.adjustment (c.adjustment + count es) _ _ _
          (arguments-Pushes es c next values (omega (arith, h)) (omega arith) (omega (arith, m)))
          (Pushes-append frame limit (c.adjustment + count es) (c.adjustment + count es) _ _ _
            (value-Pushes e (with_dynamic_slots (count es) c) _ value (omega (arith, h))
              (omega (arith, m)))
            (omega arith, omega arith))
