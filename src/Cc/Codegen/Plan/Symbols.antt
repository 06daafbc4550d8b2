-- ===== src/Cc/Codegen/Plan/Symbols.antt =====
-- What the analysis makes of a function fits the frame that is planned for it: its symbols, and the
-- code of its expressions.
use mathlib.Core.List.{Memᴰ}
use ex3_rust.Prelude.{
  element, some, ℕ, zero, suc, ◌≤◌, ◌<◌, ◌≡◌, refl, sym, ap, ◌∙◌, subst, arith, List, [], ◌∷◌,
  length, length-append, map, All, All-append,
}
use ex3_rust.Prelude.Maps.{Map}
use ex3_rust.Cc.Ast.{CcType, Param, Function, Item}
use ex3_rust.Cc.Sema.Builtins.{FunctionSignature}
use ex3_rust.Cc.Sema.Ir.{ResolvedVariable, ResolvedFunction, LocalDebugSymbol, FunctionDebugSymbols}
use ex3_rust.Cc.Sema.Collect.{SymbolTables}
use ex3_rust.Cc.Sema.Typing.Resolution.{upto}
use ex3_rust.Cc.Sema.Typing.{Frame, HasLocal, IsVariable, defined}
use ex3_rust.Cc.Sema.Typing.Functions.{AreIndexed, IsResolved, types_of}
use ex3_rust.Cc.Sema.Typing.Programs.{Made, AreResolved}
use ex3_rust.Cc.Codegen.Counts.{maximum_dynamic_slots_statement}
use ex3_rust.Cc.Codegen.Frame.{FrameLayout, plan as plan_frame}
use ex3_rust.Cc.Codegen.Stack.{IsFitting}
use ex3_rust.Cc.Codegen.Stack.Bodies.{EachExpression, IsRunnable, statement-IsRunnable}
use ex3_rust.Cc.Codegen.Frame.Debug.{Fits}

-- The code of each expression of the body pushes as many words as are reckoned with, at most, and
-- names places of the frame.
abbrev pub IsRunnableBody : ResolvedFunction → Type 0
IsRunnableBody f =
    EachExpression (IsRunnable (plan_frame f) (maximum_dynamic_slots_statement f.body)) f.body

-- The symbols and the code of each function fit its frame.
pub data AreFit : List ResolvedFunction → List FunctionDebugSymbols → Type 0 where
  no_functions : AreFit [] []
  fits :
      {fs : List ResolvedFunction} {symbols : List FunctionDebugSymbols} (f : ResolvedFunction)
      (s : FunctionDebugSymbols)
      → Fits (plan_frame f) s
      → IsRunnableBody f
      → AreFit fs symbols
      → AreFit (f ∷ fs) (s ∷ symbols)

upto-below : (n bound : ℕ) → n ≤ bound → All (λ k. k < bound) (upto n)
upto-below zero bound h = tt
upto-below (suc n) bound h =
    All-append (λ k. k < bound) (upto n) (n ∷ []) (upto-below n bound (omega arith))
      (omega arith, tt)

length-upto : (n : ℕ) → length (upto n) ≡ n
length-upto zero = refl
length-upto (suc n) =
    let e = length-append (upto n) (n ∷ []) in let k = length-upto n in omega (arith, e, k)

length-slots :
    (xs : List LocalDebugSymbol) → length (map (λ (x : LocalDebugSymbol). x.slot) xs) ≡ length xs
length-slots [] = refl
length-slots (x ∷ xs) = ap suc (length-slots xs)

All-slots :
    (P : ℕ → Type 0) (xs : List LocalDebugSymbol)
    → All P (map (λ (x : LocalDebugSymbol). x.slot) xs)
    → All (λ (x : LocalDebugSymbol). P x.slot) xs
All-slots P [] h = tt
All-slots P (x ∷ xs) (h, hs) = (h, All-slots P xs hs)

IsResolved-Fits :
    (f : ResolvedFunction) (s : FunctionDebugSymbols)
    → AreIndexed 0 f.parameter_count s.parameters
    → map (λ (x : LocalDebugSymbol). x.slot) s.locals ≡ upto f.local_count
    → Fits (plan_frame f) s
unfolding plan_frame
IsResolved-Fits f s (count, indices) slots = record {
  locals = sym (length-slots s.locals) ∙ ap length slots ∙ length-upto f.local_count;
  parameters = omega (arith, count);
  slots =
      All-slots (λ k. k < f.local_count) s.locals
        (subst (All (λ k. k < f.local_count)) (sym slots)
          (upto-below f.local_count f.local_count (omega arith)));
  indices = indices;
}

element-below :
    {A : Type 0} (index : ℕ) (xs : List A) (x : A) → element index xs ≡ some x → index < length xs
unfolding element
element-below index [] x e = absurd (cc e)
element-below zero (y ∷ xs) x e = omega arith
element-below (suc index) (y ∷ xs) x e =
    let below = element-below index xs x e in omega (arith, below)

All-member :
    (P : LocalDebugSymbol → Type 0) (xs : List LocalDebugSymbol) (x : LocalDebugSymbol)
    → All P xs
    → Memᴰ x xs
    → P x
All-member P [] x h member = elim member [ ]
All-member P (y ∷ xs) x (h, hs) (Memᴰ.head e) = subst P (sym e) h
All-member P (y ∷ xs) x (h, hs) (Memᴰ.tail m) = All-member P xs x hs m

length-types_of : (ps : List Param) → length (types_of ps) ≡ length ps
length-types_of [] = refl
length-types_of (p ∷ ps) = ap suc (length-types_of ps)

IsVariable-IsFitting :
    (frame : FrameLayout) (f : Frame)
    → All (λ (x : LocalDebugSymbol). x.slot < frame.local_count) f.locals
    → length f.parameters ≡ frame.parameter_count
    → (x : ResolvedVariable) (ty : CcType) → IsVariable f x ty
    → IsFitting frame x
IsVariable-IsFitting frame f slots count (ResolvedVariable.local slot) ty
      (HasLocal.known symbol member same typed) =
    subst (λ k. k < frame.local_count) same
      (All-member (λ (x : LocalDebugSymbol). x.slot < frame.local_count) f.locals symbol slots
        member)
IsVariable-IsFitting frame f slots count (ResolvedVariable.parameter index) ty known =
    let below = element-below index f.parameters ty known in omega (arith, below, count)
IsVariable-IsFitting frame f slots count (ResolvedVariable.global symbol) ty known = tt

IsResolved-IsRunnableBody :
    (globals : Map CcType) (functions : Map FunctionSignature) (source : Function) (made : Made)
    → IsResolved globals functions source made
    → IsRunnableBody made.0
unfolding plan_frame
IsResolved-IsRunnableBody globals functions source made r =
    let fit = IsResolved-Fits made.0 made.1 r.indexed r.slots in
    let frame = plan_frame made.0 in
    let offered : Frame = record {
      globals = globals;
      functions = functions;
      parameters = types_of source.params;
      locals = made.1.locals;
      ret = source.ret;
      labels = defined made.0.body;
    } in
    statement-IsRunnable frame (maximum_dynamic_slots_statement made.0.body) offered
      (IsVariable-IsFitting frame offered fit.slots
        (length-types_of source.params ∙ sym r.parameters))
      0 0 made.0.body r.typed (omega arith) (omega arith)

pub AreResolved-AreFit :
    (tables : SymbolTables) (items : List Item) (made : List Made)
    → AreResolved tables items made
    → AreFit (map (λ (m : Made). m.0) made) (map (λ (m : Made). m.1) made)
AreResolved-AreFit tables _ _ AreResolved.no_items = AreFit.no_functions
AreResolved-AreFit tables _ _ (AreResolved.global {items} {made} g r) =
    AreResolved-AreFit tables items made r
AreResolved-AreFit tables _ _ (AreResolved.prototype {items} {made} f e r) =
    AreResolved-AreFit tables items made r
AreResolved-AreFit tables _ _ (AreResolved.definition {items} {made} f body first e resolved r) =
    AreFit.fits first.0 first.1 (IsResolved-Fits first.0 first.1 resolved.indexed resolved.slots)
      (IsResolved-IsRunnableBody tables.globals tables.functions f first resolved)
      (AreResolved-AreFit tables items made r)
