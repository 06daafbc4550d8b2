-- ===== src/Cc/Parser/Totality/Programs.antt =====
-- Parsing what the lexer gives ends with a program or with an error in the source.
use Prim.Native.String.{String}
use ex3_rust.Prelude.{
  ℕ, zero, suc, ◌+◌, ◌*◌, ◌≤◌, ◌<◌, ◌≡◌, refl, arith, Bool, true, false, ◌&&◌, some, List, [], ◌∷◌,
  ◌++◌, length, All, Result, ok, err, ◌>>=◌,
}
use ex3_rust.Cc.Ast.{Span, CcType, scalar, void, Param, Item, Program}
use ex3_rust.Cc.Diagnostic.{CcError}
use ex3_rust.Cc.Lexer.Words.{Keyword, Symbol}
use ex3_rust.Cc.Lexer.{TokenKind, Token}
use ex3_rust.Cc.Lexer.Tokens.{AreKinds, AreTokens}
use ex3_rust.Cc.Parser.State.{
  Stop, Parsed, kind_is_keyword, kind_is_symbol, kind_is_eof, second_is_symbol,
}
use ex3_rust.Cc.Parser.{
  parameter_of, parameter, some_parameters, parameters, function_body, optional_body, function_item,
  global_item, item, items, parser_fuel, parse,
}
use ex3_rust.Cc.Parser.Totality.{
  Ends, Good, ◌▷◌, Good-test, Good-weaken, by_test, eat_symbol-Good, expect_symbol-Good,
  identifier-Good, parse_type-Good,
}
use ex3_rust.Cc.Parser.Totality.Expressions.{at}
use ex3_rust.Cc.Parser.Totality.Statements.{initializer-Good, statement-Good}
use ex3_rust.Cc.Sema.Symbols.Validation.{HasScalars}
use ex3_rust.Cc.Sema.Typing.Declared.{HasScalarBody, AreScalar, IsScalarItem}

abbrev IsScalarParam : Param → Type 0
IsScalarParam p = AreScalar (p ∷ [])

parameter_of-Good :
    (ty : CcType) (span : Span) (passed rest : List Token)
    → Ends rest
    → Good IsScalarParam (length rest) (parameter_of ty span (at passed rest))
parameter_of-Good void span passed rest ends = Good.wrong
parameter_of-Good (scalar ty) span passed rest ends =
    identifier-Good passed rest ends ▷ λ (name, q) u more less. Good.done ((ty, refl), tt) more less

parameter-Good :
    (passed rest : List Token)
    → Ends rest
    → Good IsScalarParam (length rest) (parameter (at passed rest))
unfolding parameter
parameter-Good passed [] ends = absurd ends
parameter-Good passed (t ∷ ts) ends = parse_type-Good passed (t ∷ ts) ends ▷ λ (ty, q) u more less.
    Good-weaken (omega arith) (parameter_of-Good ty t.span q.passed q.rest more)

some_parameters-Good :
    (fuel n : ℕ) (passed rest : List Token)
    → Ends rest
    → length rest < n
    → length rest < fuel
    → Good AreScalar n (some_parameters fuel (at passed rest))
unfolding some_parameters
some_parameters-Good zero n passed rest ends less h = absurd (omega arith)
some_parameters-Good (suc fuel) n passed rest ends less h =
    parameter-Good passed rest ends ▷ λ (first, q) (one, u) more fewer.
    eat_symbol-Good Symbol.comma q.passed q.rest _ more
      (λ t ts after few.
        some_parameters-Good fuel n (t ∷ q.passed) ts after (omega arith) (omega arith)
        ▷ λ (ps, s) all last short. Good.done {a = first ∷ ps} (one, all) last short)
      (Good.done {a = first ∷ []} (one, tt) more (omega arith))

is_void-goes_on :
    (kind : TokenKind) (b : Bool)
    → (kind_is_keyword Keyword.void kind && b) ≡ true
    → kind_is_eof kind ≡ false
is_void-goes_on TokenKind.eof b e = cc e
is_void-goes_on _ b e = refl

parameters-Good :
    (fuel : ℕ) (passed rest : List Token)
    → Ends rest
    → length rest < fuel
    → Good AreScalar (suc (length rest)) (parameters fuel (at passed rest))
unfolding parameters
parameters-Good fuel passed [] ends h = absurd ends
parameters-Good fuel passed (t ∷ ts) ends h =
    by_test
      (λ b. Good AreScalar (suc (length (t ∷ ts))) (elim b [
        | true ↦ ok ([], at (t ∷ passed) ts)
        | false ↦ elim (kind_is_symbol Symbol.right_paren t.kind) [
          | true ↦ ok ([], at passed (t ∷ ts))
          | false ↦ some_parameters fuel (at passed (t ∷ ts))
        ]
      ]))
      (kind_is_keyword Keyword.void t.kind && second_is_symbol Symbol.right_paren (t ∷ ts))
      (λ e. Good.done tt (ends (is_void-goes_on t.kind _ e)) (omega arith))
      (λ e.
        Good-test (kind_is_symbol Symbol.right_paren t.kind) (Good.done tt ends (omega arith))
          (some_parameters-Good fuel _ passed (t ∷ ts) ends (omega arith) h))

function_body-Good :
    (fuel : ℕ) (passed rest : List Token)
    → Ends rest
    → 16 * length rest + 6 ≤ fuel
    → Good HasScalars (length rest) (function_body fuel (at passed rest))
unfolding function_body
function_body-Good fuel passed [] ends h = absurd ends
function_body-Good fuel passed (t ∷ ts) ends h =
    Good-test (kind_is_symbol Symbol.left_brace t.kind) (statement-Good fuel passed (t ∷ ts) ends h)
      Good.wrong

optional_body-Good :
    (fuel : ℕ) (passed rest : List Token)
    → Ends rest
    → 16 * length rest + 6 ≤ fuel
    → Good HasScalarBody (length rest) (optional_body fuel (at passed rest))
unfolding optional_body
optional_body-Good fuel passed rest ends h =
    eat_symbol-Good Symbol.semicolon passed rest _ ends (λ u us more less. Good.done tt more less)
      (function_body-Good fuel passed rest ends h ▷ λ (body, r) scalars more less.
        Good.done {a = some body} scalars more less)

function_item-Good :
    (fuel : ℕ) (ret : CcType) (name : String) (span : Span) (passed rest : List Token)
    → Ends rest
    → 16 * length rest + 6 ≤ fuel
    → Good IsScalarItem (length rest) (function_item fuel ret name span (at passed rest))
unfolding function_item
function_item-Good fuel ret name span passed rest ends h =
    parameters-Good fuel passed rest ends (omega arith) ▷ λ (params, q) all more less.
    expect_symbol-Good Symbol.right_paren q.passed q.rest _ more (λ t ts after fewer.
      optional_body-Good fuel (t ∷ q.passed) ts after (omega arith) ▷ λ (body, s) scalars last few.
      Good.done
        {a = Item.function
          (record { name = name; ret = ret; params = params; body = body; span = span })}
        (all, scalars) last (omega arith))

global_item-Good :
    (fuel : ℕ) (ty : CcType) (name : String) (span : Span) (passed rest : List Token)
    → Ends rest
    → 16 * length rest + 6 ≤ fuel
    → Good IsScalarItem (suc (length rest)) (global_item fuel ty name span (at passed rest))
unfolding global_item
global_item-Good fuel void name span passed rest ends h = Good.wrong
global_item-Good fuel (scalar ty) name span passed rest ends h =
    initializer-Good fuel passed rest ends (omega arith) ▷ λ (init, q) u more less.
    expect_symbol-Good Symbol.semicolon q.passed q.rest _ more
      (λ t ts after fewer. Good.done tt after (omega arith))

item-Good :
    (fuel : ℕ) (passed rest : List Token)
    → Ends rest
    → 16 * length rest + 6 ≤ fuel
    → Good IsScalarItem (length rest) (item fuel (at passed rest))
unfolding item
item-Good fuel passed [] ends h = absurd ends
item-Good fuel passed (t ∷ ts) ends h =
    parse_type-Good passed (t ∷ ts) ends ▷ λ (ty, q) u more less.
    identifier-Good q.passed q.rest more ▷ λ (name, r) v after fewer.
    eat_symbol-Good Symbol.left_paren r.passed r.rest _ after
      (λ w ws last few.
        Good-weaken (omega arith)
          (function_item-Good fuel ty name t.span (w ∷ r.passed) ws last (omega arith)))
      (Good-weaken (omega arith)
        (global_item-Good fuel ty name t.span r.passed r.rest after (omega arith)))

items-Good :
    (fuel turns n : ℕ) (passed rest : List Token)
    → Ends rest
    → length rest < n
    → length rest < turns
    → 16 * length rest + 6 ≤ fuel
    → Good (All IsScalarItem) n (items fuel turns (at passed rest))
unfolding items
items-Good fuel zero n passed rest ends less few h = absurd (omega arith)
items-Good fuel (suc turns) n passed [] ends less few h = absurd ends
items-Good fuel (suc turns) n passed (t ∷ ts) ends less few h =
    Good-test (kind_is_eof t.kind) (Good.done tt ends less) (
      item-Good fuel passed (t ∷ ts) ends h ▷ λ (first, q) one more fewer.
      items-Good fuel turns n q.passed q.rest more (omega arith) (omega arith) (omega arith)
      ▷ λ (rest, r) all last short. Good.done {a = first ∷ rest} (one, all) last short)

-- A program whose locals and parameters have scalar types, or an error in the source.
pub data IsParse : Result Program Stop → Type 0 where
  parsed : {p : Program} → All IsScalarItem p.items → IsParse (ok p)
  rejected : {e : CcError} → IsParse (err (Stop.invalid e))

AreKinds-Ends :
    (tokens : List Token) (span : Span)
    → AreKinds tokens
    → Ends (tokens ++ record { kind = TokenKind.eof; span = span } ∷ [])
AreKinds-Ends [] span h = λ e. cc e
AreKinds-Ends (t ∷ ts) span (h, hs) = λ e. AreKinds-Ends ts span hs

Good-IsParse :
    (r : Parsed (List Item)) {n : ℕ}
    → Good (All IsScalarItem) n r
    → IsParse (r >>= λ (found, p). ok (record { items = found }))
Good-IsParse _ (Good.done h ends less) = IsParse.parsed h
Good-IsParse _ Good.wrong = IsParse.rejected

-- On the tokens that the lexer gives, `parse` ends with the fuel that it has and never reads behind
-- the last token: it gives a program whose locals and parameters have scalar types, or an error in
-- the source.
pub parse-IsParse : (tokens : List Token) → AreTokens tokens → IsParse (parse tokens)
unfolding parse
parse-IsParse _ (AreTokens.ended tokens span kinds) =
    let all = tokens ++ record { kind = TokenKind.eof; span = span } ∷ [] in
    Good-IsParse _ (
      items-Good (parser_fuel all) (suc (length all)) (suc (length all)) [] all
        (AreKinds-Ends tokens span kinds) (omega arith) (omega arith) (omega arith))
