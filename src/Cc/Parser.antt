-- ===== src/Cc/Parser.antt =====
-- The parser of crates/ex3-core/src/cc/parser.rs: its declarations, and `parse`.
pub mod State
pub mod Operators
pub mod Expressions
pub mod Statements
pub mod Totality
mod Tests
use Prim.Native.String.{String}
use ex3_rust.Prelude.{
  ℕ, zero, suc, ◌+◌, ◌*◌, Bool, true, false, ◌&&◌, if◌then◌else◌, Option, none, some, List, [], ◌∷◌,
  length, Result, ok, err, ◌>>=◌,
}
use ex3_rust.Cc.Ast.{Span, CcType, scalar, void, Stmt, Param, Global, Function, Item, Program}
use ex3_rust.Cc.Lexer.Words.{Keyword, Symbol}
use ex3_rust.Cc.Lexer.{Token}
use ex3_rust.Cc.Parser.State.{
  Parser, Stop, Parsed, fail, peek, advance, is_keyword, is_symbol, is_eof, next_is_symbol,
  eat_symbol, expect_symbol, identifier, parse_type,
}
use ex3_rust.Cc.Parser.Statements.{initializer, statement}

-- A parameter behind its type.
abbrev pub parameter_of : CcType → Span → Parser → Parsed Param
parameter_of void span p = fail span "void parameter is only valid as `(void)`"
parameter_of (scalar ty) span p = do
  (name, q) ← identifier p
  ok (record { name = name; ty = scalar ty; span = span }, q)

unfoldable pub parameter : Parser → Parsed Param
unfolding parse_type
parameter p = do token ← peek p; (ty, q) ← parse_type p; parameter_of ty token.span q

-- The loop of `parameters`, one unit of fuel for each parameter.
unfoldable pub some_parameters : ℕ → Parser → Parsed (List Param)
unfolding parameter
some_parameters zero p = err Stop.out_of_fuel
some_parameters (suc fuel) p = do
  (first, q) ← parameter p
  (more, r) ← eat_symbol Symbol.comma q
  elim more [
    | false ↦ ok (first ∷ [], r)
    | true ↦ do (ps, s) ← some_parameters fuel r; ok (first ∷ ps, s)
  ]

unfoldable pub parameters : ℕ → Parser → Parsed (List Param)
unfolding some_parameters
parameters fuel p = do
  is_void ← is_keyword Keyword.void p
  elim (is_void && next_is_symbol Symbol.right_paren p) [
    | true ↦ ok ([], advance p)
    | false ↦ do
      closed ← is_symbol Symbol.right_paren p
      elim closed [ true ↦ ok ([], p) | false ↦ some_parameters fuel p ]
  ]

unfoldable pub function_body : ℕ → Parser → Parsed Stmt
unfolding statement
function_body fuel p = do
  opens ← is_symbol Symbol.left_brace p
  token ← peek p
  elim opens [
    | true ↦ statement fuel p
    | false ↦ fail token.span "function body must be a compound statement"
  ]

-- The body of a function, or a semicolon.
unfoldable pub optional_body : ℕ → Parser → Parsed (Option Stmt)
unfolding function_body
optional_body fuel p = do
  (closed, q) ← eat_symbol Symbol.semicolon p
  elim closed [
    | true ↦ ok (none, q)
    | false ↦ do (body, r) ← function_body fuel q; ok (some body, r)
  ]

-- The rest of a function, behind its parenthesis.
unfoldable pub function_item : ℕ → CcType → String → Span → Parser → Parsed Item
unfolding parameters optional_body
function_item fuel ret name span p = do
  (params, q) ← parameters fuel p
  r ← expect_symbol Symbol.right_paren q
  (body, s) ← optional_body fuel r
  ok (
    Item.function (record { name = name; ret = ret; params = params; body = body; span = span }),
    s,
  )

-- The rest of a variable, behind its name.
unfoldable pub global_item : ℕ → CcType → String → Span → Parser → Parsed Item
global_item fuel void name span p = fail span "variable cannot have type void"
global_item fuel (scalar ty) name span p = do
  (init, q) ← initializer fuel p
  r ← expect_symbol Symbol.semicolon q
  ok (Item.global (record { name = name; ty = scalar ty; init = init; span = span }), r)

unfoldable pub item : ℕ → Parser → Parsed Item
unfolding parse_type function_item global_item
item fuel p = do
  token ← peek p
  (ty, q) ← parse_type p
  (name, r) ← identifier q
  (called, s) ← eat_symbol Symbol.left_paren r
  elim called [
    | true ↦ function_item fuel ty name token.span s
    | false ↦ global_item fuel ty name token.span s
  ]

-- The loop of `program`, with the fuel of an item and one unit for each turn.
unfoldable pub items : ℕ → ℕ → Parser → Parsed (List Item)
unfolding item
items fuel zero p = err Stop.out_of_fuel
items fuel (suc turns) p = do
  ended ← is_eof p
  elim ended [
    | true ↦ ok ([], p)
    | false ↦ do (first, q) ← item fuel p; (rest, r) ← items fuel turns q; ok (first ∷ rest, r)
  ]

-- At most nine calls and turns of loops follow one another before a token is taken.
abbrev pub parser_fuel : List Token → ℕ
parser_fuel tokens = 16 * length tokens + 16

-- `parse`, whose one error becomes a list where the phases are composed.
unfoldable pub parse : List Token → Result Program Stop
unfolding items
parse tokens = do
  (found, p) ←
      items (parser_fuel tokens) (suc (length tokens)) (record { passed = []; rest = tokens })
  ok (record { items = found })
