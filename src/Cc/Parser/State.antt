-- ===== src/Cc/Parser/State.antt =====
-- The state of the parser of crates/ex3-core/src/cc/parser.rs, and its steps of one token.
use Prim.Native.String.{String, ◌++◌ as str_append}
use ex3_rust.Prelude.{
  ℕ, Bool, true, false, ◌==◌, if◌then◌else◌, Option, none, some, List, [], ◌∷◌, Result, ok, err,
  ◌>>=◌,
}
use ex3_rust.Cc.Ast.{Span, CcType, int_type, uint_type, void}
use ex3_rust.Cc.Diagnostic.{CcError}
use ex3_rust.Cc.Lexer.Words.{Keyword, Symbol, text}
use ex3_rust.Cc.Lexer.{TokenKind, Token}

-- `Parser`: the tokens before the position, the latest first, and those from the position on.
pub record Parser : Type 0 where
  pub passed : List Token
  pub rest : List Token

-- Why parsing stops: an error in the source, an index that is out of range, or no fuel.
pub data Stop : Type 0 where
  invalid : CcError → Stop
  out_of_range : Stop
  out_of_fuel : Stop

abbrev pub Parsed : Type 0 → Type 0
Parsed A = Result (A × Parser) Stop

abbrev pub fail {ℓ} : {A : Type ℓ} → Span → String → Result A Stop
fail span message = err (Stop.invalid (record { span = span; message = message }))

abbrev pub first_of : List Token → Result Token Stop
first_of [] = err Stop.out_of_range
first_of (t ∷ ts) = ok t

abbrev pub peek : Parser → Result Token Stop
peek p = first_of p.rest

abbrev pub previous_token : Parser → Result Token Stop
previous_token p = first_of p.passed

-- `position += 1`, always at a token that `peek` gave.
abbrev pub advance_over : List Token → Parser → Parser
advance_over [] p = p
advance_over (t ∷ ts) p = record { passed = t ∷ p.passed; rest = ts }

abbrev pub advance : Parser → Parser
advance p = advance_over p.rest p

-- The order of the declaration, which the derived equality of `Keyword` compares.
abbrev pub keyword_index : Keyword → ℕ
keyword_index Keyword.int = 0
keyword_index Keyword.int32 = 1
keyword_index Keyword.uint32 = 2
keyword_index Keyword.unsigned = 3
keyword_index Keyword.void = 4
keyword_index Keyword.if_word = 5
keyword_index Keyword.else_word = 6
keyword_index Keyword.while_word = 7
keyword_index Keyword.switch = 8
keyword_index Keyword.case = 9
keyword_index Keyword.default = 10
keyword_index Keyword.break = 11
keyword_index Keyword.continue = 12
keyword_index Keyword.goto = 13
keyword_index Keyword.return = 14

-- The same for `Symbol`.
abbrev pub symbol_index : Symbol → ℕ
symbol_index Symbol.left_paren = 0
symbol_index Symbol.right_paren = 1
symbol_index Symbol.left_brace = 2
symbol_index Symbol.right_brace = 3
symbol_index Symbol.semicolon = 4
symbol_index Symbol.comma = 5
symbol_index Symbol.colon = 6
symbol_index Symbol.assign = 7
symbol_index Symbol.plus = 8
symbol_index Symbol.minus = 9
symbol_index Symbol.star = 10
symbol_index Symbol.slash = 11
symbol_index Symbol.percent = 12
symbol_index Symbol.tilde = 13
symbol_index Symbol.bang = 14
symbol_index Symbol.ampersand = 15
symbol_index Symbol.pipe = 16
symbol_index Symbol.caret = 17
symbol_index Symbol.less = 18
symbol_index Symbol.greater = 19
symbol_index Symbol.equal_equal = 20
symbol_index Symbol.bang_equal = 21
symbol_index Symbol.less_equal = 22
symbol_index Symbol.greater_equal = 23
symbol_index Symbol.logical_and = 24
symbol_index Symbol.logical_or = 25

abbrev pub kind_is_keyword : Keyword → TokenKind → Bool
kind_is_keyword k (TokenKind.keyword found) = keyword_index found == keyword_index k
kind_is_keyword k kind = false

abbrev pub kind_is_symbol : Symbol → TokenKind → Bool
kind_is_symbol s (TokenKind.symbol found) = symbol_index found == symbol_index s
kind_is_symbol s kind = false

abbrev pub kind_is_eof : TokenKind → Bool
kind_is_eof TokenKind.eof = true
kind_is_eof kind = false

abbrev pub is_keyword : Keyword → Parser → Result Bool Stop
is_keyword k p = do token ← peek p; ok (kind_is_keyword k token.kind)

abbrev pub is_symbol : Symbol → Parser → Result Bool Stop
is_symbol s p = do token ← peek p; ok (kind_is_symbol s token.kind)

abbrev pub is_eof : Parser → Result Bool Stop
is_eof p = do token ← peek p; ok (kind_is_eof token.kind)

abbrev pub second_is_symbol : Symbol → List Token → Bool
second_is_symbol s (t ∷ u ∷ ts) = kind_is_symbol s u.kind
second_is_symbol s ts = false

abbrev pub next_is_symbol : Symbol → Parser → Bool
next_is_symbol s p = second_is_symbol s p.rest

-- A token is taken if the test holds.
abbrev pub taken : Bool → Parser → Bool × Parser
taken b p = (b, if b then advance p else p)

abbrev pub eat_keyword : Keyword → Parser → Parsed Bool
eat_keyword k p = do eats ← is_keyword k p; ok (taken eats p)

abbrev pub eat_symbol : Symbol → Parser → Parsed Bool
eat_symbol s p = do eats ← is_symbol s p; ok (taken eats p)

abbrev pub expected : Symbol → String
expected s = str_append "expected `" (str_append (text s) "`")

abbrev pub expect_symbol : Symbol → Parser → Result Parser Stop
expect_symbol s p = do
  token ← peek p
  if kind_is_symbol s token.kind then ok (advance p) else fail token.span (expected s)

abbrev pub name_of : TokenKind → Option String
name_of (TokenKind.identifier name) = some name
name_of kind = none

abbrev pub identifier_at : Option String → Span → Parser → Parsed String
identifier_at none span p = fail span "expected identifier"
identifier_at (some name) span p = ok (name, advance p)

abbrev pub identifier : Parser → Parsed String
identifier p = do token ← peek p; identifier_at (name_of token.kind) token.span p

abbrev pub is_label : TokenKind → Parser → Bool
is_label (TokenKind.identifier name) p = next_is_symbol Symbol.colon p
is_label kind p = false

-- Behind `unsigned`.
abbrev pub unsigned_type : Span → Parser → Parsed CcType
unsigned_type span p = do
  (followed, q) ← eat_keyword Keyword.int p
  if followed then ok (uint_type, q) else fail span "`unsigned` must be followed by `int`"

-- `parse_type` at a token: each `eat_keyword` of the chain is a clause.
abbrev pub type_at : TokenKind → Span → Parser → Parsed CcType
type_at (TokenKind.keyword Keyword.int) span p = ok (int_type, advance p)
type_at (TokenKind.keyword Keyword.int32) span p = ok (int_type, advance p)
type_at (TokenKind.keyword Keyword.uint32) span p = ok (uint_type, advance p)
type_at (TokenKind.keyword Keyword.unsigned) span p = unsigned_type span (advance p)
type_at (TokenKind.keyword Keyword.void) span p = ok (void, advance p)
type_at kind span p = fail span "expected type"

unfoldable pub parse_type : Parser → Parsed CcType
parse_type p = do token ← peek p; type_at token.kind token.span p

abbrev pub starts_type : TokenKind → Bool
starts_type (TokenKind.keyword Keyword.int) = true
starts_type (TokenKind.keyword Keyword.int32) = true
starts_type (TokenKind.keyword Keyword.uint32) = true
starts_type (TokenKind.keyword Keyword.unsigned) = true
starts_type (TokenKind.keyword Keyword.void) = true
starts_type kind = false
