-- ===== src/Cc/Lexer/Words.antt =====
-- The keywords and the symbols of crates/ex3-core/src/cc/lexer.rs, each `match` on texts or bytes as
-- a table.
use Prim.Native.String.{String}
use ex3_rust.Prelude.{ℕ, ◌&&◌, ◌==◌, if◌then◌else◌, Option, none, some, List, [], ◌∷◌}
use ex3_rust.Prelude.Maps.{Map}

pub data Keyword : Type 0 where
  int int32 uint32 unsigned void if_word else_word while_word switch case default break continue
        goto return :
      Keyword

-- `Keyword::from_identifier`.
abbrev pub keywords : Map Keyword
keywords =
    ("int", Keyword.int)
    ∷ ("int32_t", Keyword.int32)
    ∷ ("uint32_t", Keyword.uint32)
    ∷ ("unsigned", Keyword.unsigned)
    ∷ ("void", Keyword.void)
    ∷ ("if", Keyword.if_word)
    ∷ ("else", Keyword.else_word)
    ∷ ("while", Keyword.while_word)
    ∷ ("switch", Keyword.switch)
    ∷ ("case", Keyword.case)
    ∷ ("default", Keyword.default)
    ∷ ("break", Keyword.break)
    ∷ ("continue", Keyword.continue)
    ∷ ("goto", Keyword.goto)
    ∷ ("return", Keyword.return)
    ∷ []

pub data Symbol : Type 0 where
  left_paren right_paren left_brace right_brace semicolon comma colon assign plus minus star slash
        percent tilde bang ampersand pipe caret less greater equal_equal bang_equal less_equal
        greater_equal logical_and logical_or :
      Symbol

-- `Symbol::text`.
abbrev pub text : Symbol → String
text Symbol.left_paren = "("
text Symbol.right_paren = ")"
text Symbol.left_brace = "{"
text Symbol.right_brace = "}"
text Symbol.semicolon = ";"
text Symbol.comma = ","
text Symbol.colon = ":"
text Symbol.assign = "="
text Symbol.plus = "+"
text Symbol.minus = "-"
text Symbol.star = "*"
text Symbol.slash = "/"
text Symbol.percent = "%"
text Symbol.tilde = "~"
text Symbol.bang = "!"
text Symbol.ampersand = "&"
text Symbol.pipe = "|"
text Symbol.caret = "^"
text Symbol.less = "<"
text Symbol.greater = ">"
text Symbol.equal_equal = "=="
text Symbol.bang_equal = "!="
text Symbol.less_equal = "<="
text Symbol.greater_equal = ">="
text Symbol.logical_and = "&&"
text Symbol.logical_or = "||"

-- The symbols of two bytes.
abbrev pub two_symbols : List ((ℕ × ℕ) × Symbol)
two_symbols =
    ((b'=', b'='), Symbol.equal_equal)
    ∷ ((b'!', b'='), Symbol.bang_equal)
    ∷ ((b'<', b'='), Symbol.less_equal)
    ∷ ((b'>', b'='), Symbol.greater_equal)
    ∷ ((b'&', b'&'), Symbol.logical_and)
    ∷ ((b'|', b'|'), Symbol.logical_or)
    ∷ []

abbrev pub one_symbols : List (ℕ × Symbol)
one_symbols =
    (b'(', Symbol.left_paren)
    ∷ (b')', Symbol.right_paren)
    ∷ (b'{', Symbol.left_brace)
    ∷ (b'}', Symbol.right_brace)
    ∷ (b';', Symbol.semicolon)
    ∷ (b',', Symbol.comma)
    ∷ (b':', Symbol.colon)
    ∷ (b'=', Symbol.assign)
    ∷ (b'+', Symbol.plus)
    ∷ (b'-', Symbol.minus)
    ∷ (b'*', Symbol.star)
    ∷ (b'/', Symbol.slash)
    ∷ (b'%', Symbol.percent)
    ∷ (b'~', Symbol.tilde)
    ∷ (b'!', Symbol.bang)
    ∷ (b'&', Symbol.ampersand)
    ∷ (b'|', Symbol.pipe)
    ∷ (b'^', Symbol.caret)
    ∷ (b'<', Symbol.less)
    ∷ (b'>', Symbol.greater)
    ∷ []

unfoldable pub find_two : ℕ → ℕ → List ((ℕ × ℕ) × Symbol) → Option Symbol
find_two a b [] = none
find_two a b (entry ∷ table) =
    if entry.0.0 == a && entry.0.1 == b then some entry.1 else find_two a b table

unfoldable pub find_one : ℕ → List (ℕ × Symbol) → Option Symbol
find_one a [] = none
find_one a (entry ∷ table) = if entry.0 == a then some entry.1 else find_one a table

-- The `match` on two bytes, where there are two.
abbrev pub two_symbol : Option ℕ → Option ℕ → Option Symbol
two_symbol (some a) (some b) = find_two a b two_symbols
two_symbol _ _ = none

-- The `match` on one byte.
abbrev pub one_symbol : Option ℕ → Option Symbol
one_symbol none = none
one_symbol (some a) = find_one a one_symbols
