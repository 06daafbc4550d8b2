-- ===== src/Cc/Lexer.antt =====
-- crates/ex3-core/src/cc/lexer.rs: from source text to tokens. The vectors of tokens and errors have
-- the newest first.
pub mod Words
pub mod Scanning
pub mod Progress
pub mod Tokens
mod Tests
use Prim.Native.Char.{Char, code}
use Prim.Native.String.{String, ◌++◌ as str_append}
use ex3_rust.Prelude.{
  ℕ, zero, suc, ◌+◌, ◌^◌, Bool, true, false, not, ◌&&◌, ◌||◌, ◌==◌, leb, ltb, if◌then◌else◌, Option,
  none, some, List, [], ◌∷◌, in_order, Result, ok, err, unless_errors,
}
use ex3_rust.Prelude.Maps.{lookup}
use ex3_rust.Prelude.Text.{is_ascii_digit, is_ascii_alphabetic, unsigned_from_str_radix}
use ex3_rust.Cc.Ast.{Span, IntegerLiteral, IntegerLiteralKind, signed, unsigned}
use ex3_rust.Cc.Diagnostic.{CcError}
use ex3_rust.Cc.Lexer.Words.{Keyword, keywords, Symbol, two_symbol, one_symbol}
use ex3_rust.Cc.Lexer.Scanning.{
  Cursor, new_cursor, peek, peek_next, bump, span, bump_while, bump_while_from, close_comment_from,
  is_byte, is_ascii_whitespace, is_ascii_hexdigit, starts_identifier, continues_identifier,
  byte_count,
}

pub data TokenKind : Type 0 where
  identifier : String → TokenKind
  integer : IntegerLiteral → TokenKind
  keyword : Keyword → TokenKind
  symbol : Symbol → TokenKind
  eof : TokenKind

pub record Token : Type 0 where
  pub kind : TokenKind
  pub span : Span

-- The variables of `lex`.
pub record Lexer : Type 0 where
  pub cursor : Cursor
  pub tokens : List Token
  pub errors : List CcError

abbrev pub push_token : TokenKind → Span → Cursor → Lexer → Lexer
push_token kind at after l = record l {
  cursor = after;
  tokens = record { kind = kind; span = at } ∷ l.tokens;
}

abbrev pub push_error : String → Span → Cursor → Lexer → Lexer
push_error message at after l = record l {
  cursor = after;
  errors = record { span = at; message = message } ∷ l.errors;
}

-- `Keyword::from_identifier`, or the identifier.
abbrev pub word_kind : String → Option Keyword → TokenKind
word_kind name none = identifier name
word_kind name (some k) = keyword k

unfoldable pub lex_word : Lexer → Lexer
unfolding bump_while_from
lex_word l =
    let scanned = bump_while continues_identifier l.cursor in
    push_token (word_kind scanned.0 (lookup scanned.0 keywords)) (span l.cursor) scanned.1 l

-- `matches!(byte, Some(b'x' | b'X'))` and the like.
abbrev pub is_either : ℕ → ℕ → Option ℕ → Bool
is_either a b byte = is_byte a byte || is_byte b byte

abbrev pub maximum_signed : ℕ
maximum_signed = 0x7fff_ffff

-- The last `match` of `lex_integer`.
abbrev pub push_integer : Option ℕ → Bool → String → Span → Cursor → Lexer → Lexer
push_integer none explicit_unsigned digits at after l =
    push_error (str_append "integer literal `" (str_append digits "` is out of range")) at after l
push_integer (some value) explicit_unsigned digits at after l =
    if leb value 0xffff_ffff
    then push_token
        (integer (record {
          value = value;
          kind = if explicit_unsigned || ltb maximum_signed value then unsigned else signed;
        }))
        at after l
    else push_error (str_append "integer literal `" (str_append digits "` is out of range")) at
        after l

-- The prefix of a hexadecimal literal as written.
abbrev pub first_two : String → String
first_two (String.◌∷◌ a (String.◌∷◌ b s)) = String.◌∷◌ a (String.◌∷◌ b String.[])
first_two s = s

-- The digits of a literal: the prefix, the digits behind it and the cursor behind them.
abbrev pub scan_digits : Bool → Cursor → String × (String × Cursor)
scan_digits true c = (first_two c.rest, bump_while is_ascii_hexdigit (bump (bump c)))
scan_digits false c = (String.[], bump_while is_ascii_digit c)

unfoldable pub lex_integer : Lexer → Lexer
unfolding bump_while_from bump
lex_integer l =
    let hexadecimal = is_byte b'0' (peek l.cursor) && is_either b'x' b'X' (peek_next l.cursor) in
    let scanned = scan_digits hexadecimal l.cursor in
    let behind = scanned.1.1 in
    let explicit_unsigned = is_either b'u' b'U' (peek behind) in
    push_integer (unsigned_from_str_radix 64 (if hexadecimal then 16 else 10) scanned.1.0)
      explicit_unsigned (str_append scanned.0 scanned.1.0) (span l.cursor)
      (if explicit_unsigned then bump behind else behind) l

abbrev pub lex_one_symbol : Cursor → Option Symbol → Option (Symbol × Cursor)
lex_one_symbol c none = none
lex_one_symbol c (some s) = some (s, bump c)

abbrev pub lex_two_symbol : Cursor → Option Symbol → Option (Symbol × Cursor)
lex_two_symbol c none = lex_one_symbol c (one_symbol (peek c))
lex_two_symbol c (some s) = some (s, bump (bump c))

unfoldable pub lex_symbol : Cursor → Option (Symbol × Cursor)
unfolding bump
lex_symbol c = lex_two_symbol c (two_symbol (peek c) (peek_next c))

-- `byte as char`, of the byte at the cursor.
abbrev pub byte_text : String → String
byte_text String.[] = String.[]
byte_text (String.◌∷◌ c s) = String.◌∷◌ c String.[]

abbrev pub push_symbol : Option (Symbol × Cursor) → Lexer → Lexer
push_symbol none l =
    push_error (str_append "unexpected character `" (str_append (byte_text l.cursor.rest) "`"))
      (span l.cursor) (bump l.cursor) l
push_symbol (some found) l = push_token (symbol found.0) (span l.cursor) found.1 l

unfoldable pub lex_comment : Lexer → Lexer
unfolding close_comment_from bump
lex_comment l =
    let behind = bump (bump l.cursor) in
    let scanned = close_comment_from behind.rest behind in
    if scanned.0
    then record l { cursor = scanned.1 }
    else push_error "unterminated block comment" (span l.cursor) scanned.1 l

-- One turn of the loop of `lex`, at a byte.
unfoldable pub lex_step : ℕ → Lexer → Lexer
unfolding bump bump_while_from lex_comment lex_word lex_integer lex_symbol
lex_step byte l =
    if is_ascii_whitespace byte
    then record l { cursor = bump l.cursor }
    else if byte == b'/' && is_byte b'/' (peek_next l.cursor)
    then record l { cursor = (bump_while (λ b. not (b == b'\n')) l.cursor).1 }
    else if byte == b'/' && is_byte b'*' (peek_next l.cursor)
    then lex_comment l
    else if starts_identifier byte
    then lex_word l
    else if is_ascii_digit byte
    then lex_integer l
    else push_symbol (lex_symbol l.cursor) l

abbrev pub finish : Lexer → Result (List Token) (List CcError)
finish l =
    unless_errors (in_order (record { kind = eof; span = span l.cursor } ∷ l.tokens))
      (in_order l.errors)

-- The loop of `lex`, with `none` when the fuel runs out.
unfoldable pub lex_loop : ℕ → Lexer → Option (Result (List Token) (List CcError))
unfolding lex_step
lex_loop zero l = elim (peek l.cursor) [ none ↦ some (finish l) | some byte ↦ none ]
lex_loop (suc fuel) l = elim (peek l.cursor) [
  | none ↦ some (finish l)
  | some byte ↦ lex_loop fuel (lex_step byte l)
]

-- Each turn takes a byte, so the fuel is the number of bytes.
unfoldable pub lex : String → Option (Result (List Token) (List CcError))
unfolding lex_loop
lex source =
    lex_loop (byte_count source) (record { cursor = new_cursor source; tokens = []; errors = [] })
