-- ===== src/Cc/Lexer/Tokens.antt =====
-- The lexer ends, and what its tokens are.
use Prim.Native.Char.{code}
use Prim.Native.String.{String, ◌++◌ as str_append}
use ex3_rust.Prelude.{
  ℕ, zero, suc, ◌≤◌, ◌≡◌, inl, inr, refl, ap, ◌∙◌, arith, Bool, true, ◌&&◌, ◌||◌, ◌==◌, leb, ltb,
  if◌then◌else◌, either_branch, either_case, Option, none, some, List, [], ◌∷◌, ◌++◌, in_order, All,
  All-append, Result, unless_errors, OnOk, passes, fails,
}
use ex3_rust.Prelude.Maps.{lookup, Option-cases}
use ex3_rust.Prelude.Text.{all_chars, is_ascii_digit, unsigned_from_str_radix}
use ex3_rust.Cc.Ast.{Span, IntegerLiteral, IntegerLiteralKind, signed}
use ex3_rust.Cc.Diagnostic.{CcError}
use ex3_rust.Cc.Lexer.Words.{Keyword, keywords, Symbol}
use ex3_rust.Cc.Lexer.Scanning.{
  Cursor, peek, peek_next, bump, span, bump_while, bump_while_from, close_comment_from, is_byte,
  is_ascii_whitespace, starts_identifier, continues_identifier, byte_count,
}
use ex3_rust.Cc.Lexer.{
  TokenKind, Token, Lexer, push_integer, push_symbol, word_kind, lex_word, lex_integer, lex_symbol,
  lex_comment, lex_step, scan_digits, finish, lex_loop, lex, maximum_signed, is_either,
}
use ex3_rust.Cc.Lexer.Progress.{left, IsAt, at_first, lex_step-lt}

-- A literal has 32 bits, and the sign bit is clear if it is signed.
abbrev pub IsLiteral : IntegerLiteral → Type 0
IsLiteral literal =
    (literal.value ≤ 0xffff_ffff) × (literal.kind ≡ signed → literal.value ≤ maximum_signed)

-- A name of letters, digits and underscores that is no keyword.
abbrev pub IsName : String → Type 0
IsName name = (all_chars continues_identifier name ≡ true) × (lookup name keywords ≡ none)

abbrev pub IsKind : TokenKind → Type 0
IsKind (TokenKind.identifier name) = IsName name
IsKind (TokenKind.integer literal) = IsLiteral literal
IsKind (TokenKind.keyword k) = Unit
IsKind (TokenKind.symbol s) = Unit
IsKind TokenKind.eof = ⊥

abbrev pub AreKinds : List Token → Type 0
AreKinds = All (λ (t : Token). IsKind t.kind)

-- Tokens that end with the one end of file.
pub data AreTokens : List Token → Type 0 where
  ended :
      (tokens : List Token) (at : Span)
      → AreKinds tokens
      → AreTokens (tokens ++ record { kind = TokenKind.eof; span = at } ∷ [])

bump_while_from-all :
    (p : ℕ → Bool) (s : String) (c : Cursor) → all_chars p (bump_while_from p s c).0 ≡ true
unfolding bump_while_from
bump_while_from-all p String.[] c = refl
bump_while_from-all p (String.◌∷◌ byte s) c =
    either_case (λ (x : String × Cursor). all_chars p x.0 ≡ true) (p (code byte))
      (λ h. (let later = bump_while_from-all p s (bump c) in ground arith)) (λ h. refl)

word_kind-IsKind :
    (name : String) (o : Option Keyword)
    → all_chars continues_identifier name ≡ true
    → lookup name keywords ≡ o
    → IsKind (word_kind name o)
word_kind-IsKind name none h e = (h, e)
word_kind-IsKind name (some k) h e = tt

lex_word-AreKinds : (l : Lexer) → AreKinds l.tokens → AreKinds (lex_word l).tokens
unfolding lex_word
lex_word-AreKinds l h =
    let scanned = bump_while continues_identifier l.cursor in
    (
      word_kind-IsKind scanned.0 (lookup scanned.0 keywords)
          (bump_while_from-all continues_identifier l.cursor.rest l.cursor) refl,
      h,
    )

push_integer-AreKinds :
    (value : Option ℕ) (u : Bool) (digits : String) (at : Span) (after : Cursor) (l : Lexer)
    → AreKinds l.tokens
    → AreKinds (push_integer value u digits at after l).tokens
push_integer-AreKinds none u digits at after l h = h
push_integer-AreKinds (some value) u digits at after l h =
    either_case (λ (x : Lexer). AreKinds x.tokens) (leb value 0xffff_ffff)
      (λ small. (
        (
          ground arith,
          either_case (λ (k : IntegerLiteralKind). k ≡ signed → value ≤ maximum_signed)
              (u || ltb maximum_signed value) (λ large e. cc e) (λ fits e. ground arith),
        ),
        h,
      ))
      (λ large. h)

lex_integer-AreKinds : (l : Lexer) → AreKinds l.tokens → AreKinds (lex_integer l).tokens
unfolding lex_integer
lex_integer-AreKinds l h =
    let hexadecimal = is_byte b'0' (peek l.cursor) && is_either b'x' b'X' (peek_next l.cursor) in
    let scanned = scan_digits hexadecimal l.cursor in
    let behind = scanned.1.1 in
    let explicit = is_either b'u' b'U' (peek behind) in
    push_integer-AreKinds (unsigned_from_str_radix 64 (if hexadecimal then 16 else 10) scanned.1.0)
      explicit (str_append scanned.0 scanned.1.0) (span l.cursor)
      (if explicit then bump behind else behind) l h

push_symbol-AreKinds :
    (o : Option (Symbol × Cursor)) (l : Lexer)
    → AreKinds l.tokens
    → AreKinds (push_symbol o l).tokens
push_symbol-AreKinds none l h = h
push_symbol-AreKinds (some found) l h = (tt, h)

lex_comment-AreKinds : (l : Lexer) → AreKinds l.tokens → AreKinds (lex_comment l).tokens
unfolding lex_comment
lex_comment-AreKinds l h =
    let behind = bump (bump l.cursor) in
    either_branch (λ (x : Lexer). AreKinds x.tokens) (close_comment_from behind.rest behind).0 h h

lex_step-AreKinds : (byte : ℕ) (l : Lexer) → AreKinds l.tokens → AreKinds (lex_step byte l).tokens
unfolding lex_step
lex_step-AreKinds byte l h =
    let Q = λ (x : Lexer). AreKinds x.tokens in
    either_branch Q (is_ascii_whitespace byte) h (
      either_branch Q (byte == b'/' && is_byte b'/' (peek_next l.cursor)) h (
        either_branch Q (byte == b'/' && is_byte b'*' (peek_next l.cursor))
          (lex_comment-AreKinds l h)
          (either_branch Q (starts_identifier byte) (lex_word-AreKinds l h) (
            either_branch Q (is_ascii_digit byte) (lex_integer-AreKinds l h)
              (push_symbol-AreKinds (lex_symbol l.cursor) l h)))))

All-in_order : (P : Token → Type 0) (xs : List Token) → All P xs → All P (in_order xs)
All-in_order P [] h = tt
All-in_order P (x ∷ xs) (h, hs) = All-append P (in_order xs) (x ∷ []) (All-in_order P xs hs) (h, tt)

finish-AreTokens : (l : Lexer) → AreKinds l.tokens → OnOk AreTokens (finish l)
finish-AreTokens l h = without (in_order l.errors)
  where
    without :
        (errors : List CcError)
        → OnOk AreTokens (
            unless_errors
              (in_order (record { kind = TokenKind.eof; span = span l.cursor } ∷ l.tokens))
              errors)
    without [] = passes (ended (in_order l.tokens) (span l.cursor) (All-in_order _ l.tokens h))
    without (e ∷ es) = fails

lex_loop-end : (fuel : ℕ) (l : Lexer) → peek l.cursor ≡ none → lex_loop fuel l ≡ some (finish l)
unfolding lex_loop
lex_loop-end zero l e =
    ap
      (λ (o : Option ℕ).
        let r : Option (Result (List Token) (List CcError)) = elim o [
          | none ↦ some (finish l)
          | some byte ↦ none
        ] in
        r)
      e
lex_loop-end (suc fuel) l e =
    ap
      (λ (o : Option ℕ).
        let r : Option (Result (List Token) (List CcError)) = elim o [
          | none ↦ some (finish l)
          | some byte ↦ lex_loop fuel (lex_step byte l)
        ] in
        r)
      e

lex_loop-turn :
    (fuel byte : ℕ) (l : Lexer)
    → IsAt byte l.cursor
    → lex_loop (suc fuel) l ≡ lex_loop fuel (lex_step byte l)
unfolding lex_loop
lex_loop-turn fuel byte l e =
    ap
      (λ (o : Option ℕ).
        let r : Option (Result (List Token) (List CcError)) = elim o [
          | none ↦ some (finish l)
          | some b ↦ lex_loop fuel (lex_step b l)
        ] in
        r)
      e

lex_loop_returns :
    (fuel : ℕ) (l : Lexer)
    → AreKinds l.tokens
    → left l.cursor ≤ fuel
    → (r : Result (List Token) (List CcError)) × (lex_loop fuel l ≡ some r) × OnOk AreTokens r
lex_loop_returns zero l h enough = elim (Option-cases (peek l.cursor)) [
  | inl e ↦ (finish l, lex_loop-end zero l e, finish-AreTokens l h)
  | inr (byte, e) ↦ absurd (omega (arith, at_first byte l.cursor.rest e))
]
lex_loop_returns (suc fuel) l h enough = elim (Option-cases (peek l.cursor)) [
  | inl e ↦ (finish l, lex_loop-end (suc fuel) l e, finish-AreTokens l h)
  | inr (byte, e) ↦
      let (r, found, good) =
        lex_loop_returns fuel (lex_step byte l) (lex_step-AreKinds byte l h)
          (omega (arith, lex_step-lt byte l e)) in
      (r, lex_loop-turn fuel byte l e ∙ found, good)
]

-- On every source the lexer ends with the number of its bytes as fuel: with errors, or with tokens
-- of which the last, and no other, is the end of the file; an identifier has letters, digits and
-- underscores only and is no keyword, an integer literal has 32 bits, and 31 if it is signed.
pub lex-AreTokens :
    (source : String)
    → (r : Result (List Token) (List CcError)) × (lex source ≡ some r) × OnOk AreTokens r
unfolding lex
lex-AreTokens source = lex_loop_returns (byte_count source) _ tt (omega arith)
