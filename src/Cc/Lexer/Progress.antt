-- ===== src/Cc/Lexer/Progress.antt =====
-- Every turn of the lexer's loop takes a byte at least.
use Prim.Native.Char.{Char, code}
use Prim.Native.String.{String}
use ex3_rust.Prelude.{
  ℕ, suc, ◌≤◌, ◌<◌, ◌≡◌, refl, sym, ap, ◌∙◌, subst, arith, Bool, true, false, not, ◌&&◌, ◌==◌,
  if◌then◌else◌, either_branch, either_case, Option, none, some,
}
use Prim.Native.String.{◌++◌ as str_append}
use ex3_rust.Prelude.{leb}
use ex3_rust.Prelude.Text.{is_ascii_digit, unsigned_from_str_radix}
use ex3_rust.Cc.Ast.{Span}
use ex3_rust.Cc.Lexer.Words.{Symbol, two_symbol, one_symbol}
use ex3_rust.Cc.Lexer.Scanning.{
  Cursor, peek, peek_next, behind_first, first_byte, bump, bump_from, span, bump_while_from,
  close_comment_from, is_byte, is_ascii_whitespace, is_ascii_hexdigit, starts_identifier,
  continues_identifier, byte_count,
}
use ex3_rust.Cc.Lexer.{
  Lexer, push_integer, push_symbol, lex_word, lex_integer, lex_symbol, lex_one_symbol,
  lex_two_symbol, lex_comment, lex_step, scan_digits, is_either,
}

-- The bytes left.
abbrev pub left : Cursor → ℕ
left c = byte_count c.rest

bump_from-left :
    (s : String) (c : Cursor) → c.rest ≡ s → left (bump_from s c) ≡ byte_count (behind_first s)
bump_from-left String.[] c e = ap byte_count e
bump_from-left (String.◌∷◌ byte s) c e =
    either_branch (λ (x : Cursor). left x ≡ byte_count s) (code byte == b'\n') refl refl

bump-left : (c : Cursor) → left (bump c) ≡ byte_count (behind_first c.rest)
unfolding bump
bump-left c = bump_from-left c.rest c refl

behind_first-le : (s : String) → byte_count (behind_first s) ≤ byte_count s
behind_first-le String.[] = omega arith
behind_first-le (String.◌∷◌ byte s) = omega arith

pub bump-le : (c : Cursor) → left (bump c) ≤ left c
bump-le c = omega (arith, bump-left c, behind_first-le c.rest)

bump_rest : (byte : Char) (s : String) (c : Cursor) → c.rest ≡ String.◌∷◌ byte s → (bump c).rest ≡ s
unfolding bump
bump_rest byte s c e =
    subst (λ (t : String). (bump_from t c).rest ≡ s) (sym e)
      (either_branch (λ (x : Cursor). x.rest ≡ s) (code byte == b'\n') refl refl)

pub bump_while_from-le :
    (p : ℕ → Bool) (s : String) (c : Cursor)
    → c.rest ≡ s
    → left (bump_while_from p s c).1 ≤ byte_count s
unfolding bump_while_from
bump_while_from-le p String.[] c e = omega (arith, ap byte_count e)
bump_while_from-le p (String.◌∷◌ byte s) c e =
    either_branch (λ (x : String × Cursor). left x.1 ≤ suc (byte_count s)) (p (code byte))
      (omega (arith, bump_while_from-le p s (bump c) (bump_rest byte s c e)))
      (omega (arith, ap byte_count e))

pub bump_while_from-lt :
    (p : ℕ → Bool) (s : String) (c : Cursor) (byte : ℕ)
    → c.rest ≡ s
    → first_byte s ≡ some byte
    → p byte ≡ true
    → left (bump_while_from p s c).1 < byte_count s
unfolding bump_while_from
bump_while_from-lt p String.[] c byte e f h = cc f
bump_while_from-lt p (String.◌∷◌ first s) c byte e f h =
    either_case (λ (x : String × Cursor). left x.1 < suc (byte_count s)) (p (code first))
      (λ passes. omega (arith, bump_while_from-le p s (bump c) (bump_rest first s c e)))
      (λ stops.
        let same : code first ≡ byte = cc f in
        let wrong : true ≡ false = sym (ap p same ∙ h) ∙ stops in cc wrong)

close_comment_from-le :
    (s : String) (c : Cursor) → c.rest ≡ s → left (close_comment_from s c).1 ≤ byte_count s
unfolding close_comment_from
close_comment_from-le String.[] c e = omega (arith, ap byte_count e)
close_comment_from-le (String.◌∷◌ byte s) c e =
    either_branch (λ (x : Bool × Cursor). left x.1 ≤ suc (byte_count s))
      (is_byte b'*' (some (code byte)) && is_byte b'/' (first_byte s))
      (omega (arith, bump-le (bump c), bump-le c, ap byte_count e))
      (omega (arith, close_comment_from-le s (bump c) (bump_rest byte s c e)))

-- A cursor that stands at a byte.
abbrev pub IsAt : ℕ → Cursor → Type 0
IsAt byte c = peek c ≡ some byte

pub at_first :
    (byte : ℕ) (s : String)
    → first_byte s ≡ some byte
    → suc (byte_count (behind_first s)) ≡ byte_count s
at_first byte String.[] e = cc e
at_first byte (String.◌∷◌ c s) e = refl

pub bump-lt : (byte : ℕ) (c : Cursor) → IsAt byte c → left (bump c) < left c
bump-lt byte c e = omega (arith, bump-left c, at_first byte c.rest e)

push_integer-left :
    (value : Option ℕ) (u : Bool) (digits : String) (at : Span) (after : Cursor) (l : Lexer)
    → left (push_integer value u digits at after l).cursor ≡ left after
push_integer-left none u digits at after l = refl
push_integer-left (some value) u digits at after l =
    either_branch (λ (x : Lexer). left x.cursor ≡ left after) (leb value 0xffff_ffff) refl refl

scan_digits-lt :
    (byte : ℕ) (hexadecimal : Bool) (c : Cursor)
    → IsAt byte c
    → is_ascii_digit byte ≡ true
    → left (scan_digits hexadecimal c).1.1 < left c
scan_digits-lt byte true c e h = omega (
  arith,
  bump_while_from-le is_ascii_hexdigit (bump (bump c)).rest (bump (bump c)) refl,
  bump-le (bump c),
  bump-lt byte c e,
)
scan_digits-lt byte false c e h = bump_while_from-lt is_ascii_digit c.rest c byte refl e h

lex_integer-lt :
    (byte : ℕ) (l : Lexer)
    → IsAt byte l.cursor
    → is_ascii_digit byte ≡ true
    → left (lex_integer l).cursor < left l.cursor
unfolding lex_integer
lex_integer-lt byte l e h =
    let hexadecimal = is_byte b'0' (peek l.cursor) && is_either b'x' b'X' (peek_next l.cursor) in
    let scanned = scan_digits hexadecimal l.cursor in
    let behind = scanned.1.1 in
    let explicit = is_either b'u' b'U' (peek behind) in
    let near = scan_digits-lt byte hexadecimal l.cursor e h in
    let last : left (if explicit then bump behind else behind) ≤ left behind =
      either_branch (λ (x : Cursor). left x ≤ left behind) explicit (bump-le behind)
        (omega arith) in
    omega (
      arith,
      push_integer-left (unsigned_from_str_radix 64 (if hexadecimal then 16 else 10) scanned.1.0)
          explicit (str_append scanned.0 scanned.1.0) (span l.cursor)
          (if explicit then bump behind else behind) l,
    )

push_one_symbol-lt :
    (byte : ℕ) (l : Lexer)
    → IsAt byte l.cursor
    → (one : Option Symbol)
    → left (push_symbol (lex_one_symbol l.cursor one) l).cursor < left l.cursor
push_one_symbol-lt byte l e none = bump-lt byte l.cursor e
push_one_symbol-lt byte l e (some found) = bump-lt byte l.cursor e

push_two_symbol-lt :
    (byte : ℕ) (l : Lexer)
    → IsAt byte l.cursor
    → (two : Option Symbol)
    → left (push_symbol (lex_two_symbol l.cursor two) l).cursor < left l.cursor
push_two_symbol-lt byte l e none = push_one_symbol-lt byte l e (one_symbol (peek l.cursor))
push_two_symbol-lt byte l e (some found) =
    omega (arith, bump-le (bump l.cursor), bump-lt byte l.cursor e)

lex_comment-lt :
    (byte : ℕ) (l : Lexer) → IsAt byte l.cursor → left (lex_comment l).cursor < left l.cursor
unfolding lex_comment
lex_comment-lt byte l e =
    let behind = bump (bump l.cursor) in
    let scanned = close_comment_from behind.rest behind in
    let near = close_comment_from-le behind.rest behind refl in
    let small : left scanned.1 < left l.cursor =
      omega (arith, near, bump-le (bump l.cursor), bump-lt byte l.cursor e) in
    either_branch (λ (x : Lexer). left x.cursor < left l.cursor) scanned.0 small small

pub lex_step-lt :
    (byte : ℕ) (l : Lexer) → IsAt byte l.cursor → left (lex_step byte l).cursor < left l.cursor
unfolding lex_step lex_word lex_symbol
lex_step-lt byte l e =
    let Q = λ (x : Lexer). left x.cursor < left l.cursor in
    either_case Q (is_ascii_whitespace byte) (λ h. bump-lt byte l.cursor e)
      (λ h.
        either_case Q (byte == b'/' && is_byte b'/' (peek_next l.cursor))
          (λ k.
            bump_while_from-lt (λ b. not (b == b'\n')) l.cursor.rest l.cursor byte refl e
              (ground arith))
          (λ k.
            either_case Q (byte == b'/' && is_byte b'*' (peek_next l.cursor))
              (λ m. lex_comment-lt byte l e)
              (λ m.
                either_case Q (starts_identifier byte)
                  (λ n.
                    bump_while_from-lt continues_identifier l.cursor.rest l.cursor byte refl e
                      (ground arith))
                  (λ n.
                    either_case Q (is_ascii_digit byte) (λ o. lex_integer-lt byte l e o)
                      (λ o.
                        push_two_symbol-lt byte l e
                          (two_symbol (peek l.cursor) (peek_next l.cursor)))))))
