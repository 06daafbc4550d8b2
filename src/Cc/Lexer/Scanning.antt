-- ===== src/Cc/Lexer/Scanning.antt =====
-- `Cursor` of crates/ex3-core/src/cc/lexer.rs, and the loops that move it. The source is its bytes,
-- each as a character (`byte as char`), and a cursor holds what is left of them in place of the
-- offset.
use Prim.Native.Char.{code}
use Prim.Native.String.{String}
use ex3_rust.Prelude.{
  ℕ, suc, ◌+◌, Bool, true, false, ◌&&◌, ◌||◌, ◌==◌, leb, if◌then◌else◌, Option, none, some,
}
use ex3_rust.Prelude.Text.{is_ascii_digit, is_ascii_alphabetic}
use ex3_rust.Cc.Ast.{Span}

pub record Cursor : Type 0 where
  pub rest : String
  pub line : ℕ
  pub column : ℕ

-- `Cursor::new`.
abbrev pub new_cursor : String → Cursor
new_cursor source = record { rest = source; line = 1; column = 1 }

abbrev pub first_byte : String → Option ℕ
first_byte String.[] = none
first_byte (String.◌∷◌ c s) = some (code c)

abbrev pub behind_first : String → String
behind_first String.[] = String.[]
behind_first (String.◌∷◌ c s) = s

abbrev pub peek : Cursor → Option ℕ
peek c = first_byte c.rest

abbrev pub peek_next : Cursor → Option ℕ
peek_next c = first_byte (behind_first c.rest)

-- `bump` of a cursor with the given bytes left; at the end it does nothing.
abbrev pub bump_from : String → Cursor → Cursor
bump_from String.[] c = c
bump_from (String.◌∷◌ byte s) c =
    if code byte == b'\n'
    then record { rest = s; line = c.line + 1; column = 1 }
    else record { rest = s; line = c.line; column = c.column + 1 }

unfoldable pub bump : Cursor → Cursor
bump c = bump_from c.rest c

abbrev pub span : Cursor → Span
span c = record { line = c.line; column = c.column }

-- `while cursor.peek().is_some_and(p) { cursor.bump(); }`, with the bytes that it passes; the first
-- argument is what the cursor has left.
unfoldable pub bump_while_from : (ℕ → Bool) → String → Cursor → String × Cursor
unfolding bump
bump_while_from p String.[] c = (String.[], c)
bump_while_from p (String.◌∷◌ byte s) c =
    let later = bump_while_from p s (bump c) in
    if p (code byte) then (String.◌∷◌ byte later.0, later.1) else (String.[], c)

abbrev pub bump_while : (ℕ → Bool) → Cursor → String × Cursor
bump_while p c = bump_while_from p c.rest c

abbrev pub is_byte : ℕ → Option ℕ → Bool
is_byte a none = false
is_byte a (some b) = b == a

-- The loop behind `/*`, with whether it found `*/`.
unfoldable pub close_comment_from : String → Cursor → Bool × Cursor
unfolding bump
close_comment_from String.[] c = (false, c)
close_comment_from (String.◌∷◌ byte s) c =
    let later = close_comment_from s (bump c) in
    if is_byte b'*' (some (code byte)) && is_byte b'/' (first_byte s)
    then (true, bump (bump c))
    else later

abbrev pub is_ascii_whitespace : ℕ → Bool
is_ascii_whitespace b = b == b' ' || b == b'\t' || b == b'\n' || b == 0x0c || b == b'\r'

abbrev pub is_ascii_hexdigit : ℕ → Bool
is_ascii_hexdigit b = is_ascii_digit b || (leb b'a' b && leb b b'f') || (leb b'A' b && leb b b'F')

abbrev pub starts_identifier : ℕ → Bool
starts_identifier b = b == b'_' || is_ascii_alphabetic b

abbrev pub continues_identifier : ℕ → Bool
continues_identifier b = b == b'_' || is_ascii_alphabetic b || is_ascii_digit b

abbrev pub byte_count : String → ℕ
byte_count String.[] = 0
byte_count (String.◌∷◌ c s) = suc (byte_count s)
