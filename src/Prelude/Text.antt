-- ===== src/Prelude/Text.antt =====
-- Texts: what the assembler uses of Rust's `str`. A text is the native `String`, taken apart by its
-- characters.
use Prim.Native.Nat.{ℕ, zero, suc, ◌+◌, ◌*◌, ◌-◌, ◌^◌, ◌<◌, ◌/◌, ◌%◌}
use Prim.Native.Char.{Char, char, code}
use Prim.Native.String.{String, ◌++◌, char_at}
use native.Mathlib.Omega.{arith}
use mathlib.Core.Bool.{Bool, true, false, ◌&&◌, ◌||◌}
use mathlib.Core.List.{List, [], ◌∷◌}
use mathlib.Core.Option.{Option, none, some}
use text.Mathlib.Text.{◌==◌ as str_eq}
use ex3_rust.Prelude.Tests.{leb, ltb, ◌==◌, if◌then◌else◌}
use ex3_rust.Prelude.Int.{ℤ, pos, negsuc}

-- `char::is_whitespace`, by code point.
unfoldable pub is_whitespace : ℕ → Bool
is_whitespace c =
    (leb 9 c && leb c 13)
    || c == 0x20
    || c == 0x85
    || c == 0xa0
    || c == 0x1680
    || (leb 0x2000 c && leb c 0x200a)
    || c == 0x2028
    || c == 0x2029
    || c == 0x202f
    || c == 0x205f
    || c == 0x3000

abbrev pub is_ascii_digit : ℕ → Bool
is_ascii_digit c = leb b'0' c && leb c b'9'

abbrev pub is_ascii_alphabetic : ℕ → Bool
is_ascii_alphabetic c = (leb b'a' c && leb c b'z') || (leb b'A' c && leb c b'Z')

abbrev pub is_empty : String → Bool
is_empty String.[] = true
is_empty (String.◌∷◌ c s) = false

-- The text before the first character that passes, and the text behind it if there is one.
unfoldable pub before : (ℕ → Bool) → String → String
before p String.[] = String.[]
before p (String.◌∷◌ c s) = if p (code c) then String.[] else String.◌∷◌ c (before p s)

unfoldable pub behind : (ℕ → Bool) → String → Option String
behind p String.[] = none
behind p (String.◌∷◌ c s) = if p (code c) then some s else behind p s

unfoldable pub trim_start : String → String
unfolding is_whitespace
trim_start String.[] = String.[]
trim_start (String.◌∷◌ c s) = if is_whitespace (code c) then trim_start s else String.◌∷◌ c s

abbrev pub all_chars : (ℕ → Bool) → String → Bool
all_chars p String.[] = true
all_chars p (String.◌∷◌ c s) = p (code c) && all_chars p s

unfoldable pub trim_end : String → String
unfolding is_whitespace
trim_end String.[] = String.[]
trim_end (String.◌∷◌ c s) =
    if all_chars is_whitespace (String.◌∷◌ c s) then String.[] else String.◌∷◌ c (trim_end s)

abbrev pub trim : String → String
trim s = trim_end (trim_start s)

-- `split_whitespace`: the words, of which `word` is the one that is being read.
abbrev pub close_word : String → List String → List String
close_word String.[] words = words
close_word (String.◌∷◌ c s) words = String.◌∷◌ c s ∷ words

unfoldable pub words_from : String → String → List String
unfolding is_whitespace
words_from word String.[] = close_word word []
words_from word (String.◌∷◌ c s) =
    if is_whitespace (code c)
    then close_word word (words_from String.[] s)
    else words_from (word ++ String.◌∷◌ c String.[]) s

abbrev pub split_whitespace : String → List String
split_whitespace s = words_from String.[] s

-- The character that stands at the place of `c` in the second alphabet.
abbrev exchange : String → String → Char → Char
exchange String.[] uppers c = c
exchange (String.◌∷◌ a lowers) String.[] c = c
exchange (String.◌∷◌ a lowers) (String.◌∷◌ b uppers) c =
    if code a == code c then b else exchange lowers uppers c

abbrev pub to_ascii_uppercase : String → String
to_ascii_uppercase String.[] = String.[]
to_ascii_uppercase (String.◌∷◌ c s) =
    String.◌∷◌ (exchange "abcdefghijklmnopqrstuvwxyz" "ABCDEFGHIJKLMNOPQRSTUVWXYZ" c)
      (to_ascii_uppercase s)

abbrev pub eq_ignore_ascii_case : String → String → Bool
eq_ignore_ascii_case s t = str_eq (to_ascii_uppercase s) (to_ascii_uppercase t)

-- `str::lines`: a line ends at a line feed, with the carriage return before it, and a last line
-- that is empty is none.
abbrev pub without_return : String → String
without_return String.[] = String.[]
without_return (String.◌∷◌ c s) =
    if code c == 13 && is_empty s then String.[] else String.◌∷◌ c (without_return s)

unfoldable pub lines_from : String → String → List String
lines_from line String.[] = close_word line []
lines_from line (String.◌∷◌ c s) =
    if code c == 10
    then without_return line ∷ lines_from String.[] s
    else lines_from (line ++ String.◌∷◌ c String.[]) s

abbrev pub lines : String → List String
lines s = lines_from String.[] s

-- `char::to_digit`, by code point.
unfoldable pub digit_value : ℕ → ℕ → Option ℕ
digit_value radix c =
    let v =
      if is_ascii_digit c
      then c - b'0'
      else if leb b'a' c && leb c b'z'
      then c - b'a' + 10
      else if leb b'A' c && leb c b'Z'
      then c - b'A' + 10
      else radix in
    if ltb v radix then some v else none

unfoldable pub digits_value : ℕ → ℕ → String → Option ℕ
unfolding digit_value
digits_value radix value String.[] = some value
digits_value radix value (String.◌∷◌ c s) = elim (digit_value radix (code c)) [
  | none ↦ none
  | some d ↦ digits_value radix (value * radix + d) s
]

-- The digits behind a sign: there must be one.
abbrev pub some_digits : ℕ → String → Option ℕ
some_digits radix String.[] = none
some_digits radix (String.◌∷◌ c s) = digits_value radix 0 (String.◌∷◌ c s)

abbrev pub within : ℕ → Option ℕ → Option ℕ
within bound none = none
within bound (some v) = if ltb v bound then some v else none

-- `from_str_radix` of the unsigned type of `width` bits: an optional `+`, then digits.
unfoldable pub unsigned_from_str_radix : ℕ → ℕ → String → Option ℕ
unfolding digits_value
unsigned_from_str_radix width radix String.[] = none
unsigned_from_str_radix width radix (String.◌∷◌ c s) =
    within (2 ^ width)
      (if code c == b'+' then some_digits radix s else some_digits radix (String.◌∷◌ c s))

abbrev negate : ℕ → ℤ
negate zero = pos 0
negate (suc n) = negsuc n

abbrev as_pos : Option ℕ → Option ℤ
as_pos none = none
as_pos (some v) = some (pos v)

abbrev as_neg : Option ℕ → Option ℤ
as_neg none = none
as_neg (some v) = some (negate v)

-- `from_str_radix` of the signed type of `width + 1` bits: an optional sign, then digits.
unfoldable pub signed_from_str_radix : ℕ → ℕ → String → Option ℤ
unfolding digits_value
signed_from_str_radix width radix String.[] = none
signed_from_str_radix width radix (String.◌∷◌ c s) =
    if code c == b'-'
    then as_neg (within (2 ^ width + 1) (some_digits radix s))
    else if code c == b'+'
    then as_pos (within (2 ^ width) (some_digits radix s))
    else as_pos (within (2 ^ width) (some_digits radix (String.◌∷◌ c s)))

-- A character is a Unicode scalar value.
pub code-lt : (c : Char) → code c < 0x11_0000
code-lt (char n p) = grind arith

abbrev decimal_digit : ℕ → Char
decimal_digit d = char_at "0123456789" d

-- `{}` of a number: a number has no more digits than its value, or one.
unfoldable decimal_digits : ℕ → ℕ → String → String
decimal_digits zero n text = text
decimal_digits (suc fuel) n text =
    let more = decimal_digits fuel (n / 10) (String.◌∷◌ (decimal_digit (n % 10)) text) in
    if ltb n 10 then String.◌∷◌ (decimal_digit (n % 10)) text else more

unfoldable pub decimal : ℕ → String
unfolding decimal_digits
decimal n = decimal_digits (suc n) n ""

-- `str::starts_with`.
unfoldable pub starts_with : String → String → Bool
starts_with s String.[] = true
starts_with String.[] (String.◌∷◌ c prefix) = false
starts_with (String.◌∷◌ d s) (String.◌∷◌ c prefix) = (code d == code c) && starts_with s prefix
