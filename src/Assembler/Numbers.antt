-- ===== src/Assembler/Numbers.antt =====
-- The numbers and identifiers of the assembler's operands.
use Prim.Native.Char.{code}
use Prim.Native.String.{String}
use ex3_rust.Prelude.{
  ℕ, ◌%◌, ◌^◌, Bool, true, false, ◌&&◌, ◌||◌, ◌==◌, if◌then◌else◌, leb, Option, some, none, Result,
  ok, err, ok_or, and_then, map_err, ℤ, pos, negsuc, leb_ℤ,
}
use ex3_rust.Prelude.Text.{
  is_ascii_digit, is_ascii_alphabetic, all_chars, unsigned_from_str_radix, signed_from_str_radix,
}
use ex3_rust.Isa.Address.{i16_as_u16}
use ex3_rust.Isa.Immediate16.{Immediate16}
use ex3_rust.Assembler.Types.{
  AsmErrorKind, AsmError, address_out_of_range, immediate_out_of_range, invalid_number, error_at,
}

unfoldable pub valid_identifier : String → Bool
valid_identifier String.[] = false
valid_identifier (String.◌∷◌ c s) =
    (code c == b'_' || is_ascii_alphabetic (code c))
    && all_chars (λ x. x == b'_' || is_ascii_alphabetic x || is_ascii_digit x) s

-- The text behind `0x` or `0X`.
abbrev pub strip_hex_x : String → Option String
strip_hex_x String.[] = none
strip_hex_x (String.◌∷◌ c s) = if code c == b'x' || code c == b'X' then some s else none

unfoldable pub strip_hex_prefix : String → Option String
strip_hex_prefix String.[] = none
strip_hex_prefix (String.◌∷◌ c s) = if code c == b'0' then strip_hex_x s else none

abbrev pub unwrap_or {ℓ} : {A : Type ℓ} → A → Option A → A
unwrap_or a none = a
unwrap_or a (some b) = b

abbrev pub is_some {ℓ} : {A : Type ℓ} → Option A → Bool
is_some none = false
is_some (some a) = true

-- `strip_prefix('@').unwrap_or(s)`.
abbrev pub strip_at : String → String
strip_at String.[] = String.[]
strip_at (String.◌∷◌ c s) = if code c == b'@' then s else String.◌∷◌ c s

abbrev pub starts_with_at : String → Bool
starts_with_at String.[] = false
starts_with_at (String.◌∷◌ c s) = code c == b'@'

-- A text that begins with a sign or a digit; the prefixes `0x` and `0X` begin with a digit as well.
abbrev pub starts_number : String → Bool
starts_number String.[] = false
starts_number (String.◌∷◌ c s) = code c == b'+' || code c == b'-' || is_ascii_digit (code c)

unfoldable pub looks_number : String → Bool
unfolding strip_hex_prefix
looks_number s = let t = strip_at s in is_some (strip_hex_prefix t) || starts_number t

unfoldable pub parse_i64 : String → Result ℤ AsmErrorKind
unfolding strip_hex_prefix signed_from_str_radix
parse_i64 s = elim (strip_hex_prefix s) [
  | some x ↦ ok_or (signed_from_str_radix 63 16 x) (invalid_number s)
  | none ↦ ok_or (signed_from_str_radix 63 10 s) (invalid_number s)
]

-- `v.max(0) as u32`.
abbrev pub max_zero_as_u32 : ℤ → ℕ
max_zero_as_u32 (pos n) = n % 2 ^ 32
max_zero_as_u32 (negsuc n) = 0

-- `v as u16` for the number in the range.
abbrev pub in_address_range : ℤ → Result ℕ AsmErrorKind
in_address_range v =
    if leb_ℤ (pos 0) v && leb_ℤ v (pos 0xffff)
    then ok (i16_as_u16 v)
    else err (address_out_of_range (max_zero_as_u32 v))

unfoldable pub parse_address_number : String → Result ℕ AsmErrorKind
unfolding parse_i64
parse_address_number s = and_then (parse_i64 s) in_address_range

abbrev pub in_org_range : ℕ → Result ℕ AsmErrorKind
in_org_range value =
    if leb value 0xffff then ok (value % 2 ^ 16) else err (address_out_of_range value)

unfoldable pub parse_org : String → Result ℕ AsmErrorKind
unfolding strip_hex_prefix unsigned_from_str_radix
parse_org s =
    let digits = unwrap_or s (strip_hex_prefix s) in
    and_then (ok_or (unsigned_from_str_radix 32 16 digits) (invalid_number s)) in_org_range

-- The range tests of `parse_signed16` and `parse_raw16`.
abbrev pub signed16_fits : Bool → ℤ → Bool
signed16_fits hexadecimal v =
    (leb_ℤ (negsuc 32767) v && leb_ℤ v (pos 32767)) || (hexadecimal && leb_ℤ v (pos 0xffff))

abbrev pub raw16_fits : ℤ → Bool
raw16_fits v = leb_ℤ (negsuc 32767) v && leb_ℤ v (pos 65535)

abbrev pub checked_immediate : ℕ → Bool → ℤ → Result Immediate16 AsmError
checked_immediate line fits v =
    if fits then ok (i16_as_u16 v) else err (error_at line (immediate_out_of_range v))

unfoldable pub parse_signed16 : String → ℕ → Result Immediate16 AsmError
unfolding strip_hex_prefix parse_i64
parse_signed16 s line =
    and_then (map_err (error_at line) (parse_i64 s))
      (λ v. checked_immediate line (signed16_fits (is_some (strip_hex_prefix s)) v) v)

unfoldable pub parse_raw16 : String → ℕ → Result Immediate16 AsmError
unfolding parse_i64
parse_raw16 s line =
    and_then (map_err (error_at line) (parse_i64 s)) (λ v. checked_immediate line (raw16_fits v) v)

unfoldable pub parse_hex_word : String → Result ℕ AsmErrorKind
unfolding strip_hex_prefix unsigned_from_str_radix
parse_hex_word s =
    ok_or (unsigned_from_str_radix 32 16 (unwrap_or s (strip_hex_prefix s))) (invalid_number s)
