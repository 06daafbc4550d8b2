-- ===== src/Output.antt =====
-- crates/ex3-core/src/output.rs: the memory dump and probe formats.
pub mod Digits
pub mod Lines
pub mod RoundTrip
mod Tests
use Prim.Native.Char.{Char, char, code}
use Prim.Native.String.{String, ◌++◌, char_at}
use ex3_rust.Prelude.{
  ℕ, zero, suc, ◌+◌, ◌*◌, ◌/◌, ◌%◌, ◌^◌, Bool, true, false, ◌==◌, if◌then◌else◌, bit_and, bit_or,
  ◌<<<◌, Option, none, some, Result, ok, err, ok_or, and_then, map_ok, List, [], ◌∷◌,
}
use ex3_rust.Prelude.Text.{lines, trim, is_empty, split_whitespace, unsigned_from_str_radix}
use ex3_rust.Isa.Address.{Address}
use ex3_rust.Assembler.{MemoryCell, CellKind, instruction_cell, data_cell, symbol_cell}

-- The digit of a number below 16, in lower case.
abbrev pub hex_digit : ℕ → Char
hex_digit d = char_at "0123456789abcdef" d

-- `{:04x}` and `{:08x}` of a number that has at most 4 or 8 digits: the leading zeros are written.
unfoldable pub hex_digits : ℕ → ℕ → String
hex_digits zero n = String.[]
hex_digits (suc k) n = String.◌∷◌ (hex_digit (n / 16 ^ k % 16)) (hex_digits k n)

unfoldable pub format_mem : List MemoryCell → String
unfolding hex_digits
format_mem [] = String.[]
format_mem (c ∷ cells) =
    "@" ++ hex_digits 4 c.address ++ " " ++ hex_digits 8 c.word ++ "\n" ++ format_mem cells

abbrev pub probe_line : MemoryCell → CellKind → String
probe_line c data_cell = hex_digits 8 (bit_or (c.address <<< 16) (bit_and c.word 0xffff)) ++ "\n"
probe_line c instruction_cell = String.[]
probe_line c symbol_cell = String.[]

abbrev probe_lines : List MemoryCell → String
probe_lines [] = String.[]
probe_lines (c ∷ cells) = probe_line c c.kind ++ probe_lines cells

unfoldable pub format_probe : List MemoryCell → String
unfolding hex_digits
format_probe cells = probe_lines cells ++ "f0000000\n"

pub record MemParseError : Type 0 where
  pub line : ℕ
  pub message : String

abbrev pub fail_at {ℓ} : {A : Type ℓ} → ℕ → String → Result A MemParseError
fail_at line message = err (record { line = line; message = message })

abbrev pub hex_field : ℕ → String → ℕ → String → Result ℕ MemParseError
hex_field line message width s =
    ok_or (unsigned_from_str_radix width 16 s) (record { line = line; message = message })

-- `strip_prefix('@')`.
abbrev pub behind_at : String → Option String
behind_at String.[] = none
behind_at (String.◌∷◌ c s) = if code c == b'@' then some s else none

abbrev pub parse_address_word : ℕ → String → String → Result (Address × ℕ) MemParseError
parse_address_word line a w =
    and_then (hex_field line "invalid address" 16 a)
      (λ address. map_ok (λ word. (address, word)) (hex_field line "invalid word" 32 w))

-- The fields behind the address.
abbrev pub parse_word : ℕ → String → List String → Result (Address × ℕ) MemParseError
parse_word line a [] = fail_at line "missing word"
parse_word line a (w ∷ []) = parse_address_word line a w
parse_word line a (w ∷ x ∷ rest) = fail_at line "too many fields"

unfoldable pub parse_fields : ℕ → List String → Result (Address × ℕ) MemParseError
unfolding unsigned_from_str_radix
parse_fields line [] = fail_at line "expected @address word"
parse_fields line (field ∷ rest) =
    and_then (ok_or (behind_at field) (record { line = line; message = "expected @address word" }))
      (λ a. parse_word line a rest)

-- The loop: the first error ends it.
unfoldable pub parse_mem_lines : ℕ → List String → Result (List (Address × ℕ)) MemParseError
unfolding parse_fields
parse_mem_lines line [] = ok []
parse_mem_lines line (raw ∷ raws) =
    let text = trim raw in
    let rest = parse_mem_lines (suc line) raws in
    if is_empty text
    then rest
    else and_then (parse_fields line (split_whitespace text))
        (λ entry. map_ok (λ more. entry ∷ more) rest)

unfoldable pub parse_mem : String → Result (List (Address × ℕ)) MemParseError
unfolding parse_mem_lines
parse_mem text = parse_mem_lines 1 (lines text)
