-- ===== src/Assembler/Resolve.antt =====
-- `resolve`: the second pass's translation of one statement into words.
use Prim.Native.Char.{code}
use Prim.Native.String.{String}
use ex3_rust.Prelude.{
  ℕ, ◌==◌, if◌then◌else◌, Option, some, none, Result, map_ok, map_err, ok_or, List, [], ◌∷◌, map,
}
use ex3_rust.Prelude.Text.{signed_from_str_radix}
use ex3_rust.Isa.Immediate16.{i32_as_u32}
use ex3_rust.Isa.{Instruction, encode}
use ex3_rust.Assembler.Types.{
  AsmError, CellKind, instruction_cell, data_cell, symbol_cell, Symbols, Unresolved, instruction,
  hex, dec, chr, sym, syntax_error, invalid_number, error_at,
}
use ex3_rust.Assembler.Numbers.{parse_hex_word}
use ex3_rust.Assembler.Instructions.{symbol_or_address, resolve_instruction}

-- `CHR`: the text inside the quotes, if there are two.
abbrev pub drop_last_quote : String → Option String
drop_last_quote String.[] = none
drop_last_quote (String.◌∷◌ c String.[]) = if code c == 39 then some String.[] else none
drop_last_quote (String.◌∷◌ c (String.◌∷◌ d s)) = elim (drop_last_quote (String.◌∷◌ d s)) [
  | none ↦ none
  | some t ↦ some (String.◌∷◌ c t)
]

abbrev pub unquoted : String → String
unquoted String.[] = String.[]
unquoted (String.◌∷◌ c s) =
    let whole = String.◌∷◌ c s in
    if code c == 39 then elim (drop_last_quote s) [ none ↦ whole | some t ↦ t ] else whole

abbrev pub only_char : String → Option ℕ
only_char String.[] = none
only_char (String.◌∷◌ c String.[]) = some (code c)
only_char (String.◌∷◌ c (String.◌∷◌ d s)) = none

abbrev pub one_word : CellKind → ℕ → List (ℕ × CellKind)
one_word kind w = (w, kind) ∷ []

abbrev pub instruction_words : List Instruction → List (ℕ × CellKind)
instruction_words xs = map (λ i. (encode i, instruction_cell)) xs

unfoldable pub resolve : Unresolved → Symbols → ℕ → Result (List (ℕ × CellKind)) AsmError
unfolding resolve_instruction symbol_or_address parse_hex_word signed_from_str_radix
resolve (hex s) symbols line =
    map_err (error_at line) (map_ok (one_word data_cell) (parse_hex_word s))
resolve (dec s) symbols line =
    map_ok (λ v. one_word data_cell (i32_as_u32 v))
      (ok_or (signed_from_str_radix 31 10 s) (error_at line (invalid_number s)))
resolve (chr s) symbols line =
    map_ok (one_word data_cell)
      (ok_or (only_char (unquoted s)) (error_at line (syntax_error "CHR requires one character")))
resolve (sym s) symbols line = map_ok (one_word symbol_cell) (symbol_or_address symbols s line)
resolve (instruction mnemonic operands) symbols line =
    map_ok instruction_words (resolve_instruction mnemonic operands symbols line)
