-- ===== src/Assembler/Resolved.antt =====
-- What `resolve` returns for a statement: as many words as `words` says, each of 32 bits, and for
-- an instruction the encoding of instructions whose operands fit.
pub mod Instructions
use Prim.Native.Char.{code}
use Prim.Native.String.{String}
use text.Mathlib.Text.{◌==◌ as str_eq}
use ex3_rust.Prelude.{
  ℕ, ◌==◌, zero, suc, ◌%◌, ◌^◌, ◌<◌, ◌≡◌, refl, ap, ◌∙◌, subst, arith, Bool, true, false,
  Bool-cases, if◌then◌else◌, either_branch, if_true, if_false, inl, inr, Option, none, some, Result,
  ok, err, Result-cases, List, [], ◌∷◌, map, length, All, IsU16, IsU32, ℤ, pos, negsuc, leb_ℤ, ◌&&◌,
  OnOk, OnOk-at, OnOk-ok_or, OnOk-map_err, OnOk-map_ok, OnOk-and_then, OnOk-elim, passes, fails,
  ok_or, map_ok, map_err, and_then,
}
use ex3_rust.Prelude.Text.{
  signed_from_str_radix, unsigned_from_str_radix, within, some_digits, code-lt,
}
use ex3_rust.Isa.Address.{Address, i16_as_u16}
use ex3_rust.Isa.Immediate16.{Immediate16, i32_as_u32}
use ex3_rust.Isa.{
  MemoryOp, ImmediateOp, SpRelativeOp, BranchOp, SystemOp, Instruction, memory, immediate,
  sp_relative, branch, system, encode,
}
use ex3_rust.Isa.Mnemonics.{
  parse_memory_op, parse_immediate_op, parse_sp_relative_op, parse_branch_op, parse_system_op,
}
use ex3_rust.Isa.Layout.{OperandFits}
use ex3_rust.Assembler.{
  AsmError, Symbols, get, symbol_or_address, parse_address_number, in_address_range, parse_i64,
  parse_signed16, parse_raw16, checked_immediate, looks_number, immediate_value, resolve_immediate,
  error_at, undefined_symbol, unknown_mnemonic, signed16_fits, raw16_fits, is_some,
  strip_hex_prefix, resolve_pseudo, push_words, pop_words, resolve_system, resolve_branch,
  resolve_sp_relative, resolve_own_immediate, resolve_memory, resolve_shared_immediate,
  resolve_plain, resolve_sp_or_plain, resolve_operand, resolve_operands, resolve_instruction,
  own_immediate, names_memory, is_pseudo, is_partial_load, is_bitwise, trim_at, CellKind,
  instruction_cell, data_cell, symbol_cell, instruction_words, parse_hex_word, unwrap_or,
  invalid_number, only_char, unquoted, one_word, syntax_error, Unresolved, hex, dec, chr, sym,
  instruction, words, resolve,
}
use ex3_rust.Assembler.Resolved.Instructions.{
  HasAddresses, Fit, symbol_or_address-IsU16, resolve_instruction-Fit,
}

-- A resolved word with its kind: 32 bits, and an instruction's word is the encoding of one.
abbrev pub IsResolved : ℕ × CellKind → Type 0
IsResolved (w, instruction_cell) = (i : Instruction) × OperandFits i × (w ≡ encode i)
IsResolved (w, data_cell) = IsU32 w
IsResolved (w, symbol_cell) = IsU16 w

abbrev pub AllResolved : ℕ → List (ℕ × CellKind) → Type 0
AllResolved n ws = (length ws ≡ n) × All IsResolved ws

instruction_words-AllResolved :
    (n : ℕ) (is : List Instruction) → Fit n is → AllResolved n (instruction_words is)
instruction_words-AllResolved n [] (e, h) = (e, tt)
instruction_words-AllResolved n (i ∷ is) (e, (h, hs)) =
    let (same, rest) = instruction_words-AllResolved (length is) is (refl, hs) in
    (omega arith, ((i, h, refl), rest))

within-lt : (bound : ℕ) (o : Option ℕ) (v : ℕ) → within bound o ≡ some v → v < bound
within-lt bound none v e = cc e
within-lt bound (some w) v e = ground arith

unsigned-lt : (t : String) (a : ℕ) → unsigned_from_str_radix 32 16 t ≡ some a → IsU32 a
unfolding unsigned_from_str_radix
unsigned-lt String.[] a e = cc e
unsigned-lt (String.◌∷◌ c t) a e = elim (Bool-cases (code c == b'+')) [
  | inl plus ↦
      within-lt (2 ^ 32) (some_digits 16 t) a
        (subst (λ o. within (2 ^ 32) o ≡ some a) (if_true _ plus) e)
  | inr bare ↦
      within-lt (2 ^ 32) (some_digits 16 (String.◌∷◌ c t)) a
        (subst (λ o. within (2 ^ 32) o ≡ some a) (if_false _ bare) e)
]

parse_hex_word-IsU32 : (s : String) → OnOk IsU32 (parse_hex_word s)
unfolding parse_hex_word
parse_hex_word-IsU32 s =
    OnOk-ok_or (unsigned_from_str_radix 32 16 (unwrap_or s (strip_hex_prefix s))) (invalid_number s)
      (λ a e. unsigned-lt (unwrap_or s (strip_hex_prefix s)) a e)

i32_as_u32-IsU32 : (v : ℤ) → IsU32 (i32_as_u32 v)
i32_as_u32-IsU32 (pos n) = omega arith
i32_as_u32-IsU32 (negsuc n) = omega arith

some_same : (a b : ℕ) → some a ≡ some b → a ≡ b
some_same a b e = cc e

only_char-IsU32 : (s : String) (c : ℕ) → only_char s ≡ some c → IsU32 c
only_char-IsU32 String.[] c e = cc e
only_char-IsU32 (String.◌∷◌ d String.[]) c e = omega (arith, code-lt d, some_same (code d) c e)
only_char-IsU32 (String.◌∷◌ d (String.◌∷◌ f s)) c e = cc e

-- Where the symbols are addresses of 16 bits, `resolve` either fails or gives as many words as
-- `words` says: a data word of 32 bits, a symbol's address of 16 bits, or the encoding of an
-- instruction with a 16-bit operand.
pub resolve-AllResolved :
    (s : Unresolved) (symbols : Symbols) (line : ℕ)
    → HasAddresses symbols
    → OnOk (AllResolved (words s)) (resolve s symbols line)
unfolding resolve words
resolve-AllResolved (hex s) symbols line h =
    OnOk-map_err (error_at line)
      (OnOk-map_ok (one_word data_cell) (parse_hex_word-IsU32 s) (λ w g. (refl, (g, tt))))
resolve-AllResolved (dec s) symbols line h =
    OnOk-map_ok {Q = λ v. Unit {0}} (λ v. one_word data_cell (i32_as_u32 v))
      (OnOk-ok_or (signed_from_str_radix 31 10 s) (error_at line (invalid_number s)) (λ a e. tt))
      (λ v g. (refl, (i32_as_u32-IsU32 v, tt)))
resolve-AllResolved (chr s) symbols line h =
    OnOk-map_ok (one_word data_cell)
      (OnOk-ok_or (only_char (unquoted s))
        (error_at line (syntax_error "CHR requires one character"))
        (λ c e. only_char-IsU32 (unquoted s) c e))
      (λ w g. (refl, (g, tt)))
resolve-AllResolved (sym s) symbols line h =
    OnOk-map_ok (one_word symbol_cell) (symbol_or_address-IsU16 symbols s line h)
      (λ w g. (refl, (g, tt)))
resolve-AllResolved (instruction mnemonic operands) symbols line h =
    OnOk-map_ok instruction_words (resolve_instruction-Fit line symbols h mnemonic operands)
      (λ is g. instruction_words-AllResolved _ is g)
