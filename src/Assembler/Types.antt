-- ===== src/Assembler/Types.antt =====
-- The data of crates/ex3-core/src/assembler.rs.
use Prim.Native.String.{String}
use text.Mathlib.Text.{◌==◌ as str_eq}
use ex3_rust.Prelude.{ℕ, Bool, ◌||◌, if◌then◌else◌, Option, List, ℤ}
use ex3_rust.Isa.Address.{Address}
use ex3_rust.Isa.{Instruction}

pub record Span : Type 0 where
  pub line : ℕ
  pub column : ℕ

pub data AsmErrorKind : Type 0 where
  missing_end : AsmErrorKind
  unexpected_end : AsmErrorKind
  syntax_error : String → AsmErrorKind
  unknown_mnemonic : String → AsmErrorKind
  duplicate_label : String → AsmErrorKind
  undefined_symbol : String → AsmErrorKind
  address_out_of_range : ℕ → AsmErrorKind
  immediate_out_of_range : ℤ → AsmErrorKind
  invalid_number : String → AsmErrorKind
  overlapping_address : Address → AsmErrorKind

pub record AsmError : Type 0 where
  pub span : Span
  pub kind : AsmErrorKind

pub data CellKind : Type 0 where
  instruction_cell data_cell symbol_cell : CellKind

pub record MemoryCell : Type 0 where
  pub address : Address
  pub word : ℕ
  pub kind : CellKind

pub record AssemblySourceMapEntry : Type 0 where
  pub address : Address
  pub span : Span
  pub expansion_index : ℕ
  pub instruction : Option Instruction

-- The symbols, a `BTreeMap` in the source, with the latest first.
abbrev pub Symbols : Type 0
Symbols = List (String × Address)

pub record AssemblyResult : Type 0 where
  pub image : List MemoryCell
  pub symbols : Symbols
  pub source_map : List AssemblySourceMapEntry

pub data Unresolved : Type 0 where
  instruction : (mnemonic : String) (operands : List String) → Unresolved
  hex dec chr sym : String → Unresolved

-- `mnemonic == "PUSH" || mnemonic == "POP"`.
abbrev pub is_pseudo : String → Bool
is_pseudo m = str_eq m "PUSH" || str_eq m "POP"

unfoldable pub words : Unresolved → ℕ
words (instruction mnemonic operands) = if is_pseudo mnemonic then 2 else 1
words _ = 1

pub record Line : Type 0 where
  pub line : ℕ
  pub org : Option String
  pub labels : List String
  pub statement : Option Unresolved

-- `err`.
abbrev pub error_at : ℕ → AsmErrorKind → AsmError
error_at line kind = record { span = record { line = line; column = 1 }; kind = kind }
