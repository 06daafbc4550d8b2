-- ===== src/Assembler/Instructions.antt =====
-- `resolve_instruction`: the machine instructions of an assembly instruction.
use Prim.Native.Char.{code}
use Prim.Native.String.{String, ◌++◌}
use text.Mathlib.Text.{◌==◌ as str_eq}
use ex3_rust.Prelude.{
  ℕ, Bool, true, false, not, ◌||◌, ◌==◌, if◌then◌else◌, Option, some, none, Result, ok, err,
  and_then, map_ok, map_err, ok_or, List, [], ◌∷◌,
}
use ex3_rust.Isa.Address.{Address}
use ex3_rust.Isa.Immediate16.{Immediate16}
use ex3_rust.Isa.{
  ImmediateOp, SpRelativeOp, BranchOp, SystemOp, Instruction, memory, immediate, sp_relative,
  branch, system,
}
use ex3_rust.Isa.Mnemonics.{
  parse_memory_op, parse_immediate_op, parse_sp_relative_op, parse_branch_op, parse_system_op,
}
use ex3_rust.Assembler.Types.{
  AsmError, Symbols, is_pseudo, syntax_error, unknown_mnemonic, undefined_symbol, error_at,
}
use ex3_rust.Assembler.Numbers.{
  parse_address_number, parse_signed16, parse_raw16, looks_number, starts_with_at,
}

-- `symbols.get(name)`.
unfoldable pub get : String → Symbols → Option Address
get name [] = none
get name ((key, address) ∷ symbols) = if str_eq key name then some address else get name symbols

unfoldable pub symbol_or_address : Symbols → String → ℕ → Result Address AsmError
unfolding parse_address_number looks_number get
symbol_or_address symbols name line =
    if looks_number name
    then map_err (error_at line) (parse_address_number name)
    else ok_or (get name symbols) (error_at line (undefined_symbol name))

abbrev pub syntax_err {ℓ} : {A : Type ℓ} → ℕ → String → Result A AsmError
syntax_err line message = err (error_at line (syntax_error message))

-- The expansions of PUSH and POP.
abbrev pub push_words : List Instruction
push_words = immediate ImmediateOp.adjsp 0xffff ∷ sp_relative SpRelativeOp.stsp 0 ∷ []

abbrev pub pop_words : List Instruction
pop_words = sp_relative SpRelativeOp.ldsp 0 ∷ immediate ImmediateOp.adjsp 1 ∷ []

abbrev pub resolve_pseudo : String → List String → ℕ → Result (List Instruction) AsmError
resolve_pseudo m [] line = ok (if str_eq m "PUSH" then push_words else pop_words)
resolve_pseudo m (o ∷ os) line = syntax_err line (m ++ " takes no operands")

abbrev pub resolve_system : String → SystemOp → List String → ℕ → Result (List Instruction) AsmError
resolve_system m op [] line = ok (system op ∷ [])
resolve_system m op (o ∷ os) line = syntax_err line (m ++ " takes no operands")

abbrev pub singleton {ℓ} : {A : Type ℓ} → A → List A
singleton a = a ∷ []

abbrev pub resolve_branch :
    Symbols → BranchOp → String → Bool → ℕ → Result (List Instruction) AsmError
resolve_branch symbols op operand indirect line =
    if indirect
    then syntax_err line "branches cannot be indirect"
    else map_ok (λ target. singleton (branch op target)) (symbol_or_address symbols operand line)

abbrev pub resolve_sp_relative :
    SpRelativeOp → String → Bool → ℕ → Result (List Instruction) AsmError
resolve_sp_relative op operand indirect line =
    if indirect
    then syntax_err line "SP-relative instruction cannot be indirect"
    else map_ok (λ offset. singleton (sp_relative op offset)) (parse_signed16 operand line)

-- The operations whose operand `parse_raw16` reads, of those with a mnemonic of their own and of
-- those that share it with the memory format.
abbrev pub is_partial_load : ImmediateOp → Bool
is_partial_load ImmediateOp.ldhi = true
is_partial_load ImmediateOp.ldlo = true
is_partial_load _ = false

abbrev pub is_bitwise : ImmediateOp → Bool
is_bitwise ImmediateOp.and = true
is_bitwise ImmediateOp.or = true
is_bitwise ImmediateOp.xor = true
is_bitwise _ = false

abbrev pub immediate_value : Bool → String → ℕ → Result Immediate16 AsmError
immediate_value raw operand line =
    if raw then parse_raw16 operand line else parse_signed16 operand line

abbrev pub resolve_immediate : Bool → ImmediateOp → String → ℕ → Result (List Instruction) AsmError
resolve_immediate raw op operand line =
    map_ok (λ value. singleton (immediate op value)) (immediate_value raw operand line)

abbrev pub resolve_own_immediate :
    ImmediateOp → String → Bool → ℕ → Result (List Instruction) AsmError
resolve_own_immediate op operand indirect line =
    if indirect
    then syntax_err line "immediate instruction cannot be indirect"
    else resolve_immediate (is_partial_load op) op operand line

-- `matches!(m, "LDHI" | "LDLO" | "ADJSP")` with `m.parse::<ImmediateOp>().unwrap()`, which is
-- defined for these three.
abbrev pub own_immediate : String → Option ImmediateOp
own_immediate m =
    if str_eq m "LDHI"
    then some ImmediateOp.ldhi
    else if str_eq m "LDLO"
    then some ImmediateOp.ldlo
    else if str_eq m "ADJSP"
    then some ImmediateOp.adjsp
    else none

-- `operand.trim_start_matches('@')`.
unfoldable pub trim_at : String → String
trim_at String.[] = String.[]
trim_at (String.◌∷◌ c s) = if code c == b'@' then trim_at s else String.◌∷◌ c s

unfoldable pub resolve_memory :
    Symbols → String → String → Bool → ℕ → Result (List Instruction) AsmError
unfolding symbol_or_address trim_at
resolve_memory symbols m operand indirect line =
    and_then (map_err (λ e. error_at line (unknown_mnemonic m)) (parse_memory_op m)) (λ op.
      map_ok (λ address. singleton (memory op address indirect))
        (symbol_or_address symbols (trim_at operand) line))

unfoldable pub resolve_shared_immediate : String → String → ℕ → Result (List Instruction) AsmError
resolve_shared_immediate m operand line =
    and_then (map_err (λ e. error_at line (unknown_mnemonic m)) (parse_immediate_op m))
      (λ op. resolve_immediate (is_bitwise op) op operand line)

-- A mnemonic whose operand may name memory or be a number.
abbrev pub names_memory : String → String → Bool → Bool
names_memory m operand indirect =
    indirect
    || not (looks_number operand)
    || starts_with_at operand
    || str_eq m "STA"
    || str_eq m "ISZ"

unfoldable pub resolve_plain :
    Symbols → String → String → Bool → ℕ → Result (List Instruction) AsmError
unfolding resolve_memory resolve_shared_immediate
resolve_plain symbols m operand indirect line = elim (own_immediate m) [
  | some op ↦ resolve_own_immediate op operand indirect line
  | none ↦
      if names_memory m operand indirect
      then resolve_memory symbols m operand indirect line
      else resolve_shared_immediate m operand line
]

unfoldable pub resolve_sp_or_plain :
    Symbols → String → String → Bool → ℕ → Result (List Instruction) AsmError
unfolding resolve_plain
resolve_sp_or_plain symbols m operand indirect line = elim (parse_sp_relative_op m) [
  | ok op ↦ resolve_sp_relative op operand indirect line
  | err e ↦ resolve_plain symbols m operand indirect line
]

-- An instruction with one operand.
unfoldable pub resolve_operand :
    Symbols → String → String → Bool → ℕ → Result (List Instruction) AsmError
unfolding resolve_sp_or_plain
resolve_operand symbols m operand indirect line = elim (parse_branch_op m) [
  | ok op ↦ resolve_branch symbols op operand indirect line
  | err e ↦ resolve_sp_or_plain symbols m operand indirect line
]

-- One operand, or one and the marker `I`. The source has a second test for the marker behind this
-- one, which it never fails.
unfoldable pub resolve_operands :
    Symbols → String → List String → ℕ → Result (List Instruction) AsmError
unfolding resolve_operand
resolve_operands symbols m (operand ∷ []) line = resolve_operand symbols m operand false line
resolve_operands symbols m (operand ∷ marker ∷ []) line =
    if str_eq marker "I"
    then resolve_operand symbols m operand true line
    else syntax_err line ("wrong operand count for " ++ m)
resolve_operands symbols m _ line = syntax_err line ("wrong operand count for " ++ m)

unfoldable pub resolve_instruction :
    String → List String → Symbols → ℕ → Result (List Instruction) AsmError
unfolding resolve_operands
resolve_instruction m o symbols line =
    if is_pseudo m then resolve_pseudo m o line else elim (parse_system_op m) [
      | ok op ↦ resolve_system m op o line
      | err e ↦ resolve_operands symbols m o line
    ]
