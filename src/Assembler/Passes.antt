-- ===== src/Assembler/Passes.antt =====
-- `Assembler::assemble`: the first pass gives each label its address, the second emits the cells.
use Prim.Native.String.{String, ◌++◌}
use text.Mathlib.Text.{◌==◌ as str_eq}
use ex3_rust.Prelude.{
  in_order, ℕ, suc, ◌+◌, ◌-◌, ◌^◌, Bool, false, not, ◌||◌, ◌==◌, if◌then◌else◌, ltb, Option, some,
  none, Result, ok, err, and_then, unless_errors, ok_value, List, [], ◌∷◌, wrapping_add,
}
use ex3_rust.Isa.Address.{Address}
use ex3_rust.Isa.{Instruction, decode}
use ex3_rust.Assembler.Types.{
  AsmError, AsmErrorKind, CellKind, instruction_cell, data_cell, symbol_cell, MemoryCell,
  AssemblySourceMapEntry, Symbols, AssemblyResult, Unresolved, words, Line, syntax_error,
  duplicate_label, address_out_of_range, overlapping_address, error_at,
}
use ex3_rust.Assembler.Numbers.{parse_org, valid_identifier, is_some}
use ex3_rust.Assembler.Instructions.{get}
use ex3_rust.Assembler.Resolve.{resolve}
use ex3_rust.Assembler.Parse.{parse}

-- `saturating_add` of `u32`.
abbrev pub saturating_add : ℕ → ℕ → ℕ
saturating_add a b = if ltb (a + b) (2 ^ 32) then a + b else 2 ^ 32 - 1

-- The variables of the first pass. The newest error is the list's head.
pub record Pass1 : Type 0 where
  pub lc : ℕ
  pub symbols : Symbols
  pub errors : List AsmError

abbrev pub fail1 : ℕ → AsmErrorKind → Pass1 → Pass1
fail1 line kind p = record p { errors = error_at line kind ∷ p.errors }

unfoldable pub set_org : Line → Pass1 → Pass1
set_org l p = elim l.org [
  | none ↦ p
  | some org ↦ elim (parse_org org) [ ok v ↦ record p { lc = v } | err k ↦ fail1 l.line k p ]
]

unfoldable pub define_label : ℕ → String → Pass1 → Pass1
unfolding get
define_label line label p =
    if not (valid_identifier label) || str_eq label "I"
    then fail1 line (syntax_error ("invalid label `" ++ label ++ "`")) p
    else if is_some (get label p.symbols)
    then fail1 line (duplicate_label label) p
    else if ltb 0xffff p.lc
    then fail1 line (address_out_of_range p.lc) p
    else record p { symbols = (label, p.lc) ∷ p.symbols }

unfoldable pub define_labels : ℕ → List String → Pass1 → Pass1
unfolding define_label
define_labels line [] p = p
define_labels line (label ∷ labels) p = define_labels line labels (define_label line label p)

abbrev pub words_of : Option Unresolved → ℕ
unfolding words
words_of none = 0
words_of (some s) = words s

unfoldable pub line1 : Line → Pass1 → Pass1
unfolding set_org define_labels
line1 l p =
    let p₁ = define_labels l.line l.labels (set_org l p) in
    record p₁ { lc = saturating_add p₁.lc (words_of l.statement) }

unfoldable pub pass1 : List Line → Pass1 → Pass1
unfolding line1
pass1 [] p = p
pass1 (l ∷ ls) p = pass1 ls (line1 l p)

abbrev pub start1 : Pass1
start1 = record { lc = 0; symbols = []; errors = [] }

-- The variables of the second pass, each list with the newest element at its head.
pub record Pass2 : Type 0 where
  pub lc : ℕ
  pub used : List Address
  pub cells : List MemoryCell
  pub source_map : List AssemblySourceMapEntry
  pub errors : List AsmError

abbrev pub fail2 : ℕ → AsmErrorKind → Pass2 → Pass2
fail2 line kind p = record p { errors = error_at line kind ∷ p.errors }

abbrev pub next_lc : Pass2 → Pass2
next_lc p = record p { lc = wrapping_add 32 p.lc 1 }

unfoldable pub is_used : Address → List Address → Bool
is_used a [] = false
is_used a (b ∷ used) = b == a || is_used a used

-- `(kind == CellKind::Instruction).then(|| decode(word).expect(…))`: `none` as well where the source
-- would panic.
abbrev pub decoded : ℕ → CellKind → Option Instruction
decoded w instruction_cell = ok_value (decode w)
decoded w data_cell = none
decoded w symbol_cell = none

abbrev pub cell_at : ℕ → ℕ → ℕ × CellKind → Pass2 → Pass2
cell_at line index (word, kind) p = record p {
  used = p.lc ∷ p.used;
  cells = record { address = p.lc; word = word; kind = kind } ∷ p.cells;
  source_map =
      record {
        address = p.lc;
        span = record { line = line; column = 1 };
        expansion_index = index;
        instruction = decoded word kind;
      }
      ∷ p.source_map;
}

-- One word of a statement: `expansion_index` counts them.
unfoldable pub place_word : ℕ → ℕ → ℕ × CellKind → Pass2 → Pass2
unfolding is_used
place_word line index w p =
    if ltb 0xffff p.lc
    then fail2 line (address_out_of_range p.lc) p
    else if is_used p.lc p.used
    then fail2 line (overlapping_address p.lc) p
    else cell_at line index w p

unfoldable pub emit_word : ℕ → ℕ → ℕ × CellKind → Pass2 → Pass2
unfolding place_word
emit_word line index w p = next_lc (place_word line index w p)

unfoldable pub emit_words : ℕ → ℕ → List (ℕ × CellKind) → Pass2 → Pass2
unfolding emit_word
emit_words line index [] p = p
emit_words line index (w ∷ ws) p = emit_words line (suc index) ws (emit_word line index w p)

-- `lc = parse_org(org).expect("pass 1")`: `lc` stays where the source would panic.
unfoldable pub move_to_org : Line → Pass2 → Pass2
move_to_org l p = elim l.org [
  | none ↦ p
  | some org ↦ elim (parse_org org) [ ok v ↦ record p { lc = v } | err k ↦ p ]
]

-- The `match` on what `resolve` returns.
unfoldable pub emit_resolved :
    ℕ → Unresolved → Pass2 → Result (List (ℕ × CellKind)) AsmError → Pass2
unfolding emit_words words
emit_resolved line s p (ok ws) = emit_words line 0 ws p
emit_resolved line s p (err e) = record p {
  lc = saturating_add p.lc (words s);
  errors = e ∷ p.errors;
}

unfoldable pub emit_statement : Symbols → ℕ → Unresolved → Pass2 → Pass2
unfolding emit_resolved
emit_statement symbols line s p = emit_resolved line s p (resolve s symbols line)

-- A line without a statement emits nothing.
unfoldable pub emit_optional : Symbols → ℕ → Option Unresolved → Pass2 → Pass2
unfolding emit_statement
emit_optional symbols line none p = p
emit_optional symbols line (some s) p = emit_statement symbols line s p

unfoldable pub line2 : Symbols → Line → Pass2 → Pass2
unfolding move_to_org emit_optional
line2 symbols l p = emit_optional symbols l.line l.statement (move_to_org l p)

unfoldable pub pass2 : Symbols → List Line → Pass2 → Pass2
unfolding line2
pass2 symbols [] p = p
pass2 symbols (l ∷ ls) p = pass2 symbols ls (line2 symbols l p)

abbrev pub start2 : Pass2
start2 = record { lc = 0; used = []; cells = []; source_map = []; errors = [] }

unfoldable pub assemble_lines : List Line → Result AssemblyResult (List AsmError)
unfolding pass1 pass2
assemble_lines ls =
    let first = pass1 ls start1 in
    and_then (unless_errors first.symbols (in_order first.errors)) (λ symbols.
      let second = pass2 symbols ls start2 in
      unless_errors
        (record {
          image = in_order second.cells;
          symbols = symbols;
          source_map = in_order second.source_map;
        })
        (in_order second.errors))

unfoldable pub assemble : String → Result AssemblyResult (List AsmError)
unfolding parse assemble_lines
assemble source = and_then (parse source) assemble_lines
