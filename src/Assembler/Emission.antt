-- ===== src/Assembler/Emission.antt =====
-- What the second pass emits: cells at distinct addresses inside the memory, and a source map that
-- describes them one by one.
use Prim.Native.String.{String}
use ex3_rust.Prelude.{
  ℕ, suc, ◌^◌, ◌<◌, ◌≡◌, refl, sym, ap, ◌∙◌, subst, arith, false, ltb, inl, inr, Option, none, some,
  Result, ok, err, Result-cases, OnOk, OnOk-at, ok_value, either_case, List, [], ◌∷◌, map, All,
  IsU16, IsU32,
}
use ex3_rust.Isa.{Instruction, encode, decode}
use ex3_rust.Isa.Layout.{OperandFits, encode-IsU32}
use ex3_rust.Isa.RoundTrip.{decode-encode}
use ex3_rust.Assembler.{
  Symbols, Unresolved, Line, CellKind, instruction_cell, data_cell, symbol_cell, MemoryCell,
  AssemblySourceMapEntry, Pass2, is_used, decoded, cell_at, fail2, place_word, AsmErrorKind,
  address_out_of_range, overlapping_address, emit_word, emit_words, emit_statement, emit_optional,
  emit_resolved, AsmError, move_to_org, line2, pass2, resolve, words, parse_org,
}
use ex3_rust.Assembler.Resolved.{IsResolved, AllResolved, resolve-AllResolved}
use ex3_rust.Assembler.Resolved.Instructions.{HasAddresses}

-- No address occurs twice.
abbrev pub Distinct : List ℕ → Type 0
Distinct [] = Unit
Distinct (a ∷ used) = (is_used a used ≡ false) × Distinct used

-- What a source map entry says of the word of a cell.
abbrev pub Describes : CellKind → ℕ → Option Instruction → Type 0
Describes instruction_cell w i? = (i : Instruction) × (i? ≡ some i) × OperandFits i × (w ≡ encode i)
Describes data_cell w i? = i? ≡ none
Describes symbol_cell w i? = i? ≡ none

pub record IsMapped (cell : MemoryCell) (entry : AssemblySourceMapEntry) : Type 0 where
  pub same_address : entry.address ≡ cell.address
  pub address-IsU16 : IsU16 cell.address
  pub word-IsU32 : IsU32 cell.word
  pub described : Describes cell.kind cell.word entry.instruction

-- The cells and the entries of the source map correspond one by one.
pub data Mapped : List MemoryCell → List AssemblySourceMapEntry → Type 0 where
  mapped_none : Mapped [] []
  mapped_one :
      {cell : MemoryCell} {entry : AssemblySourceMapEntry} {cells : List MemoryCell}
      {entries : List AssemblySourceMapEntry}
      → IsMapped cell entry
      → Mapped cells entries
      → Mapped (cell ∷ cells) (entry ∷ entries)

abbrev pub addresses : List MemoryCell → List ℕ
addresses cells = map (λ (c : MemoryCell). c.address) cells

pub record IsEmitted (p : Pass2) : Type 0 where
  pub used-addresses : p.used ≡ addresses p.cells
  pub used-Distinct : Distinct p.used
  pub cells-Mapped : Mapped p.cells p.source_map

word-lt : (w : ℕ) (kind : CellKind) → IsResolved (w, kind) → IsU32 w
word-lt w instruction_cell (i, fits, e) = subst IsU32 (sym e) (encode-IsU32 i fits)
word-lt w data_cell h = h
word-lt w symbol_cell h = omega arith

decoded-Describes :
    (w : ℕ) (kind : CellKind) → IsResolved (w, kind) → Describes kind w (decoded w kind)
decoded-Describes w instruction_cell (i, fits, e) =
    (i, ap ok_value (ap decode e ∙ decode-encode i fits), fits, e)
decoded-Describes w data_cell h = refl
decoded-Describes w symbol_cell h = refl

cell_at-IsEmitted :
    (line index : ℕ) (w : ℕ) (kind : CellKind) (p : Pass2)
    → IsResolved (w, kind)
    → p.lc < 2 ^ 16
    → is_used p.lc p.used ≡ false
    → IsEmitted p
    → IsEmitted (cell_at line index (w, kind) p)
cell_at-IsEmitted line index w kind p h low fresh g = record {
  used-addresses = ap (λ t. p.lc ∷ t) g.used-addresses;
  used-Distinct = (fresh, g.used-Distinct);
  cells-Mapped =
      mapped_one
        (record {
          same_address = refl;
          address-IsU16 = low;
          word-IsU32 = word-lt w kind h;
          described = decoded-Describes w kind h;
        })
        g.cells-Mapped;
}

moved : (p : Pass2) (lc : ℕ) → IsEmitted p → IsEmitted (record p { lc = lc })
moved p lc g = record {
  used-addresses = g.used-addresses;
  used-Distinct = g.used-Distinct;
  cells-Mapped = g.cells-Mapped;
}

failed : (line : ℕ) (kind : AsmErrorKind) (p : Pass2) → IsEmitted p → IsEmitted (fail2 line kind p)
failed line kind p g = record {
  used-addresses = g.used-addresses;
  used-Distinct = g.used-Distinct;
  cells-Mapped = g.cells-Mapped;
}

emit_word-IsEmitted :
    (line index : ℕ) (w : ℕ × CellKind) (p : Pass2)
    → IsResolved w
    → IsEmitted p
    → IsEmitted (emit_word line index w p)
unfolding emit_word place_word
emit_word-IsEmitted line index (w, kind) p h g = moved (place_word line index (w, kind) p) _ (
    either_case IsEmitted (ltb 0xffff p.lc) (λ high. failed line (address_out_of_range p.lc) p g)
      (λ low.
        either_case IsEmitted (is_used p.lc p.used)
          (λ taken. failed line (overlapping_address p.lc) p g)
          (λ fresh. cell_at-IsEmitted line index w kind p h (ground arith) fresh g)))

emit_words-IsEmitted :
    (line index : ℕ) (ws : List (ℕ × CellKind)) (p : Pass2)
    → All IsResolved ws
    → IsEmitted p
    → IsEmitted (emit_words line index ws p)
unfolding emit_words
emit_words-IsEmitted line index [] p h g = g
emit_words-IsEmitted line index (w ∷ ws) p (h, hs) g =
    emit_words-IsEmitted line (suc index) ws (emit_word line index w p) hs
      (emit_word-IsEmitted line index w p h g)

emit_resolved-IsEmitted :
    (line : ℕ) (s : Unresolved) (p : Pass2) (r : Result (List (ℕ × CellKind)) AsmError)
    → OnOk (AllResolved (words s)) r
    → IsEmitted p
    → IsEmitted (emit_resolved line s p r)
unfolding emit_resolved
emit_resolved-IsEmitted line s p (ok ws) h g =
    emit_words-IsEmitted line 0 ws p (OnOk-at ws h refl).1 g
emit_resolved-IsEmitted line s p (err e) h g = record {
  used-addresses = g.used-addresses;
  used-Distinct = g.used-Distinct;
  cells-Mapped = g.cells-Mapped;
}

module _ (symbols : Symbols) (h : HasAddresses symbols) where
  emit_statement-IsEmitted :
      (line : ℕ) (s : Unresolved) (p : Pass2)
      → IsEmitted p
      → IsEmitted (emit_statement symbols line s p)
  unfolding emit_statement
  emit_statement-IsEmitted line s p g =
      emit_resolved-IsEmitted line s p (resolve s symbols line)
        (resolve-AllResolved s symbols line h) g

  move_to_org-IsEmitted : (l : Line) (p : Pass2) → IsEmitted p → IsEmitted (move_to_org l p)
  unfolding move_to_org
  move_to_org-IsEmitted l p g = by_org l.org
    where
      by_org :
          (org : Option String)
          → IsEmitted (elim org [
            | none ↦ p
            | some org ↦ elim (parse_org org) [ ok v ↦ record p { lc = v } | err k ↦ p ]
          ])
      by_org none = g
      by_org (some org) = elim (Result-cases (parse_org org)) [
        | inl (v, e) ↦ rw e (moved p v g)
        | inr (k, e) ↦ rw e g
      ]

  emit_optional-IsEmitted :
      (line : ℕ) (statement : Option Unresolved) (p : Pass2)
      → IsEmitted p
      → IsEmitted (emit_optional symbols line statement p)
  unfolding emit_optional
  emit_optional-IsEmitted line none p g = g
  emit_optional-IsEmitted line (some s) p g = emit_statement-IsEmitted line s p g

  line2-IsEmitted : (l : Line) (p : Pass2) → IsEmitted p → IsEmitted (line2 symbols l p)
  unfolding line2
  line2-IsEmitted l p g =
      emit_optional-IsEmitted l.line l.statement (move_to_org l p) (move_to_org-IsEmitted l p g)

  pub pass2-IsEmitted : (ls : List Line) (p : Pass2) → IsEmitted p → IsEmitted (pass2 symbols ls p)
  unfolding pass2
  pass2-IsEmitted [] p g = g
  pass2-IsEmitted (l ∷ ls) p g = pass2-IsEmitted ls (line2 symbols l p) (line2-IsEmitted l p g)
