-- ===== src/Output/RoundTrip.antt =====
-- A memory dump reads back: `parse_mem` of what `format_mem` writes.
use Prim.Native.String.{String, ◌++◌}
use text.Mathlib.TextLemmas.{nil-append}
use ex3_rust.Prelude.{
  ℕ, suc, ◌≡◌, refl, ap, ◌∙◌, if◌then◌else◌, List, [], ◌∷◌, map, All, IsU16, IsU32, ok, and_then,
  map_ok, ok_or,
}
use ex3_rust.Prelude.Text.{
  is_whitespace, is_empty, trim_start, trim, close_word, words_from, split_whitespace,
  without_return, lines_from, unsigned_from_str_radix,
}
use ex3_rust.Isa.Address.{Address}
use ex3_rust.Assembler.{MemoryCell}
use ex3_rust.Output.{hex_digits, format_mem, parse_fields, parse_mem_lines, parse_mem}
use ex3_rust.Output.Digits.{hex_field-hex_digits}
use ex3_rust.Output.Lines.{
  in_word, AllChars, hex_digits-AllChars, single-append, written, in_word_table, dump_line,
  dump_line-AllChars, lines_from-line, without_return-line, IsTrimmed, IsTrimmed-cons,
  IsTrimmed-append, IsTrimmed-word, words_from-word, words_from-last,
}

abbrev cell_entry : MemoryCell → Address × ℕ
cell_entry c = (c.address, c.word)

-- An address and a word of the widths of their types.
abbrev pub IsCell : MemoryCell → Type 0
IsCell c = IsU16 c.address × IsU32 c.word

module _ (address word : ℕ) where
  hex_digits-in_word : (k n : ℕ) → AllChars in_word (hex_digits k n)
  hex_digits-in_word = hex_digits-AllChars in_word in_word_table

  IsTrimmed-hex_digits : (n : ℕ) → IsTrimmed (hex_digits 8 n)
  unfolding hex_digits
  IsTrimmed-hex_digits n = IsTrimmed-word _ _ (hex_digits-in_word 8 n)

  trim-dump_line : trim (dump_line address word) ≡ dump_line address word
  unfolding trim_start is_whitespace
  trim-dump_line =
      (IsTrimmed-cons "@" _ (
        IsTrimmed-append (hex_digits 4 address) (String.◌∷◌ " " (hex_digits 8 word))
          (IsTrimmed-cons " " (hex_digits 8 word) (IsTrimmed-hex_digits word)))).1

  close_word-hex_digits :
      (n : ℕ) (ws : List String) → close_word (hex_digits 8 n) ws ≡ hex_digits 8 n ∷ ws
  unfolding hex_digits
  close_word-hex_digits n ws = refl

  split_whitespace-dump_line :
      split_whitespace (dump_line address word)
      ≡ String.◌∷◌ "@" (hex_digits 4 address) ∷ hex_digits 8 word ∷ []
  unfolding words_from is_whitespace
  split_whitespace-dump_line =
      words_from-word ("" ++ String.◌∷◌ "@" String.[]) (hex_digits 4 address) (hex_digits 8 word)
        (hex_digits-in_word 4 address)
      ∙ ap (λ l. close_word l (words_from String.[] (hex_digits 8 word)))
          (single-append "@" (hex_digits 4 address))
      ∙ ap (λ l. String.◌∷◌ "@" (hex_digits 4 address) ∷ l)
          (words_from-last String.[] (hex_digits 8 word) (hex_digits-in_word 8 word)
            ∙ ap (λ t. close_word t []) (nil-append (hex_digits 8 word))
            ∙ close_word-hex_digits word [])

  parse_fields-dump_line :
      (line : ℕ)
      → IsU16 address
      → IsU32 word
      → parse_fields line (String.◌∷◌ "@" (hex_digits 4 address) ∷ hex_digits 8 word ∷ [])
        ≡ ok (address, word)
  unfolding parse_fields
  parse_fields-dump_line line ha hw =
      ap
        (λ r. and_then r (λ a.
          map_ok (λ w. (a, w))
            (ok_or (unsigned_from_str_radix 32 16 (hex_digits 8 word))
              (record { line = line; message = "invalid word" }))))
        (hex_field-hex_digits line "invalid address" address word ha hw).0
      ∙ ap (map_ok (λ w. (address, w)))
          (hex_field-hex_digits line "invalid word" address word ha hw).1

lines_from-format_mem :
    (c : MemoryCell) (cells : List MemoryCell)
    → lines_from String.[] (format_mem (c ∷ cells))
      ≡ dump_line c.address c.word ∷ lines_from String.[] (format_mem cells)
unfolding format_mem
lines_from-format_mem c cells =
    let whole = dump_line-AllChars c.address c.word in
    ap (lines_from String.[]) (written c.address c.word (format_mem cells))
    ∙ lines_from-line String.[] (dump_line c.address c.word) (format_mem cells) whole
    ∙ ap (λ l. without_return l ∷ lines_from String.[] (format_mem cells))
        (nil-append (dump_line c.address c.word))
    ∙ ap (λ l. l ∷ lines_from String.[] (format_mem cells))
        (without_return-line (dump_line c.address c.word) whole)

parse_mem_lines-dump_line :
    (line address word : ℕ) (raws : List String)
    → IsU16 address
    → IsU32 word
    → parse_mem_lines line (dump_line address word ∷ raws)
      ≡ map_ok (λ more. (address, word) ∷ more) (parse_mem_lines (suc line) raws)
unfolding parse_mem_lines
parse_mem_lines-dump_line line address word raws ha hw =
    let rest = parse_mem_lines (suc line) raws in
    ap
      (λ text.
        if is_empty text
        then rest
        else and_then (parse_fields line (split_whitespace text))
            (λ entry. map_ok (λ more. entry ∷ more) rest))
      (trim-dump_line address word)
    ∙ ap (λ ws. and_then (parse_fields line ws) (λ entry. map_ok (λ more. entry ∷ more) rest))
        (split_whitespace-dump_line address word)
    ∙ ap (λ r. and_then r (λ entry. map_ok (λ more. entry ∷ more) rest))
        (parse_fields-dump_line address word line ha hw)

parse_mem_lines-format_mem :
    (line : ℕ) (cells : List MemoryCell)
    → All IsCell cells
    → parse_mem_lines line (lines_from String.[] (format_mem cells)) ≡ ok (map cell_entry cells)
unfolding parse_mem_lines
parse_mem_lines-format_mem line [] h = unfold format_mem lines_from in refl
parse_mem_lines-format_mem line (c ∷ cells) ((ha, hw), hs) =
    ap (parse_mem_lines line) (lines_from-format_mem c cells)
    ∙ parse_mem_lines-dump_line line c.address c.word (lines_from String.[] (format_mem cells)) ha
        hw
    ∙ ap (map_ok (λ more. cell_entry c ∷ more)) (parse_mem_lines-format_mem (suc line) cells hs)

-- If every cell has an address of 16 bits and a word of 32, `parse_mem` of what `format_mem`
-- writes for the cells gives their addresses and words back, in order.
pub parse_mem-format_mem :
    (cells : List MemoryCell)
    → All IsCell cells
    → parse_mem (format_mem cells) ≡ ok (map (λ (c : MemoryCell). (c.address, c.word)) cells)
unfolding parse_mem
parse_mem-format_mem cells h = parse_mem_lines-format_mem 1 cells h
