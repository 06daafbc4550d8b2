-- ===== src/Assembler/Parse.antt =====
-- `parse`: the lines of a source text, with their labels, ORG directive and statement.
use Prim.Native.String.{String, ◌++◌, count}
use text.Mathlib.Text.{◌==◌ as str_eq}
use ex3_rust.Prelude.{
  ℕ, zero, suc, Bool, true, false, ◌||◌, ◌==◌, if◌then◌else◌, Option, some, none, Result,
  unless_errors, List, [], ◌∷◌, ◌++◌ as append,
}
use ex3_rust.Prelude.Text.{
  before, behind, trim, trim_start, split_whitespace, is_empty, to_ascii_uppercase,
  eq_ignore_ascii_case, lines,
}
use ex3_rust.Assembler.Types.{
  AsmError, Unresolved, instruction, hex, dec, chr, sym, Line, unexpected_end, syntax_error,
  error_at,
}

abbrev pub is_separator : ℕ → Bool
is_separator c = c == b':' || c == b','

abbrev pub is_comment : ℕ → Bool
is_comment c = c == b';' || c == b'/'

abbrev pub is_one_word : List String → Bool
is_one_word [] = false
is_one_word (w ∷ []) = true
is_one_word (w ∷ v ∷ ws) = false

-- The loop over the labels at the start of a line, which gives them and what is left of the line, or
-- `none` when the fuel runs out.
unfoldable pub labels_loop : ℕ → List String → String → Option (List String × String)
unfolding before behind trim_start
labels_loop zero labels rest = none
labels_loop (suc fuel) labels rest = elim (behind is_separator rest) [
  | none ↦ some (labels, rest)
  | some after ↦
      let candidate = trim (before is_separator rest) in
      let next = labels_loop fuel (append labels (candidate ∷ [])) (trim_start after) in
      if is_one_word (split_whitespace candidate) then next else some (labels, rest)
]

-- The result of the loop. The line without labels, where the fuel runs out, is there for the types
-- alone.
abbrev pub labels_or : String → Option (List String × String) → List String × String
labels_or text none = ([], text)
labels_or text (some found) = found

-- Each turn takes a separator off, so the number of characters is fuel enough.
unfoldable pub split_labels : String → List String × String
unfolding labels_loop
split_labels text = labels_or text (labels_loop (suc (count text)) [] text)

-- The four data directives take one operand.
abbrev pub one_operand :
    String → (String → Unresolved) → List String → ℕ → Option Unresolved × List AsmError
one_operand name make (arg ∷ []) line_no = (some (make arg), [])
one_operand name make _ line_no =
    (none, error_at line_no (syntax_error (name ++ " requires one operand")) ∷ [])

unfoldable pub statement_of : String → List String → ℕ → Option Unresolved × List AsmError
statement_of name args line_no =
    if str_eq name "HEX"
    then one_operand name hex args line_no
    else if str_eq name "DEC"
    then one_operand name dec args line_no
    else if str_eq name "CHR"
    then one_operand name chr args line_no
    else if str_eq name "SYM"
    then one_operand name sym args line_no
    else (some (instruction name args), [])

-- What the words behind the labels say: the ORG directive, the statement, and the errors.
pub record Parsed : Type 0 where
  pub org : Option String
  pub statement : Option Unresolved
  pub errors : List AsmError

abbrev pub org_of : List String → ℕ → Parsed
org_of (address ∷ []) line_no = record { org = some address; statement = none; errors = [] }
org_of _ line_no = record {
  org = none;
  statement = none;
  errors = error_at line_no (syntax_error "ORG requires one address") ∷ [];
}

unfoldable pub parse_tokens : List String → ℕ → Parsed
unfolding statement_of
parse_tokens [] line_no = record { org = none; statement = none; errors = [] }
parse_tokens (token ∷ args) line_no =
    if eq_ignore_ascii_case token "ORG"
    then org_of args line_no
    else (let (statement, errors) = statement_of (to_ascii_uppercase token) args line_no in
        record { org = none; statement = statement; errors = errors })

-- The parser's loop over the lines: their results and errors from here on.
unfoldable pub parse_line : String → ℕ → Line × List AsmError
unfolding split_labels parse_tokens
parse_line text line_no =
    let (labels, rest) = split_labels text in
    let parsed = parse_tokens (split_whitespace rest) line_no in
    (
      record { line = line_no; org = parsed.org; labels = labels; statement = parsed.statement },
      parsed.errors,
    )

abbrev pub code_of : String → String
code_of raw = trim (before is_comment raw)

-- What a line is, in the order of the tests.
pub data LineKind : Type 0 where
  blank behind_end end_line code_line : LineKind

abbrev pub kind_of : Bool → String → LineKind
kind_of ended text =
    if is_empty text
    then blank
    else if ended
    then behind_end
    else if eq_ignore_ascii_case text "END"
    then end_line
    else code_line

unfoldable pub parse_lines : Bool → ℕ → List String → List Line × List AsmError
unfolding before parse_line
parse_lines ended line_no [] = ([], [])
parse_lines ended line_no (raw ∷ raws) = elim (kind_of ended (code_of raw)) [
  | blank ↦ parse_lines ended (suc line_no) raws
  | behind_end ↦
      let (result, errors) = parse_lines ended (suc line_no) raws in
      (result, error_at line_no unexpected_end ∷ errors)
  | end_line ↦ parse_lines true (suc line_no) raws
  | code_line ↦
      let (line, errors) = parse_line (code_of raw) line_no in
      let (result, more) = parse_lines ended (suc line_no) raws in
      (line ∷ result, append errors more)
]

unfoldable pub parse : String → Result (List Line) (List AsmError)
unfolding parse_lines
parse source =
    let (result, errors) = parse_lines false 1 (lines source) in unless_errors result errors
