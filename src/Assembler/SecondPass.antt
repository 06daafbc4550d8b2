-- ===== src/Assembler/SecondPass.antt =====
-- The second pass: the location counter, and that errors stay.
use Prim.Native.String.{String}
use ex3_rust.Prelude.{
  ℕ, suc, ◌+◌, ◌^◌, ◌<◌, ◌≡◌, refl, sym as inverse, ap, ◌∙◌, arith, either_branch, Option, none,
  some, Result, ok, err, OnOk, OnOk-at, OnOk-and_then, passes, fails, ok_or, leb, List, [], ◌∷◌,
  ◌++◌, length, IsU16, IsU32,
}
use ex3_rust.Prelude.Text.{unsigned_from_str_radix}
use ex3_rust.Assembler.{
  Symbols, Unresolved, Line, CellKind, AsmError, Pass2, words, words_of, place_word, emit_word,
  emit_words, emit_resolved, emit_statement, emit_optional, move_to_org, line2, pass2, resolve,
  parse_org, unwrap_or, strip_hex_prefix, invalid_number, in_org_range,
}
use ex3_rust.Assembler.Resolved.{AllResolved, resolve-AllResolved}
use ex3_rust.Assembler.Resolved.Instructions.{HasAddresses}

pub parse_org-IsU16 : (s : String) → OnOk IsU16 (parse_org s)
unfolding parse_org
parse_org-IsU16 s =
    let digits = unwrap_or s (strip_hex_prefix s) in
    OnOk-and_then (ok_or (unsigned_from_str_radix 32 16 digits) (invalid_number s)) in_org_range
      (λ v e. in_range v)
  where
    in_range : (v : ℕ) → OnOk IsU16 (in_org_range v)
    in_range v = either_branch (OnOk IsU16) (leb v 0xffff) (passes (omega arith)) fails

pub parse_org-lt : (s : String) (v : ℕ) → parse_org s ≡ ok v → v < 2 ^ 16
parse_org-lt s v e = OnOk-at v (parse_org-IsU16 s) e

pub move_to_org-IsU32 : (l : Line) (q : Pass2) → IsU32 q.lc → IsU32 (move_to_org l q).lc
unfolding move_to_org
move_to_org-IsU32 l q h = grind (arith, parse_org-lt)

pub move_to_org-errors : (l : Line) (q : Pass2) → (move_to_org l q).errors ≡ q.errors
unfolding move_to_org
move_to_org-errors l q = ground arith

-- A word that is emitted without an error.
pub emit_word-ok :
    (line index : ℕ) (w : ℕ × CellKind) (q : Pass2)
    → (emit_word line index w q).errors ≡ []
    → (q.errors ≡ []) × (q.lc < 2 ^ 16) × ((emit_word line index w q).lc ≡ q.lc + 1)
unfolding emit_word place_word
emit_word-ok line index w q e = ground arith

pub emit_word-IsU32 :
    (line index : ℕ) (w : ℕ × CellKind) (q : Pass2) → IsU32 (emit_word line index w q).lc
unfolding emit_word
emit_word-IsU32 line index w q = omega arith

pub emit_words-ok :
    (line index : ℕ) (ws : List (ℕ × CellKind)) (q : Pass2)
    → IsU32 q.lc
    → (emit_words line index ws q).errors ≡ []
    → (q.errors ≡ [])
      × IsU32 (emit_words line index ws q).lc
      × ((emit_words line index ws q).lc ≡ q.lc + length ws)
unfolding emit_words
emit_words-ok line index [] q h e = (e, h, omega arith)
emit_words-ok line index (w ∷ ws) q h e =
    let next = emit_word line index w q in
    let wide : IsU32 next.lc = emit_word-IsU32 line index w q in
    let (e₁, h₁, sum) = emit_words-ok line (suc index) ws next wide e in
    let (e₀, low, one) = emit_word-ok line index w q e₁ in (e₀, h₁, omega arith)

pub emit_resolved-ok :
    (line : ℕ) (s : Unresolved) (q : Pass2) (r : Result (List (ℕ × CellKind)) AsmError)
    → OnOk (AllResolved (words s)) r
    → IsU32 q.lc
    → (emit_resolved line s q r).errors ≡ []
    → (q.errors ≡ [])
      × IsU32 (emit_resolved line s q r).lc
      × ((emit_resolved line s q r).lc ≡ q.lc + words s)
unfolding emit_resolved
emit_resolved-ok line s q (ok ws) g h e =
    let (e₀, wide, sum) = emit_words-ok line 0 ws q h e in
    (e₀, wide, sum ∙ ap (λ n. q.lc + n) (OnOk-at ws g refl).0)
emit_resolved-ok line s q (err x) g h e = cc e

module _ (symbols : Symbols) where
  pub emit_words-IsU32 :
      (line index : ℕ) (ws : List (ℕ × CellKind)) (q : Pass2)
      → IsU32 q.lc
      → IsU32 (emit_words line index ws q).lc
  unfolding emit_words
  emit_words-IsU32 line index [] q h = h
  emit_words-IsU32 line index (w ∷ ws) q h =
      emit_words-IsU32 line (suc index) ws (emit_word line index w q)
        (emit_word-IsU32 line index w q)

  pub emit_optional-IsU32 :
      (line : ℕ) (statement : Option Unresolved) (q : Pass2)
      → IsU32 q.lc
      → IsU32 (emit_optional symbols line statement q).lc
  unfolding emit_optional emit_statement emit_resolved
  emit_optional-IsU32 line none q h = h
  emit_optional-IsU32 line (some s) q h = by_result (resolve s symbols line)
    where
      by_result : (r : Result (List (ℕ × CellKind)) AsmError) → IsU32 (emit_resolved line s q r).lc
      by_result (ok ws) = emit_words-IsU32 line 0 ws q h
      by_result (err e) = ground arith

  pub line2-IsU32 : (l : Line) (q : Pass2) → IsU32 q.lc → IsU32 (line2 symbols l q).lc
  unfolding line2
  line2-IsU32 l q h =
      emit_optional-IsU32 l.line l.statement (move_to_org l q) (move_to_org-IsU32 l q h)

module _ (symbols : Symbols) (good : HasAddresses symbols) where
  pub emit_optional-ok :
      (line : ℕ) (statement : Option Unresolved) (q : Pass2)
      → IsU32 q.lc
      → (emit_optional symbols line statement q).errors ≡ []
      → (q.errors ≡ []) × ((emit_optional symbols line statement q).lc ≡ q.lc + words_of statement)
  unfolding emit_optional emit_statement
  emit_optional-ok line none q h e = (e, omega arith)
  emit_optional-ok line (some s) q h e =
      let (e₀, _, sum) =
        emit_resolved-ok line s q (resolve s symbols line) (resolve-AllResolved s symbols line good)
          h e in
      (e₀, sum)

  -- A line of the second pass that adds no error moves the location counter over its words.
  pub line2-ok :
      (l : Line) (q : Pass2)
      → IsU32 q.lc
      → (line2 symbols l q).errors ≡ []
      → (q.errors ≡ []) × ((line2 symbols l q).lc ≡ (move_to_org l q).lc + words_of l.statement)
  unfolding line2
  line2-ok l q h e =
      let (e₀, sum) =
        emit_optional-ok l.line l.statement (move_to_org l q) (move_to_org-IsU32 l q h) e in
      (inverse (move_to_org-errors l q) ∙ e₀, sum)

  pub pass2-ok :
      (ls : List Line) (q : Pass2) → IsU32 q.lc → (pass2 symbols ls q).errors ≡ [] → q.errors ≡ []
  unfolding pass2
  pass2-ok [] q h e = e
  pass2-ok (l ∷ ls) q h e =
      (line2-ok l q h (pass2-ok ls (line2 symbols l q) (line2-IsU32 symbols l q h) e)).0

pub pass2-append :
    (symbols : Symbols) (pre post : List Line) (q : Pass2)
    → pass2 symbols (pre ++ post) q ≡ pass2 symbols post (pass2 symbols pre q)
unfolding pass2
pass2-append symbols [] post q = refl
pass2-append symbols (l ∷ pre) post q = pass2-append symbols pre post (line2 symbols l q)

pub pass2-IsU32 :
    (symbols : Symbols) (ls : List Line) (q : Pass2) → IsU32 q.lc → IsU32 (pass2 symbols ls q).lc
unfolding pass2
pass2-IsU32 symbols [] q h = h
pass2-IsU32 symbols (l ∷ ls) q h =
    pass2-IsU32 symbols ls (line2 symbols l q) (line2-IsU32 symbols l q h)
