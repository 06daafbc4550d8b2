-- ===== src/Assembler/Labels.antt =====
-- The two passes agree: a label's address is where the second pass emits its line.
use Prim.Native.String.{String}
use text.Mathlib.Text.{◌==◌ as str_eq}
use ex3_rust.Prelude.{
  in_order, ◌≢◌, ℕ, ◌≡◌, refl, sym as inverse, ap, ◌∙◌, subst, arith, not, ◌||◌, ltb, either_branch,
  either_case, some, Result, ok, err, List, [], ◌∷◌, ◌++◌, IsU32, unless_errors, and_then,
}
use ex3_rust.Assembler.{
  Symbols, Line, Pass1, Pass2, AssemblyResult, get, set_org, define_label, define_labels, line1,
  pass1, start1, move_to_org, line2, pass2, start2, is_some, valid_identifier, assemble_lines,
}
use ex3_rust.Assembler.Resolved.Instructions.{HasAddresses}
use ex3_rust.Assembler.FirstPass.{
  define_labels-ok, IsLabelOf, set_org-symbols, line1-ok, pass1-ok, pass1-get, pass1-append,
  pass1-cons, line1-defines,
}
use ex3_rust.Assembler.SecondPass.{line2-IsU32, line2-ok, pass2-ok, pass2-append, pass2-IsU32}

-- Both passes take the same ORG.
set_org-move_to_org :
    (l : Line) (p : Pass1) (q : Pass2) → p.lc ≡ q.lc → (set_org l p).lc ≡ (move_to_org l q).lc
unfolding set_org move_to_org
set_org-move_to_org l p q e = ground arith

module _ (symbols : Symbols) (good : HasAddresses symbols) where
  -- The two passes move the location counter alike over a line.
  line-agrees :
      (l : Line) (p : Pass1) (q : Pass2)
      → p.lc ≡ q.lc
      → IsU32 q.lc
      → (line1 l p).errors ≡ []
      → (line2 symbols l q).errors ≡ []
      → (line1 l p).lc ≡ (line2 symbols l q).lc
  unfolding line1
  line-agrees l p q same h e₁ e₂ =
      let (_, lc) = define_labels-ok l.line l.labels (set_org l p) e₁ in
      let (_, sum) = line2-ok symbols good l q h e₂ in
      let wide = line2-IsU32 symbols l q h in ground (arith, lc, set_org-move_to_org l p q same)

-- Over lines that neither pass refuses, the location counters stay equal.
passes-agree :
    (symbols : Symbols) (good : HasAddresses symbols) (ls : List Line) (p : Pass1) (q : Pass2)
    → p.lc ≡ q.lc
    → IsU32 q.lc
    → (pass1 ls p).errors ≡ []
    → (pass2 symbols ls q).errors ≡ []
    → (pass1 ls p).lc ≡ (pass2 symbols ls q).lc
unfolding pass1 pass2
passes-agree symbols good [] p q same h e₁ e₂ = same
passes-agree symbols good (l ∷ ls) p q same h e₁ e₂ =
    let wide = line2-IsU32 symbols l q h in
    let here₁ = pass1-ok ls (line1 l p) e₁ in
    let here₂ = pass2-ok symbols good ls (line2 symbols l q) wide e₂ in
    passes-agree symbols good ls (line1 l p) (line2 symbols l q)
      (line-agrees symbols good l p q same h here₁ here₂) wide e₁ e₂

-- The symbols of the first pass are addresses.
define_label-HasAddresses :
    (line : ℕ) (label : String) (p : Pass1)
    → HasAddresses p.symbols
    → HasAddresses (define_label line label p).symbols
unfolding define_label
define_label-HasAddresses line label p h =
    either_branch (λ (x : Pass1). HasAddresses x.symbols)
      (not (valid_identifier label) || str_eq label "I") h
      (either_branch (λ (x : Pass1). HasAddresses x.symbols) (is_some (get label p.symbols)) h
        (either_case (λ (x : Pass1). HasAddresses x.symbols) (ltb 0xffff p.lc) (λ high. h)
          (λ low. (ground arith, h))))

define_labels-HasAddresses :
    (line : ℕ) (labels : List String) (p : Pass1)
    → HasAddresses p.symbols
    → HasAddresses (define_labels line labels p).symbols
unfolding define_labels
define_labels-HasAddresses line [] p h = h
define_labels-HasAddresses line (label ∷ labels) p h =
    define_labels-HasAddresses line labels (define_label line label p)
      (define_label-HasAddresses line label p h)

pass1-HasAddresses :
    (ls : List Line) (p : Pass1) → HasAddresses p.symbols → HasAddresses (pass1 ls p).symbols
unfolding pass1 line1
pass1-HasAddresses [] p h = h
pass1-HasAddresses (l ∷ ls) p h = pass1-HasAddresses ls (line1 l p) (
    define_labels-HasAddresses l.line l.labels (set_org l p)
      (subst HasAddresses (inverse (set_org-symbols l p)) h))

unless_errors-append_one :
    {A E : Type 0} (a b : A) (es : List E) (e : E) → unless_errors a (es ++ e ∷ []) ≢ ok b
unless_errors-append_one a b [] e h = cc h
unless_errors-append_one a b (x ∷ es) e h = cc h

unless_errors-ok :
    {A E : Type 0} (a b : A) (es : List E)
    → unless_errors a (in_order es) ≡ ok b
    → (es ≡ []) × (a ≡ b)
unless_errors-ok a b [] e = (refl, cc e)
unless_errors-ok a b (x ∷ es) e = absurd (unless_errors-append_one a b (in_order es) x e)

pub and_then-ok :
    {A B E : Type 0} (r : Result A E) (f : A → Result B E) (b : B)
    → and_then r f ≡ ok b
    → (a : A) × (r ≡ ok a) × (f a ≡ ok b)
and_then-ok (ok a) f b e = (a, refl, e)
and_then-ok (err x) f b e = cc e

-- What a successful assembly says of the two passes.
pub record Succeeds (ls : List Line) (r : AssemblyResult) : Type 0 where
  pub first_errors : (pass1 ls start1).errors ≡ []
  pub symbols-HasAddresses : HasAddresses r.symbols
  pub same_symbols : (pass1 ls start1).symbols ≡ r.symbols
  pub second_errors : (pass2 r.symbols ls start2).errors ≡ []
  pub same_result :
      record {
        image = in_order (pass2 r.symbols ls start2).cells;
        symbols = r.symbols;
        source_map = in_order (pass2 r.symbols ls start2).source_map;
      }
      ≡ r

pub assemble_lines-Succeeds :
    (ls : List Line) (r : AssemblyResult) → assemble_lines ls ≡ ok r → Succeeds ls r
unfolding assemble_lines
assemble_lines-Succeeds ls r e =
    let p = pass1 ls start1 in
    let (symbols, e₁, e₂) = and_then-ok (unless_errors p.symbols (in_order p.errors)) _ r e in
    let (none₁, same) = unless_errors-ok p.symbols symbols p.errors e₁ in
    let q = pass2 symbols ls start2 in
    let (none₂, result) = unless_errors-ok _ r q.errors e₂ in
    subst (Succeeds ls) result (record {
      first_errors = none₁;
      symbols-HasAddresses = subst HasAddresses same (pass1-HasAddresses ls start1 tt);
      same_symbols = same;
      second_errors = none₂;
      same_result = refl;
    })

-- If the lines of a program assemble, every label of a line has as its address the location
-- counter at which the second pass starts to emit that line, after the line's ORG: the two passes
-- agree.
pub label-address :
    (pre : List Line) (l : Line) (post : List Line) (name : String) (r : AssemblyResult)
    → assemble_lines (pre ++ l ∷ post) ≡ ok r
    → IsLabelOf name l.labels
    → get name r.symbols ≡ some (move_to_org l (pass2 r.symbols pre start2)).lc
label-address pre l post name r e h =
    let good = assemble_lines-Succeeds (pre ++ l ∷ post) r e in
    let p = pass1 pre start1 in
    let q = pass2 r.symbols pre start2 in
    let whole₁ = pass1-append pre (l ∷ post) start1 in
    let whole₂ = pass2-append r.symbols pre (l ∷ post) start2 in
    let errors₁ : (pass1 post (line1 l p)).errors ≡ [] =
      subst (λ (x : Pass1). x.errors ≡ []) (whole₁ ∙ pass1-cons l post p) good.first_errors in
    let line_errors = pass1-ok post (line1 l p) errors₁ in
    let errors₂ : (pass2 r.symbols (l ∷ post) q).errors ≡ [] =
      subst (λ (x : Pass2). x.errors ≡ []) whole₂ good.second_errors in
    let wide = pass2-IsU32 r.symbols pre start2 (omega arith) in
    let same =
      passes-agree r.symbols good.symbols-HasAddresses pre start1 start2 refl (omega arith)
        (line1-ok l p line_errors)
        (pass2-ok r.symbols good.symbols-HasAddresses (l ∷ post) q wide errors₂) in
    ap (get name)
      (inverse good.same_symbols ∙ ap (λ (x : Pass1). x.symbols) (whole₁ ∙ pass1-cons l post p))
    ∙ pass1-get post name (set_org l p).lc (line1 l p) (line1-defines l name p line_errors h)
    ∙ ap some (set_org-move_to_org l p q same)
