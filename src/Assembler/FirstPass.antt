-- ===== src/Assembler/FirstPass.antt =====
-- The first pass: what a line and a label do when they are not refused, and that symbols stay.
use Prim.Native.String.{String}
use text.Mathlib.TextEquality.{eq_iff}
use text.Mathlib.TextPositions.{eq_refl}
use ex3_rust.Prelude.{ℕ, ◌^◌, ◌<◌, ◌≡◌, refl, ap, ◌∙◌, arith, false, some, List, [], ◌∷◌, ◌++◌}
use ex3_rust.Assembler.{
  Line, Pass1, get, set_org, define_label, define_labels, line1, pass1, is_some,
}

-- A definition that succeeds.
pub define_label-ok :
    (line : ℕ) (label : String) (p : Pass1)
    → (define_label line label p).errors ≡ []
    → (p.errors ≡ [])
      × (is_some (get label p.symbols) ≡ false)
      × (p.lc < 2 ^ 16)
      × (define_label line label p ≡ record p { symbols = (label, p.lc) ∷ p.symbols })
unfolding define_label
define_label-ok line label p e = ground arith

pub define_labels-ok :
    (line : ℕ) (labels : List String) (p : Pass1)
    → (define_labels line labels p).errors ≡ []
    → (p.errors ≡ []) × ((define_labels line labels p).lc ≡ p.lc)
unfolding define_labels
define_labels-ok line [] p e = (e, refl)
define_labels-ok line (label ∷ labels) p e =
    let (e₁, same) = define_labels-ok line labels (define_label line label p) e in
    let (e₀, _, _, step) = define_label-ok line label p e₁ in
    (e₀, same ∙ ap (λ (x : Pass1). x.lc) step)

-- A symbol that is defined stays.
pub define_label-get :
    (line : ℕ) (label name : String) (a : ℕ) (p : Pass1)
    → get name p.symbols ≡ some a
    → get name (define_label line label p).symbols ≡ some a
unfolding define_label get
define_label-get line label name a p e = ground (arith, eq_iff label name)

pub define_labels-get :
    (line : ℕ) (labels : List String) (name : String) (a : ℕ) (p : Pass1)
    → get name p.symbols ≡ some a
    → get name (define_labels line labels p).symbols ≡ some a
unfolding define_labels
define_labels-get line [] name a p e = e
define_labels-get line (label ∷ labels) name a p e =
    define_labels-get line labels name a (define_label line label p)
      (define_label-get line label name a p e)

-- A label of the line gets the location counter.
pub data IsLabelOf (name : String) : List String → Type 0 where
  first : {labels : List String} → IsLabelOf name (name ∷ labels)
  later :
      {label : String} {labels : List String}
      → IsLabelOf name labels
      → IsLabelOf name (label ∷ labels)

pub define_labels-defines :
    (line : ℕ) (labels : List String) (name : String) (p : Pass1)
    → (define_labels line labels p).errors ≡ []
    → IsLabelOf name labels
    → get name (define_labels line labels p).symbols ≡ some p.lc
unfolding define_labels get
define_labels-defines line [] name p e h = elim h [ ]
define_labels-defines line (name' ∷ labels) name p e first =
    let (e₁, same) = define_labels-ok line labels (define_label line name p) e in
    let (_, _, _, step) = define_label-ok line name p e₁ in
    define_labels-get line labels name p.lc (define_label line name p)
      (ground (arith, ap (λ (x : Pass1). x.symbols) step, eq_refl name))
define_labels-defines line (label ∷ labels) name p e (later h) =
    let (e₁, same) = define_labels-ok line labels (define_label line label p) e in
    let (_, _, _, step) = define_label-ok line label p e₁ in
    define_labels-defines line labels name (define_label line label p) e h
    ∙ ap some (ap (λ (x : Pass1). x.lc) step)

pub set_org-symbols : (l : Line) (p : Pass1) → (set_org l p).symbols ≡ p.symbols
unfolding set_org
set_org-symbols l p = ground arith

pub set_org-ok : (l : Line) (p : Pass1) → (set_org l p).errors ≡ [] → p.errors ≡ []
unfolding set_org
set_org-ok l p e = ground arith

pub line1-ok : (l : Line) (p : Pass1) → (line1 l p).errors ≡ [] → p.errors ≡ []
unfolding line1
line1-ok l p e = set_org-ok l p (define_labels-ok l.line l.labels (set_org l p) e).0

pub pass1-ok : (ls : List Line) (p : Pass1) → (pass1 ls p).errors ≡ [] → p.errors ≡ []
unfolding pass1
pass1-ok [] p e = e
pass1-ok (l ∷ ls) p e = line1-ok l p (pass1-ok ls (line1 l p) e)

pub line1-get :
    (l : Line) (name : String) (a : ℕ) (p : Pass1)
    → get name p.symbols ≡ some a
    → get name (line1 l p).symbols ≡ some a
unfolding line1
line1-get l name a p e =
    define_labels-get l.line l.labels name a (set_org l p) (ap (get name) (set_org-symbols l p) ∙ e)

pub pass1-get :
    (ls : List Line) (name : String) (a : ℕ) (p : Pass1)
    → get name p.symbols ≡ some a
    → get name (pass1 ls p).symbols ≡ some a
unfolding pass1
pass1-get [] name a p e = e
pass1-get (l ∷ ls) name a p e = pass1-get ls name a (line1 l p) (line1-get l name a p e)

pub pass1-append :
    (pre post : List Line) (p : Pass1) → pass1 (pre ++ post) p ≡ pass1 post (pass1 pre p)
unfolding pass1
pass1-append [] post p = refl
pass1-append (l ∷ pre) post p = pass1-append pre post (line1 l p)

pub pass1-cons : (l : Line) (ls : List Line) (p : Pass1) → pass1 (l ∷ ls) p ≡ pass1 ls (line1 l p)
unfolding pass1
pass1-cons l ls p = refl

pub line1-defines :
    (l : Line) (name : String) (p : Pass1)
    → (line1 l p).errors ≡ []
    → IsLabelOf name l.labels
    → get name (line1 l p).symbols ≡ some (set_org l p).lc
unfolding line1
line1-defines l name p e h = define_labels-defines l.line l.labels name (set_org l p) e h
