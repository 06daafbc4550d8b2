-- ===== src/Assembler/Fuel.antt =====
-- The loop over a line's labels: its fuel, and how it splits the line.
use Prim.Native.Char.{code}
use Prim.Native.String.{String, count}
use mathlib.Core.List.{append-nil, append_assoc}
use text.Mathlib.TextLemmas.{length-cons}
use ex3_rust.Prelude.{
  ℕ, zero, suc, ◌≤◌, ◌<◌, ◌≡◌, refl, sym, ◌∙◌, arith, ap, subst, Bool, true, false, inl, inr,
  Bool-cases, if_true, if_false, either_branch, Option, none, some, List, [], ◌∷◌, ◌++◌ as append,
}
use ex3_rust.Prelude.Maps.{Option-cases}
use ex3_rust.Prelude.Text.{before, behind, trim, trim_start, is_whitespace, split_whitespace}
use ex3_rust.Assembler.{labels_loop, labels_or, split_labels, is_separator, is_one_word}

-- How a line starts with labels: each is one word in front of a separator, with the white space taken
-- off; what is left has no separator, or what stands in front of its first one is not one word.
pub data Splits : String → List String → String → Type 0 where
  no_separator : (rest : String) → behind is_separator rest ≡ none → Splits rest [] rest
  no_word :
      (rest after : String)
      → behind is_separator rest ≡ some after
      → is_one_word (split_whitespace (trim (before is_separator rest))) ≡ false
      → Splits rest [] rest
  label :
      (text after : String) {labels : List String} {rest : String}
      → behind is_separator text ≡ some after
      → is_one_word (split_whitespace (trim (before is_separator text))) ≡ true
      → Splits (trim_start after) labels rest
      → Splits text (trim (before is_separator text) ∷ labels) rest

-- The text behind a character that passes is shorter.
behind-count : (p : ℕ → Bool) (s t : String) → behind p s ≡ some t → count t < count s
unfolding behind
behind-count p String.[] t e = cc e
behind-count p (String.◌∷◌ c s) t e = ground (arith, length-cons c s, behind-count p s t)

trim_start-count : (s : String) → count (trim_start s) ≤ count s
unfolding trim_start
trim_start-count String.[] = omega arith
trim_start-count (String.◌∷◌ c s) =
    either_branch (λ t. count t ≤ count (String.◌∷◌ c s)) (is_whitespace (code c))
      (omega (arith, length-cons c s, trim_start-count s)) (omega arith)

-- Every text starts with some labels.
splits :
    (fuel : ℕ) (text : String)
    → count text < fuel
    → (labels : List String) × (rest : String) × Splits text labels rest
splits zero text h = absurd (omega arith)
splits (suc fuel) text h = elim (Option-cases (behind is_separator text)) [
  | inl e ↦ ([], text, Splits.no_separator text e)
  | inr (after, e) ↦
      elim (Bool-cases (is_one_word (split_whitespace (trim (before is_separator text))))) [
        | inl word ↦
            let (labels, rest, found) =
              splits fuel (trim_start after)
                (omega (arith, behind-count is_separator text after e, trim_start-count after)) in
            (trim (before is_separator text) ∷ labels, rest, Splits.label text after e word found)
        | inr phrase ↦ ([], text, Splits.no_word text after e phrase)
      ]
]

module _ {A B : Type 0} (x : B) (f : A → B) where
  match_none : (o : Option A) → o ≡ none → elim o [ none ↦ x | some a ↦ f a ] ≡ x
  match_none none e = refl
  match_none (some a) e = cc e

  match_some : (o : Option A) (b : A) → o ≡ some b → elim o [ none ↦ x | some a ↦ f a ] ≡ f b
  match_some none b e = cc e
  match_some (some a) b e = ap f (cc e)

-- The loop adds the labels that the text starts with.
Splits-loop :
    (fuel : ℕ) (found : List String) (text : String) (labels : List String) (rest : String)
    → Splits text labels rest
    → count text < fuel
    → labels_loop fuel found text ≡ some (append found labels, rest)
unfolding labels_loop
Splits-loop zero found text labels rest s h = absurd (omega arith)
Splits-loop (suc fuel) found _ _ _ (Splits.no_separator text e) h =
    match_none _ _ (behind is_separator text) e ∙ ap (λ l. some (l, text)) (sym (append-nil found))
Splits-loop (suc fuel) found _ _ _ (Splits.no_word text after e phrase) h =
    match_some _ _ (behind is_separator text) after e
    ∙ if_false _ phrase
    ∙ ap (λ l. some (l, text)) (sym (append-nil found))
Splits-loop (suc fuel) found _ _ _ (Splits.label text after {labels} {rest} e word later) h =
    let candidate = trim (before is_separator text) in
    match_some _ _ (behind is_separator text) after e
    ∙ if_true _ word
    ∙ Splits-loop fuel (append found (candidate ∷ [])) (trim_start after) labels rest later
        (omega (arith, behind-count is_separator text after e, trim_start-count after))
    ∙ ap (λ l. some (l, rest)) (append_assoc found (candidate ∷ []) labels)

-- With more fuel than the line has characters the loop that splits the labels off a line ends by
-- itself, with the result of `split_labels`: each label is one word in front of a separator, and
-- what is left has no separator, or has more or less than one word in front of its first one.
pub split_labels-Splits :
    (fuel : ℕ) (text : String)
    → count text < fuel
    → (labels_loop fuel [] text ≡ some (split_labels text))
      × Splits text (split_labels text).0 (split_labels text).1
unfolding split_labels
split_labels-Splits fuel text h =
    let (labels, rest, found) = splits (suc (count text)) text (omega arith) in
    let loop : labels_loop (suc (count text)) [] text ≡ some (labels, rest) =
      Splits-loop (suc (count text)) [] text labels rest found (omega arith) in
    let same : split_labels text ≡ (labels, rest) = ap (labels_or text) loop in
    (
      Splits-loop fuel [] text labels rest found h ∙ ap some (sym same),
      subst (λ (p : List String × String). Splits text p.0 p.1) (sym same) found,
    )
