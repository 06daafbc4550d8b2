-- ===== src/Output/Lines.antt =====
-- The lines of a memory dump and their words, as `lines`, `trim` and `split_whitespace` see them.
use Prim.Native.Char.{Char, code}
use Prim.Native.String.{String, ◌++◌}
use text.Mathlib.TextLemmas.{nil-append, cons-append, append-nil, append_assoc}
use ex3_rust.Prelude.{
  ℕ, zero, suc, ◌/◌, ◌%◌, ◌^◌, ◌≡◌, refl, sym, ap, ◌∙◌, subst, arith, Bool, true, false, not, ◌&&◌,
  ◌==◌, if_false, [], ◌∷◌, all_below, all_below-at,
}
use ex3_rust.Prelude.Text.{
  is_whitespace, is_empty, all_chars, trim_end, close_word, words_from, without_return, lines_from,
}
use ex3_rust.Output.{hex_digit, hex_digits}

-- A character inside of a line, and one inside of a word.
abbrev pub in_line : ℕ → Bool
in_line c = not (c == 10) && not (c == 13)

abbrev pub in_word : ℕ → Bool
in_word c = not (is_whitespace c)

unfoldable pub AllChars : (ℕ → Bool) → String → Type 0
AllChars p s = all_chars p s ≡ true

AllChars-append : (p : ℕ → Bool) (s t : String) → AllChars p s → AllChars p t → AllChars p (s ++ t)
unfolding AllChars
AllChars-append p String.[] t h k = subst (λ x. all_chars p x ≡ true) (sym (nil-append t)) k
AllChars-append p (String.◌∷◌ c s) t h k =
    subst (λ x. all_chars p x ≡ true) (sym (cons-append c s t))
      (let later : p (code c) ≡ true → all_chars p s ≡ true → all_chars p (s ++ t) ≡ true =
          λ a b. AllChars-append p s t b k in
        ground arith)

pub hex_digits-AllChars :
    (p : ℕ → Bool)
    → all_below 16 (λ d. p (code (hex_digit d))) ≡ true
    → (k n : ℕ) → AllChars p (hex_digits k n)
unfolding hex_digits AllChars
hex_digits-AllChars p table zero n = refl
hex_digits-AllChars p table (suc k) n =
    let first =
      all_below-at (n / 16 ^ k % 16) 16 (λ d. p (code (hex_digit d))) table (omega arith) in
    let later = hex_digits-AllChars p table k n in ground arith

-- The line of a cell, and what it is made of.
abbrev pub dump_line : ℕ → ℕ → String
dump_line address word = String.◌∷◌ "@" (hex_digits 4 address ++ String.◌∷◌ " " (hex_digits 8 word))

pub single-append : (c : Char) (s : String) → String.◌∷◌ c String.[] ++ s ≡ String.◌∷◌ c s
single-append c s = cons-append c String.[] s ∙ ap (String.◌∷◌ c) (nil-append s)

pub written :
    (address word : ℕ) (rest : String)
    → "@" ++ hex_digits 4 address ++ " " ++ hex_digits 8 word ++ "\n" ++ rest
      ≡ dump_line address word ++ String.◌∷◌ "\n" rest
written address word rest =
    let tail = String.◌∷◌ "\n" rest in
    ap (λ t. "@" ++ hex_digits 4 address ++ " " ++ hex_digits 8 word ++ t) (single-append "\n" rest)
    ∙ ap (λ t. "@" ++ hex_digits 4 address ++ t)
        (single-append " " (hex_digits 8 word ++ tail)
          ∙ sym (cons-append " " (hex_digits 8 word) tail))
    ∙ single-append "@" (hex_digits 4 address ++ (String.◌∷◌ " " (hex_digits 8 word) ++ tail))
    ∙ ap (String.◌∷◌ "@")
        (sym (append_assoc (hex_digits 4 address) (String.◌∷◌ " " (hex_digits 8 word)) tail))
    ∙ sym (cons-append "@" (hex_digits 4 address ++ String.◌∷◌ " " (hex_digits 8 word)) tail)

both : (a b : Bool) → (a && b) ≡ true → (a ≡ true) × (b ≡ true)
both a b h = (ground arith, ground arith)

not_true : (b : Bool) → not b ≡ true → b ≡ false
not_true b h = ground arith

pub in_line_table : all_below 16 (λ d. in_line (code (hex_digit d))) ≡ true
unfolding all_below
in_line_table = refl

pub in_word_table : all_below 16 (λ d. in_word (code (hex_digit d))) ≡ true
unfolding all_below is_whitespace
in_word_table = refl

pub dump_line-AllChars : (address word : ℕ) → AllChars in_line (dump_line address word)
unfolding AllChars
dump_line-AllChars address word =
    AllChars-append in_line (hex_digits 4 address) (String.◌∷◌ " " (hex_digits 8 word))
      (hex_digits-AllChars in_line in_line_table 4 address)
      (hex_digits-AllChars in_line in_line_table 8 word)

-- A line feed ends a line.
pub lines_from-line :
    (read s rest : String)
    → AllChars in_line s
    → lines_from read (s ++ String.◌∷◌ "\n" rest)
      ≡ without_return (read ++ s) ∷ lines_from String.[] rest
unfolding lines_from AllChars
lines_from-line read String.[] rest h =
    ap (lines_from read) (nil-append (String.◌∷◌ "\n" rest))
    ∙ ap (λ l. without_return l ∷ lines_from String.[] rest) (sym (append-nil read))
lines_from-line read (String.◌∷◌ c s) rest h =
    ap (lines_from read) (cons-append c s (String.◌∷◌ "\n" rest))
    ∙ if_false _ (let e : (code c == 10) ≡ false = ground arith in e)
    ∙ lines_from-line (read ++ String.◌∷◌ c String.[]) s rest (ground arith)
    ∙ ap (λ l. without_return l ∷ lines_from String.[] rest)
        (append_assoc read (String.◌∷◌ c String.[]) s ∙ ap (λ t. read ++ t) (single-append c s))

pub without_return-line : (s : String) → AllChars in_line s → without_return s ≡ s
unfolding AllChars
without_return-line String.[] h = refl
without_return-line (String.◌∷◌ c s) h =
    if_false _ (let e : ((code c == 13) && is_empty s) ≡ false = ground arith in e)
    ∙ ap (String.◌∷◌ c) (without_return-line s (ground arith))

-- A text with a character that is no white space at its end.
abbrev pub IsTrimmed : String → Type 0
IsTrimmed s = (all_chars is_whitespace s ≡ false) × (trim_end s ≡ s)

pub IsTrimmed-cons : (c : Char) (s : String) → IsTrimmed s → IsTrimmed (String.◌∷◌ c s)
unfolding trim_end
IsTrimmed-cons c s (some_char, same) =
    let found : all_chars is_whitespace (String.◌∷◌ c s) ≡ false = ground arith in
    (found, if_false _ found ∙ ap (String.◌∷◌ c) same)

pub IsTrimmed-append : (s t : String) → IsTrimmed t → IsTrimmed (s ++ t)
IsTrimmed-append String.[] t h = subst IsTrimmed (sym (nil-append t)) h
IsTrimmed-append (String.◌∷◌ c s) t h =
    subst IsTrimmed (sym (cons-append c s t)) (IsTrimmed-cons c (s ++ t) (IsTrimmed-append s t h))

pub IsTrimmed-word :
    (c : Char) (s : String) → AllChars in_word (String.◌∷◌ c s) → IsTrimmed (String.◌∷◌ c s)
unfolding trim_end AllChars
IsTrimmed-word c String.[] h =
    let found : all_chars is_whitespace (String.◌∷◌ c String.[]) ≡ false = ground arith in
    (found, if_false _ found)
IsTrimmed-word c (String.◌∷◌ d s) h =
    IsTrimmed-cons c (String.◌∷◌ d s) (IsTrimmed-word d s (ground arith))

-- The words of a text.
pub words_from-word :
    (read s rest : String)
    → AllChars in_word s
    → words_from read (s ++ String.◌∷◌ " " rest)
      ≡ close_word (read ++ s) (words_from String.[] rest)
unfolding words_from AllChars
words_from-word read String.[] rest h =
    ap (words_from read) (nil-append (String.◌∷◌ " " rest))
    ∙ ap (λ l. close_word l (words_from String.[] rest)) (sym (append-nil read))
words_from-word read (String.◌∷◌ c s) rest h =
    ap (words_from read) (cons-append c s (String.◌∷◌ " " rest))
    ∙ if_false {b = is_whitespace (code c)}
        (close_word read (words_from String.[] (s ++ String.◌∷◌ " " rest)))
        (not_true (is_whitespace (code c)) (both (in_word (code c)) (all_chars in_word s) h).0)
    ∙ words_from-word (read ++ String.◌∷◌ c String.[]) s rest
        (both (in_word (code c)) (all_chars in_word s) h).1
    ∙ ap (λ l. close_word l (words_from String.[] rest))
        (append_assoc read (String.◌∷◌ c String.[]) s ∙ ap (λ t. read ++ t) (single-append c s))

pub words_from-last :
    (read s : String) → AllChars in_word s → words_from read s ≡ close_word (read ++ s) []
unfolding words_from AllChars
words_from-last read String.[] h = ap (λ l. close_word l []) (sym (append-nil read))
words_from-last read (String.◌∷◌ c s) h =
    if_false {b = is_whitespace (code c)} (close_word read (words_from String.[] s))
      (not_true (is_whitespace (code c)) (both (in_word (code c)) (all_chars in_word s) h).0)
    ∙ words_from-last (read ++ String.◌∷◌ c String.[]) s
        (both (in_word (code c)) (all_chars in_word s) h).1
    ∙ ap (λ l. close_word l [])
        (append_assoc read (String.◌∷◌ c String.[]) s ∙ ap (λ t. read ++ t) (single-append c s))
