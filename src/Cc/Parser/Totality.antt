-- ===== src/Cc/Parser/Totality.antt =====
-- The parser never stops for an index that is out of range or for want of fuel: what its steps of one
-- token keep.
pub mod Expressions
pub mod Statements
pub mod Programs
use Prim.Native.String.{String}
use ex3_rust.Prelude.{
  ℕ, suc, ◌+◌, ◌≤◌, ◌<◌, ◌≡◌, refl, arith, Bool, true, false, if◌then◌else◌, either_case, Option,
  none, some, List, [], ◌∷◌, length, Result, ok, err, ◌>>=◌,
}
use ex3_rust.Cc.Ast.{CcType}
use ex3_rust.Cc.Diagnostic.{CcError}
use ex3_rust.Cc.Lexer.Words.{Keyword, Symbol}
use ex3_rust.Cc.Lexer.{TokenKind, Token}
use ex3_rust.Cc.Parser.State.{
  Parser, Stop, Parsed, kind_is_keyword, kind_is_symbol, kind_is_eof, is_eof, taken, eat_keyword,
  eat_symbol, expect_symbol, expected, fail, name_of, identifier_at, identifier, parse_type,
  type_at,
}

-- There is a token, and there is another one behind each that is not the end of the file.
abbrev pub Ends : List Token → Type 0
Ends [] = ⊥
Ends (t ∷ ts) = kind_is_eof t.kind ≡ false → Ends ts

-- A result that is an error in the source, or a value with a property before less than some number of
-- tokens, of which the last is the end of the file.
pub data Good {A : Type 0} (P : A → Type 0) (n : ℕ) : Parsed A → Type 0 where
  done :
      {a : A} {passed rest : List Token}
      → P a
      → Ends rest
      → length rest < n
      → Good P n (ok (a, record { passed = passed; rest = rest }))
  wrong : {e : CcError} → Good P n (err (Stop.invalid e))

abbrev pub Any : {A : Type 0} → A → Type 0
Any a = Unit

module _ {A B : Type 0} {P : A → Type 0} {Q : B → Type 0} {m n : ℕ} where
  infixr 20 ◌▷◌
  pub ◌▷◌ :
      {r : Parsed A} {f : A × Parser → Parsed B}
      → Good P m r
      → ((made : A × Parser)
          → P made.0
          → Ends made.1.rest
          → length made.1.rest < m
          → Good Q n (f made))
      → Good Q n (r >>= f)
  Good.done {a} {passed} {rest} h ends less ▷ g =
      g (a, record { passed = passed; rest = rest }) h ends less
  Good.wrong ▷ g = Good.wrong

pub Good-weaken :
    {A : Type 0} {P : A → Type 0} {m n : ℕ} {r : Parsed A} → m ≤ n → Good P m r → Good P n r
Good-weaken le (Good.done h ends less) = Good.done h ends (omega arith)
Good-weaken le Good.wrong = Good.wrong

pub by_test : (P : Bool → Type 0) (b : Bool) → (b ≡ true → P true) → (b ≡ false → P false) → P b
by_test P true h k = h refl
by_test P false h k = k refl

-- A test whose two outcomes are good.
pub Good-test :
    {A : Type 0} {P : A → Type 0} {n : ℕ} (b : Bool) {x y : Parsed A}
    → Good P n x
    → Good P n y
    → Good P n (elim b [ true ↦ x | false ↦ y ])
Good-test true h k = h
Good-test false h k = k

keyword-goes_on :
    (k : Keyword) (kind : TokenKind) → kind_is_keyword k kind ≡ true → kind_is_eof kind ≡ false
keyword-goes_on k TokenKind.eof e = cc e
keyword-goes_on k _ e = refl

symbol-goes_on :
    (s : Symbol) (kind : TokenKind) → kind_is_symbol s kind ≡ true → kind_is_eof kind ≡ false
symbol-goes_on s TokenKind.eof e = cc e
symbol-goes_on s _ e = refl

module _ {B : Type 0} {Q : B → Type 0} {n : ℕ} where
  -- Behind a token that is eaten, and at one that is not.
  pub eat_symbol-Good :
      (s : Symbol) (passed rest : List Token) (f : Bool × Parser → Parsed B)
      → Ends rest
      → ((t : Token) (ts : List Token)
          → Ends ts
          → length ts < length rest
          → Good Q n (f (true, record { passed = t ∷ passed; rest = ts })))
      → Good Q n (f (false, record { passed = passed; rest = rest }))
      → Good Q n (eat_symbol s (record { passed = passed; rest = rest }) >>= f)
  eat_symbol-Good s passed [] f ends g h = absurd ends
  eat_symbol-Good s passed (t ∷ ts) f ends g h =
      by_test (λ b. Good Q n (f (taken b (record { passed = passed; rest = t ∷ ts }))))
        (kind_is_symbol s t.kind) (λ e. g t ts (ends (symbol-goes_on s t.kind e)) (omega arith))
        (λ e. h)

  pub eat_keyword-Good :
      (k : Keyword) (passed rest : List Token) (f : Bool × Parser → Parsed B)
      → Ends rest
      → ((t : Token) (ts : List Token)
          → Ends ts
          → length ts < length rest
          → Good Q n (f (true, record { passed = t ∷ passed; rest = ts })))
      → Good Q n (f (false, record { passed = passed; rest = rest }))
      → Good Q n (eat_keyword k (record { passed = passed; rest = rest }) >>= f)
  eat_keyword-Good k passed [] f ends g h = absurd ends
  eat_keyword-Good k passed (t ∷ ts) f ends g h =
      by_test (λ b. Good Q n (f (taken b (record { passed = passed; rest = t ∷ ts }))))
        (kind_is_keyword k t.kind) (λ e. g t ts (ends (keyword-goes_on k t.kind e)) (omega arith))
        (λ e. h)

  pub expect_symbol-Good :
      (s : Symbol) (passed rest : List Token) (f : Parser → Parsed B)
      → Ends rest
      → ((t : Token) (ts : List Token)
          → Ends ts
          → length ts < length rest
          → Good Q n (f (record { passed = t ∷ passed; rest = ts })))
      → Good Q n (expect_symbol s (record { passed = passed; rest = rest }) >>= f)
  expect_symbol-Good s passed [] f ends g = absurd ends
  expect_symbol-Good s passed (t ∷ ts) f ends g =
      by_test
        (λ b. Good Q n (
          (if b then ok (record { passed = t ∷ passed; rest = ts }) else fail t.span (expected s))
          >>= f))
        (kind_is_symbol s t.kind) (λ e. g t ts (ends (symbol-goes_on s t.kind e)) (omega arith))
        (λ e. Good.wrong)

  pub is_eof-Good :
      (passed rest : List Token) (f : Bool → Parsed B)
      → Ends rest
      → ((b : Bool) → Good Q n (f b))
      → Good Q n (is_eof (record { passed = passed; rest = rest }) >>= f)
  is_eof-Good passed [] f ends g = absurd ends
  is_eof-Good passed (t ∷ ts) f ends g = g (kind_is_eof t.kind)

identifier_at-Good :
    (kind : TokenKind) (t : Token) (passed ts : List Token)
    → t.kind ≡ kind
    → Ends (t ∷ ts)
    → Good Any
        (suc (length ts))
        (identifier_at (name_of kind) t.span (record { passed = passed; rest = t ∷ ts }))
identifier_at-Good (TokenKind.identifier name) t passed ts e ends =
    Good.done tt (ends (cc e)) (omega arith)
identifier_at-Good _ t passed ts e ends = Good.wrong

pub identifier-Good :
    (passed rest : List Token)
    → Ends rest
    → Good Any (length rest) (identifier (record { passed = passed; rest = rest }))
identifier-Good passed [] ends = absurd ends
identifier-Good passed (t ∷ ts) ends = identifier_at-Good t.kind t passed ts refl ends

type_at-Good :
    (kind : TokenKind) (t : Token) (passed ts : List Token)
    → t.kind ≡ kind
    → Ends (t ∷ ts)
    → Good Any (suc (length ts)) (type_at kind t.span (record { passed = passed; rest = t ∷ ts }))
type_at-Good (TokenKind.keyword Keyword.int) t passed ts e ends =
    Good.done tt (ends (cc e)) (omega arith)
type_at-Good (TokenKind.keyword Keyword.int32) t passed ts e ends =
    Good.done tt (ends (cc e)) (omega arith)
type_at-Good (TokenKind.keyword Keyword.uint32) t passed ts e ends =
    Good.done tt (ends (cc e)) (omega arith)
type_at-Good (TokenKind.keyword Keyword.unsigned) t passed ts e ends =
    eat_keyword-Good Keyword.int (t ∷ passed) ts _ (ends (cc e))
      (λ u us more less. Good.done tt more (omega arith)) Good.wrong
type_at-Good (TokenKind.keyword Keyword.void) t passed ts e ends =
    Good.done tt (ends (cc e)) (omega arith)
type_at-Good _ t passed ts e ends = Good.wrong

pub parse_type-Good :
    (passed rest : List Token)
    → Ends rest
    → Good Any (length rest) (parse_type (record { passed = passed; rest = rest }))
unfolding parse_type
parse_type-Good passed [] ends = absurd ends
parse_type-Good passed (t ∷ ts) ends = type_at-Good t.kind t passed ts refl ends
