-- ===== src/Cc/Diagnostic.antt =====
-- crates/ex3-core/src/cc/diagnostic.rs: `CcError`. A result of the compiler's stages fails with what
-- the source returns, or with a panic where the source has an `expect` or an index.
use Prim.Native.String.{String}
use ex3_rust.Prelude.{
  Bool, true, false, Option, none, some, Result, ok, err, ◌>>=◌, ◌≢◌, ◌≡◌, refl, subst,
}
use ex3_rust.Cc.Ast.{Span}

pub record CcError : Type 0 where
  pub span : Span
  pub message : String

pub data Failure (E : Type 0) : Type 0 where
  rejects : E → Failure E
  panics : Failure E

-- `CcError::new`, returned.
abbrev pub reject : {A : Type 0} → Span → String → Result A (Failure CcError)
reject span message = err (rejects (record { span = span; message = message }))

-- `.expect(…)`.
abbrev pub expect : {A E : Type 0} → Option A → Result A (Failure E)
expect none = err panics
expect (some a) = ok a

-- An early return with an error, if the test passes.
abbrev pub reject_if : Bool → Span → String → Result (Unit {0}) (Failure CcError)
reject_if true span message = reject span message
reject_if false span message = ok tt

-- `.ok_or_else(|| CcError::new(…))`.
abbrev pub or_reject : {A : Type 0} → Option A → Span → String → Result A (Failure CcError)
or_reject none span message = reject span message
or_reject (some a) span message = ok a

-- No panic, and a value, if there is one, has a property.
pub data Checked {A E : Type 0} (P : A → Type 0) : Result A (Failure E) → Type 0 where
  returns : {a : A} → P a → Checked P (ok a)
  refuses : {e : E} → Checked P (err (rejects e))

module _ {A E : Type 0} {P : A → Type 0} where
  P_of_ok : {a : A} → Checked {E = E} P (ok a) → P a
  P_of_ok (returns h) = h

  infixl 1 ◌⟫◌
  pub ◌⟫◌ :
      {B : Type 0} {Q : B → Type 0} {r : Result A (Failure E)} {f : A → Result B (Failure E)}
      → Checked P r
      → ((a : A) → P a → Checked Q (f a))
      → Checked Q (r >>= f)
  returns {a} h ⟫ k = k a h
  refuses ⟫ k = refuses

  -- A property that a hypothesis gives, where there is no panic without it.
  pub Checked-given :
      {H : Type 0} {r : Result A (Failure E)}
      → Checked (λ a. Unit {0}) r
      → (H → Checked P r)
      → Checked (λ a. H → P a) r
  Checked-given (returns {a} u) g = returns (λ h. P_of_ok (g h))
  Checked-given refuses g = refuses

  pub Checked-weaken :
      {Q : A → Type 0} {r : Result A (Failure E)}
      → Checked P r
      → ((a : A) → P a → Q a)
      → Checked Q r
  Checked-weaken (returns {a} h) k = returns (k a h)
  Checked-weaken refuses k = refuses

  pub Checked-at : {r : Result A (Failure E)} → Checked P r → (a : A) → r ≡ ok a → P a
  Checked-at (returns {a = b} h) a e = subst P (cc e) h
  Checked-at refuses a e = cc e

  pub Checked-self : {r : Result A (Failure E)} → Checked P r → Checked (λ a. r ≡ ok a) r
  Checked-self (returns h) = returns refl
  Checked-self refuses = refuses

  pub Checked-safe : {r : Result A (Failure E)} → Checked P r → r ≢ err panics
  Checked-safe (returns h) e = cc e
  Checked-safe refuses e = cc e

pub Checked-expect :
    {A E : Type 0} (o : Option A) (a : A)
    → o ≡ some a
    → Checked (λ found. o ≡ some found) (expect {E = E} o)
Checked-expect none a e = cc e
Checked-expect (some b) a e = returns refl

-- A result that is there, and whose value has a property.
pub data Total {A E : Type 0} (P : A → Type 0) : Result A (Failure E) → Type 0 where
  total : {a : A} → P a → Total P (ok a)

module _ {A E : Type 0} {P : A → Type 0} where
  infixl 1 ◌⊳◌
  pub ◌⊳◌ :
      {B : Type 0} {Q : B → Type 0} {r : Result A (Failure E)} {f : A → Result B (Failure E)}
      → Total P r
      → ((a : A) → P a → Total Q (f a))
      → Total Q (r >>= f)
  total {a} h ⊳ k = k a h

  pub Total-weaken :
      {Q : A → Type 0} {r : Result A (Failure E)} → Total Q r → ((a : A) → Q a → P a) → Total P r
  Total-weaken (total {a} h) k = total (k a h)

  pub Total-value : {r : Result A (Failure E)} → Total P r → (a : A) × (r ≡ ok a) × P a
  Total-value (total {a} h) = (a, refl, h)

  pub Total-expect : (o : Option A) (a : A) → o ≡ some a → P a → Total P (expect {E = E} o)
  Total-expect none a e h = cc e
  Total-expect (some b) a e h = total (subst P (cc e) h)
