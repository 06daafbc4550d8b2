-- ===== src/Prelude/Results.antt =====
-- `Result<A, E>` and the `?` operator.
use mathlib.Core.Path.{◌≡◌, refl, ap, subst}
use mathlib.Core.Logic.{◌⊎◌, inl, inr}
use mathlib.Core.List.{List, [], ◌∷◌}
use mathlib.Core.Option.{Option, none, some}

pub data Result {ℓ κ} (A : Type ℓ) (E : Type κ) : Type (ℓ ⊔ κ) where
  ok : A → Result A E
  err : E → Result A E

infixl 5 ◌>>=◌
abbrev pub ◌>>=◌ {ℓ κ μ} :
    {A : Type ℓ} {B : Type μ} {E : Type κ} → Result A E → (A → Result B E) → Result B E
ok a >>= f = f a
err e >>= f = err e

-- `o.ok_or(e)`
abbrev pub ok_or {ℓ κ} : {A : Type ℓ} {E : Type κ} → Option A → E → Result A E
ok_or none e = err e
ok_or (some a) e = ok a

-- `r.ok()`
abbrev pub ok_value {ℓ κ} : {A : Type ℓ} {E : Type κ} → Result A E → Option A
ok_value (ok a) = some a
ok_value (err e) = none

pub Result-cases {ℓ κ} :
    {A : Type ℓ} {E : Type κ} (r : Result A E) → ((a : A) × (r ≡ ok a)) ⊎ ((e : E) × (r ≡ err e))
Result-cases (ok a) = inl (a, refl)
Result-cases (err e) = inr (e, refl)

abbrev pub and_then {ℓ κ μ} :
    {A : Type ℓ} {B : Type μ} {E : Type κ} → Result A E → (A → Result B E) → Result B E
and_then (ok a) f = f a
and_then (err e) f = err e

abbrev pub map_err {ℓ κ μ} :
    {A : Type ℓ} {E : Type κ} {F : Type μ} → (E → F) → Result A E → Result A F
map_err f (ok a) = ok a
map_err f (err e) = err (f e)

abbrev pub map_ok {ℓ κ μ} :
    {A : Type ℓ} {E : Type κ} {B : Type μ} → (A → B) → Result A E → Result B E
map_ok f (ok a) = ok (f a)
map_ok f (err e) = err e

-- The result, if there are no errors.
abbrev pub unless_errors {ℓ κ} : {A : Type ℓ} {E : Type κ} → A → List E → Result A (List E)
unless_errors a [] = ok a
unless_errors a (e ∷ es) = err (e ∷ es)

-- The first of two results is there.
pub bind-ok {ℓ κ μ} :
    {A : Type ℓ} {B : Type μ} {E : Type κ} (r : Result A E) (f : A → Result B E) (a : A)
    → r ≡ ok a
    → (r >>= f) ≡ f a
bind-ok r f a e = ap (λ x. x >>= f) e

-- A result whose value, if it has one, has a property.
pub data OnOk {ℓ κ μ} {A : Type ℓ} {E : Type κ} (P : A → Type μ)
    : Result A E → Type (ℓ ⊔ κ ⊔ μ) where
  passes : {a : A} → P a → OnOk P (ok a)
  fails : {e : E} → OnOk P (err e)

module _ {ℓ κ μ} {A : Type ℓ} {E : Type κ} {P : A → Type μ} where
  pub OnOk-at : {r : Result A E} (a : A) → OnOk P r → r ≡ ok a → P a
  OnOk-at a (passes {a = b} h) e = subst P (cc e) h
  OnOk-at a fails e = cc e

  pub OnOk-ok_or : (o : Option A) (e : E) → ((a : A) → o ≡ some a → P a) → OnOk P (ok_or o e)
  OnOk-ok_or none e h = fails
  OnOk-ok_or (some a) e h = passes (h a refl)

  pub OnOk-map_err : {F : Type κ} (f : E → F) {r : Result A E} → OnOk P r → OnOk P (map_err f r)
  OnOk-map_err f (passes h) = passes h
  OnOk-map_err f fails = fails

  pub OnOk-map_ok :
      {B : Type ℓ} {Q : B → Type μ} (f : B → A) {r : Result B E}
      → OnOk Q r
      → ((b : B) → Q b → P (f b))
      → OnOk P (map_ok f r)
  OnOk-map_ok f (passes {a = b} h) g = passes (g b h)
  OnOk-map_ok f fails g = fails

  pub OnOk-and_then :
      {B : Type ℓ} (r : Result B E) (f : B → Result A E)
      → ((b : B) → r ≡ ok b → OnOk P (f b))
      → OnOk P (and_then r f)
  OnOk-and_then (ok b) f h = h b refl
  OnOk-and_then (err e) f h = fails

  -- A result that depends on whether another one is there.
  pub OnOk-elim :
      {B : Type ℓ} {F : Type κ} (r : Result B F) {f : B → Result A E} {g : F → Result A E}
      → ((b : B) → OnOk P (f b))
      → ((e : F) → OnOk P (g e))
      → OnOk P (elim r [ ok b ↦ f b | err e ↦ g e ])
  OnOk-elim (ok b) hf hg = hf b
  OnOk-elim (err e) hf hg = hg e
