-- ===== src/Prelude/Maps.antt =====
-- Rust's `HashMap` with texts as its keys: an association list with the latest entry first.
use Prim.Native.String.{String}
use text.Mathlib.Text.{◌==◌ as str_eq}
use mathlib.Core.Path.{◌≡◌, refl, subst}
use mathlib.Core.Logic.{◌⊎◌, inl, inr}
use mathlib.Core.Bool.{Bool, true, false}
use mathlib.Core.List.{List, [], ◌∷◌}
use mathlib.Core.Option.{Option, none, some}
use native.Mathlib.Omega.{arith}
use ex3_rust.Prelude.Tests.{if◌then◌else◌, Bool-cases}
use ex3_rust.Prelude.Lists.{All}

abbrev pub Map {ℓ} : Type ℓ → Type ℓ
Map A = List (String × A)

pub Option-cases {ℓ} : {A : Type ℓ} (o : Option A) → (o ≡ none) ⊎ ((a : A) × (o ≡ some a))
Option-cases none = inl refl
Option-cases (some a) = inr (a, refl)

module _ {ℓ} {A : Type ℓ} where
  -- `HashMap::get`
  unfoldable pub lookup : String → Map A → Option A
  lookup key [] = none
  lookup key (entry ∷ m) = if str_eq entry.0 key then some entry.1 else lookup key m

  abbrev pub is_present : Option A → Bool
  is_present none = false
  is_present (some a) = true

  -- `HashMap::contains_key`
  abbrev pub contains_key : String → Map A → Bool
  contains_key key m = is_present (lookup key m)

  -- What is found has what every value has.
  pub All-lookup {κ} :
      (P : A → Type κ) (key : String) (m : Map A) (a : A)
      → All (λ entry. P entry.1) m
      → lookup key m ≡ some a
      → P a
  unfolding lookup
  All-lookup P key [] a h e = cc e
  All-lookup P key (entry ∷ m) a (h, hs) e = elim (Bool-cases (str_eq entry.0 key)) [
    | inl same ↦ (let e : entry.1 ≡ a = ground arith in subst P e h)
    | inr other ↦ All-lookup P key m a hs (ground arith)
  ]
