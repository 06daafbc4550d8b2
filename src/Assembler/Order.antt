-- ===== src/Assembler/Order.antt =====
-- The vectors of a result in the order of their emission, and what they satisfy.
use ex3_rust.Prelude.{
  in_order, ℕ, ◌≡◌, refl, sym, ap, ◌∙◌, subst, arith, false, ◌||◌, List, [], ◌∷◌, ◌++◌,
}
use ex3_rust.Assembler.{Symbols, MemoryCell, AssemblySourceMapEntry, AssemblyResult, Pass2, is_used}
use ex3_rust.Assembler.Emission.{Distinct, Mapped, mapped_none, mapped_one, addresses, IsEmitted}

-- The cells of a result in the order of their emission.
is_used-append : (b : ℕ) (xs ys : List ℕ) → is_used b (xs ++ ys) ≡ (is_used b xs || is_used b ys)
unfolding is_used
is_used-append b [] ys = refl
is_used-append b (x ∷ xs) ys = ground (arith, is_used-append b xs ys)

Distinct-append_one :
    (xs : List ℕ) (a : ℕ) → Distinct xs → is_used a xs ≡ false → Distinct (xs ++ a ∷ [])
unfolding is_used
Distinct-append_one [] a d fresh = (refl, tt)
Distinct-append_one (x ∷ xs) a (first, d) fresh =
    (ground (arith, is_used-append x xs (a ∷ [])), Distinct-append_one xs a d (ground arith))

is_used-in_order : (a : ℕ) (xs : List ℕ) → is_used a (in_order xs) ≡ is_used a xs
unfolding is_used
is_used-in_order a [] = refl
is_used-in_order a (x ∷ xs) =
    ground (arith, is_used-append a (in_order xs) (x ∷ []), is_used-in_order a xs)

Distinct-in_order : (xs : List ℕ) → Distinct xs → Distinct (in_order xs)
Distinct-in_order [] d = tt
Distinct-in_order (x ∷ xs) (first, d) =
    Distinct-append_one (in_order xs) x (Distinct-in_order xs d) (is_used-in_order x xs ∙ first)

addresses-append : (xs ys : List MemoryCell) → addresses (xs ++ ys) ≡ addresses xs ++ addresses ys
addresses-append [] ys = refl
addresses-append (x ∷ xs) ys = ap (λ t. x.address ∷ t) (addresses-append xs ys)

addresses-in_order : (xs : List MemoryCell) → addresses (in_order xs) ≡ in_order (addresses xs)
addresses-in_order [] = refl
addresses-in_order (x ∷ xs) =
    addresses-append (in_order xs) (x ∷ []) ∙ ap (λ t. t ++ x.address ∷ []) (addresses-in_order xs)

Mapped-append :
    {xs xs' : List MemoryCell} {ys ys' : List AssemblySourceMapEntry}
    → Mapped xs ys
    → Mapped xs' ys'
    → Mapped (xs ++ xs') (ys ++ ys')
Mapped-append mapped_none m = m
Mapped-append (mapped_one one more) m = mapped_one one (Mapped-append more m)

Mapped-in_order :
    {xs : List MemoryCell} {ys : List AssemblySourceMapEntry}
    → Mapped xs ys
    → Mapped (in_order xs) (in_order ys)
Mapped-in_order mapped_none = mapped_none
Mapped-in_order (mapped_one one more) =
    Mapped-append (Mapped-in_order more) (mapped_one one mapped_none)

-- What an assembled program satisfies.
pub record IsAssembly (r : AssemblyResult) : Type 0 where
  pub addresses-Distinct : Distinct (addresses r.image)
  pub image-Mapped : Mapped r.image r.source_map

pub IsEmitted-IsAssembly :
    (p : Pass2) (symbols : Symbols)
    → IsEmitted p
    → IsAssembly
        (record { image = in_order p.cells; symbols = symbols; source_map = in_order p.source_map })
IsEmitted-IsAssembly p symbols g = record {
  addresses-Distinct =
      subst Distinct (sym (addresses-in_order p.cells))
        (Distinct-in_order (addresses p.cells) (subst Distinct g.used-addresses g.used-Distinct));
  image-Mapped = Mapped-in_order g.cells-Mapped;
}
