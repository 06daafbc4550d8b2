-- ===== src/Cc/Codegen/Frame/Debug.antt =====
-- The debug information of a frame that `validate` accepts: it is always made, and it gives the places
-- that the code of the function uses.
use ex3_rust.Prelude.{
  ℕ, suc, ◌≤◌, ◌<◌, ◌≡◌, refl, sym, subst, arith, Bool, false, if◌then◌else◌, List, [], ◌∷◌, length,
  All, Result, ok, err, ◌>>=◌,
}
use ex3_rust.Cc.Sema.Ir.{ParameterDebugSymbol, LocalDebugSymbol, FunctionDebugSymbols}
use ex3_rust.Cc.Codegen.Frame.{
  FrameLayout, size, max_signed_immediate, local_offset, parameter_offset, return_address_offset,
  to_u16, to_i32, ParameterSlotDebugInfo, LocalSlotDebugInfo, FunctionFrameDebugInfo,
  parameter_slots, local_slots, any_local, any_parameter, mismatches, matching_info, debug_info,
}
use ex3_rust.Cc.Codegen.Frame.Bounds.{Place, IsAddressed}

-- The symbols of a function number its locals and its parameters as the frame does.
pub record Fits (frame : FrameLayout) (symbols : FunctionDebugSymbols) : Type 0 where
  pub locals : length symbols.locals ≡ frame.local_count
  pub parameters : length symbols.parameters ≡ frame.parameter_count
  pub slots : All (λ (x : LocalDebugSymbol). x.slot < frame.local_count) symbols.locals
  pub indices :
      All (λ (p : ParameterDebugSymbol). p.index < frame.parameter_count) symbols.parameters

-- What the information on a parameter or a local must be, one by one.
abbrev pub AreParameterSlots :
    FrameLayout → List ParameterDebugSymbol → List ParameterSlotDebugInfo → Type 0
AreParameterSlots frame [] [] = Unit
AreParameterSlots frame (p ∷ ps) (i ∷ infos) =
    (i.index ≡ p.index)
    × (i.name ≡ p.name)
    × (i.frame_offset ≡ parameter_offset frame p.index 0)
    × AreParameterSlots frame ps infos
AreParameterSlots frame ps infos = ⊥

abbrev pub AreLocalSlots : FrameLayout → List LocalDebugSymbol → List LocalSlotDebugInfo → Type 0
AreLocalSlots frame [] [] = Unit
AreLocalSlots frame (x ∷ xs) (i ∷ infos) =
    (i.slot ≡ x.slot)
    × (i.name ≡ x.name)
    × (i.frame_offset ≡ local_offset frame x.slot 0)
    × AreLocalSlots frame xs infos
AreLocalSlots frame xs infos = ⊥

pub record Describes (frame : FrameLayout) (symbols : FunctionDebugSymbols)
    (info : FunctionFrameDebugInfo) : Type 0 where
  pub name : info.name ≡ symbols.name
  pub frame_size : info.frame_size ≡ size frame
  pub temporaries : info.temporary_count ≡ frame.temporary_count
  pub return_address : info.return_address ≡ return_address_offset frame 0
  pub parameters : AreParameterSlots frame symbols.parameters info.parameters
  pub locals : AreLocalSlots frame symbols.locals info.locals

-- A result that is there, with a property.
pub data Gives {A E : Type 0} (P : A → Type 0) : Result A E → Type 0 where
  gives : {a : A} → P a → Gives P (ok a)

Gives-bind :
    {A B E : Type 0} {P : A → Type 0} {Q : B → Type 0} {r : Result A E} {f : A → Result B E}
    → Gives P r
    → ((a : A) → P a → Gives Q (f a))
    → Gives Q (r >>= f)
Gives-bind (gives {a = x} h) g = g x h

to_u16-Gives : (n : ℕ) → n ≤ suc max_signed_immediate → Gives (λ m. m ≡ n) (to_u16 n)
to_u16-Gives n h =
    subst (Gives (λ m. m ≡ n)) (let e : ok n ≡ to_u16 n = ground arith in e) (gives refl)

to_i32-Gives : (n : ℕ) → n ≤ suc max_signed_immediate → Gives (λ m. m ≡ n) (to_i32 n)
to_i32-Gives n h =
    subst (Gives (λ m. m ≡ n)) (let e : ok n ≡ to_i32 n = ground arith in e) (gives refl)

module _ (frame : FrameLayout) (dynamic_slots : ℕ)
    (addressed : IsAddressed frame dynamic_slots) where
  parameter_slots-Gives :
      (ps : List ParameterDebugSymbol)
      → All (λ (p : ParameterDebugSymbol). p.index < frame.parameter_count) ps
      → Gives (AreParameterSlots frame ps) (parameter_slots frame ps)
  unfolding parameter_slots
  parameter_slots-Gives [] h = gives tt
  parameter_slots-Gives (p ∷ ps) (h, hs) =
      let reached = addressed.reached (Place.parameter p.index) 0 h (omega arith) in
      Gives-bind (to_u16-Gives p.index (omega arith)) (λ index same.
        Gives-bind (to_i32-Gives (parameter_offset frame p.index 0) (omega arith)) (λ offset there.
          Gives-bind (parameter_slots-Gives ps hs) (λ rest all. gives (same, refl, there, all))))

  local_slots-Gives :
      (xs : List LocalDebugSymbol)
      → All (λ (x : LocalDebugSymbol). x.slot < frame.local_count) xs
      → Gives (AreLocalSlots frame xs) (local_slots frame xs)
  unfolding local_slots
  local_slots-Gives [] h = gives tt
  local_slots-Gives (x ∷ xs) (h, hs) =
      let reached = addressed.reached (Place.local x.slot) 0 h (omega arith) in
      Gives-bind (to_u16-Gives x.slot (omega arith)) (λ slot same.
        Gives-bind (to_i32-Gives (local_offset frame x.slot 0) (omega arith)) (λ offset there.
          Gives-bind (local_slots-Gives xs hs) (λ rest all. gives (same, refl, there, all))))

  matching_info-Gives :
      (symbols : FunctionDebugSymbols)
      → Fits frame symbols
      → Gives (Describes frame symbols) (matching_info frame symbols)
  matching_info-Gives symbols fits =
      let small = addressed.allocated in
      Gives-bind (to_u16-Gives (size frame) (omega arith)) (λ frame_size e₁.
        Gives-bind (parameter_slots-Gives symbols.parameters fits.indices) (λ parameters ps.
          Gives-bind (to_i32-Gives (return_address_offset frame 0) (omega arith)) (λ address e₂.
            Gives-bind (local_slots-Gives symbols.locals fits.slots) (λ locals xs.
              Gives-bind (to_u16-Gives frame.temporary_count (omega arith)) (λ temporary_count e₃.
                gives (record {
                  name = refl;
                  frame_size = e₁;
                  temporaries = e₃;
                  return_address = e₂;
                  parameters = ps;
                  locals = xs;
                }))))))

any_local-none :
    (bound : ℕ) (xs : List LocalDebugSymbol)
    → All (λ (x : LocalDebugSymbol). x.slot < bound) xs
    → any_local bound xs ≡ false
unfolding any_local
any_local-none bound [] h = refl
any_local-none bound (x ∷ xs) (h, hs) = let later = any_local-none bound xs hs in ground arith

any_parameter-none :
    (bound : ℕ) (ps : List ParameterDebugSymbol)
    → All (λ (p : ParameterDebugSymbol). p.index < bound) ps
    → any_parameter bound ps ≡ false
unfolding any_parameter
any_parameter-none bound [] h = refl
any_parameter-none bound (p ∷ ps) (h, hs) =
    let later = any_parameter-none bound ps hs in ground arith

Fits-matches :
    (frame : FrameLayout) (symbols : FunctionDebugSymbols)
    → Fits frame symbols
    → mismatches frame symbols ≡ false
Fits-matches frame symbols fits =
    let a = any_local-none frame.local_count symbols.locals fits.slots in
    let b = any_parameter-none frame.parameter_count symbols.parameters fits.indices in
    let c = fits.locals in let d = fits.parameters in ground arith

-- A frame whose places are addressed, with the symbols that fit it, has debug information, and this
-- describes the frame.
pub debug_info-Describes :
    (frame : FrameLayout) (dynamic_slots : ℕ) (symbols : FunctionDebugSymbols)
    → IsAddressed frame dynamic_slots
    → Fits frame symbols
    → Gives (Describes frame symbols) (debug_info frame symbols)
unfolding debug_info
debug_info-Describes frame dynamic_slots symbols addressed fits =
    subst
      (λ (b : Bool). Gives (Describes frame symbols) (
        if b
        then err "debug symbols do not match the planned frame"
        else matching_info frame symbols))
      (sym (Fits-matches frame symbols fits))
      (matching_info-Gives frame dynamic_slots addressed symbols fits)
