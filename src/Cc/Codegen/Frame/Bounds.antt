-- ===== src/Cc/Codegen/Frame/Bounds.antt =====
-- The places of a frame that `validate` accepts have their own offsets, and an instruction can name
-- each of them.
use Prim.Native.String.{String}
use ex3_rust.Prelude.{ℕ, suc, ◌+◌, ◌≤◌, ◌<◌, ◌≡◌, refl, ap, arith, Option, none, some, ok, err}
use ex3_rust.Cc.Sema.Ir.{ResolvedFunction}
use ex3_rust.Cc.Codegen.Counts.{maximum_dynamic_slots_statement}
use ex3_rust.Cc.Codegen.Frame.{
  FrameLayout, size, checked_add_to, max_signed_immediate, too_large, within_range, validate,
  local_offset, temporary_offset, parameter_offset, return_address_offset,
}

-- What the code of a function finds on its stack.
pub data Place : Type 0 where
  local temporary parameter : ℕ → Place
  return_address : Place

abbrev pub IsPlace : FrameLayout → Place → Type 0
IsPlace frame (Place.local slot) = slot < frame.local_count
IsPlace frame (Place.temporary slot) = slot < frame.temporary_count
IsPlace frame (Place.parameter index) = index < frame.parameter_count
IsPlace frame Place.return_address = Unit

abbrev pub offset : FrameLayout → Place → ℕ → ℕ
offset frame (Place.local slot) = local_offset frame slot
offset frame (Place.temporary slot) = temporary_offset frame slot
offset frame (Place.parameter index) = parameter_offset frame index
offset frame Place.return_address = return_address_offset frame

-- With any number of pushed words up to a limit, each place has an offset of 15 bits; two places
-- have two offsets; and the frame is allocated by one instruction.
pub record IsAddressed (frame : FrameLayout) (dynamic_slots : ℕ) : Type 0 where
  pub allocated : size frame ≤ max_signed_immediate
  pub reached :
      (place : Place) (adjustment : ℕ)
      → IsPlace frame place
      → adjustment ≤ dynamic_slots
      → offset frame place adjustment ≤ max_signed_immediate
  pub apart :
      (one two : Place) (adjustment : ℕ)
      → IsPlace frame one
      → IsPlace frame two
      → offset frame one adjustment ≡ offset frame two adjustment
      → one ≡ two

offset-injective :
    (frame : FrameLayout) (one two : Place) (adjustment : ℕ)
    → IsPlace frame one
    → IsPlace frame two
    → offset frame one adjustment ≡ offset frame two adjustment
    → one ≡ two
offset-injective frame (Place.local a) (Place.local b) adj h k e = ap Place.local (omega arith)
offset-injective frame (Place.temporary a) (Place.temporary b) adj h k e =
    ap Place.temporary (omega arith)
offset-injective frame (Place.parameter a) (Place.parameter b) adj h k e =
    ap Place.parameter (omega arith)
offset-injective frame Place.return_address Place.return_address adj h k e = refl
offset-injective frame (Place.local a) (Place.temporary b) adj h k e = absurd (omega arith)
offset-injective frame (Place.local a) (Place.parameter b) adj h k e = absurd (omega arith)
offset-injective frame (Place.local a) Place.return_address adj h k e = absurd (omega arith)
offset-injective frame (Place.temporary a) (Place.local b) adj h k e = absurd (omega arith)
offset-injective frame (Place.temporary a) (Place.parameter b) adj h k e = absurd (omega arith)
offset-injective frame (Place.temporary a) Place.return_address adj h k e = absurd (omega arith)
offset-injective frame (Place.parameter a) (Place.local b) adj h k e = absurd (omega arith)
offset-injective frame (Place.parameter a) (Place.temporary b) adj h k e = absurd (omega arith)
offset-injective frame (Place.parameter a) Place.return_address adj h k e = absurd (omega arith)
offset-injective frame Place.return_address (Place.local b) adj h k e = absurd (omega arith)
offset-injective frame Place.return_address (Place.temporary b) adj h k e = absurd (omega arith)
offset-injective frame Place.return_address (Place.parameter b) adj h k e = absurd (omega arith)

checked_add_to-some :
    (o : Option ℕ) (b extent : ℕ)
    → checked_add_to o b ≡ some extent
    → (a : ℕ) × (o ≡ some a) × (extent ≡ a + b)
checked_add_to-some none b extent e = cc e
checked_add_to-some (some a) b extent e = (a, refl, ground arith)

within_range-ok :
    (frame : FrameLayout) (dynamic_slots : ℕ) (extent : Option ℕ)
    → within_range frame dynamic_slots extent ≡ ok tt
    → (total : ℕ) × (extent ≡ some total)
      × (size frame ≤ max_signed_immediate)
      × (total ≤ suc max_signed_immediate)
within_range-ok frame dynamic_slots none e = cc e
within_range-ok frame dynamic_slots (some total) e = (total, refl, ground arith, ground arith)

offset-within :
    (frame : FrameLayout) (place : Place) (adjustment dynamic_slots : ℕ)
    → size frame + 1 + frame.parameter_count + dynamic_slots ≤ suc max_signed_immediate
    → IsPlace frame place
    → adjustment ≤ dynamic_slots
    → offset frame place adjustment ≤ max_signed_immediate
offset-within frame (Place.local slot) adjustment d h p a = omega arith
offset-within frame (Place.temporary slot) adjustment d h p a = omega arith
offset-within frame (Place.parameter index) adjustment d h p a = omega arith
offset-within frame Place.return_address adjustment d h p a = omega arith

pub validate-IsAddressed :
    (frame : FrameLayout) (f : ResolvedFunction)
    → validate frame f ≡ ok tt
    → IsAddressed frame (maximum_dynamic_slots_statement f.body)
unfolding validate
validate-IsAddressed frame f e =
    let d = maximum_dynamic_slots_statement f.body in
    let (total, sum, small, bounded) = within_range-ok frame d _ e in
    let (b, sum₁, e₁) = checked_add_to-some _ d total sum in
    let (c, sum₂, e₂) = checked_add_to-some _ frame.parameter_count b sum₁ in
    let (z, sum₃, e₃) = checked_add_to-some (some (size frame)) 1 c sum₂ in
    record {
      allocated = small;
      reached = λ place adjustment p a.
          offset-within frame place adjustment d
            (let q : some (size frame) ≡ some z = sum₃ in
              let same : size frame ≡ z = cc q in omega (arith, bounded, e₁, e₂, e₃, same))
            p a;
      apart = λ one two adjustment p q same. offset-injective frame one two adjustment p q same;
    }

within_range-too_large :
    (frame : FrameLayout) (dynamic_slots : ℕ) (extent : Option ℕ) (message : String)
    → within_range frame dynamic_slots extent ≡ err message
    → message ≡ too_large
within_range-too_large frame dynamic_slots none message e = cc e
within_range-too_large frame dynamic_slots (some total) message e = ground arith

-- The one error of `validate`.
pub validate-too_large :
    (frame : FrameLayout) (f : ResolvedFunction) (message : String)
    → validate frame f ≡ err message
    → message ≡ too_large
unfolding validate
validate-too_large frame f message e = within_range-too_large frame _ _ message e
