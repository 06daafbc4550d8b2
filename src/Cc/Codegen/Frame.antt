-- ===== src/Cc/Codegen/Frame.antt =====
-- `FrameLayout` of crates/ex3-core/src/cc/codegen/frame.rs. The newtypes of a slot, an offset and an
-- adjustment are the number that they hold.
pub mod Bounds
pub mod Debug
use Prim.Native.String.{String}
use ex3_rust.Prelude.{
  ℕ, suc, ◌+◌, ◌^◌, Bool, true, false, not, ◌||◌, ◌==◌, leb, ltb, if◌then◌else◌, Option, none, some,
  List, [], ◌∷◌, length, Result, ok, err, ◌>>=◌, ok_or,
}
use ex3_rust.Cc.Ast.{ScalarType}
use ex3_rust.Cc.Sema.Ir.{
  ResolvedFunction, ParameterDebugSymbol, LocalDebugSymbol, FunctionDebugSymbols,
}
use ex3_rust.Cc.Codegen.Counts.{temporary_count_statement, maximum_dynamic_slots_statement}

pub record FrameLayout : Type 0 where
  pub local_count : ℕ
  pub temporary_count : ℕ
  pub parameter_count : ℕ

unfoldable pub plan : ResolvedFunction → FrameLayout
unfolding temporary_count_statement
plan f = record {
  local_count = f.local_count;
  temporary_count = temporary_count_statement f.body;
  parameter_count = f.parameter_count;
}

abbrev pub size : FrameLayout → ℕ
size frame = frame.local_count + frame.temporary_count

-- `usize::checked_add`.
abbrev pub checked_add : ℕ → ℕ → Option ℕ
checked_add a b = if ltb (a + b) (2 ^ 64) then some (a + b) else none

abbrev pub checked_add_to : Option ℕ → ℕ → Option ℕ
checked_add_to none b = none
checked_add_to (some a) b = checked_add a b

abbrev pub max_signed_immediate : ℕ
max_signed_immediate = 0x7fff

abbrev pub too_large : String
too_large = "function stack frame is too large"

-- The two tests of `validate`, by the extent of the stack and the pushed words.
abbrev pub within_range : FrameLayout → ℕ → Option ℕ → Result (Unit {0}) String
within_range frame dynamic_slots none = err too_large
within_range frame dynamic_slots (some extent) =
    if ltb max_signed_immediate (size frame)
      || ltb max_signed_immediate dynamic_slots
      || ltb (max_signed_immediate + 1) extent
    then err too_large
    else ok tt

unfoldable pub validate : FrameLayout → ResolvedFunction → Result (Unit {0}) String
unfolding maximum_dynamic_slots_statement
validate frame f =
    let dynamic_slots = maximum_dynamic_slots_statement f.body in
    within_range frame dynamic_slots (
      checked_add_to (checked_add_to (checked_add (size frame) 1) frame.parameter_count)
        dynamic_slots)

abbrev pub local_offset : FrameLayout → (slot adjustment : ℕ) → ℕ
local_offset frame slot adjustment = slot + adjustment

abbrev pub temporary_offset : FrameLayout → (slot adjustment : ℕ) → ℕ
temporary_offset frame slot adjustment = frame.local_count + slot + adjustment

abbrev pub parameter_offset : FrameLayout → (index adjustment : ℕ) → ℕ
parameter_offset frame index adjustment = size frame + 1 + index + adjustment

abbrev pub return_address_offset : FrameLayout → (adjustment : ℕ) → ℕ
return_address_offset frame adjustment = size frame + adjustment

abbrev pub to_u16 : ℕ → Result ℕ String
to_u16 value = if ltb value (2 ^ 16) then ok value else err "debug frame value exceeds u16"

-- The value is not negative, so the bound is that of the positive numbers.
abbrev pub to_i32 : ℕ → Result ℕ String
to_i32 value = if ltb value (2 ^ 31) then ok value else err "debug frame offset exceeds i32"

pub record ParameterSlotDebugInfo : Type 0 where
  pub index : ℕ
  pub name : String
  pub ty : ScalarType
  pub frame_offset : ℕ

pub record LocalSlotDebugInfo : Type 0 where
  pub slot : ℕ
  pub name : String
  pub ty : ScalarType
  pub frame_offset : ℕ

-- The return address has its frame offset alone.
pub record FunctionFrameDebugInfo : Type 0 where
  pub function_id : ℕ
  pub name : String
  pub frame_size : ℕ
  pub parameters : List ParameterSlotDebugInfo
  pub return_address : ℕ
  pub locals : List LocalSlotDebugInfo
  pub temporary_count : ℕ

unfoldable pub parameter_slots :
    FrameLayout → List ParameterDebugSymbol → Result (List ParameterSlotDebugInfo) String
parameter_slots frame [] = ok []
parameter_slots frame (p ∷ ps) = do
  index ← to_u16 p.index
  offset ← to_i32 (parameter_offset frame p.index 0)
  rest ← parameter_slots frame ps
  ok (record { index = index; name = p.name; ty = p.ty; frame_offset = offset } ∷ rest)

unfoldable pub local_slots :
    FrameLayout → List LocalDebugSymbol → Result (List LocalSlotDebugInfo) String
local_slots frame [] = ok []
local_slots frame (x ∷ xs) = do
  slot ← to_u16 x.slot
  offset ← to_i32 (local_offset frame x.slot 0)
  rest ← local_slots frame xs
  ok (record { slot = slot; name = x.name; ty = x.ty; frame_offset = offset } ∷ rest)

-- `iter().any(…)` on the slots and on the indices.
unfoldable pub any_local : ℕ → List LocalDebugSymbol → Bool
any_local bound [] = false
any_local bound (x ∷ xs) = leb bound x.slot || any_local bound xs

unfoldable pub any_parameter : ℕ → List ParameterDebugSymbol → Bool
any_parameter bound [] = false
any_parameter bound (p ∷ ps) = leb bound p.index || any_parameter bound ps

abbrev pub mismatches : FrameLayout → FunctionDebugSymbols → Bool
mismatches frame symbols =
    not (length symbols.locals == frame.local_count)
    || not (length symbols.parameters == frame.parameter_count)
    || any_local frame.local_count symbols.locals
    || any_parameter frame.parameter_count symbols.parameters

abbrev pub matching_info : FrameLayout → FunctionDebugSymbols → Result FunctionFrameDebugInfo String
matching_info frame symbols = do
  frame_size ← to_u16 (size frame)
  parameters ← parameter_slots frame symbols.parameters
  return_address ← to_i32 (return_address_offset frame 0)
  locals ← local_slots frame symbols.locals
  temporary_count ← to_u16 frame.temporary_count
  ok (record {
    function_id = symbols.id;
    name = symbols.name;
    frame_size = frame_size;
    parameters = parameters;
    return_address = return_address;
    locals = locals;
    temporary_count = temporary_count;
  })

unfoldable pub debug_info :
    FrameLayout → FunctionDebugSymbols → Result FunctionFrameDebugInfo String
unfolding any_local any_parameter parameter_slots local_slots
debug_info frame symbols =
    if mismatches frame symbols
    then err "debug symbols do not match the planned frame"
    else matching_info frame symbols
