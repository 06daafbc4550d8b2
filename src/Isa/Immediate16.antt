-- ===== src/Isa/Immediate16.antt =====
-- `isa::Immediate16`: 16 raw bits, read as signed or unsigned.
use ex3_rust.Prelude.{
  ℕ, ◌-◌, ◌%◌, ◌^◌, ◌≡◌, arith, ℤ, pos, negsuc, leb_ℤ, if◌then◌else◌, ltb, ◌&&◌, Result, ok, err,
  IsU16,
}
use ex3_rust.Isa.Address.{i16_as_u16}

abbrev pub Immediate16 : Type 0
Immediate16 = ℕ

pub data ValueError : Type 0 where
  address_out_of_range : ℕ → ValueError
  immediate_out_of_range : ℤ → ValueError

abbrev pub from_raw : ℕ → Immediate16
from_raw raw = raw

-- `value as u16` for an `i32` is the same truncation as for an `i16`.
abbrev pub from_signed : ℤ → Result Immediate16 ValueError
from_signed value =
    if leb_ℤ (negsuc 32767) value && leb_ℤ value (pos 32767)
    then ok (i16_as_u16 value)
    else err (immediate_out_of_range value)

abbrev pub raw : Immediate16 → ℕ
raw value = value

abbrev pub as_i16 : Immediate16 → ℤ
as_i16 value = if ltb value (2 ^ 15) then pos value else negsuc (2 ^ 16 - value - 1)

-- `as i32 as Word`.
abbrev pub i32_as_u32 : ℤ → ℕ
i32_as_u32 (pos n) = n % 2 ^ 32
i32_as_u32 (negsuc n) = 2 ^ 32 - 1 - n % 2 ^ 32

abbrev pub sign_extended : Immediate16 → ℕ
sign_extended value = i32_as_u32 (as_i16 value)

abbrev pub zero_extended : Immediate16 → ℕ
zero_extended value = value

pub as_u16-as_i16 : (v : ℕ) → IsU16 v → i16_as_u16 (as_i16 v) ≡ v
as_u16-as_i16 v h = ground arith

-- `from_signed` accepts exactly the integers of 16 bits, and what it accepts reads back.
pub from_signed-as_i16 : (v : ℕ) → IsU16 v → from_signed (as_i16 v) ≡ ok v
from_signed-as_i16 v h = ground arith

pub as_i16-from_signed : (z : ℤ) (v : ℕ) → from_signed z ≡ ok v → IsU16 v × (as_i16 v ≡ z)
as_i16-from_signed z v h = ground arith
