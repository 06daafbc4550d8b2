-- ===== src/Isa/Address.antt =====
-- `isa::Address`: a `u16` that wraps. A model value is a plain number; its range is a hypothesis.
use ex3_rust.Prelude.{ℕ, ◌%◌, ◌^◌, u16, wrapping_add as wrap_add}
use ex3_rust.Prelude.{ℤ, pos, negsuc, ◌-◌}

abbrev pub Address : Type 0
Address = ℕ

abbrev pub zero_address : Address
zero_address = 0

abbrev pub reset : Address
reset = 0x0010

abbrev pub from_low16 : ℕ → Address
from_low16 value = u16 value

abbrev pub wrapping_add : Address → ℕ → Address
wrapping_add a rhs = wrap_add 16 a rhs

-- `rhs as u16` for an `i16`.
abbrev pub i16_as_u16 : ℤ → ℕ
i16_as_u16 (pos n) = n % 2 ^ 16
i16_as_u16 (negsuc n) = 2 ^ 16 - 1 - n % 2 ^ 16

abbrev pub wrapping_add_signed : Address → ℤ → Address
wrapping_add_signed a rhs = wrap_add 16 a (i16_as_u16 rhs)
