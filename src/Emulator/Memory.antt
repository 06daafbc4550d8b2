-- ===== src/Emulator/Memory.antt =====
-- `emulator::ArrayMemory`: 65536 words. An address is a `u16`, so that every access is in range and
-- a memory is a function of the address.
use ex3_rust.Prelude.{ℕ, List, [], ◌∷◌, ◌==◌, if◌then◌else◌}
use ex3_rust.Isa.Address.{Address}

abbrev pub ArrayMemory : Type 0
ArrayMemory = Address → ℕ

abbrev pub default_memory : ArrayMemory
default_memory a = 0

abbrev pub read : ArrayMemory → Address → ℕ
read m a = m a

abbrev pub write : ArrayMemory → Address → ℕ → ArrayMemory
write m a v b = if a == b then v else m b

-- The loop of `from_cells` and `from_image`: later cells overwrite earlier ones.
unfoldable pub write_cells : ArrayMemory → List (Address × ℕ) → ArrayMemory
write_cells m [] = m
write_cells m ((a, w) ∷ cells) = write_cells (write m a w) cells

unfoldable pub from_cells : List (Address × ℕ) → ArrayMemory
unfolding write_cells
from_cells cells = write_cells default_memory cells
