-- ===== src/Isa/Layout.antt =====
-- The fields of an instruction word as numbers: how `encode` lays them out, and how `decode` takes
-- them from a word.
use ex3_rust.Prelude.{
  ℕ, ◌+◌, ◌*◌, ◌/◌, ◌^◌, ◌<◌, ◌≡◌, bit_and, bit_or, u8, u16, ◌<<<◌, ◌>>>◌, arith, Bool, true, false,
  IsU16, IsU32,
}
use ex3_rust.Prelude.Bits.{bit_or-shift, bit_and-low_mask}
use ex3_rust.Isa.Ops.{
  MemoryOp, ImmediateOp, SpRelativeOp, BranchOp, SystemOp, Instruction, memory, immediate,
  sp_relative, branch, system,
}
use ex3_rust.Isa.Codec.{
  memory_opcode, immediate_opcode, sp_opcode, branch_opcode, system_opcode, bool_as_u32, encode,
}

-- The word with the given format, opcode, modifier and operand.
abbrev pub word_of : ℕ → ℕ → ℕ → ℕ → ℕ
word_of format opcode modifier operand =
    format * 2 ^ 29 + opcode * 2 ^ 24 + modifier * 2 ^ 16 + operand

pub pack_fields :
    (f o m x : ℕ)
    → o < 32
    → m < 256
    → x < 2 ^ 16
    → bit_or (bit_or (bit_or (f <<< 29) (o <<< 24)) (m <<< 16)) x ≡ word_of f o m x
pack_fields f o m x ho hm hx = ground (
  arith,
  bit_or-shift 29 f (o * 2 ^ 24),
  bit_or-shift 24 (f * 32 + o) (m * 2 ^ 16),
  bit_or-shift 16 ((f * 32 + o) * 256 + m) x,
)

pub pack_fields_unmodified :
    (f o x : ℕ) → o < 32 → x < 2 ^ 16 → bit_or (bit_or (f <<< 29) (o <<< 24)) x ≡ word_of f o 0 x
pack_fields_unmodified f o x ho hx =
    ground (arith, bit_or-shift 29 f (o * 2 ^ 24), bit_or-shift 24 (f * 32 + o) x)

module _ (f o m x : ℕ) (ho : o < 32) (hm : m < 256) (hx : x < 2 ^ 16) where
  pub format_of_word : word_of f o m x >>> 29 ≡ f
  format_of_word = omega arith

  pub opcode_of_word : bit_and (word_of f o m x >>> 24) 0x1f ≡ o
  opcode_of_word = omega (arith, bit_and-low_mask 5 (word_of f o m x / 2 ^ 24))

  pub modifier_of_word : u8 (bit_and (word_of f o m x >>> 16) 0xff) ≡ m
  modifier_of_word = omega (arith, bit_and-low_mask 8 (word_of f o m x / 2 ^ 16))

  pub operand_of_word : u16 (word_of f o m x) ≡ x
  operand_of_word = omega arith

  pub low_bits_of_word : bit_and (word_of f o m x) 0x00ff_ffff ≡ m * 2 ^ 16 + x
  low_bits_of_word = omega (arith, bit_and-low_mask 24 (word_of f o m x))

-- Every 32-bit word has such a layout.
pub word_of_parts :
    (w : ℕ)
    → w ≡ word_of (w >>> 29) (bit_and (w >>> 24) 0x1f) (u8 (bit_and (w >>> 16) 0xff)) (u16 w)
word_of_parts w = omega (arith, bit_and-low_mask 5 (w / 2 ^ 24), bit_and-low_mask 8 (w / 2 ^ 16))

pub memory_opcode-lt : (op : MemoryOp) → memory_opcode op < 32
unfolding memory_opcode
memory_opcode-lt MemoryOp.add = omega arith
memory_opcode-lt _ = omega arith

pub immediate_opcode-lt : (op : ImmediateOp) → immediate_opcode op < 32
unfolding immediate_opcode
immediate_opcode-lt ImmediateOp.add = omega arith
immediate_opcode-lt _ = omega arith

pub sp_opcode-lt : (op : SpRelativeOp) → sp_opcode op < 32
unfolding sp_opcode
sp_opcode-lt SpRelativeOp.addsp = omega arith
sp_opcode-lt _ = omega arith

pub branch_opcode-lt : (op : BranchOp) → branch_opcode op < 32
unfolding branch_opcode
branch_opcode-lt BranchOp.jmp = omega arith
branch_opcode-lt _ = omega arith

pub system_opcode-lt : (op : SystemOp) → system_opcode op < 32
unfolding system_opcode
system_opcode-lt SystemOp.cla = omega arith
system_opcode-lt _ = omega arith

pub bool_as_u32-lt : (b : Bool) → bool_as_u32 b < 256
bool_as_u32-lt true = omega arith
bool_as_u32-lt false = omega arith

-- The operand field holds 16 bits, as the types of the source guarantee.
abbrev pub OperandFits : Instruction → Type 0
OperandFits (memory op address indirect) = IsU16 address
OperandFits (immediate op value) = IsU16 value
OperandFits (sp_relative op offset) = IsU16 offset
OperandFits (branch op target) = IsU16 target
OperandFits (system op) = Unit

-- The fields of the v3 manual for each instruction.
abbrev pub layout : Instruction → ℕ
layout (memory op address indirect) = word_of 0 (memory_opcode op) (bool_as_u32 indirect) address
layout (immediate op value) = word_of 1 (immediate_opcode op) 0 value
layout (sp_relative op offset) = word_of 2 (sp_opcode op) 0 offset
layout (branch op target) = word_of 3 (branch_opcode op) 0 target
layout (system op) = word_of 4 (system_opcode op) 0 0

-- `encode` lays the fields out by shifts and `|`.
pub encode-layout : (i : Instruction) → OperandFits i → encode i ≡ layout i
unfolding encode
encode-layout (memory op address indirect) h =
    pack_fields 0 (memory_opcode op) (bool_as_u32 indirect) address (memory_opcode-lt op)
      (bool_as_u32-lt indirect) h
encode-layout (immediate op value) h =
    pack_fields_unmodified 1 (immediate_opcode op) value (immediate_opcode-lt op) h
encode-layout (sp_relative op offset) h =
    pack_fields_unmodified 2 (sp_opcode op) offset (sp_opcode-lt op) h
encode-layout (branch op target) h =
    pack_fields_unmodified 3 (branch_opcode op) target (branch_opcode-lt op) h
encode-layout (system op) h =
    omega (arith, bit_or-shift 29 4 (system_opcode op * 2 ^ 24), system_opcode-lt op)

pub encode-IsU32 : (i : Instruction) → OperandFits i → IsU32 (encode i)
encode-IsU32 (memory op address indirect) h = omega (
  arith,
  encode-layout (memory op address indirect) h,
  memory_opcode-lt op,
  bool_as_u32-lt indirect,
)
encode-IsU32 (immediate op value) h =
    omega (arith, encode-layout (immediate op value) h, immediate_opcode-lt op)
encode-IsU32 (sp_relative op offset) h =
    omega (arith, encode-layout (sp_relative op offset) h, sp_opcode-lt op)
encode-IsU32 (branch op target) h =
    omega (arith, encode-layout (branch op target) h, branch_opcode-lt op)
encode-IsU32 (system op) h = omega (arith, encode-layout (system op) h, system_opcode-lt op)
