-- ===== src/Isa/Codec.antt =====
-- `Instruction::encode` and `decode`: format[31:29] opcode[28:24] modifier[23:16] operand[15:0].
use ex3_rust.Prelude.{
  ℕ, u16, bit_and, bit_or, u8, ◌<<<◌, ◌>>>◌, bit_not, ◌==◌, if◌then◌else◌, Bool, true, false, not,
  find, Result, ok, err, ◌>>=◌, ok_or,
}
use ex3_rust.Isa.Address
use ex3_rust.Isa.Immediate16
use ex3_rust.Isa.Ops.{
  MemoryOp, ImmediateOp, SpRelativeOp, BranchOp, SystemOp, memory_ops, immediate_ops,
  sp_relative_ops, branch_ops, system_ops, Instruction, memory, immediate, sp_relative, branch,
  system,
}

abbrev pub format_shift : ℕ
format_shift = 29

abbrev pub opcode_shift : ℕ
opcode_shift = 24

abbrev pub modifier_shift : ℕ
modifier_shift = 16

abbrev pub format_mem : ℕ
format_mem = 0

abbrev pub format_imm : ℕ
format_imm = 1

abbrev pub format_sprel : ℕ
format_sprel = 2

abbrev pub format_branch : ℕ
format_branch = 3

abbrev pub format_sys : ℕ
format_sys = 4

unfoldable pub memory_opcode : MemoryOp → ℕ
memory_opcode MemoryOp.add = 0
memory_opcode MemoryOp.sub = 1
memory_opcode MemoryOp.and = 2
memory_opcode MemoryOp.or = 3
memory_opcode MemoryOp.xor = 4
memory_opcode MemoryOp.lda = 5
memory_opcode MemoryOp.sta = 6
memory_opcode MemoryOp.cmp = 7
memory_opcode MemoryOp.isz = 8

unfoldable pub immediate_opcode : ImmediateOp → ℕ
immediate_opcode ImmediateOp.add = 0
immediate_opcode ImmediateOp.sub = 1
immediate_opcode ImmediateOp.and = 2
immediate_opcode ImmediateOp.or = 3
immediate_opcode ImmediateOp.xor = 4
immediate_opcode ImmediateOp.lda = 5
immediate_opcode ImmediateOp.cmp = 7
immediate_opcode ImmediateOp.ldhi = 9
immediate_opcode ImmediateOp.ldlo = 10
immediate_opcode ImmediateOp.adjsp = 11

unfoldable pub sp_opcode : SpRelativeOp → ℕ
sp_opcode SpRelativeOp.addsp = 0
sp_opcode SpRelativeOp.subsp = 1
sp_opcode SpRelativeOp.andsp = 2
sp_opcode SpRelativeOp.orsp = 3
sp_opcode SpRelativeOp.xorsp = 4
sp_opcode SpRelativeOp.ldsp = 5
sp_opcode SpRelativeOp.stsp = 6
sp_opcode SpRelativeOp.cmpsp = 7

unfoldable pub branch_opcode : BranchOp → ℕ
branch_opcode BranchOp.jmp = 0
branch_opcode BranchOp.call = 1
branch_opcode BranchOp.beq = 2
branch_opcode BranchOp.bne = 3
branch_opcode BranchOp.blt = 4
branch_opcode BranchOp.bge = 5
branch_opcode BranchOp.bgt = 6
branch_opcode BranchOp.ble = 7
branch_opcode BranchOp.bult = 8
branch_opcode BranchOp.buge = 9
branch_opcode BranchOp.bugt = 10
branch_opcode BranchOp.bule = 11

unfoldable pub system_opcode : SystemOp → ℕ
system_opcode SystemOp.cla = 0
system_opcode SystemOp.cma = 1
system_opcode SystemOp.ret = 2
system_opcode SystemOp.iret = 3
system_opcode SystemOp.hlt = 4
system_opcode SystemOp.inp = 5
system_opcode SystemOp.out = 6
system_opcode SystemOp.ski = 7
system_opcode SystemOp.sko = 8
system_opcode SystemOp.ion = 9
system_opcode SystemOp.iof = 10
system_opcode SystemOp.sio = 11
system_opcode SystemOp.pio = 12
system_opcode SystemOp.imk = 13

-- `indirect as u32`.
abbrev pub bool_as_u32 : Bool → ℕ
bool_as_u32 true = 1
bool_as_u32 false = 0

-- The word of a format, an opcode, a modifier and an operand, as `encode` puts each together.
unfoldable pub encode : Instruction → ℕ
unfolding memory_opcode immediate_opcode sp_opcode branch_opcode system_opcode
encode (memory op address indirect) =
    bit_or
      (bit_or (bit_or (format_mem <<< format_shift) (memory_opcode op <<< opcode_shift))
        (bool_as_u32 indirect <<< modifier_shift))
      address
encode (immediate op value) =
    bit_or (bit_or (format_imm <<< format_shift) (immediate_opcode op <<< opcode_shift))
      (Immediate16.raw value)
encode (sp_relative op offset) =
    bit_or (bit_or (format_sprel <<< format_shift) (sp_opcode op <<< opcode_shift))
      (Immediate16.raw offset)
encode (branch op target) =
    bit_or (bit_or (format_branch <<< format_shift) (branch_opcode op <<< opcode_shift)) target
encode (system op) = bit_or (format_sys <<< format_shift) (system_opcode op <<< opcode_shift)

pub record DecodeError : Type 0 where
  pub word : ℕ

-- One `match` arm of `decode` for each format.
unfoldable pub decode_memory : ℕ → ℕ → ℕ → Result Instruction DecodeError
decode_memory word opcode modifier =
    if not (bit_and modifier (bit_not 8 1) == 0) then err (record { word = word }) else (do
      op ← ok_or (find (λ x. memory_opcode x == opcode) memory_ops) (record { word = word })
      ok (memory op (Address.from_low16 word) (modifier == 1)))

unfoldable pub decode_immediate : ℕ → ℕ → ℕ → Result Instruction DecodeError
decode_immediate word opcode modifier =
    if not (modifier == 0) then err (record { word = word }) else (do
      op ← ok_or (find (λ x. immediate_opcode x == opcode) immediate_ops) (record { word = word })
      ok (immediate op (Immediate16.from_raw (u16 word))))

unfoldable pub decode_sp_relative : ℕ → ℕ → ℕ → Result Instruction DecodeError
decode_sp_relative word opcode modifier =
    if not (modifier == 0) then err (record { word = word }) else (do
      op ← ok_or (find (λ x. sp_opcode x == opcode) sp_relative_ops) (record { word = word })
      ok (sp_relative op (Immediate16.from_raw (u16 word))))

unfoldable pub decode_branch : ℕ → ℕ → ℕ → Result Instruction DecodeError
decode_branch word opcode modifier =
    if not (modifier == 0) then err (record { word = word }) else (do
      op ← ok_or (find (λ x. branch_opcode x == opcode) branch_ops) (record { word = word })
      ok (branch op (Address.from_low16 word)))

unfoldable pub decode_system : ℕ → ℕ → Result Instruction DecodeError
decode_system word opcode =
    if not (bit_and word 0x00ff_ffff == 0) then err (record { word = word }) else (do
      op ← ok_or (find (λ x. system_opcode x == opcode) system_ops) (record { word = word })
      ok (system op))

unfoldable pub decode : ℕ → Result Instruction DecodeError
decode word =
    let format = word >>> format_shift in
    let opcode = bit_and (word >>> opcode_shift) 0x1f in
    let modifier = u8 (bit_and (word >>> modifier_shift) 0xff) in
    if format == format_mem
    then decode_memory word opcode modifier
    else if format == format_imm
    then decode_immediate word opcode modifier
    else if format == format_sprel
    then decode_sp_relative word opcode modifier
    else if format == format_branch
    then decode_branch word opcode modifier
    else if format == format_sys
    then decode_system word opcode
    else err (record { word = word })
