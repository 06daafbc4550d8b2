-- ===== src/Isa/Mnemonics.antt =====
-- The mnemonics of isa.rs: `named_enum!` gives each set of operations a name function, and a
-- parser that searches the set for the name.
use Prim.Native.String.{String}
use text.Mathlib.Text.{◌==◌ as str_eq}
use ex3_rust.Prelude.{find, Result, ok_or}
use ex3_rust.Isa.Ops.{
  MemoryOp, ImmediateOp, SpRelativeOp, BranchOp, SystemOp, memory_ops, immediate_ops,
  sp_relative_ops, branch_ops, system_ops,
}

pub data MnemonicParseError : Type 0 where
  mnemonic_parse_error : MnemonicParseError

unfoldable pub memory_name : MemoryOp → String
memory_name MemoryOp.add = "ADD"
memory_name MemoryOp.sub = "SUB"
memory_name MemoryOp.and = "AND"
memory_name MemoryOp.or = "OR"
memory_name MemoryOp.xor = "XOR"
memory_name MemoryOp.lda = "LDA"
memory_name MemoryOp.sta = "STA"
memory_name MemoryOp.cmp = "CMP"
memory_name MemoryOp.isz = "ISZ"

unfoldable pub immediate_name : ImmediateOp → String
immediate_name ImmediateOp.add = "ADD"
immediate_name ImmediateOp.sub = "SUB"
immediate_name ImmediateOp.and = "AND"
immediate_name ImmediateOp.or = "OR"
immediate_name ImmediateOp.xor = "XOR"
immediate_name ImmediateOp.lda = "LDA"
immediate_name ImmediateOp.cmp = "CMP"
immediate_name ImmediateOp.ldhi = "LDHI"
immediate_name ImmediateOp.ldlo = "LDLO"
immediate_name ImmediateOp.adjsp = "ADJSP"

unfoldable pub sp_relative_name : SpRelativeOp → String
sp_relative_name SpRelativeOp.addsp = "ADDSP"
sp_relative_name SpRelativeOp.subsp = "SUBSP"
sp_relative_name SpRelativeOp.andsp = "ANDSP"
sp_relative_name SpRelativeOp.orsp = "ORSP"
sp_relative_name SpRelativeOp.xorsp = "XORSP"
sp_relative_name SpRelativeOp.ldsp = "LDSP"
sp_relative_name SpRelativeOp.stsp = "STSP"
sp_relative_name SpRelativeOp.cmpsp = "CMPSP"

unfoldable pub branch_name : BranchOp → String
branch_name BranchOp.jmp = "JMP"
branch_name BranchOp.call = "CALL"
branch_name BranchOp.beq = "BEQ"
branch_name BranchOp.bne = "BNE"
branch_name BranchOp.blt = "BLT"
branch_name BranchOp.bge = "BGE"
branch_name BranchOp.bgt = "BGT"
branch_name BranchOp.ble = "BLE"
branch_name BranchOp.bult = "BULT"
branch_name BranchOp.buge = "BUGE"
branch_name BranchOp.bugt = "BUGT"
branch_name BranchOp.bule = "BULE"

unfoldable pub system_name : SystemOp → String
system_name SystemOp.cla = "CLA"
system_name SystemOp.cma = "CMA"
system_name SystemOp.ret = "RET"
system_name SystemOp.iret = "IRET"
system_name SystemOp.hlt = "HLT"
system_name SystemOp.inp = "INP"
system_name SystemOp.out = "OUT"
system_name SystemOp.ski = "SKI"
system_name SystemOp.sko = "SKO"
system_name SystemOp.ion = "ION"
system_name SystemOp.iof = "IOF"
system_name SystemOp.sio = "SIO"
system_name SystemOp.pio = "PIO"
system_name SystemOp.imk = "IMK"

-- `FromStr::from_str` of each set.
unfoldable pub parse_memory_op : String → Result MemoryOp MnemonicParseError
unfolding memory_name
parse_memory_op s = ok_or (find (λ x. str_eq (memory_name x) s) memory_ops) mnemonic_parse_error

unfoldable pub parse_immediate_op : String → Result ImmediateOp MnemonicParseError
unfolding immediate_name
parse_immediate_op s =
    ok_or (find (λ x. str_eq (immediate_name x) s) immediate_ops) mnemonic_parse_error

unfoldable pub parse_sp_relative_op : String → Result SpRelativeOp MnemonicParseError
unfolding sp_relative_name
parse_sp_relative_op s =
    ok_or (find (λ x. str_eq (sp_relative_name x) s) sp_relative_ops) mnemonic_parse_error

unfoldable pub parse_branch_op : String → Result BranchOp MnemonicParseError
unfolding branch_name
parse_branch_op s = ok_or (find (λ x. str_eq (branch_name x) s) branch_ops) mnemonic_parse_error

unfoldable pub parse_system_op : String → Result SystemOp MnemonicParseError
unfolding system_name
parse_system_op s = ok_or (find (λ x. str_eq (system_name x) s) system_ops) mnemonic_parse_error
