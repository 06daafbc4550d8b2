-- ===== src/Isa/Tests.antt =====
-- Tests of the codec and the mnemonics, with the encodings of the source's own tests.
use ex3_rust.Prelude.{◌≡◌, refl, ◌↔◌, ◌≢◌, true, false, ok, err, find}
use ex3_rust.Isa.Ops.{
  MemoryOp, ImmediateOp, SpRelativeOp, BranchOp, SystemOp, Instruction, memory, immediate,
  sp_relative, branch, system,
}
use ex3_rust.Isa.Codec.{encode, decode, decode_memory, decode_immediate, decode_system}
use ex3_rust.Isa.Layout.{OperandFits}
use ex3_rust.Isa.Legality.{decode-eq-ok_iff, decode-eq-err_iff}
use ex3_rust.Isa.Mnemonics.{
  memory_name, immediate_name, sp_relative_name, branch_name, system_name, parse_memory_op,
  parse_immediate_op, parse_sp_relative_op, parse_branch_op, parse_system_op, mnemonic_parse_error,
}
use ex3_rust.Isa.Names.{parse_op_iff}

golden_encodings :
    (encode (memory MemoryOp.add 0x1234 false) ≡ 0x0000_1234)
    × (encode (memory MemoryOp.lda 0x1234 true) ≡ 0x0501_1234)
    × (encode (immediate ImmediateOp.lda 0xffff) ≡ 0x2500_ffff)
    × (encode (sp_relative SpRelativeOp.ldsp 0xffff) ≡ 0x4500_ffff)
    × (encode (branch BranchOp.call 0x1234) ≡ 0x6100_1234)
    × (encode (system SystemOp.hlt) ≡ 0x8400_0000)
unfolding encode
golden_encodings = (refl, refl, refl, refl, refl, refl)

rejects_illegal :
    (decode 0x0002_0000 ≡ err (record { word = 0x0002_0000 }))
    × (decode 0x2001_0000 ≡ err (record { word = 0x2001_0000 }))
    × (decode 0x8000_0001 ≡ err (record { word = 0x8000_0001 }))
    × (decode 0xa000_0000 ≡ err (record { word = 0xa000_0000 }))
    × (decode 0xc000_0000 ≡ err (record { word = 0xc000_0000 }))
unfolding decode decode_memory decode_immediate decode_system
rejects_illegal = (refl, refl, refl, refl, refl)

unknown_mnemonic : parse_memory_op "LDHI" ≡ err mnemonic_parse_error
unfolding parse_memory_op find
unknown_mnemonic = refl

decode-eq-ok_iff_example : (decode 0x0501_1234 ≡ ok (memory MemoryOp.lda 0x1234 true)) ↔ (
    OperandFits (memory MemoryOp.lda 0x1234 true)
    × (encode (memory MemoryOp.lda 0x1234 true) ≡ 0x0501_1234))
decode-eq-ok_iff_example = decode-eq-ok_iff 0x0501_1234 (memory MemoryOp.lda 0x1234 true)

decode-eq-err_iff_example :
    (decode 0x0002_0000 ≡ err (record { word = 0x0002_0000 }))
    ↔ ((i : Instruction) → OperandFits i → encode i ≢ 0x0002_0000)
decode-eq-err_iff_example = decode-eq-err_iff 0x0002_0000

parse_op_iff_example :
    ((op : MemoryOp) → (parse_memory_op "ADD" ≡ ok op) ↔ (memory_name op ≡ "ADD"))
    × ((op : ImmediateOp) → (parse_immediate_op "ADD" ≡ ok op) ↔ (immediate_name op ≡ "ADD"))
    × ((op : SpRelativeOp) → (parse_sp_relative_op "ADD" ≡ ok op) ↔ (sp_relative_name op ≡ "ADD"))
    × ((op : BranchOp) → (parse_branch_op "ADD" ≡ ok op) ↔ (branch_name op ≡ "ADD"))
    × ((op : SystemOp) → (parse_system_op "ADD" ≡ ok op) ↔ (system_name op ≡ "ADD"))
parse_op_iff_example = parse_op_iff "ADD"
