-- ===== src/Isa/RoundTrip.antt =====
-- `decode` and `encode` are inverse: decoding what was encoded, and encoding what was decoded.
use ex3_rust.Prelude.{
  ℕ, ◌^◌, ◌<◌, ◌≡◌, refl, ap, ◌∙◌, arith, Bool, true, false, IsU16, ok, err, find, some,
  if◌then◌else◌, ◌==◌,
}
use ex3_rust.Isa.Ops.{
  MemoryOp, ImmediateOp, SpRelativeOp, BranchOp, SystemOp, Instruction, memory, immediate,
  sp_relative, branch, system, memory_ops, immediate_ops, sp_relative_ops, branch_ops, system_ops,
}
use ex3_rust.Isa.Codec.{
  memory_opcode, immediate_opcode, sp_opcode, branch_opcode, system_opcode, bool_as_u32, encode,
  decode, decode_memory, decode_immediate, decode_sp_relative, decode_branch, decode_system,
}
use ex3_rust.Isa.Layout.{
  word_of, format_of_word, opcode_of_word, modifier_of_word, operand_of_word, low_bits_of_word,
  memory_opcode-lt, immediate_opcode-lt, sp_opcode-lt, branch_opcode-lt, system_opcode-lt,
  bool_as_u32-lt, OperandFits, layout, encode-layout,
}

-- The search by opcode finds the operation that has it.
find-memory_opcode :
    (op : MemoryOp) → find (λ x. memory_opcode x == memory_opcode op) memory_ops ≡ some op
unfolding memory_opcode find
find-memory_opcode MemoryOp.add = refl
find-memory_opcode _ = refl

find-immediate_opcode :
    (op : ImmediateOp)
    → find (λ x. immediate_opcode x == immediate_opcode op) immediate_ops ≡ some op
unfolding immediate_opcode find
find-immediate_opcode ImmediateOp.add = refl
find-immediate_opcode _ = refl

find-sp_opcode :
    (op : SpRelativeOp) → find (λ x. sp_opcode x == sp_opcode op) sp_relative_ops ≡ some op
unfolding sp_opcode find
find-sp_opcode SpRelativeOp.addsp = refl
find-sp_opcode _ = refl

find-branch_opcode :
    (op : BranchOp) → find (λ x. branch_opcode x == branch_opcode op) branch_ops ≡ some op
unfolding branch_opcode find
find-branch_opcode BranchOp.jmp = refl
find-branch_opcode _ = refl

find-system_opcode :
    (op : SystemOp) → find (λ x. system_opcode x == system_opcode op) system_ops ≡ some op
unfolding system_opcode find
find-system_opcode SystemOp.cla = refl
find-system_opcode _ = refl

-- `decode` of a word whose fields are known.
pub decode_of_fields :
    (f o m x : ℕ)
    → o < 32
    → m < 256
    → x < 2 ^ 16
    → decode (word_of f o m x) ≡ (
        let w = word_of f o m x in
        if f == 0
        then decode_memory w o m
        else if f == 1
        then decode_immediate w o m
        else if f == 2
        then decode_sp_relative w o m
        else if f == 3
        then decode_branch w o m
        else if f == 4
        then decode_system w o
        else err (record { word = w }))
unfolding decode
decode_of_fields f o m x ho hm hx = rw (
  format_of_word f o m x ho hm hx,
  opcode_of_word f o m x ho hm hx,
  modifier_of_word f o m x ho hm hx,
)

-- The arm of each format, at the word of an instruction of that format.
decode_memory_fields :
    (op : MemoryOp) (address : ℕ) (indirect : Bool)
    → IsU16 address
    → decode_memory (layout (memory op address indirect)) (memory_opcode op) (bool_as_u32 indirect)
      ≡ ok (memory op address indirect)
unfolding decode_memory
decode_memory_fields op address true h = rw (
  find-memory_opcode op,
  operand_of_word 0 (memory_opcode op) 1 address (memory_opcode-lt op) (omega arith) h,
)
decode_memory_fields op address false h = rw (
  find-memory_opcode op,
  operand_of_word 0 (memory_opcode op) 0 address (memory_opcode-lt op) (omega arith) h,
)

decode_immediate_fields :
    (op : ImmediateOp) (value : ℕ)
    → IsU16 value
    → decode_immediate (layout (immediate op value)) (immediate_opcode op) 0
      ≡ ok (immediate op value)
unfolding decode_immediate
decode_immediate_fields op value h = rw (
  find-immediate_opcode op,
  operand_of_word 1 (immediate_opcode op) 0 value (immediate_opcode-lt op) (omega arith) h,
)

decode_sp_relative_fields :
    (op : SpRelativeOp) (offset : ℕ)
    → IsU16 offset
    → decode_sp_relative (layout (sp_relative op offset)) (sp_opcode op) 0
      ≡ ok (sp_relative op offset)
unfolding decode_sp_relative
decode_sp_relative_fields op offset h =
    rw (
      find-sp_opcode op,
      operand_of_word 2 (sp_opcode op) 0 offset (sp_opcode-lt op) (omega arith) h,
    )

decode_branch_fields :
    (op : BranchOp) (target : ℕ)
    → IsU16 target
    → decode_branch (layout (branch op target)) (branch_opcode op) 0 ≡ ok (branch op target)
unfolding decode_branch
decode_branch_fields op target h = rw (
  find-branch_opcode op,
  operand_of_word 3 (branch_opcode op) 0 target (branch_opcode-lt op) (omega arith) h,
)

decode_system_fields :
    (op : SystemOp) → decode_system (layout (system op)) (system_opcode op) ≡ ok (system op)
unfolding decode_system
decode_system_fields op = rw (
  low_bits_of_word 4 (system_opcode op) 0 0 (system_opcode-lt op) (omega arith) (omega arith),
  find-system_opcode op,
)

decode-layout : (i : Instruction) → OperandFits i → decode (layout i) ≡ ok i
decode-layout (memory op address indirect) h =
    decode_of_fields 0 (memory_opcode op) (bool_as_u32 indirect) address (memory_opcode-lt op)
      (bool_as_u32-lt indirect) h
    ∙ decode_memory_fields op address indirect h
decode-layout (immediate op value) h =
    decode_of_fields 1 (immediate_opcode op) 0 value (immediate_opcode-lt op) (omega arith) h
    ∙ decode_immediate_fields op value h
decode-layout (sp_relative op offset) h =
    decode_of_fields 2 (sp_opcode op) 0 offset (sp_opcode-lt op) (omega arith) h
    ∙ decode_sp_relative_fields op offset h
decode-layout (branch op target) h =
    decode_of_fields 3 (branch_opcode op) 0 target (branch_opcode-lt op) (omega arith) h
    ∙ decode_branch_fields op target h
decode-layout (system op) h =
    decode_of_fields 4 (system_opcode op) 0 0 (system_opcode-lt op) (omega arith) (omega arith)
    ∙ decode_system_fields op

-- Decoding an encoded instruction gives the instruction back, whenever its operand is of 16 bits.
pub decode-encode : (i : Instruction) → OperandFits i → decode (encode i) ≡ ok i
decode-encode i h = ap decode (encode-layout i h) ∙ decode-layout i h
