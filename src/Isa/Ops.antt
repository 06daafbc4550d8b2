-- ===== src/Isa/Ops.antt =====
-- The operations of the five instruction formats, in the source's order, and the instructions.
use ex3_rust.Prelude.{Bool, List, [], ◌∷◌}
use ex3_rust.Isa.Address.{Address}
use ex3_rust.Isa.Immediate16.{Immediate16}

pub data MemoryOp : Type 0 where
  add sub and or xor lda sta cmp isz : MemoryOp

pub data ImmediateOp : Type 0 where
  add sub and or xor lda cmp ldhi ldlo adjsp : ImmediateOp

pub data SpRelativeOp : Type 0 where
  addsp subsp andsp orsp xorsp ldsp stsp cmpsp : SpRelativeOp

pub data BranchOp : Type 0 where
  jmp call beq bne blt bge bgt ble bult buge bugt bule : BranchOp

pub data SystemOp : Type 0 where
  cla cma ret iret hlt inp out ski sko ion iof sio pio imk : SystemOp

abbrev pub memory_ops : List MemoryOp
memory_ops =
    MemoryOp.add ∷ MemoryOp.sub ∷ MemoryOp.and ∷ MemoryOp.or ∷ MemoryOp.xor ∷ MemoryOp.lda
    ∷ MemoryOp.sta ∷ MemoryOp.cmp ∷ MemoryOp.isz ∷ []

abbrev pub immediate_ops : List ImmediateOp
immediate_ops =
    ImmediateOp.add ∷ ImmediateOp.sub ∷ ImmediateOp.and ∷ ImmediateOp.or ∷ ImmediateOp.xor
    ∷ ImmediateOp.lda ∷ ImmediateOp.cmp ∷ ImmediateOp.ldhi ∷ ImmediateOp.ldlo ∷ ImmediateOp.adjsp
    ∷ []

abbrev pub sp_relative_ops : List SpRelativeOp
sp_relative_ops = addsp ∷ subsp ∷ andsp ∷ orsp ∷ xorsp ∷ ldsp ∷ stsp ∷ cmpsp ∷ []

abbrev pub branch_ops : List BranchOp
branch_ops = jmp ∷ call ∷ beq ∷ bne ∷ blt ∷ bge ∷ bgt ∷ ble ∷ bult ∷ buge ∷ bugt ∷ bule ∷ []

abbrev pub system_ops : List SystemOp
system_ops = cla ∷ cma ∷ ret ∷ iret ∷ hlt ∷ inp ∷ out ∷ ski ∷ sko ∷ ion ∷ iof ∷ sio ∷ pio ∷ imk ∷ []

pub data Instruction : Type 0 where
  memory : (op : MemoryOp) (address : Address) (indirect : Bool) → Instruction
  immediate : (op : ImmediateOp) (value : Immediate16) → Instruction
  sp_relative : (op : SpRelativeOp) (offset : Immediate16) → Instruction
  branch : (op : BranchOp) (target : Address) → Instruction
  system : (op : SystemOp) → Instruction
