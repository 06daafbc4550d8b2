-- ===== src/Assembler/StackWords.antt =====
-- PUSH and POP of the assembler, executed on the machine, against `Cpu::push` and `Cpu::pop`.
use ex3_rust.Prelude.{
  ℕ, ◌+◌, ◌%◌, ◌^◌, ◌≡◌, refl, arith, ap, find, IsU16, Result, ok, err, List, [], ◌∷◌,
}
use ex3_rust.Isa.Address.{wrapping_add}
use ex3_rust.Isa.{
  DecodeError, immediate_opcode, sp_opcode, encode, decode, decode_immediate, decode_sp_relative,
}
use ex3_rust.Emulator.Bus.{IoBus}
use ex3_rust.Emulator.State.{Machine}
use ex3_rust.Emulator.Memory.{read, write}
use ex3_rust.Emulator.Alu.{logic, update_nz, set_flag}
use ex3_rust.Emulator.Execute.{
  push, pop, execute, execute_immediate, execute_sp_relative, sp_relative_operation,
}
use ex3_rust.Assembler.{CellKind, Symbols, instruction, AsmError, resolve}

module _ {B : Type 0} (bus : IoBus B) where
  -- Words of the memory, decoded and executed one after the other.
  abbrev pub execute_words : List (ℕ × CellKind) → Machine B → Result (Machine B) DecodeError
  execute_words [] m = ok m
  execute_words ((word, kind) ∷ words) m = elim (decode word) [
    | ok i ↦ execute_words words (execute bus i m)
    | err e ↦ err e
  ]

  -- A statement that resolves to words whose execution gives a machine.
  abbrev pub Does : Result (List (ℕ × CellKind)) AsmError → Machine B → Machine B → Type 0
  Does resolved m after =
      (words : List (ℕ × CellKind)) × (resolved ≡ ok words) × (execute_words words m ≡ ok after)

  -- Whatever the symbols, the statement PUSH resolves to words that decode, and executing them
  -- from a stack pointer of 16 bits is `Cpu::push` of the accumulator; the words of POP are
  -- `Cpu::pop` into the accumulator with N and Z set by the word.
  pub resolve-stack :
      (symbols : Symbols) (line : ℕ) (m : Machine B)
      → IsU16 m.state.sp
      → Does (resolve (instruction "PUSH" []) symbols line) m (push m.state.ac m)
        × Does
            (resolve (instruction "POP" []) symbols line)
            m
            (let (v, s) = pop m.memory m.state in record m { state = logic v s })
  unfolding resolve execute execute_immediate execute_sp_relative sp_relative_operation push pop
      logic update_nz set_flag encode immediate_opcode sp_opcode decode decode_immediate
      decode_sp_relative find
  resolve-stack symbols line m h =
      let same : (m.state.sp + 0) % 2 ^ 16 ≡ m.state.sp = omega arith in
      (
        (
          _,
          refl,
          ap (λ a. ok (record (push m.state.ac m) { memory = write m.memory a m.state.ac }))
              (omega arith),
        ),
        (
          _,
          refl,
          ap
              (λ a. ok (record m {
                state =
                    logic (read m.memory a) (record (m.state) { sp = wrapping_add m.state.sp 1 });
              }))
              same,
        ),
      )
