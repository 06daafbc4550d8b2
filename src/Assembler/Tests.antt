-- ===== src/Assembler/Tests.antt =====
-- Tests of the assembler, those of the source first.
use Prim.Native.String.{String}
use ex3_rust.Prelude.{ℕ, ◌≡◌, refl, some, Result, ok, err, List, [], ◌∷◌, map, find}
use ex3_rust.Prelude.Text.{lines_from, trim_end, words_from}
use ex3_rust.Isa.{encode}
use ex3_rust.Isa.Mnemonics.{
  parse_system_op, parse_branch_op, parse_sp_relative_op, parse_immediate_op, parse_memory_op,
}
use ex3_rust.Prelude.{OnOk, arith}
use ex3_rust.Emulator.Bus.{null_io_bus}
use ex3_rust.Emulator.Execute.{push, pop}
use ex3_rust.Emulator.Alu.{logic}
use ex3_rust.Emulator.Samples.{machine}
use ex3_rust.Assembler.Order.{IsAssembly}
use ex3_rust.Assembler.Image.{assemble-IsAssembly}
use ex3_rust.Assembler.FirstPass.{first}
use ex3_rust.Assembler.Labels.{label-address}
use ex3_rust.Assembler.Resolved.{AllResolved, resolve-AllResolved}
use ex3_rust.Assembler.StackWords.{Does, resolve-stack}
use ex3_rust.Assembler.Fuel.{Splits, split_labels-Splits}
use ex3_rust.Assembler.{
  words, labels_loop, split_labels, Line, instruction, get, assemble_lines, move_to_org,
  valid_identifier, parse_org, resolve, parse_signed16, AsmError, AssemblyResult, assemble,
}

-- The addresses and words of an assembled source.
abbrev cells_of : Result AssemblyResult (List AsmError) → List (ℕ × ℕ)
cells_of (ok r) = map (λ c. (c.address, c.word)) r.image
cells_of (err es) = []

abbrev sample : String
sample =
    "ORG 0x0000\nJMP START\nORG 0x0010\nSTART: LDA -1\nADD VALUE\nCMP 1\nBEQ DONE\nPUSH\nPOP\nDONE: HLT\nVALUE: HEX 00000001\nEND\n"

assembles_all_formats_and_pseudos :
    cells_of (assemble sample)
    ≡ (0x0, 0x6000_0010)
      ∷ (0x10, 0x2500_ffff)
      ∷ (0x11, 0x0000_0019)
      ∷ (0x12, 0x2700_0001)
      ∷ (0x13, 0x6200_0018)
      ∷ (0x14, 0x2b00_ffff)
      ∷ (0x15, 0x4600_0000)
      ∷ (0x16, 0x4500_0000)
      ∷ (0x17, 0x2b00_0001)
      ∷ (0x18, 0x8400_0000)
      ∷ (0x19, 1)
      ∷ []
unfolding assemble lines_from trim_end words_from valid_identifier parse_org resolve parse_system_op
    find parse_branch_op parse_sp_relative_op parse_immediate_op parse_signed16 parse_memory_op
    encode
assembles_all_formats_and_pseudos = refl

-- The result of an assembly that succeeds.
abbrev result_of : Result AssemblyResult (List AsmError) → AssemblyResult
result_of (ok r) = r
result_of (err es) = record { image = []; symbols = []; source_map = [] }

abbrev short : String
short = "A: LDA A\nHEX ff\n"

short-assembles : assemble short ≡ ok (result_of (assemble short))
unfolding assemble lines_from trim_end words_from valid_identifier resolve parse_system_op find
    parse_branch_op parse_sp_relative_op parse_memory_op
short-assembles = refl

assemble-IsAssembly_example : IsAssembly (result_of (assemble short))
assemble-IsAssembly_example = assemble-IsAssembly short (result_of (assemble short)) short-assembles

abbrev halt : Line
halt = record {
  line = 2;
  org = some "20";
  labels = "STOP" ∷ [];
  statement = some (instruction "HLT" []);
}

halt-assembles : assemble_lines (halt ∷ []) ≡ ok (result_of (assemble_lines (halt ∷ [])))
unfolding assemble_lines valid_identifier parse_org resolve parse_system_op find
halt-assembles = refl

label-address_example : get "STOP" (result_of (assemble_lines (halt ∷ []))).symbols ≡ some 0x20
unfolding parse_org move_to_org
label-address_example =
    label-address [] halt [] "STOP" (result_of (assemble_lines (halt ∷ []))) halt-assembles first

resolve-AllResolved_example :
    OnOk (AllResolved 2) (resolve (instruction "PUSH" []) (("A", 16) ∷ []) 1)
unfolding words
resolve-AllResolved_example =
    resolve-AllResolved (instruction "PUSH" []) (("A", 16) ∷ []) 1 (omega arith, tt)

resolve-stack_example :
    Does null_io_bus (resolve (instruction "PUSH" []) [] 1) machine (push 0xffff_ffff machine)
    × Does null_io_bus
        (resolve (instruction "POP" []) [] 1)
        machine
        (let (v, s) = pop machine.memory machine.state in record machine { state = logic v s })
resolve-stack_example = resolve-stack null_io_bus [] 1 machine (omega arith)

split_labels-Splits_example :
    (labels_loop 12 [] "A: B: HLT" ≡ some (split_labels "A: B: HLT"))
    × Splits "A: B: HLT" (split_labels "A: B: HLT").0 (split_labels "A: B: HLT").1
split_labels-Splits_example = split_labels-Splits 12 "A: B: HLT" (omega arith)
