-- ===== src/Assembler/Image.antt =====
-- The image of a program that assembles: distinct cells inside the memory, with their source map.
use Prim.Native.String.{String}
use ex3_rust.Prelude.{◌≡◌, refl, subst, ok, List}
use ex3_rust.Assembler.{Line, AssemblyResult, assemble_lines, assemble, parse, pass2, start2}
use ex3_rust.Assembler.Emission.{IsEmitted, pass2-IsEmitted, mapped_none}
use ex3_rust.Assembler.Order.{IsAssembly, IsEmitted-IsAssembly}
use ex3_rust.Assembler.Labels.{assemble_lines-Succeeds, and_then-ok}

start2-IsEmitted : IsEmitted start2
start2-IsEmitted = record { used-addresses = refl; used-Distinct = tt; cells-Mapped = mapped_none }

assemble_lines-IsAssembly :
    (ls : List Line) (r : AssemblyResult) → assemble_lines ls ≡ ok r → IsAssembly r
assemble_lines-IsAssembly ls r e =
    let good = assemble_lines-Succeeds ls r e in
    subst IsAssembly good.same_result (
      IsEmitted-IsAssembly (pass2 r.symbols ls start2) r.symbols
        (pass2-IsEmitted r.symbols good.symbols-HasAddresses ls start2 start2-IsEmitted))

-- A source that assembles gives cells at distinct addresses of 16 bits with words of 32 bits, and
-- a source map that has one entry for each cell, in the same order: the entry of an instruction
-- cell holds the instruction that the cell's word encodes, with a 16-bit operand, and the entry of
-- another cell holds none.
pub assemble-IsAssembly :
    (source : String) (r : AssemblyResult) → assemble source ≡ ok r → IsAssembly r
unfolding assemble
assemble-IsAssembly source r e =
    let (ls, _, e₂) = and_then-ok (parse source) assemble_lines r e in
    assemble_lines-IsAssembly ls r e₂
