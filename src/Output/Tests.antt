-- ===== src/Output/Tests.antt =====
-- Tests of the formats, those of the source.
use ex3_rust.Prelude.{◌≡◌, refl, arith, ok, List, [], ◌∷◌}
use ex3_rust.Prelude.Text.{lines_from, trim_end, words_from, trim_start, unsigned_from_str_radix}
use ex3_rust.Assembler.{MemoryCell, data_cell, symbol_cell}
use ex3_rust.Output.{format_mem, format_probe, parse_mem}
use ex3_rust.Output.RoundTrip.{parse_mem-format_mem}

abbrev image : List MemoryCell
image =
    record { address = 0x20; word = 0x12345; kind = data_cell }
    ∷ record { address = 0x21; word = 1; kind = symbol_cell }
    ∷ []

formats_mem : format_mem image ≡ "@0020 00012345\n@0021 00000001\n"
unfolding format_mem
formats_mem = refl

formats_probe : format_probe image ≡ "00202345\nf0000000\n"
unfolding format_probe
formats_probe = refl

parses_mem : parse_mem (format_mem image) ≡ ok ((0x20, 0x12345) ∷ (0x21, 1) ∷ [])
unfolding parse_mem format_mem lines_from trim_end words_from trim_start unsigned_from_str_radix
parses_mem = refl

parse_mem-format_mem_example : parse_mem (format_mem image) ≡ ok ((0x20, 0x12345) ∷ (0x21, 1) ∷ [])
parse_mem-format_mem_example =
    parse_mem-format_mem image ((omega arith, omega arith), ((omega arith, omega arith), tt))
