-- ===== src/Loader/Tests.antt =====
-- A file with two instructions, and what `load` makes of it and of others.
use btl_hdh.Base.{ℕ, ◌+◌, ◌^◌, ◌%◌, ◌≡◌, refl, Option, some, List, [], ◌∷◌, arith, All, window}
use btl_hdh.Base.Exit.{returns, exits, faults}
use btl_hdh.Scan.{
  codes, skip_space, scan_digits, scan_sign, starts_digit, scan_magnitude, scan_unsigned, scan_all,
  scan_word, take_word, drop_word, same,
}
use btl_hdh.Scan.Numerals.{Numeral}
use btl_hdh.Cpu.{calc_op, alloc_op, free_op}
use btl_hdh.Loader.{
  get_opcode, Pcb, Fresh, next_opcode, decode, read_inst, read_loop, set_header, read_code, load,
}
use btl_hdh.Loader.Programs.{Line, IsLine, program, file_of, assembled_from}
use btl_hdh.Loader.Reads.{load-program}

abbrev numeral : ℕ → Numeral
numeral d = record { first = d; others = [] }

abbrev lines : List Line
lines =
    record { opcode = calc_op; args = [] }
    ∷ record { opcode = alloc_op; args = record { first = 3; others = 0 ∷ [] } ∷ numeral 0 ∷ [] }
    ∷ []

text : file_of (numeral 1) (numeral 2) lines ≡ codes "1 2\ncalc\nalloc 30 0\n"
unfolding file_of program
text = refl

abbrev fresh : Fresh
fresh = record {
  priority = 7;
  size = 9;
  text = λ _. record { opcode = free_op; arg_0 = 77; arg_1 = 77; arg_2 = 77; arg_3 = 77 };
}

abbrev files : List ℕ → Option (List ℕ)
files path = some (file_of (numeral 1) (numeral 2) lines)

lines-IsLine : All IsLine lines
lines-IsLine =
    ((refl, tt), ((refl, ((omega arith, omega arith), ((omega arith, omega arith), tt))), tt))

load-program_example :
    (p : Pcb) × (load files fresh 5 (codes "input/proc/a") ≡ returns (p, (5 + 1) % 2 ^ 32))
    × (p.pid ≡ 5)
    × (p.priority ≡ 1)
    × (p.pc ≡ 0)
    × (p.code.size ≡ 2)
    × (window p.code.text 0 2 ≡ assembled_from lines 0 fresh.text)
load-program_example =
    load-program files fresh 5 (codes "input/proc/a") (numeral 1) (numeral 2) lines (omega arith)
      (omega arith) (omega arith) (omega arith) refl lines-IsLine refl

-- An opcode that there is not.
unknown : read_code fresh (codes "1 1\njump 3\n") ≡ exits
unfolding read_code scan_all scan_unsigned scan_magnitude skip_space scan_sign starts_digit
    scan_digits set_header read_loop read_inst next_opcode scan_word take_word drop_word decode
    get_opcode same
unknown = refl

-- A word of ten bytes does not fit.
too_long : read_code fresh (codes "1 1\ncalculates\n") ≡ faults
unfolding read_code scan_all scan_unsigned scan_magnitude skip_space scan_sign starts_digit
    scan_digits set_header read_loop read_inst next_opcode scan_word take_word drop_word decode
    get_opcode same
too_long = refl
