-- ===== src/Loader/Programs.antt =====
-- The format of the files in input/proc: a line with the priority and the number of instructions, and a
-- line for each instruction.
use btl_hdh.Base.{ℕ, suc, ◌+◌, ◌≤◌, ◌<◌, ◌^◌, ◌≡◌, List, [], ◌∷◌, ◌++◌, length}
use btl_hdh.Scan.{codes}
use btl_hdh.Scan.Numerals.{Numeral, written}
use btl_hdh.Scan.Words.{spelled, AreBelow, values}
use btl_hdh.Cpu.{Opcode, calc_op, alloc_op, free_op, read_op, write_op, syscall_op, unlisted, Inst}
use btl_hdh.Loader.{set_args}

pub record Line : Type 0 where
  pub opcode : Opcode
  pub args : List Numeral

abbrev pub word : Opcode → List ℕ
word calc_op = codes "calc"
word alloc_op = codes "alloc"
word free_op = codes "free"
word read_op = codes "read"
word write_op = codes "write"
word syscall_op = codes "syscall"
word unlisted = []

-- How many arguments an instruction has; a system call has at most four, on a line that `buf` can hold.
abbrev pub Takes : Opcode → List Numeral → Type 0
Takes calc_op args = length args ≡ 0
Takes alloc_op args = length args ≡ 2
Takes free_op args = length args ≡ 1
Takes read_op args = length args ≡ 3
Takes write_op args = length args ≡ 3
Takes syscall_op args = (length args ≤ 4) × (length (spelled args []) + 1 < 200)
Takes unlisted args = ⊥

abbrev pub IsLine : Line → Type 0
IsLine l = Takes l.opcode l.args × AreBelow (2 ^ 64) l.args

unfoldable pub program : List Line → List ℕ
program [] = []
program (l ∷ ls) = word l.opcode ++ spelled l.args (b'\n' ∷ program ls)

-- A file with the numerals of its first line.
unfoldable pub file_of : Numeral → Numeral → List Line → List ℕ
file_of priority size ls = written priority (b' ' ∷ written size (b'\n' ∷ program ls))

-- The instruction of a line, in a struct that `malloc` gave.
abbrev pub assembled : Line → Inst → Inst
assembled l ins = set_args (record ins { opcode = l.opcode }) (values l.args)

abbrev pub assembled_from : List Line → ℕ → (ℕ → Inst) → List Inst
assembled_from [] i text = []
assembled_from (l ∷ ls) i text = assembled l (text i) ∷ assembled_from ls (suc i) text
