-- ===== src/Loader.antt =====
-- src/loader.c: a process is read from its file. Files are a parameter, the bytes at a path; what
-- `malloc` leaves in the new structs is an argument. `page_table` is not used by the rest and is left out.
pub mod Programs
pub mod Reads
mod Tests
use btl_hdh.Base.{
  ℕ, zero, suc, ◌+◌, ◌*◌, ◌%◌, ◌^◌, Option, none, some, List, [], ◌∷◌, ◌==◌, ltb, if◌then◌else◌,
  update, length, take,
}
use btl_hdh.Base.Exit.{Exit, returns, exits, faults, ◌>>=◌}
use btl_hdh.Scan.{codes, skip_space, scan_unsigned, scan_all, scan_word, fgets, same}
use btl_hdh.Cpu.{
  Opcode, calc_op, alloc_op, free_op, read_op, write_op, syscall_op, unlisted, Inst, CodeSeg,
}

-- `none` is `exit(1)`.
unfoldable pub get_opcode : List ℕ → Option Opcode
get_opcode opt =
    if same opt (codes "calc")
    then some calc_op
    else if same opt (codes "alloc")
    then some alloc_op
    else if same opt (codes "free")
    then some free_op
    else if same opt (codes "read")
    then some read_op
    else if same opt (codes "write")
    then some write_op
    else if same opt (codes "syscall")
    then some syscall_op
    else none

-- The fields of `struct pcb_t` that `load` sets.
pub record Pcb : Type 0 where
  pub pid : ℕ
  pub priority : ℕ
  pub path : List ℕ
  pub code : CodeSeg
  pub bp : ℕ
  pub pc : ℕ

-- What `malloc` leaves in `priority`, `size` and `text`.
pub record Fresh : Type 0 where
  pub priority : ℕ
  pub size : ℕ
  pub text : ℕ → Inst

-- The variables of the loop; `none` is an array that nothing was stored in.
pub record Reading : Type 0 where
  pub opcode : Option (List ℕ)
  pub buf : Option (List ℕ)
  pub text : ℕ → Inst
  pub file : List ℕ

-- The arguments that a `scanf` found, in order.
unfoldable pub set_args : Inst → List ℕ → Inst
set_args ins [] = ins
set_args ins (a ∷ []) = record ins { arg_0 = a }
set_args ins (a ∷ b ∷ []) = record ins { arg_0 = a; arg_1 = b }
set_args ins (a ∷ b ∷ c ∷ []) = record ins { arg_0 = a; arg_1 = b; arg_2 = c }
set_args ins (a ∷ b ∷ c ∷ d ∷ more) = record ins { arg_0 = a; arg_1 = b; arg_2 = c; arg_3 = d }

-- `fscanf` of `n` arguments and white space.
unfoldable pub read_args : ℕ → ℕ → Reading → Exit Reading
read_args n i r = do
  (args, rest) ← scan_all (scan_unsigned (2 ^ 64)) n r.file
  returns (record r {
    text = update r.text i (set_args (r.text i) args);
    file = if length args == n then skip_space rest else rest;
  })

-- `sscanf` of `buf`
unfoldable pub scan_buf : ℕ → Reading → Option (List ℕ) → Exit Reading
scan_buf i r none = faults
scan_buf i r (some line) = do
  (args, rest) ← scan_all (scan_unsigned (2 ^ 64)) 4 line
  returns (record r { text = update r.text i (set_args (r.text i) args) })

-- `fgets`, which leaves `buf` alone at the end of the file, and `sscanf`.
unfoldable pub read_line : ℕ → Reading → Exit Reading
read_line i r = elim (fgets 200 r.file) [
  | none ↦ scan_buf i r r.buf
  | some (line, rest) ↦ scan_buf i (record r { buf = some line; file = rest }) (some line)
]

-- The `switch` of the loop.
unfoldable pub read_operands : ℕ → Reading → Opcode → Exit Reading
read_operands i r calc_op = returns r
read_operands i r alloc_op = read_args 2 i r
read_operands i r free_op = read_args 1 i r
read_operands i r read_op = read_args 3 i r
read_operands i r write_op = read_args 3 i r
read_operands i r syscall_op = read_line i r
read_operands i r unlisted = exits

-- `fscanf` of the opcode into an array of 10 bytes.
unfoldable pub next_opcode : Reading → Exit Reading
next_opcode r = elim (scan_word r.file) [
  | none ↦ returns (record r { file = [] })
  | some (word, rest) ↦
      if ltb (length word) 10
      then returns (record r { opcode = some word; file = rest })
      else faults
]

unfoldable pub decode : ℕ → Reading → Option (List ℕ) → Exit Reading
decode i r none = faults
decode i r (some word) = elim (get_opcode word) [
  | none ↦ exits
  | some op ↦
      read_operands i (record r { text = update r.text i (record (r.text i) { opcode = op }) }) op
]

-- A round of the loop.
unfoldable pub read_inst : ℕ → Reading → Exit Reading
read_inst i r = do r' ← next_opcode r; decode i r' r'.opcode

unfoldable pub read_loop : ℕ → ℕ → Reading → Exit Reading
read_loop i zero r = returns r
read_loop i (suc rounds) r = do r' ← read_inst i r; read_loop (suc i) rounds r'

-- `fscanf` of `priority` and `size`.
unfoldable pub set_header : Fresh → List ℕ → Fresh
set_header f [] = f
set_header f (priority ∷ []) = record f { priority = priority }
set_header f (priority ∷ size ∷ more) = record f { priority = priority; size = size }

unfoldable pub read_code : Fresh → List ℕ → Exit (ℕ × CodeSeg)
read_code fresh file = do
  (values, rest) ← scan_all (scan_unsigned (2 ^ 32)) 2 file
  let f = set_header fresh values
  r ← read_loop 0 f.size (record { opcode = none; buf = none; text = f.text; file = rest })
  returns (f.priority, record { text = r.text; size = f.size })

-- The new process and the next `avail_pid`; `path` is cut to 16 bytes.
unfoldable pub load : (List ℕ → Option (List ℕ)) → Fresh → ℕ → List ℕ → Exit (Pcb × ℕ)
load files fresh avail_pid path = elim (files path) [
  | none ↦ exits
  | some file ↦ (do
    (priority, code) ← read_code fresh file
    returns (
      record {
        pid = avail_pid;
        priority = priority;
        path = take 16 path;
        code = code;
        bp = 2 ^ 10;
        pc = 0;
      },
      (avail_pid + 1) % 2 ^ 32,
    ))
]
