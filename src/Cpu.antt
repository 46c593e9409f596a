-- ===== src/Cpu.antt =====
-- src/cpu.c with MM_PAGING, and the system calls of src/libstd.c and src/syscall.c: one instruction of
-- a process. The table of system calls is src/syscalltbl.lst: `__sys_listsyscall` (0), which only
-- prints, and `__sys_memmap` (17). What `malloc` gives and what the stack holds is the record Outside.
pub mod Progress
mod Tests
use btl_hdh.Base.{ℕ, zero, suc, ◌+◌, ◌%◌, ◌^◌, Bool, Option, ◌==◌, leb, if◌then◌else◌}
use btl_hdh.Base.Int.{ℤ, pos, success}
use btl_hdh.Base.Run.{Run, done, fault, ◌>>=◌}
use btl_hdh.Mm.{Region, Mm}
use btl_hdh.Regions.{liballoc, libfree}
use btl_hdh.Paging.{Devices, Memop, map_op, inc_op, swp_op, io_read, io_write, other_op, sys_memmap}
use btl_hdh.Paging.Registers.{libread, libwrite}

-- `enum ins_opcode_t`; `unlisted` is any other number, for the `default` of `run`.
pub data Opcode : Type 0 where
  calc_op : Opcode
  alloc_op : Opcode
  free_op : Opcode
  read_op : Opcode
  write_op : Opcode
  syscall_op : Opcode
  unlisted : Opcode

pub record Inst : Type 0 where
  pub opcode : Opcode
  pub arg_0 : ℕ
  pub arg_1 : ℕ
  pub arg_2 : ℕ
  pub arg_3 : ℕ

pub record CodeSeg : Type 0 where
  pub text : ℕ → Inst
  pub size : ℕ

-- The fields of `struct pcb_t` that a running process uses, and `prio`.
pub record Proc : Type 0 where
  pub code : CodeSeg
  pub pc : ℕ
  pub prio : ℕ
  pub mm : Mm

-- The fields of `struct krnl_t` that instructions use.
pub record Krnl : Type 0 where
  pub devices : Devices
  pub mm : Option Mm

-- What an instruction takes from outside: bytes on the stack, and whether `malloc` succeeds for the
-- tables of the page that is swapped out, of the page that comes in, of the page that is marked as
-- dirty, and for the area that grows, with the region it allocates.
pub record Outside : Type 0 where
  pub raw : ℕ → ℕ
  pub malloc_out : ℕ → Bool
  pub malloc_in : ℕ → Bool
  pub malloc_dirty : ℕ → Bool
  pub malloc_inc : ℕ → ℕ → Bool
  pub newrg : Region

-- `proc & 0`
unfoldable pub calc : Proc → ℤ
calc proc = success

-- `int memop = regs->a1`
unfoldable pub memop_of : ℕ → Memop
memop_of a1 =
    let memop = a1 % 2 ^ 32 in
    if memop == 1
    then map_op
    else if memop == 2
    then inc_op
    else if memop == 3
    then swp_op
    else if memop == 4
    then io_read
    else if memop == 5
    then io_write
    else other_op

-- The registers are local to `libsyscall`, so what a call stores in `a3` is lost.
unfoldable pub syscall : Outside → Devices → ℕ → ℕ → ℕ → ℕ → Run (ℤ × ℕ × Devices)
syscall o krnl nr a1 a2 a3 =
    if nr == 0
    then done (success, a3, krnl)
    else if nr == 17
    then sys_memmap o.raw krnl (memop_of a1) a2 a3
    else done (success, a3, krnl)

unfoldable pub libsyscall : Outside → Devices → ℕ → ℕ → ℕ → ℕ → Run (ℤ × Devices)
libsyscall o krnl syscall_idx a1 a2 a3 = do
  (ret, a3', krnl') ← syscall o krnl syscall_idx a1 a2 a3
  done (ret, krnl')

-- The `switch` of `run`. The value that READ gets goes to `ins.arg_2`, a field of a copy.
unfoldable pub execute : Outside → Krnl → Proc → Opcode → Inst → Run (ℤ × Krnl × Proc)
execute o k proc calc_op ins = done (calc proc, k, proc)
execute o k proc alloc_op ins = do
  (stat, krnl_mm, mm) ← liballoc o.malloc_inc o.newrg k.mm proc.mm ins.arg_0 (ins.arg_1 % 2 ^ 32)
  done (stat, record k { mm = krnl_mm }, record proc { mm = mm })
execute o k proc free_op ins = do
  (stat, mm) ← libfree proc.mm (ins.arg_0 % 2 ^ 32)
  done (stat, k, record proc { mm = mm })
execute o k proc read_op ins = do
  (stat, value, krnl, mm) ←
      libread o.raw o.malloc_out o.malloc_in k.devices proc.mm (ins.arg_0 % 2 ^ 32) ins.arg_1
  done (stat, record k { devices = krnl }, record proc { mm = mm })
execute o k proc write_op ins = do
  (stat, krnl, mm) ←
      libwrite o.raw o.malloc_out o.malloc_in o.malloc_dirty k.devices proc.mm (ins.arg_0 % 256)
        (ins.arg_1 % 2 ^ 32) ins.arg_2
  done (stat, record k { devices = krnl }, record proc { mm = mm })
execute o k proc syscall_op ins = do
  (stat, krnl) ← libsyscall o k.devices (ins.arg_0 % 2 ^ 32) ins.arg_1 ins.arg_2 ins.arg_3
  done (stat, record k { devices = krnl }, proc)
execute o k proc unlisted ins = done (pos 1, k, proc)

unfoldable pub run : Outside → Krnl → Proc → Run (ℤ × Krnl × Proc)
run o k proc =
    if leb proc.code.size proc.pc
    then done (pos 1, k, proc)
    else (let ins = proc.code.text proc.pc in
        execute o k (record proc { pc = proc.pc + 1 }) ins.opcode ins)
