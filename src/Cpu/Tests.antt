-- ===== src/Cpu/Tests.antt =====
-- A process of three instructions, and the theorems at it.
use btl_hdh.Base.{◌-◌, ◌≡◌, true, some, none, ℕ, zero, suc, arith}
use btl_hdh.Base.Int.{pos}
use btl_hdh.Base.Chain.{null}
use btl_hdh.Base.Run.{done}
use btl_hdh.Memphy.{Memphy}
use btl_hdh.Mm.{Mm}
use btl_hdh.PageTable.{no_tables}
use btl_hdh.Cpu.{Opcode, calc_op, syscall_op, Inst, Proc, Krnl, Outside, run}
use btl_hdh.Cpu.Progress.{runs, Reaches, runs_lem}

abbrev device : Memphy
device = record {
  storage = some (λ a. 0);
  maxsz = 4096;
  rdmflg = true;
  cursor = 0;
  free_fp_list = null;
  used_fp_list = null;
}

abbrev krnl : Krnl
krnl = record {
  devices = record { mram = device; active_mswp = device; active_mswp_id = 0 };
  mm = none;
}

abbrev mm : Mm
mm = record {
  pgd = some no_tables;
  mmap = null;
  symrgtbl = λ _. record { rg_start = 0; rg_end = 0 };
  fifo_pgn = null;
}

abbrev outside : ℕ → Outside
outside _ = record {
  raw = λ _. 0;
  malloc_out = λ _. true;
  malloc_in = λ _. true;
  malloc_dirty = λ _. true;
  malloc_inc = λ _ _. true;
  newrg = record { rg_start = 0; rg_end = 0 };
}

abbrev inst : Opcode → Inst
inst op = record { opcode = op; arg_0 = 0; arg_1 = 7; arg_2 = 8; arg_3 = 9 }

abbrev text : ℕ → Inst
text zero = inst calc_op
text (suc i) = inst syscall_op

-- A calculation, then calls of `__sys_listsyscall`.
abbrev proc : Proc
proc = record { code = record { text = text; size = 3 }; pc = 1; prio = 4; mm = mm }

whole_code :
    Reaches proc 3 (runs (3 - 1) outside krnl proc)
    × (run (outside 0) krnl (record proc { pc = 3 }) ≡ done (pos 1, krnl, record proc { pc = 3 }))
whole_code = runs_lem outside krnl proc (omega arith)
