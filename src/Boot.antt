-- ===== src/Boot.antt =====
-- src/os.c, `main` with MM_PAGING: the devices of the timer, the order of the CPUs, the memories and
-- the scheduler, up to where the threads have been made. The numbers of the configuration are not
-- negative. Of the four swap devices only the first is kept, since no code uses the others.
pub mod Start
pub mod Runs
mod Tests
use btl_hdh.Base.{
  ℕ, zero, suc, ◌+◌, true, false, Option, none, some, List, [], ◌∷◌, ◌++◌, ◌==◌, ltb, if◌then◌else◌,
  length,
}
use btl_hdh.Base.Exit.{Exit, returns, exits, faults, ◌>>=◌}
use btl_hdh.Scan.{codes}
use btl_hdh.Config.{Config, rounds_of, paging_pagesz, read_config}
use btl_hdh.Memphy.{Memphy, Raw}
use btl_hdh.Memphy.Inspect.{init_memphy}
use btl_hdh.Queue.{null}
use btl_hdh.Sched.{init_scheduler}
use btl_hdh.CpuOrder.{init_cpu_order}
use btl_hdh.Timer.{Timer, start_timer, attach_event}
use btl_hdh.Cpu.{CodeSeg, Krnl}
use btl_hdh.Kernel as Threads
use btl_hdh.Kernel.{Kernel, waiting, first_turn}

-- What the threads use of a configuration, with the code of each process in place of its file.
unfoldable pub machine : Config → (ℕ → CodeSeg) → Threads.Config
machine c code = record {
  time_slot = rounds_of c.time_slot;
  num_cpus = rounds_of c.num_cpus;
  num_processes = rounds_of c.num_processes;
  code = code;
  start_time = c.start_time;
  prio = c.prio;
}

-- A device that `attach_event` refuses is the NULL pointer, and changes nothing.
unfoldable pub attach : Timer → ℕ → Timer
attach t d = elim (attach_event t d) [ none ↦ t | some t' ↦ t' ]

-- The loop over the CPUs, with `i` done.
unfoldable pub attach_loop : ℕ → ℕ → Timer → Timer
attach_loop i zero t = t
attach_loop i (suc rounds) t = attach_loop (suc i) rounds (attach t i)

-- The devices of the CPUs and of the loader, and the timer thread.
unfoldable pub boot_timer : ℕ → Timer → Timer
boot_timer num_cpus t =
    let t' = attach (attach_loop 0 num_cpus t) num_cpus in
    start_timer (record t' { order = init_cpu_order t'.order num_cpus })

unfoldable pub boot_krnl : Raw → Memphy → Config → Krnl → Krnl
boot_krnl raw garbage c krnl = record krnl {
  devices = record {
    mram = (init_memphy raw paging_pagesz garbage (rounds_of c.memramsz) 1).1;
    active_mswp = (init_memphy raw paging_pagesz garbage (rounds_of (c.memswpsz 0)) 1).1;
    active_mswp_id = 0;
  };
}

-- From the static variables of the program to the threads at their start. What the loader's `proc` holds is
-- not used.
unfoldable pub boot : Raw → Memphy → Config → Kernel → Kernel
boot raw garbage c k = record k {
  krnl = boot_krnl raw garbage c k.krnl;
  sched = init_scheduler k.sched;
  timer = boot_timer (rounds_of c.num_cpus) k.timer;
  cores = λ id. record { proc = null; time_left = 0; place = waiting };
  loader = record { i = 0; proc = null; place = first_turn };
}

-- `main` with its arguments, of which the first is the program's name; `none` is the return of 1 after the
-- message on the usage.
unfoldable pub main :
    (List ℕ → Option (List ℕ))
    → Config
    → Raw
    → Memphy
    → Kernel
    → List (List ℕ)
    → Exit (Option (Config × Kernel))
main files fresh raw garbage k (_ ∷ arg ∷ []) =
    let path = codes "input/" ++ arg in
    if ltb (length path) 100
    then (do c ← read_config files fresh path; returns (some (c, boot raw garbage c k)))
    else faults
main files fresh raw garbage k _ = returns none
