-- ===== src/Boot/Tests.antt =====
-- Static variables that are 0, and a configuration of two CPUs.
use btl_hdh.Base.{◌⊎◌, ◌≡◌, ◌≤◌, refl, true, false, none, some, ℕ, List, [], ◌∷◌, arith}
use btl_hdh.Base.Int.{pos}
use btl_hdh.Base.Chain.{null}
use btl_hdh.Memphy.{Memphy, Raw}
use btl_hdh.PageTable.{no_tables}
use btl_hdh.Queue.{Queue, dequeue, empty}
use btl_hdh.Timer as Dev
use btl_hdh.Timer.{attach_event, start_timer, next_round}
use btl_hdh.CpuOrder.{
  init_cpu_order, is_turn, signal_next_cpu, find_active_below, find_next_active_cpu,
}
use btl_hdh.Sched.{
  init_scheduler, init_levels, first_ready, next_ready, preempt, refill, account, get_mlq_proc,
  get_mlq_proc_fuel,
}
use btl_hdh.Kernel.Turns.{in_turn, is_past}
use btl_hdh.Kernel.Scripts.{Mover, cpu, goes, all_fresh, goes-Reached}
use btl_hdh.Config.{Config, rounds_of}
use btl_hdh.Cpu.{calc_op, CodeSeg, Outside}
use btl_hdh.Kernel.{Kernel, Loading, waiting, first_turn, cpu_step, cpu_step_from, pick}
use btl_hdh.Kernel.Exclusive.{Reached, at_start, IsStart}
use btl_hdh.Boot.{boot, main, machine, boot_timer, attach_loop, attach}
use btl_hdh.Boot.Start.{IsZeroed, boot-IsStart}
use btl_hdh.Kernel.Alone.{IsBooted}
use btl_hdh.Boot.Runs.{boot-turns, boot-CanStep}
use btl_hdh.Kernel.Alive.{HaveEnded, CanStep}
use btl_hdh.Base.Exit.{returns}
use btl_hdh.Scan.{codes}

abbrev raw : Raw
raw = record { fp_next = null; owner = 0 }

abbrev garbage : Memphy
garbage = record {
  storage = none;
  maxsz = 0;
  rdmflg = false;
  cursor = 0;
  free_fp_list = null;
  used_fp_list = null;
}

abbrev config : Config
config = record {
  time_slot = pos 2;
  num_cpus = pos 2;
  num_processes = pos 1;
  memramsz = pos 8192;
  memswpsz = λ _. pos 4096;
  path = λ _. [];
  start_time = λ _. 0;
  prio = λ _. 0;
}

abbrev no_process : Queue
no_process = record { proc = λ _. 0; size = 0 }

abbrev zeros : Kernel
zeros = record {
  krnl = record {
    devices = record { mram = garbage; active_mswp = garbage; active_mswp_id = 0 };
    mm = none;
  };
  procs = λ _. record {
    code = record {
      text = λ _. record { opcode = calc_op; arg_0 = 0; arg_1 = 0; arg_2 = 0; arg_3 = 0 };
      size = 0;
    };
    pc = 0;
    prio = 0;
    mm = record {
      pgd = some no_tables;
      mmap = null;
      symrgtbl = λ _. record { rg_start = 0; rg_end = 0 };
      fifo_pgn = null;
    };
  };
  live = λ _. false;
  sched = record {
    ready_queue = no_process;
    run_queue = no_process;
    running_list = no_process;
    mlq_ready_queue = λ _. no_process;
    slot = λ _. 0;
    curr_prio = 0;
    curr_slot = 0;
  };
  timer = record {
    dev_list = [];
    events = λ _. record { done = false; fsh = false };
    time = 0;
    timer_started = false;
    timer_stop = false;
    order = record {
      num_cpus = 0;
      cpu_active = λ _. false;
      current_cpu_turn = none;
      scheduling_done_count = 0;
      scheduling_barrier_released = false;
    };
    place = Dev.Place.ended;
  };
  cores = λ _. record { proc = 0; time_left = 0; place = waiting };
  loader = record { i = 0; proc = 0; place = first_turn };
  is_done = false;
}

abbrev booted : Kernel
booted = boot raw garbage config zeros

zeros-IsZeroed : IsZeroed zeros
zeros-IsZeroed = record {
  dev_list = refl;
  timer_started = refl;
  timer_stop = refl;
  time = refl;
  curr_prio = refl;
  is_done = refl;
  live = λ p. refl;
}

boot-IsStart_example :
    IsStart booted
    × IsBooted 2 booted.timer
    × (booted.timer.order.current_cpu_turn ≡ some 1)
    × (booted.loader.i ≡ 0)
    × (booted.is_done ≡ false)
    × ((p : ℕ) → booted.live p ≡ false)
boot-IsStart_example = boot-IsStart raw garbage config zeros zeros-IsZeroed

abbrev no_code : ℕ → CodeSeg
no_code _ = record {
  text = λ _. record { opcode = calc_op; arg_0 = 0; arg_1 = 0; arg_2 = 0; arg_3 = 0 };
  size = 0;
}

abbrev outside : Outside
outside = record {
  raw = λ _. 0;
  malloc_out = λ _. true;
  malloc_in = λ _. true;
  malloc_dirty = λ _. true;
  malloc_inc = λ _ _. true;
  newrg = record { rg_start = 0; rg_end = 0 };
}

abbrev no_loading : ℕ → Loading
no_loading a = record {
  address = a;
  raw_mm = (zeros.procs 0).mm;
  alloc_vma = true;
  alloc_pgd = true;
  vm_freerg_list = null;
}

-- CPU 1 finds no process and signals CPU 0, which begins its turn.
abbrev script : List Mover
script = cpu 1 ∷ cpu 1 ∷ cpu 1 ∷ cpu 1 ∷ cpu 0 ∷ []

abbrev passed_on : Kernel
passed_on = goes (machine config no_code) outside no_loading script booted

script-fresh : all_fresh (machine config no_code) outside no_loading script booted ≡ true
script-fresh = refl

passed_on-Reached : Reached (machine config no_code) booted passed_on
passed_on-Reached =
    goes-Reached (machine config no_code) outside no_loading booted script booted script-fresh
      at_start

begins : in_turn (passed_on.cores 0).place ≡ true
unfolding boot boot_timer attach_loop attach attach_event start_timer next_round init_cpu_order
    init_scheduler machine cpu_step cpu_step_from pick is_turn signal_next_cpu find_active_below
    find_next_active_cpu get_mlq_proc get_mlq_proc_fuel preempt refill account first_ready
    next_ready dequeue empty init_levels
begins = refl

two_cpus : rounds_of config.num_cpus ≤ 64
two_cpus = omega arith

boot-turns_example :
    (passed_on.timer.order.current_cpu_turn ≡ some 0)
    × (is_past passed_on.loader.place ≡ false)
    × ((x : ℕ) → in_turn (passed_on.cores x).place ≡ true → x ≡ 0)
boot-turns_example =
    boot-turns raw garbage config no_code zeros passed_on zeros-IsZeroed two_cpus passed_on-Reached
      0 begins

boot-CanStep_example :
    HaveEnded (machine config no_code) passed_on ⊎ CanStep (machine config no_code) passed_on
boot-CanStep_example =
    boot-CanStep raw garbage config no_code zeros passed_on zeros-IsZeroed two_cpus
      passed_on-Reached

-- Without an argument `main` says how it is used.
usage : main (λ path. none) config raw garbage zeros (codes "os" ∷ []) ≡ returns none
unfolding main
usage = refl
