-- ===== src/Kernel/Tests.antt =====
-- One CPU and one process of priority 2, up to its second dispatch, and the theorems at that state.
use btl_hdh.Base.{
  ℕ, ◌≡◌, ◌≤◌, ◌<◌, ◌≢◌, refl, true, false, none, some, [], ◌∷◌, List, has, ltb, arith, ◌-◌, window,
  ◌⊎◌, ◌++◌,
}
use btl_hdh.Base.Chain.{null}
use btl_hdh.Base.Run.{fault}
use btl_hdh.Memphy.{Memphy}
use btl_hdh.Mm.{Mm}
use btl_hdh.PageTable.{no_tables}
use btl_hdh.Queue.{Queue, contents, enqueue, dequeue, shift, empty}
use btl_hdh.Sched.{
  max_prio, Sched, first_ready, next_ready, preempt, refill, account, get_mlq_proc,
  get_mlq_proc_fuel, add_mlq_proc, put_mlq_proc,
}
use btl_hdh.CpuOrder.{
  CpuOrder, is_turn, signal_next_cpu, find_active_below, find_next_active_cpu,
  find_highest_active_cpu, reset_cpu_order,
}
use btl_hdh.Timer.{Timer, next_round, step_from, timer_step, finish_slot, slot_is_over, Place}
use btl_hdh.Setup.{init_mm}
use btl_hdh.Cpu.{calc_op, Krnl, Outside, run, execute, calc}
use btl_hdh.Kernel.{
  Config, waiting, running, first_turn, Kernel, Loading, pick, recheck, cpu_step_from, cpu_step,
  load, publish, ld_step_from, ld_step,
}
use btl_hdh.Kernel.Owners.{held, held_at, loaded}
use btl_hdh.Kernel.Loads.{PriosFit}
use btl_hdh.Kernel.Exclusive.{Reached, at_start, IsStart, Reached-Exclusive, Reached-no_fault}
use btl_hdh.Kernel.Scripts.{Mover, cpu, loader, clock, goes, all_fresh, goes-Reached}
use btl_hdh.Kernel.Counters.{Reached-counters}
use btl_hdh.Kernel.Leaving.{has_left}
use btl_hdh.Kernel.Starts.{Reached-starts}
use btl_hdh.Kernel.Slices.{InSlice, Reached-InSlice}

abbrev device : Memphy
device = record {
  storage = some (λ a. 0);
  maxsz = 4096;
  rdmflg = true;
  cursor = 0;
  free_fp_list = null;
  used_fp_list = null;
}

abbrev krnl : Krnl
krnl = record {
  devices = record { mram = device; active_mswp = device; active_mswp_id = 0 };
  mm = none;
}

abbrev mm : Mm
mm = record {
  pgd = some no_tables;
  mmap = null;
  symrgtbl = λ _. record { rg_start = 0; rg_end = 0 };
  fifo_pgn = null;
}

abbrev outside : Outside
outside = record {
  raw = λ _. 0;
  malloc_out = λ _. true;
  malloc_in = λ _. true;
  malloc_dirty = λ _. true;
  malloc_inc = λ _ _. true;
  newrg = record { rg_start = 0; rg_end = 0 };
}

abbrev cfg : Config
cfg = record {
  time_slot = 2;
  num_cpus = 1;
  num_processes = 1;
  code = λ _. record {
    text = λ _. record { opcode = calc_op; arg_0 = 0; arg_1 = 0; arg_2 = 0; arg_3 = 0 };
    size = 3;
  };
  start_time = λ _. 0;
  prio = λ _. 2;
}

abbrev no_process : Queue
no_process = record { proc = λ _. 0; size = 0 }

abbrev sched : Sched
sched = record {
  ready_queue = no_process;
  run_queue = no_process;
  running_list = no_process;
  mlq_ready_queue = λ _. no_process;
  slot = λ i. max_prio - i;
  curr_prio = 0;
  curr_slot = 0;
}

abbrev order : CpuOrder
order = record {
  num_cpus = 1;
  cpu_active = λ i. ltb i 1;
  current_cpu_turn = some 0;
  scheduling_done_count = 0;
  scheduling_barrier_released = false;
}

-- The loader is device 1.
abbrev timer : Timer
timer = record {
  dev_list = 1 ∷ 0 ∷ [];
  events = λ _. record { done = false; fsh = false };
  time = 0;
  timer_started = true;
  timer_stop = false;
  order = order;
  place = Place.checking (1 ∷ 0 ∷ []) 0 0;
}

abbrev start : Kernel
start = record {
  krnl = krnl;
  procs = λ _. record { code = cfg.code 0; pc = 0; prio = 0; mm = mm };
  live = λ _. false;
  sched = sched;
  timer = timer;
  cores = λ _. record { proc = 0; time_left = 0; place = waiting };
  loader = record { i = 0; proc = 0; place = first_turn };
  is_done = false;
}

abbrev loading_at : ℕ → Loading
loading_at a = record {
  address = a;
  raw_mm = mm;
  alloc_vma = true;
  alloc_pgd = true;
  vm_freerg_list = null;
}

-- The first slot.
abbrev first_slot : List Mover
first_slot =
    cpu 0
    ∷ cpu 0
    ∷ cpu 0
    ∷ cpu 0
    ∷ cpu 0
    ∷ loader 7
    ∷ loader 7
    ∷ loader 7
    ∷ loader 8
    ∷ loader 8
    ∷ loader 8
    ∷ loader 8
    ∷ clock
    ∷ clock
    ∷ clock
    ∷ clock
    ∷ clock
    ∷ clock
    ∷ clock
    ∷ []

-- It and the dispatch in the second one.
abbrev moves : List Mover
moves = first_slot ++ cpu 0 ∷ cpu 0 ∷ cpu 0 ∷ cpu 0 ∷ cpu 0 ∷ []

abbrev reached : Kernel
reached = goes cfg outside loading_at moves start

holds : held (reached.cores 0) ≡ 7
unfolding held held_at cpu_step cpu_step_from pick recheck ld_step ld_step_from load publish
    timer_step step_from finish_slot slot_is_over is_turn signal_next_cpu find_active_below
    find_next_active_cpu find_highest_active_cpu reset_cpu_order get_mlq_proc get_mlq_proc_fuel
    preempt refill account first_ready next_ready dequeue empty add_mlq_proc put_mlq_proc enqueue
    shift run execute calc init_mm next_round
holds = refl

moves-fresh : all_fresh cfg outside loading_at moves start ≡ true
unfolding held held_at cpu_step cpu_step_from pick recheck ld_step ld_step_from load publish
    timer_step step_from finish_slot slot_is_over is_turn signal_next_cpu find_active_below
    find_next_active_cpu find_highest_active_cpu reset_cpu_order get_mlq_proc get_mlq_proc_fuel
    preempt refill account first_ready next_ready dequeue empty add_mlq_proc put_mlq_proc enqueue
    shift run execute calc init_mm next_round
moves-fresh = refl

reached-Reached : Reached cfg start reached
reached-Reached = goes-Reached cfg outside loading_at start moves start moves-fresh at_start

prios : PriosFit cfg
prios i = omega arith

start-IsStart : IsStart start
unfolding window
start-IsStart = record {
  inv = record { within = omega arith; slots = λ i lt. refl; no_null = λ i lt. tt };
  queues = λ i lt. refl;
  cpus = λ id. (refl, refl);
  loader = refl;
}

some_process : held (reached.cores 0) ≢ 0
some_process e = let seven : held (reached.cores 0) ≡ 7 = holds in omega (arith, e, seven)

Reached-Exclusive_example :
    let p = held (reached.cores 0) in
    (held (reached.cores 1) ≢ p)
    × (has p (contents (reached.sched.mlq_ready_queue 2)) ≡ false)
    × (loaded reached.loader ≢ p)
    × (reached.live p ≡ true)
Reached-Exclusive_example =
    Reached-Exclusive cfg start reached 0 1 2 prios start-IsStart reached-Reached some_process
      (omega arith) (omega arith)

Reached-InSlice_example : InSlice 2 (reached.cores 0)
Reached-InSlice_example =
    Reached-InSlice cfg start reached 0 (omega arith) start-IsStart (λ x. refl) reached-Reached

Reached-no_fault_example :
    (cpu_step cfg outside reached 0 ≢ fault)
    ⊎ (((reached.cores 0).place ≡ running)
        × (run outside reached.krnl (reached.procs (reached.cores 0).proc) ≡ fault))
Reached-no_fault_example =
    Reached-no_fault cfg start reached outside 0 prios start-IsStart reached-Reached

alive : reached.live 7 ≡ true
unfolding held held_at cpu_step cpu_step_from pick recheck ld_step ld_step_from load publish
    timer_step step_from finish_slot slot_is_over is_turn signal_next_cpu find_active_below
    find_next_active_cpu find_highest_active_cpu reset_cpu_order get_mlq_proc get_mlq_proc_fuel
    preempt refill account first_ready next_ready dequeue empty add_mlq_proc put_mlq_proc enqueue
    shift run execute calc init_mm next_round
alive = refl

Reached-counters_example : (reached.procs 7).pc ≤ (reached.procs 7).code.size
Reached-counters_example = Reached-counters cfg start reached 7 (λ q. refl) reached-Reached alive

Reached-starts_example :
    (reached.loader.i ≤ 1)
    × ((j : ℕ) → j < reached.loader.i → 0 ≤ reached.timer.time)
    × ((id : ℕ) → has_left (reached.cores id).place ≡ true → reached.loader.i ≡ 1)
Reached-starts_example = Reached-starts cfg start reached start-IsStart refl refl reached-Reached
