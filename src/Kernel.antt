-- ===== src/Kernel.antt =====
-- src/os.c, `cpu_routine` and `ld_routine`, and what `load` of src/loader.c sets: the threads of the
-- CPUs, the loader and the timer, on Sched, Timer, CpuOrder and Cpu. A thread goes from one place to
-- the next in a step that reads or changes shared state once, under the lock of that state; a thread
-- that has to wait has no step. Messages are left out. `time_slot` is at least 1.
pub mod Owners
pub mod Moves
pub mod Handovers
pub mod Choices
pub mod Cores
pub mod Loads
pub mod Exclusive
pub mod Slices
pub mod Counters
pub mod Leaving
pub mod Stages
pub mod Starts
pub mod Turns
pub mod Ends
pub mod Places
pub mod Orders
pub mod Passing
pub mod Rounds
pub mod Admits
pub mod Ticks
pub mod Alone
pub mod Able
pub mod Alive
pub mod Scripts
mod Tests
use btl_hdh.Base.{
  ℕ, zero, suc, ◌+◌, ◌-◌, ◌%◌, ◌^◌, Bool, true, false, ◌&&◌, not, Option, none, some, ◌==◌, ltb,
  if◌then◌else◌, update,
}
use btl_hdh.Base.Chain.{Chain}
use btl_hdh.Base.Run.{Run, done, fault, ◌>>=◌}
use btl_hdh.Queue.{Ptr, null}
use btl_hdh.Mm.{Region, Mm}
use btl_hdh.Setup.{init_mm}
use btl_hdh.Sched.{Sched, Pcb, get_mlq_proc, put_mlq_proc, add_mlq_proc}
use btl_hdh.CpuOrder.{CpuOrder, is_turn, signal_next_cpu, mark_cpu_inactive}
use btl_hdh.Timer.{Timer, finish_slot, slot_is_over, detach_event}
use btl_hdh.Cpu.{CodeSeg, Proc, Krnl, Outside, run}

-- What `read_config` read, with the code of each process in place of its file.
pub record Config : Type 0 where
  pub time_slot : ℕ
  pub num_cpus : ℕ
  pub num_processes : ℕ
  pub code : ℕ → CodeSeg
  pub start_time : ℕ → ℕ
  pub prio : ℕ → ℕ

-- Where `cpu_routine` is: before `wait_cpu_turn`; at the look at the current process; before
-- `get_proc`, for the first time or in place of another process; at the second look; before `run`;
-- before `signal_next_cpu`, with a process that ran or none; in the two halves of `next_slot`; at the
-- two steps after the loop; and at the end.
pub data Place : Type 0 where
  waiting : Place
  picking : Place
  getting : Bool → Place
  rechecking : Place
  running : Place
  signalling : Bool → Place
  announcing : Place
  resting : Place
  stopping : Place
  detaching : Place
  stopped : Place

-- The local variables of `cpu_routine`.
pub record Core : Type 0 where
  pub proc : Ptr
  pub time_left : ℕ
  pub place : Place

-- Where `ld_routine` is. A Boolean says whether it comes from the loop that waits for the start time.
pub data LdPlace : Type 0 where
  first_turn : LdPlace
  first_signal : LdPlace
  loading : LdPlace
  until_start : LdPlace
  publishing : LdPlace
  ld_signalling : Bool → LdPlace
  ld_announcing : Bool → LdPlace
  ld_resting : Bool → LdPlace
  ld_turn : Bool → LdPlace
  finishing : LdPlace
  leaving : LdPlace
  ld_detaching : LdPlace
  ld_ended : LdPlace

-- The local variables of `ld_routine`.
pub record Loader : Type 0 where
  pub i : ℕ
  pub proc : Ptr
  pub place : LdPlace

-- `live` says which addresses hold a process that is not freed. The field `is_done` is `done`.
pub record Kernel : Type 0 where
  pub krnl : Krnl
  pub procs : Ptr → Proc
  pub live : Ptr → Bool
  pub sched : Sched
  pub timer : Timer
  pub cores : ℕ → Core
  pub loader : Loader
  pub is_done : Bool

-- What the loader takes from outside: the address of a new process, and what the `malloc`s of its
-- address space give.
pub record Loading : Type 0 where
  pub address : Ptr
  pub raw_mm : Mm
  pub alloc_vma : Bool
  pub alloc_pgd : Bool
  pub vm_freerg_list : Chain Region

abbrev pub set_core : Kernel → ℕ → Core → Kernel
set_core k id c = record k { cores = update k.cores id c }

abbrev pub with_order : Kernel → CpuOrder → Kernel
with_order k order = record k { timer = record k.timer { order = order } }

-- The checks of the current process at the top of the loop.
unfoldable pub pick : Kernel → ℕ → Core → Run Kernel
pick k id c =
    let proc = k.procs c.proc in
    if c.proc == null
    then done (set_core k id (record c { place = getting true }))
    else if not (k.live c.proc)
    then fault
    else if proc.pc == proc.code.size
    then done (
        set_core (record k { live = update k.live c.proc false }) id
          (record c { time_left = 0; place = getting false }))
    else if c.time_left == 0
    then done (
        set_core
          (record k { sched = put_mlq_proc k.sched (record { addr = c.proc; prio = proc.prio }) })
          id (record c { place = getting false }))
    else done (set_core k id (record c { place = rechecking }))

unfoldable pub recheck : Config → Kernel → ℕ → Core → Kernel
recheck cfg k id c =
    if (c.proc == null) && k.is_done
    then set_core (with_order k (mark_cpu_inactive k.timer.order id)) id
        (record c { place = stopping })
    else if c.proc == null
    then set_core k id (record c { place = signalling false })
    else set_core k id (record c {
      time_left = if c.time_left == 0 then cfg.time_slot else c.time_left;
      place = running;
    })

-- A step of the CPU `id`, whose variables are `c`, from a place; `none` where it waits or has ended.
unfoldable pub cpu_step_from : Config → Outside → Kernel → ℕ → Core → Place → Run (Option Kernel)
cpu_step_from cfg o k id c waiting = done (
    if is_turn k.timer.order (some id)
    then some (set_core k id (record c { place = picking }))
    else none)
cpu_step_from cfg o k id c picking = do k' ← pick k id c; done (some k')
cpu_step_from cfg o k id c (getting first) = elim (get_mlq_proc k.sched) [
  | none ↦ fault
  | some (proc, sched) ↦ done (
      some (
        set_core (record k { sched = sched }) id
          (record c {
            proc = proc;
            place = if first && (proc == null) then signalling false else rechecking;
          })))
]
cpu_step_from cfg o k id c rechecking = done (some (recheck cfg k id c))
cpu_step_from cfg o k id c running = if not (k.live c.proc) then fault else (do
  (stat, krnl, proc) ← run o k.krnl (k.procs c.proc)
  done (
      some (
        set_core (record k { krnl = krnl; procs = update k.procs c.proc proc }) id
          (record c { place = signalling true }))))
cpu_step_from cfg o k id c (signalling ran) = done (
    some (
      set_core (with_order k (signal_next_cpu k.timer.order (some id))) id (record c {
        time_left = if ran then c.time_left - 1 else c.time_left;
        place = announcing;
      })))
cpu_step_from cfg o k id c announcing = done (
    some (set_core (record k { timer = finish_slot k.timer id }) id (record c { place = resting })))
cpu_step_from cfg o k id c resting =
    done (
      if slot_is_over k.timer id then some (set_core k id (record c { place = waiting })) else none)
cpu_step_from cfg o k id c stopping = done (
    some (
      set_core (with_order k (signal_next_cpu k.timer.order (some id))) id
        (record c { place = detaching })))
cpu_step_from cfg o k id c detaching = done (
    some
      (set_core (record k { timer = detach_event k.timer id }) id (record c { place = stopped })))
cpu_step_from cfg o k id c stopped = done none

unfoldable pub cpu_step : Config → Outside → Kernel → ℕ → Run (Option Kernel)
cpu_step cfg o k id = cpu_step_from cfg o k id (k.cores id) ((k.cores id).place)

-- The fields that `load` sets.
unfoldable pub load : CodeSeg → Mm → Proc
load code raw_mm = record { code = code; pc = 0; prio = 0; mm = raw_mm }

abbrev pub ld_at : Kernel → LdPlace → Kernel
ld_at k place = record k { loader = record k.loader { place = place } }

-- From `init_mm` to `i++`.
unfoldable pub publish : Loading → Kernel → Kernel
publish l k =
    let proc = k.procs k.loader.proc in
    let mm = (init_mm l.alloc_vma l.alloc_pgd l.vm_freerg_list l.raw_mm).1 in
    record k {
      procs = update k.procs k.loader.proc (record proc { mm = mm });
      sched = add_mlq_proc k.sched (record { addr = k.loader.proc; prio = proc.prio });
      loader = record k.loader { i = k.loader.i + 1; place = ld_signalling false };
    }

-- A step of the loader from a place; its device has the number after those of the CPUs.
unfoldable pub ld_step_from : Config → Loading → Kernel → LdPlace → Option Kernel
ld_step_from cfg l k first_turn =
    if is_turn k.timer.order none then some (ld_at k first_signal) else none
ld_step_from cfg l k first_signal =
    some (ld_at (with_order k (signal_next_cpu k.timer.order none)) loading)
ld_step_from cfg l k loading =
    if ltb k.loader.i cfg.num_processes
    then some (record k {
      procs =
          update k.procs l.address
            (record (load (cfg.code k.loader.i) l.raw_mm) { prio = cfg.prio k.loader.i % 2 ^ 32 });
      live = update k.live l.address true;
      loader = record k.loader { proc = l.address; place = until_start };
    })
    else some (ld_at k finishing)
ld_step_from cfg l k until_start = some (
    ld_at k
      (if ltb k.timer.time (cfg.start_time k.loader.i) then ld_announcing true else publishing))
ld_step_from cfg l k publishing = some (publish l k)
ld_step_from cfg l k (ld_signalling again) = some (
    ld_at (with_order k (signal_next_cpu k.timer.order none))
      (if again then until_start else ld_announcing false))
ld_step_from cfg l k (ld_announcing again) =
    some (ld_at (record k { timer = finish_slot k.timer cfg.num_cpus }) (ld_resting again))
ld_step_from cfg l k (ld_resting again) =
    if slot_is_over k.timer cfg.num_cpus then some (ld_at k (ld_turn again)) else none
ld_step_from cfg l k (ld_turn again) =
    if is_turn k.timer.order none
    then some (ld_at k (if again then ld_signalling true else loading))
    else none
ld_step_from cfg l k finishing =
    some (ld_at (with_order k (signal_next_cpu k.timer.order none)) leaving)
ld_step_from cfg l k leaving = some (ld_at (record k { is_done = true }) ld_detaching)
ld_step_from cfg l k ld_detaching =
    some (ld_at (record k { timer = detach_event k.timer cfg.num_cpus }) ld_ended)
ld_step_from cfg l k ld_ended = none

unfoldable pub ld_step : Config → Loading → Kernel → Option Kernel
ld_step cfg l k = ld_step_from cfg l k k.loader.place
