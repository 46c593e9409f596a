-- ===== src/Sched.antt =====
-- src/sched.c and include/sched.h with MLQ_SCHED, as include/os-cfg.h sets it: one ready queue for
-- each of 140 priorities, the static variables of `get_mlq_proc` among the state. Each function
-- runs under `queue_lock`, so its calls are transitions of one state; `get_mlq_proc` lets go of the lock
-- before it calls itself after a refill, and both calls are one transition here.
pub mod Scan
pub mod Stages
pub mod Serve
pub mod Moves
pub mod Priority
pub mod Rounds
mod Tests
use btl_hdh.Base.{
  ℕ, zero, suc, ◌+◌, ◌-◌, ◌%◌, Bool, ◌&&◌, not, Option, none, some, ◌==◌, if◌then◌else◌, update,
}
use btl_hdh.Base.Int.{ℤ, pos, failure}
use btl_hdh.Queue.{Ptr, null, Queue, empty, enqueue, dequeue, purgequeue}

abbrev pub max_prio : ℕ
max_prio = 140

-- The static variables of the file, and those of `get_mlq_proc`.
pub record Sched : Type 0 where
  pub ready_queue : Queue
  pub run_queue : Queue
  pub running_list : Queue
  pub mlq_ready_queue : ℕ → Queue
  pub slot : ℕ → ℕ
  pub curr_prio : ℕ
  pub curr_slot : ℕ

-- The fields of a process control block that the scheduler reads: where it is, and `prio`.
pub record Pcb : Type 0 where
  pub addr : Ptr
  pub prio : ℕ

-- The first priority from `i` on whose queue is not empty.
unfoldable pub first_ready : (ℕ → Queue) → ℕ → ℕ → Option ℕ
first_ready mlq i zero = none
first_ready mlq i (suc rounds) =
    let rest = first_ready mlq (suc i) rounds in if not (empty (mlq i)) then some i else rest

unfoldable pub queue_empty : Sched → ℤ
queue_empty s = elim (first_ready s.mlq_ready_queue 0 max_prio) [
  | some _ ↦ failure
  | none ↦ if empty s.ready_queue && empty s.run_queue then pos 1 else pos 0
]

-- The loop of `init_scheduler` over the priorities.
unfoldable pub init_levels : ℕ → ℕ → Sched → Sched
init_levels i zero s = s
init_levels i (suc rounds) s = init_levels (suc i) rounds (record s {
  mlq_ready_queue = update s.mlq_ready_queue i (record (s.mlq_ready_queue i) { size = 0 });
  slot = update s.slot i (max_prio - i);
})

unfoldable pub init_scheduler : Sched → Sched
init_scheduler s =
    let t = init_levels 0 max_prio s in
    record t {
      ready_queue = record t.ready_queue { size = 0 };
      run_queue = record t.run_queue { size = 0 };
      running_list = record t.running_list { size = 0 };
    }

-- The first loop of `get_mlq_proc`: a waiting process of a higher priority takes over.
unfoldable pub preempt : Sched → Sched
preempt s = elim (first_ready s.mlq_ready_queue 0 s.curr_prio) [
  | some i ↦ record s { curr_prio = i; curr_slot = 0 }
  | none ↦ s
]

-- Its second loop: the first non-empty queue from `curr_prio` on, round the end of the table.
unfoldable pub next_ready : (ℕ → Queue) → ℕ → ℕ → ℕ → Option ℕ
next_ready mlq prio i zero = none
next_ready mlq prio i (suc rounds) =
    let check_prio = (prio + i) % max_prio in
    let rest = next_ready mlq prio (suc i) rounds in
    if not (empty (mlq check_prio)) then some check_prio else rest

-- The block under `curr_slot == 0`; `none` where all queues are empty.
unfoldable pub refill : Sched → Option Sched
refill s =
    if s.curr_slot == 0
    then (elim (next_ready s.mlq_ready_queue s.curr_prio 0 max_prio) [
      | some p ↦ some (record s { curr_prio = p; curr_slot = s.slot p })
      | none ↦ none
    ])
    else some s

-- From `curr_slot--` on, for a process that was dequeued.
unfoldable pub account : Sched → Ptr → Sched
account s proc =
    let left = s.curr_slot - 1 in
    record s {
      curr_slot = left;
      running_list = enqueue s.running_list proc;
      curr_prio = if left == 0 then (s.curr_prio + 1) % max_prio else s.curr_prio;
    }

-- The queue at `curr_prio` after `dequeue`.
abbrev pub served : Sched → Sched
served s = record s {
  mlq_ready_queue =
      update s.mlq_ready_queue s.curr_prio (dequeue (s.mlq_ready_queue s.curr_prio)).1;
}

-- `get_mlq_proc` on fuel, which counts its calls of itself; `none` when that runs out.
unfoldable pub get_mlq_proc_fuel : ℕ → Sched → Option (Ptr × Sched)
get_mlq_proc_fuel zero s = none
get_mlq_proc_fuel (suc fuel) s = elim (refill (preempt s)) [
  | none ↦ some (null, preempt s)
  | some t ↦
      let proc = (dequeue (t.mlq_ready_queue t.curr_prio)).0 in
      let again = get_mlq_proc_fuel fuel (record (served t) { curr_slot = 0 }) in
      if proc == null then again else some (proc, account (served t) proc)
]

-- Two calls are always enough.
unfoldable pub get_mlq_proc : Sched → Option (Ptr × Sched)
get_mlq_proc s = get_mlq_proc_fuel 2 s

unfoldable pub add_mlq_proc : Sched → Pcb → Sched
add_mlq_proc s proc = record s {
  mlq_ready_queue =
      update s.mlq_ready_queue proc.prio (enqueue (s.mlq_ready_queue proc.prio) proc.addr);
}

unfoldable pub put_mlq_proc : Sched → Pcb → Sched
put_mlq_proc s proc = record s {
  running_list = (purgequeue s.running_list proc.addr).1;
  mlq_ready_queue =
      update s.mlq_ready_queue proc.prio (enqueue (s.mlq_ready_queue proc.prio) proc.addr);
}
