-- ===== src/CpuOrder.antt =====
-- src/timer.c, the order in which the CPUs and the loader take their turns in a time slot, and the
-- barrier at its end. Every function holds the lock of what it changes, so it is one step; a thread
-- that waits goes on when its condition holds. The loader, -1 in the code, is `none`. There are at
-- most 64 CPUs, the size of the table.
pub mod Turns
pub mod Barrier
mod Tests
use btl_hdh.Base.{
  ℕ, zero, suc, ◌+◌, ◌-◌, Bool, true, false, ◌&&◌, ◌||◌, Option, none, some, ◌==◌, ltb, leb,
  if◌then◌else◌, update,
}

-- The variables of the file.
pub record CpuOrder : Type 0 where
  pub num_cpus : ℕ
  pub cpu_active : ℕ → Bool
  pub current_cpu_turn : Option ℕ
  pub scheduling_done_count : ℕ
  pub scheduling_barrier_released : Bool

-- The CPU `n - 1`, or -1.
abbrev pub before : ℕ → Option ℕ
before zero = none
before (suc n) = some n

unfoldable pub init_cpu_order : CpuOrder → ℕ → CpuOrder
init_cpu_order s num_cpus = record s {
  num_cpus = num_cpus;
  current_cpu_turn = before num_cpus;
  cpu_active = λ i. if ltb i num_cpus && ltb i 64 then true else s.cpu_active i;
}

-- The loops that look for an active CPU downwards, from the one before `n` on.
unfoldable pub find_active_below : (ℕ → Bool) → ℕ → Option ℕ
find_active_below cpu_active zero = none
find_active_below cpu_active (suc i) =
    if cpu_active i then some i else find_active_below cpu_active i

unfoldable pub find_next_active_cpu : CpuOrder → ℕ → Option ℕ
find_next_active_cpu s from = find_active_below s.cpu_active (suc from)

unfoldable pub find_highest_active_cpu : CpuOrder → Option ℕ
find_highest_active_cpu s = find_active_below s.cpu_active s.num_cpus

-- The condition on which `wait_cpu_turn` goes on.
unfoldable pub is_turn : CpuOrder → Option ℕ → Bool
is_turn s none = elim s.current_cpu_turn [ none ↦ true | some c ↦ false ]
is_turn s (some cpu_id) = elim s.current_cpu_turn [ none ↦ false | some c ↦ c == cpu_id ]

unfoldable pub mark_cpu_inactive : CpuOrder → ℕ → CpuOrder
mark_cpu_inactive s cpu_id =
    if ltb cpu_id 64 then record s { cpu_active = update s.cpu_active cpu_id false } else s

unfoldable pub signal_next_cpu : CpuOrder → Option ℕ → CpuOrder
signal_next_cpu s none = record s { current_cpu_turn = find_highest_active_cpu s }
signal_next_cpu s (some zero) = record s { current_cpu_turn = none }
signal_next_cpu s (some (suc cpu)) = record s { current_cpu_turn = find_next_active_cpu s cpu }

unfoldable pub reset_cpu_order : CpuOrder → CpuOrder
reset_cpu_order s = record s {
  current_cpu_turn = find_highest_active_cpu s;
  scheduling_done_count = 0;
  scheduling_barrier_released = false;
}

-- The loop of `count_active_participants`, with `i` rounds done.
unfoldable pub count_loop : (ℕ → Bool) → ℕ → ℕ
count_loop cpu_active zero = 1
count_loop cpu_active (suc i) =
    if ltb i 64 && cpu_active i then count_loop cpu_active i + 1 else count_loop cpu_active i

unfoldable pub count_active_participants : CpuOrder → ℕ
count_active_participants s = count_loop s.cpu_active s.num_cpus

unfoldable pub signal_scheduling_done : CpuOrder → CpuOrder
signal_scheduling_done s = record s {
  scheduling_done_count = s.scheduling_done_count + 1;
  scheduling_barrier_released =
      if leb (count_active_participants s) (s.scheduling_done_count + 1)
      then true
      else s.scheduling_barrier_released;
}
