-- ===== src/CpuOrder/Tests.antt =====
-- Four CPUs, one of which has stopped, and the theorems at them.
use btl_hdh.Base.{◌≡◌, refl, true, false, some, none, [], ◌∷◌, ◌++◌, map, update, arith}
use btl_hdh.CpuOrder.{
  CpuOrder, init_cpu_order, mark_cpu_inactive, signal_next_cpu, find_active_below,
  find_next_active_cpu, find_highest_active_cpu, reset_cpu_order, count_active_participants,
}
use btl_hdh.CpuOrder.Turns.{turns, active_below, turns_lem}

abbrev unset : CpuOrder
unset = record {
  num_cpus = 0;
  cpu_active = λ _. false;
  current_cpu_turn = none;
  scheduling_done_count = 0;
  scheduling_barrier_released = false;
}

abbrev three : CpuOrder
three = record unset { num_cpus = 4; cpu_active = update (λ _. true) 2 false }

starts_with :
    turns 5 (mark_cpu_inactive (init_cpu_order unset 4) 2)
    ≡ some 3 ∷ some 1 ∷ some 0 ∷ none ∷ some 3 ∷ []
unfolding turns mark_cpu_inactive init_cpu_order signal_next_cpu find_next_active_cpu
    find_highest_active_cpu find_active_below
starts_with = refl

turns_lem_example :
    let order = map some (active_below three.cpu_active 4) ++ none ∷ [] in
    (turns (count_active_participants three) (signal_next_cpu three none) ≡ order)
    × (turns (count_active_participants three) (reset_cpu_order three) ≡ order)
turns_lem_example = turns_lem three (omega arith)
