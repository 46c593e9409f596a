-- ===== src/CpuOrder/Barrier.antt =====
-- The barrier at the end of a time slot.
use btl_hdh.Base.{
  ap₂, ℕ, zero, suc, ◌+◌, ◌≤◌, ◌≡◌, ap, Bool, true, false, leb, if◌then◌else◌, arith,
}
use btl_hdh.CpuOrder.{
  CpuOrder, reset_cpu_order, count_loop, count_active_participants, signal_scheduling_done,
}

-- The participants that are done, one after the other.
unfoldable after_done : ℕ → CpuOrder → CpuOrder
after_done zero s = s
after_done (suc n) s = signal_scheduling_done (after_done n s)

abbrev done_count : CpuOrder → ℕ → Bool → CpuOrder
done_count s n released = record s {
  scheduling_done_count = n;
  scheduling_barrier_released = released;
}

count_loop-pos : (cpu_active : ℕ → Bool) (n : ℕ) → 1 ≤ count_loop cpu_active n
unfolding count_loop
count_loop-pos cpu_active zero = omega arith
count_loop-pos cpu_active (suc n) = ground (arith, count_loop-pos cpu_active n)

release_step : (total n : ℕ) → (if leb total (n + 1) then true else leb total n) ≡ leb total (suc n)
release_step total n = ground arith

not_yet : (total : ℕ) → 1 ≤ total → false ≡ leb total 0
not_yet total h = ground arith

after_done-count :
    (s : CpuOrder) (n : ℕ)
    → after_done n (done_count s 0 false) ≡ done_count s n (leb (count_active_participants s) n)
unfolding after_done signal_scheduling_done count_active_participants
after_done-count s zero =
    ap (done_count s 0)
      (not_yet (count_loop s.cpu_active s.num_cpus) (count_loop-pos s.cpu_active s.num_cpus))
after_done-count s (suc n) = rw (after_done-count s n) (
    ap₂ (done_count s) {x = n + 1} {y = suc n} (omega arith)
      (release_step (count_loop s.cpu_active s.num_cpus) n))

-- After a reset the barrier opens exactly when as many participants are done as are active: one fewer
-- do not open it, and it stays open when more follow.
after_done-reset_cpu_order :
    (s : CpuOrder) (n : ℕ)
    → (after_done n (reset_cpu_order s)).scheduling_barrier_released
      ≡ leb (count_active_participants s) n
unfolding reset_cpu_order count_active_participants
after_done-reset_cpu_order s n =
    ap (λ r. r.scheduling_barrier_released)
      (after_done-count (record s { current_cpu_turn = (reset_cpu_order s).current_cpu_turn }) n)
