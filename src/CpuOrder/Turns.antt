-- ===== src/CpuOrder/Turns.antt =====
-- The turns of a time slot.
use btl_hdh.Base.{
  ℕ, zero, suc, ◌≤◌, ◌≡◌, refl, ap, Bool, false, Option, none, some, List, [], ◌∷◌, ◌++◌, map,
  length, if◌then◌else◌, arith, inl, inr, Bool-cases, lt→ltb,
}
use btl_hdh.CpuOrder.{
  CpuOrder, find_active_below, find_next_active_cpu, find_highest_active_cpu, signal_next_cpu,
  reset_cpu_order, count_loop, count_active_participants,
}

-- Who has the turn, for a number of turns, where each signals the next one when it is done.
unfoldable pub turns : ℕ → CpuOrder → List (Option ℕ)
turns zero s = []
turns (suc n) s = s.current_cpu_turn ∷ turns n (signal_next_cpu s s.current_cpu_turn)

-- The active CPUs before `n`, from the highest to the lowest.
unfoldable pub active_below : (ℕ → Bool) → ℕ → List ℕ
active_below cpu_active zero = []
active_below cpu_active (suc i) =
    if cpu_active i then i ∷ active_below cpu_active i else active_below cpu_active i

abbrev pub at_turn : CpuOrder → Option ℕ → CpuOrder
at_turn s turn = record s { current_cpu_turn = turn }

-- After CPU `i` comes the highest active one before it.
pub signal_next_cpu-some :
    (s : CpuOrder) (turn : Option ℕ) (i : ℕ)
    → signal_next_cpu (at_turn s turn) (some i) ≡ at_turn s (find_active_below s.cpu_active i)
unfolding signal_next_cpu find_active_below find_next_active_cpu
signal_next_cpu-some s turn zero = refl
signal_next_cpu-some s turn (suc i) = refl

turns-from :
    (s : CpuOrder) (n : ℕ)
    → turns
        (suc (length (active_below s.cpu_active n)))
        (at_turn s (find_active_below s.cpu_active n))
      ≡ map some (active_below s.cpu_active n) ++ none ∷ []
unfolding turns active_below find_active_below
turns-from s zero = refl
turns-from s (suc n) = elim (Bool-cases (s.cpu_active n)) [
  | inl e ↦ simp (e, signal_next_cpu-some s (some n) n) (ap (◌∷◌ (some n)) (turns-from s n))
  | inr e ↦ simp e (turns-from s n)
]

count_loop-length :
    (cpu_active : ℕ → Bool) (n : ℕ)
    → n ≤ 64
    → count_loop cpu_active n ≡ suc (length (active_below cpu_active n))
unfolding count_loop active_below
count_loop-length cpu_active zero h = refl
count_loop-length cpu_active (suc n) h = elim (Bool-cases (cpu_active n)) [
  | inl e ↦
      rw (lt→ltb n 64 (omega arith), e)
        (omega (arith, count_loop-length cpu_active n (omega arith)))
  | inr e ↦ rw (lt→ltb n 64 (omega arith), e) (count_loop-length cpu_active n (omega arith))
]

-- With at most 64 CPUs, after the loader has signalled or the order is reset, each active CPU has the
-- turn once, from the highest to the lowest, and then the loader: as many turns as there are active
-- participants.
pub turns_lem :
    (s : CpuOrder)
    → s.num_cpus ≤ 64
    → let order = map some (active_below s.cpu_active s.num_cpus) ++ none ∷ [] in
      (turns (count_active_participants s) (signal_next_cpu s none) ≡ order)
      × (turns (count_active_participants s) (reset_cpu_order s) ≡ order)
unfolding count_active_participants signal_next_cpu reset_cpu_order find_highest_active_cpu
turns_lem s h =
    let fresh = record s { scheduling_done_count = 0; scheduling_barrier_released = false } in
    (
      rw (count_loop-length s.cpu_active s.num_cpus h) (turns-from s s.num_cpus),
      rw (count_loop-length s.cpu_active s.num_cpus h) (turns-from fresh s.num_cpus),
    )
