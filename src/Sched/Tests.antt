-- ===== src/Sched/Tests.antt =====
-- A scheduler with three processes, and the theorems at that state.
use btl_hdh.Base.{
  ℕ, zero, suc, ◌-◌, ◌<◌, ◌≡◌, refl, some, [], ◌∷◌, arith, ◌==◌, if◌then◌else◌, window, has,
  remove_first,
}
use btl_hdh.Base.Int.{failure}
use btl_hdh.Queue.{Ptr, Queue, contents, enqueue, dequeue, shift, empty}
use btl_hdh.Sched.{
  max_prio, Sched, Pcb, queue_empty, first_ready, next_ready, init_scheduler, preempt, refill,
  account, get_mlq_proc, get_mlq_proc_fuel, add_mlq_proc, put_mlq_proc,
}
use btl_hdh.Sched.Stages.{Inv, Outcome}
use btl_hdh.Sched.Priority.{get_mlq_proc-Outcome, handed, handed-get_mlq_proc}
use btl_hdh.Sched.Moves.{appended, init_scheduler-Inv, put_mlq_proc-contents}
use btl_hdh.Sched.Rounds.{Turned, put_mlq_proc-get_mlq_proc}

abbrev no_process : Queue
no_process = record { proc = λ _. 0; size = 0 }

abbrev blank : Sched
blank = record {
  ready_queue = no_process;
  run_queue = no_process;
  running_list = no_process;
  mlq_ready_queue = λ _. no_process;
  slot = λ i. max_prio - i;
  curr_prio = 0;
  curr_slot = 0;
}

abbrev pcb : Ptr → ℕ → Pcb
pcb a p = record { addr = a; prio = p }

-- Processes 5 and 7 of priority 2, and process 9 of priority 130.
abbrev two_levels : Sched
two_levels = add_mlq_proc (add_mlq_proc (add_mlq_proc blank (pcb 5 2)) (pcb 7 2)) (pcb 9 130)

blank-Inv : Inv blank
unfolding window
blank-Inv = record { within = omega arith; slots = λ i lt. refl; no_null = λ i lt. tt }

two_levels-Inv : Inv two_levels
two_levels-Inv =
    let a = put_mlq_proc-contents blank (pcb 5 2) 0 blank-Inv (omega arith) (omega arith) in
    let b = put_mlq_proc-contents _ (pcb 7 2) 0 a.1 (omega arith) (omega arith) in
    (put_mlq_proc-contents _ (pcb 9 130) 0 b.1 (omega arith) (omega arith)).1

-- From priority 130 with slots left, the processes of priority 2 come first, in their order.
hands_out : handed (get_mlq_proc (record two_levels { curr_prio = 130; curr_slot = 4 })) ≡ some 5
unfolding get_mlq_proc get_mlq_proc_fuel preempt refill account first_ready next_ready dequeue empty
    add_mlq_proc enqueue shift
hands_out = refl

waits : queue_empty two_levels ≡ failure
unfolding queue_empty first_ready empty add_mlq_proc enqueue
waits = refl

get_mlq_proc-Outcome_example :
    Outcome two_levels (get_mlq_proc two_levels)
    × Outcome two_levels (get_mlq_proc_fuel (suc (suc 7)) two_levels)
get_mlq_proc-Outcome_example = get_mlq_proc-Outcome two_levels 7 two_levels-Inv

handed-get_mlq_proc_example :
    handed (get_mlq_proc (record two_levels { curr_prio = 130; curr_slot = 4 }))
    ≡ handed (get_mlq_proc two_levels)
handed-get_mlq_proc_example = handed-get_mlq_proc two_levels 130 4 two_levels-Inv (omega arith)

scheduler_starts :
    Inv (init_scheduler two_levels)
    × ((i : ℕ) → i < max_prio → contents ((init_scheduler two_levels).mlq_ready_queue i) ≡ [])
    × (contents (init_scheduler two_levels).running_list ≡ [])
unfolding add_mlq_proc
scheduler_starts = init_scheduler-Inv two_levels (omega arith)

put_mlq_proc-contents_example :
    let level = λ (t : Sched). contents (t.mlq_ready_queue 2) in
    let after = if 2 == 2 then appended (level two_levels) 11 else level two_levels in
    let running = contents two_levels.running_list in
    Inv (put_mlq_proc two_levels (pcb 11 2))
    × Inv (add_mlq_proc two_levels (pcb 11 2))
    × (level (put_mlq_proc two_levels (pcb 11 2)) ≡ after)
    × (level (add_mlq_proc two_levels (pcb 11 2)) ≡ after)
    × (contents (put_mlq_proc two_levels (pcb 11 2)).running_list
        ≡ (if has 11 running then remove_first 11 running else running))
    × ((add_mlq_proc two_levels (pcb 11 2)).running_list ≡ two_levels.running_list)
put_mlq_proc-contents_example =
    put_mlq_proc-contents two_levels (pcb 11 2) 2 two_levels-Inv (omega arith) (omega arith)

none_above : (j : ℕ) → j < 2 → contents (two_levels.mlq_ready_queue j) ≡ []
unfolding add_mlq_proc enqueue window
none_above zero lt = refl
none_above (suc zero) lt = refl
none_above (suc (suc j)) lt = absurd (omega arith)

at_two : contents (two_levels.mlq_ready_queue 2) ≡ 5 ∷ 7 ∷ []
unfolding add_mlq_proc enqueue window
at_two = refl

put_mlq_proc-get_mlq_proc_example :
    Turned two_levels 2 5 (7 ∷ []) (omega arith) none_above at_two (get_mlq_proc two_levels)
put_mlq_proc-get_mlq_proc_example =
    put_mlq_proc-get_mlq_proc two_levels 2 5 (7 ∷ []) (omega arith) none_above at_two two_levels-Inv
      (omega arith)
