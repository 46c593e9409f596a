-- ===== src/Kernel/Stages.antt =====
-- How far the loader is with the processes of the configuration, while the time goes on.
use btl_hdh.Base.{
  ℕ, ◌<◌, ◌≤◌, ◌≡◌, inl, inr, Bool, true, false, Option, none, some, ◌==◌, Bool-cases, arith, [],
  ◌∷◌, ◌||◌,
}
use btl_hdh.Timer.{
  Timer, checking, advancing, resetting, releasing, ended, step_from, timer_step, next_round,
  finish_slot, detach_event, slot_is_over,
}
use btl_hdh.Timer as Dev
use btl_hdh.Kernel.{
  Config, LdPlace, first_turn, first_signal, loading, until_start, publishing, ld_signalling,
  ld_announcing, ld_resting, ld_turn, finishing, leaving, ld_detaching, ld_ended, Kernel, Loader,
}
use btl_hdh.Kernel.Leaving.{Leaves}

-- How far the loader is: between two processes, with a process, with one whose start time has come,
-- or past the last one.
pub data Stage : Type 0 where
  between : Stage
  holding : Stage
  due : Stage
  at_end : Stage

abbrev pub stage : LdPlace → Stage
stage first_turn = between
stage first_signal = between
stage loading = between
stage until_start = holding
stage publishing = due
stage (ld_signalling true) = holding
stage (ld_signalling false) = between
stage (ld_announcing true) = holding
stage (ld_announcing false) = between
stage (ld_resting true) = holding
stage (ld_resting false) = between
stage (ld_turn true) = holding
stage (ld_turn false) = between
stage finishing = at_end
stage leaving = at_end
stage ld_detaching = at_end
stage ld_ended = at_end

abbrev pub AtStage : Config → ℕ → ℕ → Stage → Type 0
AtStage cfg time i between = i ≤ cfg.num_processes
AtStage cfg time i holding = i < cfg.num_processes
AtStage cfg time i due = (i < cfg.num_processes) × (cfg.start_time i ≤ time)
AtStage cfg time i at_end = i ≡ cfg.num_processes

-- The processes before `i` have been published, and `done` is set only after the last one.
pub record Started (cfg : Config) (time : ℕ) (ld : Loader) (is_done : Bool) : Type 0 where
  pub here : AtStage cfg time ld.i (stage ld.place)
  pub begun : (j : ℕ) → j < ld.i → cfg.start_time j ≤ time
  pub over : is_done ≡ true → ld.i ≡ cfg.num_processes

pub at_most :
    (cfg : Config) (time i : ℕ) (at : Stage) → AtStage cfg time i at → i ≤ cfg.num_processes
at_most cfg time i between h = h
at_most cfg time i holding h = omega (arith, h)
at_most cfg time i due h = omega (arith, h.0)
at_most cfg time i at_end h = omega (arith, h)

later_stage :
    (cfg : Config) (time time' i : ℕ) (at : Stage)
    → time ≤ time'
    → AtStage cfg time i at
    → AtStage cfg time' i at
later_stage cfg time time' i between le h = h
later_stage cfg time time' i holding le h = h
later_stage cfg time time' i due le h = (let due_at = h.1 in (h.0, omega (arith, due_at, le)))
later_stage cfg time time' i at_end le h = h

pub later :
    (cfg : Config) (time time' : ℕ) (ld : Loader) (is_done : Bool)
    → time ≤ time'
    → Started cfg time ld is_done
    → Started cfg time' ld is_done
later cfg time time' ld is_done le v = record {
  here = later_stage cfg time time' ld.i (stage ld.place) le v.here;
  begun = λ j lt. (let b = v.begun j lt in omega (arith, b, le));
  over = v.over;
}

abbrev pub Passed : ℕ → Option Timer → Type 0
Passed time none = Unit
Passed time (some t) = time ≤ t.time

module _ (t : Timer) where
  step_from-Passed : (place : Dev.Place) → Passed t.time (step_from t place)
  unfolding step_from next_round
  step_from-Passed (checking [] fsh event) = omega arith
  step_from-Passed (checking (d ∷ rest) fsh event) =
      elim (Bool-cases ((t.events d).done || (t.events d).fsh)) [
        | inl e ↦ rw (e, step_from) (omega arith)
        | inr e ↦ rw (e, step_from) tt
      ]
  step_from-Passed (advancing fsh event) = omega arith
  step_from-Passed (resetting fsh event) = omega arith
  step_from-Passed (releasing (d ∷ rest) fsh event) = omega arith
  step_from-Passed (releasing [] fsh event) = elim (Bool-cases (fsh == event)) [
    | inl e ↦ rw (e, step_from) (omega arith)
    | inr e ↦ rw (e, step_from) (omega arith)
  ]
  step_from-Passed ended = tt

  pub timer_step-Passed : Passed t.time (timer_step t)
  unfolding timer_step
  timer_step-Passed = step_from-Passed t.place

abbrev pub IsStarted : Config → Kernel → Type 0
IsStarted cfg k = Started cfg k.timer.time k.loader k.is_done × Leaves k.is_done k.cores
