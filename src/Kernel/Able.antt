-- ===== src/Kernel/Able.antt =====
-- When a CPU or the loader has a step.
use btl_hdh.Base.{
  ℕ, ◌+◌, ◌≡◌, refl, ◌≢◌, inl, inr, ◌⊎◌, Bool, true, false, Option, none, some, ltb, Bool-cases,
  Option-cases, arith, ==_refl, update,
}
use btl_hdh.Base.Run.{Run, done, fault, ◌>>=◌}
use btl_hdh.Base.Int.{ℤ}
use btl_hdh.Sched.{get_mlq_proc}
use btl_hdh.CpuOrder.{CpuOrder, is_turn}
use btl_hdh.Timer.{Event, slot_is_over}
use btl_hdh.Timer.Steps.{
  Phase, busy, gone, View, late, within, Kept, works, waits_passed, behind, let_go, left,
}
use btl_hdh.Timer.Steps as Steps
use btl_hdh.Cpu.{Proc, Krnl, Outside, run}
use btl_hdh.Kernel.{
  Config, Place, waiting, picking, getting, rechecking, running, signalling, announcing, resting,
  stopping, detaching, stopped, Kernel, Loading, LdPlace, first_turn, first_signal, loading,
  until_start, publishing, ld_signalling, ld_announcing, ld_resting, ld_turn, finishing, leaving,
  ld_detaching, ld_ended, pick, cpu_step_from, ld_step_from, set_core,
}
use btl_hdh.Kernel.Turns.{ld_waits, ld_phase, cpu_phase}

-- A CPU makes a step, or what it does is undefined behaviour.
abbrev pub has_step : Run (Option Kernel) → Bool
has_step (done none) = false
has_step (done (some k)) = true
has_step fault = true

-- The loader or the timer makes a step.
abbrev pub has_next : {A : Type 0} → Option A → Bool
has_next none = false
has_next (some a) = true

pub is_turn_of : (o : CpuOrder) (id : ℕ) → o.current_cpu_turn ≡ some id → is_turn o (some id) ≡ true
unfolding is_turn
is_turn_of o id e = rw e (==_refl id)

pick-has_step : (r : Run Kernel) → has_step (r >>= λ k'. done (some k')) ≡ true
pick-has_step (done k) = refl
pick-has_step fault = refl

module _ (k : Kernel) (id : ℕ) where
  run-has_step :
      (r : Run (ℤ × Krnl × Proc)) (next : ℤ × Krnl × Proc → Kernel)
      → has_step (r >>= λ a. done (some (next a))) ≡ true
  run-has_step (done a) next = refl
  run-has_step fault next = refl

  -- A CPU waits only for its turn or for the slot.
  pub cpu_step_from-has_step :
      (cfg : Config) (o : Outside) (place : Place)
      → (place ≡ waiting → is_turn k.timer.order (some id) ≡ true)
      → (place ≡ resting → slot_is_over k.timer id ≡ true)
      → place ≢ stopped
      → has_step (cpu_step_from cfg o k id (k.cores id) place) ≡ true
  unfolding cpu_step_from
  cpu_step_from-has_step cfg o waiting w r s = (let turn = w refl in rw turn refl)
  cpu_step_from-has_step cfg o picking w r s = pick-has_step (pick k id (k.cores id))
  cpu_step_from-has_step cfg o (getting first) w r s = elim (Option-cases (get_mlq_proc k.sched)) [
    | inl e ↦ rw (e, cpu_step_from) refl
    | inr ((proc, sched), e) ↦ rw (e, cpu_step_from) refl
  ]
  cpu_step_from-has_step cfg o rechecking w r s = refl
  cpu_step_from-has_step cfg o running w r s = elim (Bool-cases (k.live (k.cores id).proc)) [
    | inl e ↦
        rw (e, cpu_step_from)
          (run-has_step (run o k.krnl (k.procs (k.cores id).proc)) (λ (stat, krnl, proc).
            set_core (record k { krnl = krnl; procs = update k.procs (k.cores id).proc proc }) id
              (record (k.cores id) { place = signalling true })))
    | inr e ↦ rw (e, cpu_step_from) refl
  ]
  cpu_step_from-has_step cfg o (signalling ran) w r s = refl
  cpu_step_from-has_step cfg o announcing w r s = refl
  cpu_step_from-has_step cfg o resting w r s = (let over = r refl in rw over refl)
  cpu_step_from-has_step cfg o stopping w r s = refl
  cpu_step_from-has_step cfg o detaching w r s = refl
  cpu_step_from-has_step cfg o stopped w r s = absurd (s refl)

  -- So does the loader.
  pub ld_step_from-has_step :
      (cfg : Config) (l : Loading) (place : LdPlace)
      → (ld_waits place ≡ true → is_turn k.timer.order none ≡ true)
      → (ld_phase place ≡ Steps.Phase.resting → slot_is_over k.timer cfg.num_cpus ≡ true)
      → ld_phase place ≢ gone
      → has_next (ld_step_from cfg l k place) ≡ true
  unfolding ld_step_from
  ld_step_from-has_step cfg l first_turn w r s = (let turn = w refl in rw turn refl)
  ld_step_from-has_step cfg l first_signal w r s = refl
  ld_step_from-has_step cfg l loading w r s = elim (Bool-cases (ltb k.loader.i cfg.num_processes)) [
    | inl e ↦ rw (e, ld_step_from) refl
    | inr e ↦ rw (e, ld_step_from) refl
  ]
  ld_step_from-has_step cfg l until_start w r s = refl
  ld_step_from-has_step cfg l publishing w r s = refl
  ld_step_from-has_step cfg l (ld_signalling again) w r s = refl
  ld_step_from-has_step cfg l (ld_announcing again) w r s = refl
  ld_step_from-has_step cfg l (ld_resting again) w r s = (let over = r refl in rw over refl)
  ld_step_from-has_step cfg l (ld_turn again) w r s = (let turn = w refl in rw turn refl)
  ld_step_from-has_step cfg l finishing w r s = refl
  ld_step_from-has_step cfg l leaving w r s = refl
  ld_step_from-has_step cfg l ld_detaching w r s = refl
  ld_step_from-has_step cfg l ld_ended w r s = absurd (s refl)

pub waiting_cases : (p : Place) → (p ≡ waiting) ⊎ (p ≢ waiting)
waiting_cases waiting = inl refl
waiting_cases picking = inr (λ e. cc)
waiting_cases (getting first) = inr (λ e. cc)
waiting_cases rechecking = inr (λ e. cc)
waiting_cases running = inr (λ e. cc)
waiting_cases (signalling ran) = inr (λ e. cc)
waiting_cases announcing = inr (λ e. cc)
waiting_cases resting = inr (λ e. cc)
waiting_cases stopping = inr (λ e. cc)
waiting_cases detaching = inr (λ e. cc)
waiting_cases stopped = inr (λ e. cc)

-- A device that waits for a slot that has begun is let go, unless the timer has yet to come to it.
pub resting_over :
    (time slots : ℕ) (event : Event) (w : View) (phase : Phase)
    → phase ≡ Steps.Phase.resting
    → slots + 1 ≡ time
    → w ≢ late
    → Kept time event slots w phase
    → event.done ≡ false
resting_over time slots event _ _ e at early (works d fsh same) = cc
resting_over time slots event _ _ e at early (Steps.waits d fsh same) =
    absurd (omega (arith, at, same))
resting_over time slots event _ _ e at early (waits_passed d fsh same) =
    absurd (omega (arith, at, same))
resting_over time slots event _ _ e at early (behind d fsh same) = absurd (early refl)
resting_over time slots event _ _ e at early (let_go d fsh same) = d
resting_over time slots event _ _ e at early (left fsh) = cc

-- A device for which the timer waits is not gone.
pub awaited :
    (time slots : ℕ) (event : Event) (w : View) (phase : Phase)
    → event.fsh ≡ false
    → Kept time event slots w phase
    → phase ≢ gone
awaited time slots event _ _ e (works d fsh same) = λ p. cc
awaited time slots event _ _ e (Steps.waits d fsh same) = λ p. cc
awaited time slots event _ _ e (waits_passed d fsh same) = λ p. cc
awaited time slots event _ _ e (behind d fsh same) = λ p. cc
awaited time slots event _ _ e (let_go d fsh same) = λ p. cc
awaited time slots event _ _ e (left fsh) = λ p. cc

-- A device that has left is gone.
pub left_gone :
    (time slots : ℕ) (event : Event) (w : View) (phase : Phase)
    → event.fsh ≡ true
    → Kept time event slots w phase
    → phase ≡ gone
left_gone time slots event _ _ e (works d fsh same) = cc
left_gone time slots event _ _ e (Steps.waits d fsh same) = cc
left_gone time slots event _ _ e (waits_passed d fsh same) = cc
left_gone time slots event _ _ e (behind d fsh same) = cc
left_gone time slots event _ _ e (let_go d fsh same) = cc
left_gone time slots event _ _ e (left fsh) = refl

pub gone_stopped : (p : Place) → cpu_phase p ≡ gone → p ≡ stopped
gone_stopped waiting e = cc
gone_stopped picking e = cc
gone_stopped (getting first) e = cc
gone_stopped rechecking e = cc
gone_stopped running e = cc
gone_stopped (signalling ran) e = cc
gone_stopped announcing e = cc
gone_stopped resting e = cc
gone_stopped stopping e = cc
gone_stopped detaching e = cc
gone_stopped stopped e = refl

pub gone_ended : (p : LdPlace) → ld_phase p ≡ gone → p ≡ ld_ended
gone_ended first_turn e = cc
gone_ended first_signal e = cc
gone_ended loading e = cc
gone_ended until_start e = cc
gone_ended publishing e = cc
gone_ended (ld_signalling again) e = cc
gone_ended (ld_announcing again) e = cc
gone_ended (ld_resting again) e = cc
gone_ended (ld_turn again) e = cc
gone_ended finishing e = cc
gone_ended leaving e = cc
gone_ended ld_detaching e = cc
gone_ended ld_ended e = refl
