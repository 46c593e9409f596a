-- ===== src/Kernel/Starts.antt =====
-- The start times: the loader hands every process to the scheduler, none of them early, and the CPUs
-- stop only after that.
use btl_hdh.Base.{
  ℕ, ◌<◌, ◌≤◌, ◌≡◌, refl, ap, sym, ◌∙◌, subst, inl, inr, true, false, Option, none, some, ◌==◌, ltb,
  Bool-cases, arith,
}
use btl_hdh.Base.Run.{done}
use btl_hdh.CpuOrder.{is_turn}
use btl_hdh.Timer.{Timer, timer_step, finish_slot, detach_event, slot_is_over}
use btl_hdh.Cpu.{Outside}
use btl_hdh.Kernel.{
  Config, LdPlace, first_turn, first_signal, loading, until_start, publishing, ld_signalling,
  ld_announcing, ld_resting, ld_turn, finishing, leaving, ld_detaching, ld_ended, Kernel, Loading,
  Loader, cpu_step, publish, ld_step_from, ld_step,
}
use btl_hdh.Kernel.Exclusive.{Reached, at_start, cpu_goes, loader_goes, timer_goes, IsStart}
use btl_hdh.Kernel.Leaving.{has_left, ByCpu, cpu_step_from-ByCpu}
use btl_hdh.Kernel.Stages.{stage, AtStage, at_most, later, Passed, timer_step-Passed, IsStarted}

abbrev AfterLd : Config → Option Kernel → Type 0
AfterLd cfg none = Unit
AfterLd cfg (some k) = IsStarted cfg k

module _ (cfg : Config) (l : Loading) (k : Kernel) (v : IsStarted cfg k) where
  -- A step that publishes nothing and does not set `done`.
  goes :
      (ld : Loader)
      → ld.i ≡ k.loader.i
      → AtStage cfg k.timer.time k.loader.i (stage ld.place)
      → IsStarted cfg (record k { loader = ld })
  goes ld same h = (
    record {
      here = rw same h;
      begun = λ j lt. v.0.begun j (let lt' = lt in omega (arith, same, lt'));
      over = λ d. same ∙ v.0.over d;
    },
    v.1,
  )

  is_here :
      (place : LdPlace) → k.loader.place ≡ place → AtStage cfg k.timer.time k.loader.i (stage place)
  is_here place at = subst (λ p. AtStage cfg k.timer.time k.loader.i (stage p)) at v.0.here

  publish-IsStarted : k.loader.place ≡ publishing → IsStarted cfg (publish l k)
  unfolding publish
  publish-IsStarted at =
      let (lt, due_at) = is_here publishing at in
      (
        record {
          here = omega (arith, lt);
          begun = λ j before. elim (Bool-cases (j == k.loader.i)) [
            | inl e ↦
                let same : j ≡ k.loader.i = ground (arith, e) in
                subst (λ x. cfg.start_time x ≤ k.timer.time) (sym same) due_at
            | inr e ↦ v.0.begun j (ground (arith, e, before))
          ];
          over = λ d. absurd (let all = v.0.over d in omega (arith, all, lt));
        },
        v.1,
      )

  ld_step_from-IsStarted :
      (place : LdPlace) → k.loader.place ≡ place → AfterLd cfg (ld_step_from cfg l k place)
  unfolding ld_step_from finish_slot detach_event
  ld_step_from-IsStarted first_turn at = elim (Bool-cases (is_turn k.timer.order none)) [
    | inl e ↦ rw (e, ld_step_from) (goes _ refl (is_here first_turn at))
    | inr e ↦ rw (e, ld_step_from) tt
  ]
  ld_step_from-IsStarted first_signal at = goes _ refl (is_here first_signal at)
  ld_step_from-IsStarted loading at = elim (Bool-cases (ltb k.loader.i cfg.num_processes)) [
    | inl e ↦ rw (e, ld_step_from) (goes _ refl (ground (arith, e)))
    | inr e ↦
        let h = is_here loading at in rw (e, ld_step_from) (goes _ refl (ground (arith, e, h)))
  ]
  ld_step_from-IsStarted until_start at =
      elim (Bool-cases (ltb k.timer.time (cfg.start_time k.loader.i))) [
        | inl e ↦ rw (e, ld_step_from) (goes _ refl (is_here until_start at))
        | inr e ↦ rw (e, ld_step_from) (goes _ refl (is_here until_start at, ground (arith, e)))
      ]
  ld_step_from-IsStarted publishing at = publish-IsStarted at
  ld_step_from-IsStarted (ld_signalling true) at = goes _ refl (is_here (ld_signalling true) at)
  ld_step_from-IsStarted (ld_signalling false) at = goes _ refl (is_here (ld_signalling false) at)
  ld_step_from-IsStarted (ld_announcing true) at = goes _ refl (is_here (ld_announcing true) at)
  ld_step_from-IsStarted (ld_announcing false) at = goes _ refl (is_here (ld_announcing false) at)
  ld_step_from-IsStarted (ld_resting true) at =
      elim (Bool-cases (slot_is_over k.timer cfg.num_cpus)) [
        | inl e ↦ rw (e, ld_step_from) (goes _ refl (is_here (ld_resting true) at))
        | inr e ↦ rw (e, ld_step_from) tt
      ]
  ld_step_from-IsStarted (ld_resting false) at =
      elim (Bool-cases (slot_is_over k.timer cfg.num_cpus)) [
        | inl e ↦ rw (e, ld_step_from) (goes _ refl (is_here (ld_resting false) at))
        | inr e ↦ rw (e, ld_step_from) tt
      ]
  ld_step_from-IsStarted (ld_turn true) at = elim (Bool-cases (is_turn k.timer.order none)) [
    | inl e ↦ rw (e, ld_step_from) (goes _ refl (is_here (ld_turn true) at))
    | inr e ↦ rw (e, ld_step_from) tt
  ]
  ld_step_from-IsStarted (ld_turn false) at = elim (Bool-cases (is_turn k.timer.order none)) [
    | inl e ↦ rw (e, ld_step_from) (goes _ refl (is_here (ld_turn false) at))
    | inr e ↦ rw (e, ld_step_from) tt
  ]
  ld_step_from-IsStarted finishing at = goes _ refl (is_here finishing at)
  ld_step_from-IsStarted leaving at = (
    record { here = is_here leaving at; begun = v.0.begun; over = λ d. is_here leaving at },
    λ id h. refl,
  )
  ld_step_from-IsStarted ld_detaching at = goes _ refl (is_here ld_detaching at)
  ld_step_from-IsStarted ld_ended at = tt

  ld_step-IsStarted : (k' : Kernel) → ld_step cfg l k ≡ some k' → IsStarted cfg k'
  unfolding ld_step
  ld_step-IsStarted k' e = subst (AfterLd cfg) e (ld_step_from-IsStarted k.loader.place refl)

cpu_step-IsStarted :
    (cfg : Config) (o : Outside) (k k' : Kernel) (id : ℕ)
    → IsStarted cfg k
    → cpu_step cfg o k id ≡ done (some k')
    → IsStarted cfg k'
unfolding cpu_step
cpu_step-IsStarted cfg o k k' id v e =
    let (time, ld, over, left) =
      subst (ByCpu k) e (cpu_step_from-ByCpu k id v.1 cfg o (k.cores id).place refl) in
    rw (time, ld, over) (v.0, left)

timer_goes-IsStarted :
    (cfg : Config) (k : Kernel) (t : Timer)
    → IsStarted cfg k
    → timer_step k.timer ≡ some t
    → IsStarted cfg (record k { timer = t })
timer_goes-IsStarted cfg k t v e =
    let le = subst (Passed k.timer.time) e (timer_step-Passed k.timer) in
    (later cfg k.timer.time t.time k.loader k.is_done le v.0, v.1)

Reached-IsStarted :
    (cfg : Config) (start k : Kernel) → IsStarted cfg start → Reached cfg start k → IsStarted cfg k
Reached-IsStarted cfg start _ v at_start = v
Reached-IsStarted cfg start _ v (cpu_goes {k = k} {k' = k'} o id r e) =
    cpu_step-IsStarted cfg o k k' id (Reached-IsStarted cfg start k v r) e
Reached-IsStarted cfg start _ v (loader_goes {k = k} {k' = k'} l r fresh e) =
    ld_step-IsStarted cfg l k (Reached-IsStarted cfg start k v r) k' e
Reached-IsStarted cfg start _ v (timer_goes {k = k} {t = t} r e) =
    timer_goes-IsStarted cfg k t (Reached-IsStarted cfg start k v r) e

start-IsStarted :
    (cfg : Config) (k : Kernel) → IsStart k → k.loader.i ≡ 0 → k.is_done ≡ false → IsStarted cfg k
start-IsStarted cfg k s zero_i not_done = (
  record {
    here = rw (s.loader, zero_i) (omega arith);
    begun = λ j lt. absurd (omega (arith, lt, zero_i));
    over = λ d. absurd (let bad : true ≡ false = sym d ∙ not_done in cc);
  },
  λ id h. absurd (
      let inside : has_left (k.cores id).place ≡ false = ap has_left (s.cpus id).1 in
      let bad : true ≡ false = sym h ∙ inside in cc),
)

-- In every state that the threads reach from the start, where the loader has published no process and
-- `done` is false: the loader has published at most the processes of the configuration, each of them at its
-- start time or later, and where a CPU has left its loop it has published all of them.
pub Reached-starts :
    (cfg : Config) (start k : Kernel)
    → IsStart start
    → start.loader.i ≡ 0
    → start.is_done ≡ false
    → Reached cfg start k
    → (k.loader.i ≤ cfg.num_processes)
      × ((j : ℕ) → j < k.loader.i → cfg.start_time j ≤ k.timer.time)
      × ((id : ℕ) → has_left (k.cores id).place ≡ true → k.loader.i ≡ cfg.num_processes)
Reached-starts cfg start k s zero_i not_done r =
    let (started, leaves) =
      Reached-IsStarted cfg start k (start-IsStarted cfg start s zero_i not_done) r in
    (
      at_most cfg k.timer.time k.loader.i (stage k.loader.place) started.here,
      started.begun,
      λ id h. started.over (leaves id h),
    )
