-- ===== src/Kernel/Alive.antt =====
-- No deadlock: until every thread has ended some thread has a step.
use btl_hdh.Base.{
  ℕ, suc, ◌+◌, ◌<◌, ◌≤◌, ◌≡◌, refl, sym, ap, ◌∙◌, subst, ◌≢◌, inl, inr, ◌⊎◌, Bool, true, false,
  ◌||◌, Option, none, some, ◌==◌, ltb, List, [], ◌∷◌, Bool-cases, Option-cases, arith, has,
}
use btl_hdh.CpuOrder.{CpuOrder, is_turn}
use btl_hdh.Timer.{
  Event, Timer, checking, advancing, resetting, releasing, ended, timer_step, step_from,
  slot_is_over,
}
use btl_hdh.Timer as Dev
use btl_hdh.Timer.Counts.{CountedAt}
use btl_hdh.Timer.Devices.{has-devices}
use btl_hdh.Timer.Steps.{late, pending, view}
use btl_hdh.Cpu.{Outside}
use btl_hdh.Kernel.{
  ld_ended, Config, Place, waiting, resting, stopped, Kernel, Loading, cpu_step, ld_step,
}
use btl_hdh.Kernel.Exclusive.{Reached, IsStart}
use btl_hdh.Kernel.Turns.{
  in_turn, cpu_phase, ld_waits, Before, Stands, waits, has_turn, announces, rests, renewed,
  detaches, has_stopped,
}
use btl_hdh.Kernel.Orders.{InOrder}
use btl_hdh.Kernel.Places.{at_wait}
use btl_hdh.Kernel.Alone.{IsBooted, run-Sound}
use btl_hdh.Kernel.Passing.{listed_cpu, timed_here}
use btl_hdh.Kernel.Admits.{listed_loader, timed_there}
use btl_hdh.Kernel.Able.{
  left_gone, gone_stopped, gone_ended, has_step, has_next, is_turn_of, cpu_step_from-has_step,
  ld_step_from-has_step, waiting_cases, resting_over, awaited,
}

-- A thread that has a step: the timer, the loader or a CPU.
pub data CanStep (cfg : Config) (k : Kernel) : Type 0 where
  timer_moves : has_next (timer_step k.timer) ≡ true → CanStep cfg k
  loader_moves : ((l : Loading) → has_next (ld_step cfg l k) ≡ true) → CanStep cfg k
  cpu_moves :
      (id : ℕ)
      → id < cfg.num_cpus
      → ((o : Outside) → has_step (cpu_step cfg o k id) ≡ true)
      → CanStep cfg k

-- Every thread has ended: the timer's, that of the loader, and those of the CPUs.
pub record HaveEnded (cfg : Config) (k : Kernel) : Type 0 where
  pub timer : k.timer.place ≡ ended
  pub cpus : (id : ℕ) → id < cfg.num_cpus → (k.cores id).place ≡ stopped
  pub loader : k.loader.place ≡ ld_ended

module _ {id : ℕ} {turn : Option ℕ} {active : Bool} {time slots : ℕ} {unset past : Bool} where
  -- A CPU whose turn comes in the slot that has begun.
  comes_next :
      {p : Place}
      → p ≡ resting
      → past ≡ false
      → turn ≡ some id
      → Stands id turn active time slots unset past p
      → slots + 1 ≡ time
  comes_next e off at (waits a h b) = cc
  comes_next e off at (has_turn u a b h t) = absurd (let bad = ap in_turn (sym e) ∙ u in cc bad)
  comes_next e off at (announces a o) = cc
  comes_next e off at (rests a o s) = absurd (let bad = o off id at in omega (arith, bad))
  comes_next e off at (renewed a h s b) = s
  comes_next e off at (detaches a) = cc
  comes_next e off at (has_stopped a) = cc

  at_end :
      {p : Place} → p ≡ stopped → Stands id turn active time slots unset past p → active ≡ false
  at_end e (waits a h b) = cc
  at_end e (has_turn u a b h t) = absurd (let bad = ap in_turn (sym e) ∙ u in cc bad)
  at_end e (announces a o) = cc
  at_end e (rests a o s) = cc
  at_end e (renewed a h s b) = cc
  at_end e (detaches a) = a
  at_end e (has_stopped a) = a

  turn_to_come :
      {p : Place} → p ≡ waiting → Stands id turn active time slots unset past p → Before id turn
  turn_to_come e (waits a h b) = b
  turn_to_come e (has_turn u a b h t) = absurd (let bad = ap in_turn (sym e) ∙ u in cc bad)
  turn_to_come e (announces a o) = cc
  turn_to_come e (rests a o s) = cc
  turn_to_come e (renewed a h s b) = cc
  turn_to_come e (detaches a) = cc
  turn_to_come e (has_stopped a) = cc

turn_of_some : (o : CpuOrder) → is_turn o none ≡ false → (j : ℕ) × (o.current_cpu_turn ≡ some j)
unfolding is_turn
turn_of_some o h = elim (Option-cases o.current_cpu_turn) [
  | inl e ↦ absurd (let bad : true ≡ false = rw e at h in cc bad)
  | inr r ↦ r
]

-- At the first loop of the timer no device is left behind.
early : (rest : List ℕ) (fsh event d : ℕ) → view (checking rest fsh event) d ≢ late
unfolding view
early rest fsh event d e = elim (Bool-cases (has d rest)) [
  | inl h ↦ (let bad = rw h at e in cc bad)
  | inr h ↦ (let bad = rw h at e in cc bad)
]

module _ (cfg : Config) (k : Kernel) (slots : ℕ → ℕ) (thru : Bool)
    (v : InOrder cfg.num_cpus k.timer k.cores k.loader.place slots thru) where
  -- The CPU that has the turn makes a step.
  holder_moves :
      (j : ℕ)
      → k.timer.order.current_cpu_turn ≡ some j
      → thru ≡ false
      → view k.timer.place j ≢ late
      → CanStep cfg k
  unfolding cpu_step slot_is_over
  holder_moves j at off now =
      let lt = v.bound j at in
      let s = v.stands j lt in
      let kept = timed_here cfg.num_cpus k.timer k.cores k.loader.place slots thru j v lt in
      cpu_moves j lt (λ o.
        cpu_step_from-has_step k j cfg o (k.cores j).place (λ w. is_turn_of k.timer.order j at)
          (λ r.
            let let_go =
              resting_over k.timer.time (slots j) (k.timer.events j) (view k.timer.place j) _
                (ap cpu_phase r) (comes_next r off at s) now kept in
            ground (arith, let_go))
          (λ e.
            let on = v.holder j at (λ p. (let bad = sym e ∙ p in cc bad)) in
            let bad = sym on ∙ at_end e s in cc bad))

  -- A CPU for which the timer waits, or the one that has the turn, makes a step.
  cpu_awaited :
      (d : ℕ)
      → d < cfg.num_cpus
      → (k.timer.events d).done ≡ false
      → (k.timer.events d).fsh ≡ false
      → ((j : ℕ) → view k.timer.place j ≢ late)
      → CanStep cfg k
  unfolding cpu_step slot_is_over
  cpu_awaited d lt not_done not_gone now =
      let s = v.stands d lt in
      let kept = timed_here cfg.num_cpus k.timer k.cores k.loader.place slots thru d v lt in
      elim (waiting_cases (k.cores d).place) [
        | inl w ↦
            let (j, at, le) = turn_to_come w s in
            let (active, off) = at_wait w s in holder_moves j at off (now j)
        | inr ne ↦ cpu_moves d lt (λ o.
            cpu_step_from-has_step k d cfg o (k.cores d).place (λ w. absurd (ne w))
              (λ r. ground (arith, not_done))
              (λ e.
                awaited k.timer.time (slots d) (k.timer.events d) (view k.timer.place d) _ not_gone
                  kept (ap cpu_phase e)))
      ]

  loader_awaited :
      (k.timer.events cfg.num_cpus).done ≡ false
      → (k.timer.events cfg.num_cpus).fsh ≡ false
      → ((j : ℕ) → view k.timer.place j ≢ late)
      → CanStep cfg k
  unfolding ld_step slot_is_over
  loader_awaited not_done not_gone now =
      let n = cfg.num_cpus in
      let kept = timed_there n k.timer k.cores k.loader.place slots thru v in
      let goes : (ld_waits k.loader.place ≡ true → is_turn k.timer.order none ≡ true)
          → (l : Loading) → has_next (ld_step cfg l k) ≡ true =
        λ h l.
          ld_step_from-has_step k 0 cfg l k.loader.place h (λ r. ground (arith, not_done))
            (awaited k.timer.time (slots n) (k.timer.events n) (view k.timer.place n) _ not_gone
              kept) in
      elim (Bool-cases (ld_waits k.loader.place)) [
        | inr w ↦ loader_moves (goes (λ h. absurd (let bad = sym h ∙ w in cc bad)))
        | inl w ↦ elim (Bool-cases (is_turn k.timer.order none)) [
          | inl turn ↦ loader_moves (goes (λ h. turn))
          | inr other ↦
              let (j, at) = turn_of_some k.timer.order other in
              holder_moves j at (v.ready w) (now j)
        ]
      ]

  -- At a device for which the timer waits.
  device_awaited :
      (d : ℕ) (rest : List ℕ) (fsh event : ℕ)
      → k.timer.place ≡ checking (d ∷ rest) fsh event
      → (k.timer.events d).done ≡ false
      → (k.timer.events d).fsh ≡ false
      → CanStep cfg k
  unfolding pending has
  device_awaited d rest fsh event at not_done not_gone =
      let n = cfg.num_cpus in
      let now : (j : ℕ) → view k.timer.place j ≢ late =
        λ j e. early (d ∷ rest) fsh event j (ap (λ p. view p j) (sym at) ∙ e) in
      let first : has d (d ∷ rest) ≡ true = ground arith in
      let listed : has d k.timer.dev_list ≡ true =
        v.known d (ap (λ p. has d (pending p)) at ∙ first) in
      let small : ltb d (suc n) ≡ true = sym (ap (has d) v.devs ∙ has-devices (suc n) d) ∙ listed in
      elim (Bool-cases (d == n)) [
        | inl e ↦
            let same : d ≡ n = ground (arith, e) in
            loader_awaited (subst (λ x. (k.timer.events x).done ≡ false) same not_done)
              (subst (λ x. (k.timer.events x).fsh ≡ false) same not_gone) now
        | inr e ↦ cpu_awaited d (ground (arith, small, e)) not_done not_gone now
      ]

  -- A device that has left is gone, and its thread has ended.
  all_ended : k.timer.place ≡ ended → HaveEnded cfg k
  all_ended at =
      let n = cfg.num_cpus in
      let left : (d : ℕ) → has d k.timer.dev_list ≡ true → (k.timer.events d).fsh ≡ true =
        subst (λ p. CountedAt p k.timer.dev_list k.timer.events) at v.counted in
      record {
        timer = at;
        cpus = λ id lt. gone_stopped (k.cores id).place (
            left_gone k.timer.time (slots id) (k.timer.events id) (view k.timer.place id) _
              (left id (listed_cpu n k.timer k.cores k.loader.place slots thru id v lt))
              (timed_here n k.timer k.cores k.loader.place slots thru id v lt));
        loader = gone_ended k.loader.place (
            left_gone k.timer.time (slots n) (k.timer.events n) (view k.timer.place n) _
              (left n (listed_loader n k.timer k.cores k.loader.place slots thru v))
              (timed_there n k.timer k.cores k.loader.place slots thru v));
      }

  timer_waits : (place : Dev.Place) → k.timer.place ≡ place → HaveEnded cfg k ⊎ CanStep cfg k
  unfolding timer_step step_from
  timer_waits (checking [] fsh event) at = inr (timer_moves (rw at refl))
  timer_waits (checking (d ∷ rest) fsh event) at =
      elim (Bool-cases ((k.timer.events d).done || (k.timer.events d).fsh)) [
        | inl e ↦ inr (timer_moves (rw (at, e) refl))
        | inr e ↦ inr (device_awaited d rest fsh event at (ground (arith, e)) (ground (arith, e)))
      ]
  timer_waits (advancing fsh event) at = inr (timer_moves (rw at refl))
  timer_waits (resetting fsh event) at = inr (timer_moves (rw at refl))
  timer_waits (releasing (d ∷ rest) fsh event) at = inr (timer_moves (rw at refl))
  timer_waits (releasing [] fsh event) at = inr (timer_moves (rw at refl))
  timer_waits ended at = inl (all_ended at)

  pub InOrder-CanStep : HaveEnded cfg k ⊎ CanStep cfg k
  InOrder-CanStep = timer_waits k.timer.place refl

pub Reached-CanStep :
    (cfg : Config) (start k : Kernel)
    → cfg.num_cpus ≤ 64
    → IsStart start
    → IsBooted cfg.num_cpus start.timer
    → Reached cfg start k
    → HaveEnded cfg k ⊎ CanStep cfg k
Reached-CanStep cfg start k le s b r =
    (let (slots, thru, v) = run-Sound cfg start k le s b r in InOrder-CanStep cfg k slots thru v)
