-- ===== src/Boot/Start.antt =====
-- What `main` sets up is what the threads start from.
use btl_hdh.Base.{
  ℕ, zero, suc, ◌+◌, ◌<◌, ◌≡◌, refl, sym, ap, subst, ◌∙◌, false, [], ◌==◌, arith, has, Bool-cases,
  inl, inr,
}
use btl_hdh.Config.{Config, rounds_of}
use btl_hdh.Memphy.{Memphy, Raw}
use btl_hdh.Sched.Moves.{init_scheduler-Inv}
use btl_hdh.CpuOrder.{before, init_cpu_order}
use btl_hdh.Timer.{Timer, start_timer, next_round, attach_event}
use btl_hdh.Timer.Devices.{devices, has-devices, devices-Distinct}
use btl_hdh.Kernel.{Kernel}
use btl_hdh.Kernel.Exclusive.{IsStart}
use btl_hdh.Kernel.Alone.{IsBooted}
use btl_hdh.Boot.{attach, attach_loop, boot_timer, boot}

-- The timer with the first `i` devices, before it is started.
record Attaching (t : Timer) (i : ℕ) : Type 0 where
  listed : t.dev_list ≡ devices i
  fresh : (d : ℕ) → d < i → ((t.events d).done ≡ false) × ((t.events d).fsh ≡ false)
  waits : t.timer_started ≡ false
  time : t.time ≡ 0
  runs : t.timer_stop ≡ false

attach-Attaching : (t : Timer) (i : ℕ) → Attaching t i → Attaching (attach t i) (suc i)
unfolding attach attach_event devices
attach-Attaching t i v =
    rw (v.waits, attach_event)
      (record {
        listed = rw v.listed refl;
        fresh = λ d lt. elim (Bool-cases (i == d)) [
          | inl e ↦ rw e (refl, refl)
          | inr e ↦ rw e (v.fresh d (ground arith))
        ];
        waits = refl;
        time = v.time;
        runs = v.runs;
      })

attach_loop-Attaching :
    (rounds i : ℕ) (t : Timer) → Attaching t i → Attaching (attach_loop i rounds t) (i + rounds)
unfolding attach_loop
attach_loop-Attaching zero i t v = subst (Attaching t) (omega arith) v
attach_loop-Attaching (suc rounds) i t v =
    subst (Attaching (attach_loop (suc i) rounds (attach t i))) (omega arith)
      (attach_loop-Attaching rounds (suc i) (attach t i) (attach-Attaching t i v))

-- The static variables of the program before `main`, of which C says that they are 0.
pub record IsZeroed (k : Kernel) : Type 0 where
  pub dev_list : k.timer.dev_list ≡ []
  pub timer_started : k.timer.timer_started ≡ false
  pub timer_stop : k.timer.timer_stop ≡ false
  pub time : k.timer.time ≡ 0
  pub curr_prio : k.sched.curr_prio ≡ 0
  pub is_done : k.is_done ≡ false
  pub live : (p : ℕ) → k.live p ≡ false

boot_timer-IsBooted :
    (n : ℕ) (t : Timer)
    → t.dev_list ≡ []
    → t.timer_started ≡ false
    → t.time ≡ 0
    → t.timer_stop ≡ false
    → IsBooted n (boot_timer n t)
unfolding boot_timer
boot_timer-IsBooted n t none_yet waits zero_time not_stopped =
    let before_any : Attaching t 0 = record {
      listed = none_yet ∙ unfold devices in refl;
      fresh = λ d lt. absurd (omega arith);
      waits = waits;
      time = zero_time;
      runs = not_stopped;
    } in
    let cpus = attach_loop-Attaching n 0 t before_any in
    let at : 0 + n ≡ n = omega arith in
    let all =
      attach-Attaching (attach_loop 0 n t) n (subst (Attaching (attach_loop 0 n t)) at cpus) in
    let t' = attach (attach_loop 0 n t) n in
    record {
      attached = record t' { order = init_cpu_order t'.order n };
      started = refl;
      devices_known = all.listed;
      at_work = record {
        listed = rw all.listed (devices-Distinct (suc n));
        time = all.time;
        events = λ d h.
            all.fresh d (ground (arith, sym (ap (has d) all.listed) ∙ h, has-devices (suc n) d));
      };
      runs = all.runs;
      order = t'.order;
      ordered = refl;
    }

-- From static variables that are 0, `main` sets up what the threads start from: queues that are empty and
-- in order, CPUs and a loader without a process, none of them alive, and a started timer at time 0 whose
-- devices, told apart and none of them done, are the loader and the CPUs, with the turn at the last CPU.
pub boot-IsStart :
    (raw : Raw) (garbage : Memphy) (c : Config) (k : Kernel)
    → IsZeroed k
    → let k' = boot raw garbage c k in
      let n = rounds_of c.num_cpus in
      IsStart k'
      × IsBooted n k'.timer
      × (k'.timer.order.current_cpu_turn ≡ before n)
      × (k'.loader.i ≡ 0)
      × (k'.is_done ≡ false)
      × ((p : ℕ) → k'.live p ≡ false)
unfolding boot
boot-IsStart raw garbage c k z =
    let (inv, empties, running) = init_scheduler-Inv k.sched (rw z.curr_prio (omega arith)) in
    (
      record { inv = inv; queues = empties; cpus = λ id. (refl, refl); loader = refl },
      boot_timer-IsBooted (rounds_of c.num_cpus) k.timer z.dev_list z.timer_started z.time
          z.timer_stop,
      unfold boot_timer start_timer next_round init_cpu_order in refl,
      refl,
      z.is_done,
      z.live,
    )
