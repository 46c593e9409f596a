-- ===== src/Kernel/Ticks.antt =====
-- A step of the timer keeps the order of the turns.
use btl_hdh.Base.{
  List, has, Bool, ℕ, ◌+◌, ◌<◌, ◌≡◌, refl, sym, ap, ◌∙◌, subst, inl, inr, Bool, true, false, ◌||◌,
  Option, none, some, [], ◌∷◌, ◌==◌, Bool-cases, arith,
}
use btl_hdh.CpuOrder.{reset_cpu_order, find_active_below, find_highest_active_cpu}
use btl_hdh.Timer.Counts.{Counted, timer_step-Counted}
use btl_hdh.Timer.{
  Timer, checking, advancing, resetting, releasing, ended, step_from, timer_step, next_round,
}
use btl_hdh.Timer as Dev
use btl_hdh.Timer.Steps.{pending, Kept, passed, view, Inv}
use btl_hdh.Timer.Slots.{tick-Inv}
use btl_hdh.Kernel.{Core, LdPlace}
use btl_hdh.Kernel.Turns.{
  is_past, cpu_phase, ld_phase, is_resetting, Stands, find-Before, find-below, find-active,
}
use btl_hdh.Kernel.Ends.{past_slot, busy_past, Stands-advanced, Stands-reset}
use btl_hdh.Kernel.Orders.{phase_of, Known, InOrder}
use btl_hdh.Kernel.Passing.{timed_here}
use btl_hdh.Kernel.Admits.{timed_there}

further : (d x : ℕ) (rest : List ℕ) → has x rest ≡ true → has x (d ∷ rest) ≡ true
unfolding has
further d x rest h = ground (arith, h)

module _ (n : ℕ) (t : Timer) (cores : ℕ → Core) (ld : LdPlace) (slots : ℕ → ℕ) (thru : Bool)
    (v : InOrder n t cores ld slots thru) where
  abbrev AfterTick : Option Timer → Type 0
  AfterTick none = Unit
  AfterTick (some t') =
      (t'.timer_stop ≡ false) × Counted t'
      → Inv t' t'.place (phase_of n cores ld) slots
      → (thru' : Bool) × InOrder n t' cores ld slots thru'

  -- A step that leaves the order and the time alone, and does not stand at a reset.
  ticks :
      (t' : Timer)
      → t'.dev_list ≡ t.dev_list
      → t'.order ≡ t.order
      → t'.time ≡ t.time
      → is_resetting t.place ≡ false
      → is_resetting t'.place ≡ false
      → Known t'
      → (t'.timer_stop ≡ false) × Counted t'
      → Inv t' t'.place (phase_of n cores ld) slots
      → (thru' : Bool) × InOrder n t' cores ld slots thru'
  ticks t' devs order time was now known (runs, counted) timed = (
    thru,
    record {
      devs = devs ∙ v.devs;
      cpus = ap (λ o. o.num_cpus) order ∙ v.cpus;
      outside = v.outside;
      bound = λ j e. v.bound j (sym (ap (λ o. o.current_cpu_turn) order) ∙ e);
      timed = timed;
      known = known;
      runs = runs;
      counted = counted;
      small = v.small;
      holder = λ j e m. rw order (v.holder j (sym (ap (λ o. o.current_cpu_turn) order) ∙ e) m);
      ready = v.ready;
      fresh = λ r h. v.fresh r (h ∙ time);
      through = v.through;
      stands = λ x lt. rw (order, time, now) (let s = v.stands x lt in rw was at s);
    },
  )

  -- No slot ends under the loader's turn.
  not_past : (fsh event : ℕ) → t.place ≡ advancing fsh event → is_past ld ≡ false
  unfolding view
  not_past fsh event at = elim (Bool-cases (is_past ld)) [
    | inr e ↦ e
    | inl e ↦
        let k = timed_there n t cores ld slots thru v in
        let w : view t.place n ≡ passed = ap (λ p. view p n) at in
        let k' = subst (λ u. Kept t.time (t.events n) (slots n) u (ld_phase ld)) w k in
        absurd ((past_slot t.time (slots n) (t.events n) (ld_phase ld) k').0 (busy_past ld e))
  ]

  timed_at :
      (p : Dev.Place) (x : ℕ)
      → t.place ≡ p
      → x < n
      → Kept t.time (t.events x) (slots x) (view p x) (cpu_phase (cores x).place)
  timed_at p x at lt =
      subst (λ q. Kept t.time (t.events x) (slots x) (view q x) (cpu_phase (cores x).place)) at
        (timed_here n t cores ld slots thru x v lt)

  IsAt : Option ℕ → ℕ → Bool → Bool → Type 0
  IsAt turn x unset past =
      Stands x turn (t.order.cpu_active x) t.time (slots x) unset past (cores x).place

  advances :
      (fsh event : ℕ)
      → t.place ≡ advancing fsh event
      → AfterTick (some (record t { time = t.time + 1; place = resetting fsh event }))
  unfolding view pending has
  advances fsh event at (runs, counted) timed =
      let off = not_past fsh event at in
      let unset : is_resetting t.place ≡ false = ap is_resetting at in
      (
        false,
        record {
          runs = runs;
          counted = counted;
          known = λ d h. cc;
          small = v.small;
          holder = v.holder;
          ready = λ h. refl;
          fresh = λ r h. refl;
          through = λ h. sym off ∙ h;
          devs = v.devs;
          cpus = v.cpus;
          outside = v.outside;
          bound = v.bound;
          timed = timed;
          stands = λ x lt.
              let s = v.stands x lt in
              let s' = rw unset at s in
              Stands-advanced x t.order.current_cpu_turn (t.order.cpu_active x) t.time (slots x)
                (t.events x) thru (cores x).place (timed_at (advancing fsh event) x at lt) s';
        },
      )

  resets :
      (fsh event : ℕ)
      → t.place ≡ resetting fsh event
      → AfterTick (
          some
            (record t { order = reset_cpu_order t.order; place = releasing t.dev_list fsh event }))
  unfolding view pending reset_cpu_order find_highest_active_cpu
  resets fsh event at (runs, counted) timed =
      let unset : is_resetting t.place ≡ true = ap is_resetting at in
      let count = v.cpus in
      (
        thru,
        record {
          runs = runs;
          counted = counted;
          known = λ d h. h;
          small = v.small;
          holder = λ j e m. find-active t.order.cpu_active t.order.num_cpus j e;
          ready = v.ready;
          fresh = v.fresh;
          through = v.through;
          devs = v.devs;
          cpus = v.cpus;
          outside = v.outside;
          bound = λ j e.
              let below = find-below t.order.cpu_active t.order.num_cpus j e in
              omega (arith, below, count);
          timed = timed;
          stands = λ x lt.
              let s = v.stands x lt in
              let s' = rw unset at s in
              Stands-reset x t.order.current_cpu_turn
                (find_active_below t.order.cpu_active t.order.num_cpus) (t.order.cpu_active x)
                t.time (slots x) (t.events x) thru (cores x).place
                (λ a.
                  find-Before t.order.cpu_active t.order.num_cpus x a (omega (arith, lt, count)))
                (timed_at (resetting fsh event) x at lt) s';
        },
      )

  step_from-AfterTick : (place : Dev.Place) → t.place ≡ place → AfterTick (step_from t place)
  unfolding step_from next_round pending has
  step_from-AfterTick (checking [] fsh event) at =
      ticks _ refl refl refl (ap is_resetting at) refl (λ d h. cc)
  step_from-AfterTick (checking (d ∷ rest) fsh event) at =
      elim (Bool-cases ((t.events d).done || (t.events d).fsh)) [
        | inl e ↦
            rw (e, step_from)
              (ticks _ refl refl refl (ap is_resetting at) refl
                (λ x h. v.known x (ap (λ p. has x (pending p)) at ∙ further d x rest h)))
        | inr e ↦ rw (e, step_from) tt
      ]
  step_from-AfterTick (advancing fsh event) at = advances fsh event at
  step_from-AfterTick (resetting fsh event) at = resets fsh event at
  step_from-AfterTick (releasing (d ∷ rest) fsh event) at =
      ticks _ refl refl refl (ap is_resetting at) refl
        (λ x h. v.known x (ap (λ p. has x (pending p)) at ∙ further d x rest h))
  step_from-AfterTick (releasing [] fsh event) at = elim (Bool-cases (fsh == event)) [
    | inl e ↦ rw (e, step_from) (ticks _ refl refl refl (ap is_resetting at) refl (λ d h. cc))
    | inr e ↦ elim (Bool-cases t.timer_stop) [
      | inl f ↦ rw (e, f, step_from) (ticks _ refl refl refl (ap is_resetting at) refl (λ d h. cc))
      | inr f ↦ rw (e, f, step_from) (ticks _ refl refl refl (ap is_resetting at) refl (λ d h. h))
    ]
  ]
  step_from-AfterTick ended at = tt

  pub timer_step-InOrder :
      (t' : Timer) → timer_step t ≡ some t' → (thru' : Bool) × InOrder n t' cores ld slots thru'
  unfolding timer_step
  timer_step-InOrder t' e =
      subst AfterTick e (step_from-AfterTick t.place refl)
        (timer_step-Counted t t' v.runs v.counted e)
        (tick-Inv (record { timer = t; phase = phase_of n cores ld; slots = slots }) t' e v.timed)
