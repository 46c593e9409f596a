-- ===== src/Kernel/Passing.antt =====
-- Each step of a CPU keeps the order of the turns.
use btl_hdh.Base.{
  Bool, ℕ, suc, ◌+◌, ◌<◌, ◌≡◌, refl, sym, ap, ◌∙◌, subst, ◌≢◌, true, false, Option, some, ◌==◌, ltb,
  inl, inr, Bool-cases, arith, update, fun_ext, ==_refl, has, lt→ltb,
}
use btl_hdh.CpuOrder.{find_active_below, signal_next_cpu, mark_cpu_inactive}
use btl_hdh.CpuOrder.Turns.{signal_next_cpu-some}
use btl_hdh.Timer.Counts.{finish_slot-left, detach_event-left}
use btl_hdh.Timer.{Timer, finish_slot, slot_is_over, detach_event}
use btl_hdh.Timer.Devices.{has-devices}
use btl_hdh.Timer.Steps.{
  Phase, busy, gone, View, within, late, Kept, view, Inv, World, rest_of, resume_of, leave_of,
}
use btl_hdh.Timer.Steps as Steps
use btl_hdh.Timer.Slots.{rest_of-Inv, resume_of-Inv, leave_of-Inv}
use btl_hdh.Kernel.{
  detaching, waiting, rechecking, announcing, resting, stopping, stopped, Core, LdPlace,
}
use btl_hdh.Kernel.Turns.{
  in_turn, cpu_phase, is_resetting, Stands, has_turn, rests, has_stopped, find-below, find-active,
  Over, Stands-passes,
}
use btl_hdh.Kernel.Orders.{phase_of, StandsAt, InOrder, phase_of-update, still_held, moved, orders}
use btl_hdh.Kernel.Places.{
  at_turn, at_wait, at_announcing, at_detaching, let_go_only, busy_slots, set_when_within, resumes,
}

module _ (n : ℕ) (t : Timer) (cores : ℕ → Core) (ld : LdPlace) (slots : ℕ → ℕ) (thru : Bool)
    (id : ℕ) (v : InOrder n t cores ld slots thru) (lt : id < n) where
  still :
      (c : Core)
      → (cores id).place ≢ stopping
      → (j : ℕ) → t.order.current_cpu_turn ≡ some j
      → (update cores id c j).place ≢ stopping
      → t.order.cpu_active j ≡ true
  still c ne = still_held n t cores ld slots thru id v lt c ne

  -- Into the turn.
  pub enters :
      (c : Core)
      → (cores id).place ≡ waiting
      → in_turn c.place ≡ true
      → t.order.current_cpu_turn ≡ some id
      → c.place ≢ stopping
      → cpu_phase c.place ≡ busy
      → InOrder n t (update cores id c) ld slots thru
  enters c at turns e apart is_busy =
      let (active, past) = at_wait at (v.stands id lt) in
      orders n t cores ld slots thru id v lt t.order c refl v.bound
        (still c (λ p. (let bad = sym at ∙ p in cc bad))) (ap cpu_phase at ∙ sym is_busy)
        (has_turn turns (λ ne. active) (λ p. absurd (apart p)) past e) (λ x off s. s)

  -- From one place of the turn to another.
  pub goes_on :
      (c : Core)
      → in_turn (cores id).place ≡ true
      → (cores id).place ≢ stopping
      → in_turn c.place ≡ true
      → c.place ≢ stopping
      → cpu_phase (cores id).place ≡ cpu_phase c.place
      → InOrder n t (update cores id c) ld slots thru
  goes_on c was ne turns apart same =
      let (active, idle, past, e) = at_turn was (v.stands id lt) in
      orders n t cores ld slots thru id v lt t.order c refl v.bound (still c ne) same
        (has_turn turns (λ m. active ne) (λ p. absurd (apart p)) past e) (λ x off s. s)

  -- Out of the loop, no longer active.
  pub gives_up :
      (c : Core)
      → (cores id).place ≡ rechecking
      → c.place ≡ stopping
      → InOrder n
          (record t { order = mark_cpu_inactive t.order id })
          (update cores id c)
          ld
          slots
          thru
  unfolding mark_cpu_inactive
  gives_up c at to =
      let (active, idle, past, e) = at_turn (ap in_turn at) (v.stands id lt) in
      let same = ap cpu_phase at ∙ sym (ap cpu_phase to) in
      let few = v.small in
      let fits : ltb id 64 ≡ true = ground (arith, lt, few) in
      rw fits (
        orders n t cores ld slots thru id v lt
          (record t.order { cpu_active = update t.order.cpu_active id false }) c refl v.bound
          (λ j f m. elim (Bool-cases (id == j)) [
            | inr off ↦ rw off (v.holder j f (λ p. m (rw off p)))
            | inl on ↦ absurd (m (rw on to))
          ])
          same (has_turn (ap in_turn to) (λ ne. absurd (ne to)) (λ p. rw (==_refl id) refl) past e)
          (λ x off s. rw off s))

  -- The next one gets the turn.
  pub signals :
      (c : Core)
      → in_turn (cores id).place ≡ true
      → cpu_phase (cores id).place ≡ cpu_phase c.place
      → (((cores id).place ≢ stopping → t.order.cpu_active id ≡ true)
          → ((cores id).place ≡ stopping → t.order.cpu_active id ≡ false)
          → (next : Option ℕ) → Over id next thru
          → Stands id next
              (t.order.cpu_active id)
              t.time
              (slots id)
              (is_resetting t.place)
              thru
              c.place)
      → InOrder n
          (record t { order = signal_next_cpu t.order (some id) })
          (update cores id c)
          ld
          slots
          thru
  signals c was same own =
      let (active, idle, past, e) = at_turn was (v.stands id lt) in
      let next = find_active_below t.order.cpu_active id in
      subst (λ o. InOrder n (record t { order = o }) (update cores id c) ld slots thru)
        (sym (signal_next_cpu-some t.order t.order.current_cpu_turn id))
        (orders n t cores ld slots thru id v lt (record t.order { current_cpu_turn = next }) c refl
          (λ j f. (let below = find-below t.order.cpu_active id j f in omega (arith, below, lt)))
          (λ j f m. find-active t.order.cpu_active id j f) same
          (own active idle next (λ h j f. find-below t.order.cpu_active id j f))
          (λ x off s.
            Stands-passes x t.order.current_cpu_turn t.time (slots x) (is_resetting t.place) thru id
              t.order.cpu_active (cores x).place off e s))

  pub listed_cpu : has id t.dev_list ≡ true
  listed_cpu =
      ap (has id) v.devs
      ∙ has-devices (suc n) id
      ∙ (let le : id < suc n = omega (arith, lt) in lt→ltb _ _ le)

  not_loader : (n == id) ≡ false
  not_loader = ground (arith, lt)

  phase_here : phase_of n cores ld id ≡ cpu_phase (cores id).place
  phase_here = rw not_loader refl

  pub timed_here :
      Kept t.time (t.events id) (slots id) (view t.place id) (cpu_phase (cores id).place)
  timed_here =
      subst (Kept t.time (t.events id) (slots id) (view t.place id)) phase_here
        (v.timed.kept id listed_cpu)

  abbrev world : World
  world = record { timer = t; phase = phase_of n cores ld; slots = slots }

  -- What the timer keeps, with the phase of this CPU.
  rephased :
      (t' : Timer) (c : Core) (p : Phase) (slots' : ℕ → ℕ)
      → cpu_phase c.place ≡ p
      → Inv t' t'.place (update (phase_of n cores ld) id p) slots'
      → Inv t' t'.place (phase_of n (update cores id c) ld) slots'
  rephased t' c p slots' e w =
      subst (λ f. Inv t' t'.place f slots')
        (fun_ext (λ d.
          ap (λ q. update (phase_of n cores ld) id q d) (sym e)
          ∙ phase_of-update n t cores ld slots thru id v lt c d))
        w

  -- The end of its slot.
  pub finishes :
      (c : Core)
      → (cores id).place ≡ announcing
      → c.place ≡ resting
      → InOrder n (finish_slot t id) (update cores id c) ld slots thru
  unfolding finish_slot
  finishes c at to =
      let (active, over) = at_announcing at (v.stands id lt) in
      let is_busy : phase_of n cores ld id ≡ busy = phase_here ∙ ap cpu_phase at in
      let (on_time, seen) =
        busy_slots t.time (slots id) (t.events id) (view t.place id) _ (ap cpu_phase at)
          timed_here in
      moved n t cores ld slots thru id v lt (finish_slot t id) c slots refl refl refl refl
        (finish_slot-left t id) refl refl v.bound (still c (λ p. (let bad = sym at ∙ p in cc bad)))
        (rephased (finish_slot t id) c Steps.Phase.resting slots (ap cpu_phase to)
          (rest_of-Inv world id is_busy v.timed))
        (subst (StandsAt (finish_slot t id) slots thru id) (sym to) (rests active over on_time))
        (λ x off s. s)

  -- The next slot.
  pub comes_back :
      (c : Core)
      → (cores id).place ≡ resting
      → c.place ≡ waiting
      → slot_is_over t id ≡ true
      → InOrder n t (update cores id c) ld (update slots id (slots id + 1)) thru
  unfolding slot_is_over
  comes_back c at to over =
      let is_resting : phase_of n cores ld id ≡ Steps.Phase.resting =
        phase_here ∙ ap cpu_phase at in
      let off_now : (t.events id).done ≡ false = ground (arith, over) in
      let (seen, behind_time) =
        let_go_only t.time (slots id) (t.events id) (view t.place id) _ (ap cpu_phase at) off_now
          timed_here in
      let slots' = update slots id (slots id + 1) in
      moved n t cores ld slots thru id v lt t c slots' refl refl refl refl (λ d h. h)
        (let off : (id == n) ≡ false = ground (arith, lt) in rw off refl) refl v.bound
        (still c (λ p. (let bad = sym at ∙ p in cc bad)))
        (rephased t c busy slots' (ap cpu_phase to)
          (resume_of-Inv world id is_resting over v.timed))
        (subst (StandsAt t slots' thru id) (sym to) (
          rw (==_refl id) (
            resumes id t.order.current_cpu_turn (t.order.cpu_active id) t.time (slots id)
              (is_resetting t.place) thru (cores id).place at behind_time
              (set_when_within t.place id seen) (v.stands id lt))))
        (λ x off s. rw off s)

  -- The thread ends.
  pub ends_thread :
      (c : Core)
      → (cores id).place ≡ detaching
      → c.place ≡ stopped
      → InOrder n (detach_event t id) (update cores id c) ld slots thru
  unfolding detach_event
  ends_thread c at to =
      moved n t cores ld slots thru id v lt (detach_event t id) c slots refl refl refl refl
        (detach_event-left t id) refl refl v.bound (still c (λ p. (let bad = sym at ∙ p in cc bad)))
        (rephased (detach_event t id) c gone slots (ap cpu_phase to)
          (leave_of-Inv world id v.timed))
        (subst (StandsAt (detach_event t id) slots thru id) (sym to)
          (has_stopped (at_detaching at (v.stands id lt))))
        (λ x off s. s)
