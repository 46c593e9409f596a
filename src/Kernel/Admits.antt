-- ===== src/Kernel/Admits.antt =====
-- A step of the loader keeps the order of the turns.
use btl_hdh.Base.{
  Bool, ◌≢◌, ℕ, suc, ◌+◌, ◌<◌, ◌≡◌, refl, sym, ap, ◌∙◌, subst, inl, inr, Bool, true, false, Option,
  none, some, ◌==◌, update, fun_ext, Bool-cases, Option-cases, arith, ==_refl, has, lt→ltb,
}
use btl_hdh.CpuOrder.{
  CpuOrder, is_turn, signal_next_cpu, find_active_below, find_highest_active_cpu,
}
use btl_hdh.Timer.Counts.{Counted-later, finish_slot-left, detach_event-left}
use btl_hdh.Timer.{Timer, finish_slot, slot_is_over, detach_event}
use btl_hdh.Timer.Devices.{has-devices}
use btl_hdh.Timer.Steps.{Phase, busy, gone, Kept, view, Inv, World}
use btl_hdh.Timer.Steps as Steps
use btl_hdh.Timer.Slots.{rest_of-Inv, resume_of-Inv, leave_of-Inv}
use btl_hdh.Kernel.{stopping, Core, LdPlace}
use btl_hdh.Kernel.Turns.{
  is_past, ld_waits, ld_phase, is_resetting, Stands, find-below, find-active, Stands-taken,
  Stands-past,
}
use btl_hdh.Kernel.Orders.{phase_of, StandsAt, InOrder, Inv-order}
use btl_hdh.Kernel.Places.{busy_slots, let_go_only, set_when_within}

pub is_turn-none : (o : CpuOrder) → is_turn o none ≡ true → o.current_cpu_turn ≡ none
unfolding is_turn
is_turn-none o h = elim (Option-cases o.current_cpu_turn) [
  | inl e ↦ e
  | inr (c, e) ↦ absurd (let bad : false ≡ true = rw e at h in cc)
]

module _ (n : ℕ) (t : Timer) (cores : ℕ → Core) (ld : LdPlace) (slots : ℕ → ℕ) (thru : Bool)
    (v : InOrder n t cores ld slots thru) where
  -- How a CPU stands, by whether the loader is past its turn.
  abbrev IsAt : ℕ → Bool → Type 0
  IsAt x past =
      Stands x t.order.current_cpu_turn (t.order.cpu_active x) t.time (slots x)
        (is_resetting t.place) past (cores x).place

  abbrev StandsNext : Option ℕ → ℕ → Bool → Type 0
  StandsNext next x past =
      Stands x next (t.order.cpu_active x) t.time (slots x) (is_resetting t.place) past
        (cores x).place

  phase_of-loader :
      (ld' : LdPlace) (d : ℕ)
      → update (phase_of n cores ld) n (ld_phase ld') d ≡ phase_of n cores ld' d
  phase_of-loader ld' d = elim (Bool-cases (n == d)) [ inl on ↦ rw on refl | inr off ↦ rw off refl ]

  phase_there : phase_of n cores ld n ≡ ld_phase ld
  phase_there = rw (==_refl n) refl

  pub listed_loader : has n t.dev_list ≡ true
  listed_loader =
      ap (has n) v.devs
      ∙ has-devices (suc n) n
      ∙ (let le : n < suc n = omega arith in lt→ltb _ _ le)

  pub timed_there : Kept t.time (t.events n) (slots n) (view t.place n) (ld_phase ld)
  timed_there =
      subst (Kept t.time (t.events n) (slots n) (view t.place n)) phase_there
        (v.timed.kept n listed_loader)

  abbrev world : World
  world = record { timer = t; phase = phase_of n cores ld; slots = slots }

  rephased :
      (t' : Timer) (ld' : LdPlace) (p : Phase) (slots' : ℕ → ℕ)
      → ld_phase ld' ≡ p
      → Inv t' t'.place (update (phase_of n cores ld) n p) slots'
      → Inv t' t'.place (phase_of n cores ld') slots'
  rephased t' ld' p slots' e w =
      subst (λ f. Inv t' t'.place f slots')
        (fun_ext
          (λ d. ap (λ q. update (phase_of n cores ld) n q d) (sym e) ∙ phase_of-loader ld' d))
        w

  -- A step with another order, and the same phase.
  ld_orders :
      (o : CpuOrder) (ld' : LdPlace) (thru' : Bool)
      → o.num_cpus ≡ t.order.num_cpus
      → ((j : ℕ) → o.current_cpu_turn ≡ some j → j < n)
      → ((j : ℕ) → o.current_cpu_turn ≡ some j → (cores j).place ≢ stopping → o.cpu_active j ≡ true)
      → (ld_waits ld' ≡ true → thru' ≡ false)
      → (is_past ld' ≡ true → thru' ≡ true)
      → (ld_phase ld ≡ Steps.Phase.resting → thru ≡ thru')
      → ld_phase ld ≡ ld_phase ld'
      → ((x : ℕ)
          → StandsAt t slots thru x (cores x).place
          → StandsAt (record t { order = o }) slots thru' x (cores x).place)
      → InOrder n (record t { order = o }) cores ld' slots thru'
  ld_orders o ld' thru' cpus bound holder ready through at_rest same others = record {
    devs = v.devs;
    cpus = cpus ∙ v.cpus;
    outside = v.outside;
    known = v.known;
    runs = v.runs;
    counted = v.counted;
    small = v.small;
    bound = bound;
    holder = holder;
    ready = ready;
    fresh = λ r h. sym (at_rest (same ∙ r)) ∙ v.fresh (same ∙ r) h;
    through = through;
    timed =
        Inv-order t o _ _ slots
          (λ d. elim (Bool-cases (n == d)) [ inl on ↦ rw on same | inr off ↦ rw off refl ]) v.timed;
    stands = λ x x_lt. others x (v.stands x x_lt);
  }

  -- Between two steps that read and write no order.
  pub stays :
      (ld' : LdPlace)
      → ld_phase ld ≡ ld_phase ld'
      → is_past ld ≡ is_past ld'
      → ld_waits ld ≡ ld_waits ld'
      → InOrder n t cores ld' slots thru
  stays ld' same e w =
      ld_orders t.order ld' thru refl v.bound v.holder (λ h. v.ready (w ∙ h))
        (λ h. v.through (e ∙ h)) (λ r. refl) same (λ x s. s)

  -- The turn of the loader.
  pub takes :
      (ld' : LdPlace)
      → is_turn t.order none ≡ true
      → ld_phase ld ≡ busy
      → ld_phase ld' ≡ busy
      → ld_waits ld' ≡ false
      → InOrder n t cores ld' slots true
  takes ld' turn at_work at_work' w =
      let (on_time, seen) =
        busy_slots t.time (slots n) (t.events n) (view t.place n) _ at_work timed_there in
      ld_orders t.order ld' true refl v.bound v.holder (λ h. absurd (let bad = sym h ∙ w in cc bad))
        (λ h. refl) (λ r. absurd (let bad = sym at_work ∙ r in cc bad)) (at_work ∙ sym at_work')
        (λ x s. elim (Bool-cases thru) [
          | inl had ↦ subst (IsAt x) had s
          | inr off ↦
              Stands-taken x t.order.current_cpu_turn (t.order.cpu_active x) t.time (slots x)
                (is_resetting t.place) (cores x).place (is_turn-none t.order turn)
                (set_when_within t.place n seen) (subst (IsAt x) off s)
        ])

  -- The loader past its turn gives it to the CPUs again.
  pub signals_first :
      (ld' : LdPlace)
      → is_past ld ≡ true
      → ld_phase ld ≡ ld_phase ld'
      → ld_waits ld' ≡ false
      → InOrder n (record t { order = signal_next_cpu t.order none }) cores ld' slots thru
  unfolding signal_next_cpu find_highest_active_cpu
  signals_first ld' on same w =
      let had = v.through on in
      let next = find_active_below t.order.cpu_active t.order.num_cpus in
      ld_orders (record t.order { current_cpu_turn = next }) ld' thru refl
        (λ j f.
          (let below = find-below t.order.cpu_active t.order.num_cpus j f in
            let count = v.cpus in omega (arith, below, count)))
        (λ j f m. find-active t.order.cpu_active t.order.num_cpus j f)
        (λ h. absurd (let bad = sym h ∙ w in cc bad)) (λ h. had) (λ r. refl) same
        (λ x s. subst (StandsNext next x) (sym had) (
          Stands-past x t.order.current_cpu_turn (t.order.cpu_active x) t.time (slots x)
            (is_resetting t.place) next (cores x).place (subst (IsAt x) had s)))

  -- The loader in the slot's end and in its thread's.
  pub announced :
      (ld' : LdPlace)
      → is_past ld ≡ true
      → ld_phase ld ≡ busy
      → ld_phase ld' ≡ Steps.Phase.resting
      → ld_waits ld' ≡ false
      → InOrder n (finish_slot t n) cores ld' slots thru
  unfolding finish_slot
  announced ld' on at_work to w = record {
    ready = λ h. absurd (let bad = sym h ∙ w in cc bad);
    fresh = λ r h.
        let (on_time, seen) =
          busy_slots t.time (slots n) (t.events n) (view t.place n) _ at_work timed_there in
        absurd (omega (arith, on_time, h));
    devs = v.devs;
    cpus = v.cpus;
    outside = v.outside;
    bound = v.bound;
    known = v.known;
    runs = v.runs;
    counted =
        Counted-later t.place t.dev_list t.events (finish_slot t n).events (finish_slot-left t n)
          v.counted;
    small = v.small;
    holder = v.holder;
    through = λ h. v.through on;
    timed =
        rephased (finish_slot t n) ld' Steps.Phase.resting slots to
          (rest_of-Inv world n (phase_there ∙ at_work) v.timed);
    stands = v.stands;
  }

  pub left_behind :
      (ld' : LdPlace)
      → is_past ld ≡ true
      → ld_phase ld' ≡ gone
      → ld_waits ld' ≡ false
      → InOrder n (detach_event t n) cores ld' slots thru
  unfolding detach_event
  left_behind ld' on to w = record {
    ready = λ h. absurd (let bad = sym h ∙ w in cc bad);
    fresh = λ r h. absurd (let bad = sym to ∙ r in cc bad);
    devs = v.devs;
    cpus = v.cpus;
    outside = v.outside;
    bound = v.bound;
    known = v.known;
    runs = v.runs;
    counted =
        Counted-later t.place t.dev_list t.events (detach_event t n).events (detach_event-left t n)
          v.counted;
    small = v.small;
    holder = v.holder;
    through = λ h. v.through on;
    timed = rephased (detach_event t n) ld' gone slots to (leave_of-Inv world n v.timed);
    stands = v.stands;
  }

  pub resumed :
      (ld' : LdPlace)
      → ld_phase ld ≡ Steps.Phase.resting
      → slot_is_over t n ≡ true
      → ld_phase ld' ≡ busy
      → is_past ld ≡ is_past ld'
      → InOrder n t cores ld' (update slots n (slots n + 1)) thru
  unfolding slot_is_over
  resumed ld' is_resting over to e =
      let slots' = update slots n (slots n + 1) in
      let off_now : (t.events n).done ≡ false = ground (arith, over) in
      let (seen, behind_time) =
        let_go_only t.time (slots n) (t.events n) (view t.place n) _ is_resting off_now
          timed_there in
      record {
        ready = λ h. v.fresh is_resting behind_time;
        fresh = λ r h. absurd (let bad = sym to ∙ r in cc bad);
        devs = v.devs;
        cpus = v.cpus;
        outside = v.outside;
        bound = v.bound;
        known = v.known;
        runs = v.runs;
        counted = v.counted;
        small = v.small;
        holder = v.holder;
        through = λ h. v.through (e ∙ h);
        timed =
            rephased t ld' busy slots' to
              (resume_of-Inv world n (phase_there ∙ is_resting) over v.timed);
        stands =
            λ x x_lt. let off : (n == x) ≡ false = ground (arith, x_lt) in rw off (v.stands x x_lt);
      }
