-- ===== src/Kernel/Alone.antt =====
-- The turns of every run: one CPU at a time schedules or runs, and the loader only when none does.
use btl_hdh.Base.{
  has, Bool, ℕ, suc, ◌<◌, ◌≤◌, ◌≡◌, refl, sym, ap, ◌∙◌, subst, inl, inr, true, false, ◌&&◌, Option,
  none, some, ◌==◌, ltb, ◌+◌, update, zero, Bool-cases, arith,
}
use btl_hdh.CpuOrder.{CpuOrder, before, init_cpu_order, is_turn}
use btl_hdh.Timer.Counts.{start-Counts}
use btl_hdh.Timer.{Timer, start_timer, next_round, slot_is_over}
use btl_hdh.Timer.Devices.{devices}
use btl_hdh.Timer.Slots.{IsAttached, started-Inv}
use btl_hdh.Kernel.{
  Config, Core, LdPlace, waiting, first_turn, first_signal, loading, until_start, publishing,
  ld_signalling, ld_announcing, ld_resting, ld_turn, finishing, leaving, ld_detaching, ld_ended,
  Kernel, Loading, publish, ld_step_from, ld_step,
}
use btl_hdh.Kernel.Exclusive.{Reached, at_start, cpu_goes, loader_goes, timer_goes, IsStart}
use btl_hdh.Kernel.Turns.{in_turn, is_past, waits, Before}
use btl_hdh.Timer.Steps.{busy, pending}
use btl_hdh.Kernel.Orders.{Known, InOrder, phase_of, Inv-order}
use btl_hdh.Kernel.Places.{at_turn}
use btl_hdh.Kernel.Rounds.{Sound, cpu_step-Sound}
use btl_hdh.Kernel.Admits.{stays, takes, signals_first, announced, left_behind, resumed}
use btl_hdh.Kernel.Ticks.{timer_step-InOrder}

abbrev AfterLd : ℕ → Option Kernel → Type 0
AfterLd n none = Unit
AfterLd n (some k) = Sound n k

module _ (cfg : Config) (l : Loading) (k : Kernel) (slots : ℕ → ℕ) (thru : Bool)
    (v : InOrder cfg.num_cpus k.timer k.cores k.loader.place slots thru) where
  abbrev n : ℕ
  n = cfg.num_cpus

  abbrev SoundAt : LdPlace → Type 0
  SoundAt ld = InOrder n k.timer k.cores ld slots thru

  ld_step_from-Sound : (place : LdPlace) → SoundAt place → AfterLd n (ld_step_from cfg l k place)
  unfolding ld_step_from publish
  ld_step_from-Sound first_turn w = elim (Bool-cases (is_turn k.timer.order none)) [
    | inl e ↦
        rw (e, ld_step_from) (slots, true, takes n _ _ _ slots thru w first_signal e refl refl refl)
    | inr e ↦ rw (e, ld_step_from) tt
  ]
  ld_step_from-Sound first_signal w =
      (slots, thru, signals_first n _ _ _ slots thru w loading refl refl refl)
  ld_step_from-Sound loading w = elim (Bool-cases (ltb k.loader.i cfg.num_processes)) [
    | inl e ↦
        rw (e, ld_step_from) (slots, thru, stays n _ _ _ slots thru w until_start refl refl refl)
    | inr e ↦
        rw (e, ld_step_from) (slots, thru, stays n _ _ _ slots thru w finishing refl refl refl)
  ]
  ld_step_from-Sound until_start w =
      elim (Bool-cases (ltb k.timer.time (cfg.start_time k.loader.i))) [
        | inl e ↦
            rw (e, ld_step_from)
              (slots, thru, stays n _ _ _ slots thru w (ld_announcing true) refl refl refl)
        | inr e ↦
            rw (e, ld_step_from) (slots, thru, stays n _ _ _ slots thru w publishing refl refl refl)
      ]
  ld_step_from-Sound publishing w =
      (slots, thru, stays n _ _ _ slots thru w (ld_signalling false) refl refl refl)
  ld_step_from-Sound (ld_signalling true) w =
      (slots, thru, signals_first n _ _ _ slots thru w until_start refl refl refl)
  ld_step_from-Sound (ld_signalling false) w =
      (slots, thru, signals_first n _ _ _ slots thru w (ld_announcing false) refl refl refl)
  ld_step_from-Sound (ld_announcing again) w =
      (slots, thru, announced n _ _ _ slots thru w (ld_resting again) refl refl refl refl)
  ld_step_from-Sound (ld_resting again) w = elim (Bool-cases (slot_is_over k.timer n)) [
    | inl e ↦
        rw (e, ld_step_from)
          (
            update slots n (slots n + 1),
            thru,
            resumed n _ _ _ slots thru w (ld_turn again) refl e refl refl,
          )
    | inr e ↦ rw (e, ld_step_from) tt
  ]
  ld_step_from-Sound (ld_turn true) w = elim (Bool-cases (is_turn k.timer.order none)) [
    | inl e ↦
        rw (e, ld_step_from)
          (slots, true, takes n _ _ _ slots thru w (ld_signalling true) e refl refl refl)
    | inr e ↦ rw (e, ld_step_from) tt
  ]
  ld_step_from-Sound (ld_turn false) w = elim (Bool-cases (is_turn k.timer.order none)) [
    | inl e ↦
        rw (e, ld_step_from) (slots, true, takes n _ _ _ slots thru w loading e refl refl refl)
    | inr e ↦ rw (e, ld_step_from) tt
  ]
  ld_step_from-Sound finishing w =
      (slots, thru, signals_first n _ _ _ slots thru w leaving refl refl refl)
  ld_step_from-Sound leaving w =
      (slots, thru, stays n _ _ _ slots thru w ld_detaching refl refl refl)
  ld_step_from-Sound ld_detaching w =
      (slots, thru, left_behind n _ _ _ slots thru w ld_ended refl refl refl)
  ld_step_from-Sound ld_ended w = tt

  ld_step-Sound : (k' : Kernel) → ld_step cfg l k ≡ some k' → Sound n k'
  unfolding ld_step
  ld_step-Sound k' e = subst (AfterLd n) e (ld_step_from-Sound k.loader.place v)

Reached-Sound :
    (cfg : Config) (start k : Kernel)
    → Sound cfg.num_cpus start
    → Reached cfg start k
    → Sound cfg.num_cpus k
Reached-Sound cfg start _ v at_start = v
Reached-Sound cfg start _ v (cpu_goes {k = k} {k' = k'} o id r e) =
    cpu_step-Sound cfg.num_cpus cfg o k k' id (Reached-Sound cfg start k v r) e
Reached-Sound cfg start _ v (loader_goes {k = k} {k' = k'} l r fresh e) =
    (let (slots, thru, w) = Reached-Sound cfg start k v r in
      ld_step-Sound cfg l k slots thru w k' e)
Reached-Sound cfg start _ v (timer_goes {k = k} {t = t} r e) =
    let (slots, thru, w) = Reached-Sound cfg start k v r in
    let (thru', w') =
      timer_step-InOrder cfg.num_cpus k.timer k.cores k.loader.place slots thru w t e in
    (slots, thru', w')

-- The timer after `main` has started it, for a number of CPUs.
pub record IsBooted (n : ℕ) (t : Timer) : Type 0 where
  pub attached : Timer
  pub started : t ≡ start_timer attached
  pub devices_known : attached.dev_list ≡ devices (suc n)
  pub at_work : IsAttached attached
  pub runs : attached.timer_stop ≡ false
  pub order : CpuOrder
  pub ordered : attached.order ≡ init_cpu_order order n

before-below : (n j : ℕ) → before n ≡ some j → j < n
before-below zero j e = cc
before-below (suc n) j e = (let same : n ≡ j = cc e in omega (arith, same))

before-Before : (n id : ℕ) → id < n → Before id (before n)
before-Before zero id lt = absurd (omega (arith, lt))
before-Before (suc n) id lt = (n, refl, omega (arith, lt))

not_through :
    (k : Kernel) (slots : ℕ → ℕ) (thru : Bool) (n : ℕ)
    → InOrder n k.timer k.cores k.loader.place slots thru
    → thru ≡ false
    → is_past k.loader.place ≡ false
not_through k slots thru n v off = elim (Bool-cases (is_past k.loader.place)) [
  | inr e ↦ e
  | inl e ↦ absurd (let bad : true ≡ false = sym (v.through e) ∙ off in cc bad)
]

-- A CPU in its turn is one of the machine, and has the turn.
turn_of :
    (n : ℕ) (k : Kernel) (slots : ℕ → ℕ) (thru : Bool)
    → InOrder n k.timer k.cores k.loader.place slots thru
    → (id : ℕ) → in_turn (k.cores id).place ≡ true
    → (is_past k.loader.place ≡ false) × (k.timer.order.current_cpu_turn ≡ some id)
turn_of n k slots thru v id turn = elim (Bool-cases (ltb id n)) [
  | inl h ↦
      let (active, idle, past, at) = at_turn turn (v.stands id (ground (arith, h))) in
      (not_through k slots thru n v past, at)
  | inr h ↦
      let at = v.outside id (ground (arith, h)) in
      absurd (let bad = sym turn ∙ ap in_turn at in cc bad)
]

first_round_has : (t : Timer) → Known (start_timer t)
unfolding start_timer next_round pending has
first_round_has t d = elim (Bool-cases t.timer_stop) [
  | inl e ↦ rw e (λ h. cc)
  | inr e ↦ rw e (λ h. h)
]

start-InOrder :
    (n : ℕ) (t : Timer) (o : CpuOrder) (cores : ℕ → Core)
    → n ≤ 64
    → t.dev_list ≡ devices (suc n)
    → IsAttached t
    → t.timer_stop ≡ false
    → t.order ≡ init_cpu_order o n
    → ((id : ℕ) → (cores id).place ≡ waiting)
    → InOrder n (start_timer t) cores first_turn (λ d. 0) false
unfolding start_timer next_round init_cpu_order
start-InOrder n t o cores le devs at runs ordered places =
    let phases : (d : ℕ) → busy ≡ phase_of n cores first_turn d =
      λ d. elim (Bool-cases (n == d)) [ inl on ↦ rw on refl | inr off ↦ rw (off, places d) refl ] in
    record {
      devs = devs;
      cpus = rw ordered refl;
      outside = λ id out. places id;
      known = first_round_has t;
      runs = runs;
      counted = rw runs (start-Counts t.dev_list t.events);
      small = le;
      holder = λ j e m.
          let lt = before-below n j (sym (ap (λ q. q.current_cpu_turn) ordered) ∙ e) in
          let in_table : (ltb j n && ltb j 64) ≡ true = ground (arith, lt, le) in
          rw (ordered, in_table) refl;
      ready = λ h. refl;
      fresh = λ r h. refl;
      through = λ h. cc;
      bound = λ j e. before-below n j (sym (ap (λ q. q.current_cpu_turn) ordered) ∙ e);
      timed =
          Inv-order (start_timer t) t.order (λ d. busy) (phase_of n cores first_turn) (λ d. 0)
            phases (started-Inv t at);
      stands = λ x lt.
          let small : (ltb x n && ltb x 64) ≡ true = ground (arith, lt, le) in
          rw (places x, ordered, small) (waits refl refl (before-Before n x lt));
    }

pub run-Sound :
    (cfg : Config) (start k : Kernel)
    → cfg.num_cpus ≤ 64
    → IsStart start
    → IsBooted cfg.num_cpus start.timer
    → Reached cfg start k
    → Sound cfg.num_cpus k
run-Sound cfg start k le s b r =
    let first =
      start-InOrder cfg.num_cpus b.attached b.order start.cores le b.devices_known b.at_work b.runs
        b.ordered (λ x. (s.cpus x).1) in
    Reached-Sound cfg start k (λ d. 0, false, rw (b.started, s.loader) first) r

-- In every state that is reached a CPU in its turn has the turn alone.
pub Reached-turns :
    (cfg : Config) (start k : Kernel)
    → cfg.num_cpus ≤ 64
    → IsStart start
    → IsBooted cfg.num_cpus start.timer
    → Reached cfg start k
    → (id : ℕ) → in_turn (k.cores id).place ≡ true
    → (k.timer.order.current_cpu_turn ≡ some id)
      × (is_past k.loader.place ≡ false)
      × ((x : ℕ) → in_turn (k.cores x).place ≡ true → x ≡ id)
Reached-turns cfg start k le s b r id turn =
    let (slots, thru, v) = run-Sound cfg start k le s b r in
    let (past, at) = turn_of cfg.num_cpus k slots thru v id turn in
    (
      at,
      past,
      λ x h.
          let both : some x ≡ some id = sym (turn_of cfg.num_cpus k slots thru v x h).1 ∙ at in
          cc both,
    )
