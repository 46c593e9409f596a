-- ===== src/Kernel/Orders.antt =====
-- The steps of a CPU keep the order of the turns.
use btl_hdh.Base.{
  has, ℕ, suc, ◌+◌, ◌≤◌, ◌<◌, ◌≡◌, refl, sym, ap, ◌∙◌, subst, ◌≢◌, Bool, true, false, some, ◌==◌,
  if◌then◌else◌, inl, inr, Bool-cases, arith, update, at_index, ==_refl,
}
use btl_hdh.CpuOrder.{CpuOrder}
use btl_hdh.Timer.Counts.{Counted, Counted-later}
use btl_hdh.Timer.{Timer}
use btl_hdh.Timer.Devices.{devices}
use btl_hdh.Timer.Steps.{
  pending, Phase, busy, gone, View, within, Kept, view, Inv, finished, resumed,
}
use btl_hdh.Timer.Steps as Steps
use btl_hdh.Kernel.{Place, waiting, stopping, Core, LdPlace}
use btl_hdh.Kernel.Turns.{is_past, ld_waits, cpu_phase, ld_phase, is_resetting, Stands}

-- What each device does: the CPUs, and the loader behind them.
abbrev pub phase_of : ℕ → (ℕ → Core) → LdPlace → ℕ → Phase
phase_of n cores ld d = if n == d then ld_phase ld else cpu_phase (cores d).place

abbrev pub StandsAt : Timer → (ℕ → ℕ) → Bool → ℕ → Place → Type 0
StandsAt t slots thru id p =
    Stands id t.order.current_cpu_turn (t.order.cpu_active id) t.time (slots id)
      (is_resetting t.place) thru p

-- The devices that a loop of the timer has to go are devices.
abbrev pub Known : Timer → Type 0
Known t = (d : ℕ) → has d (pending t.place) ≡ true → has d t.dev_list ≡ true

-- The invariant of the turns, for `n` CPUs; `slots` are those that each device has come
-- through, and `thru` says whether the loader has had its turn in the slot.
pub record InOrder (n : ℕ) (t : Timer) (cores : ℕ → Core) (ld : LdPlace) (slots : ℕ → ℕ)
    (thru : Bool) : Type 0 where
  pub known : Known t
  pub runs : t.timer_stop ≡ false
  pub counted : Counted t
  pub small : n ≤ 64
  pub devs : t.dev_list ≡ devices (suc n)
  pub cpus : t.order.num_cpus ≡ n
  pub outside : (id : ℕ) → n ≤ id → (cores id).place ≡ waiting
  pub bound : (j : ℕ) → t.order.current_cpu_turn ≡ some j → j < n
  pub holder :
      (j : ℕ)
      → t.order.current_cpu_turn ≡ some j
      → (cores j).place ≢ stopping
      → t.order.cpu_active j ≡ true
  pub ready : ld_waits ld ≡ true → thru ≡ false
  pub fresh : ld_phase ld ≡ Steps.Phase.resting → slots n + 1 ≡ t.time → thru ≡ false
  pub through : is_past ld ≡ true → thru ≡ true
  pub timed : Inv t t.place (phase_of n cores ld) slots
  pub stands : (id : ℕ) → id < n → StandsAt t slots thru id (cores id).place

-- Equal phases, another order.
pub Inv-order :
    (t : Timer) (o : CpuOrder) (phase phase' : ℕ → Phase) (slots : ℕ → ℕ)
    → ((d : ℕ) → phase d ≡ phase' d)
    → Inv t t.place phase slots
    → Inv (record t { order = o }) t.place phase' slots
Inv-order t o phase phase' slots same v = record {
  listed = v.listed;
  loop = v.loop;
  kept = λ d h. subst (Kept t.time (t.events d) (slots d) (view t.place d)) (same d) (v.kept d h);
}

-- What is to be shown of a step of the CPU `id`: how it stands then, and how the others do.
module _ (n : ℕ) (t : Timer) (cores : ℕ → Core) (ld : LdPlace) (slots : ℕ → ℕ) (thru : Bool)
    (id : ℕ) (v : InOrder n t cores ld slots thru) (lt : id < n) where
  pub phase_of-update :
      (c : Core) (d : ℕ)
      → update (phase_of n cores ld) id (cpu_phase c.place) d ≡ phase_of n (update cores id c) ld d
  phase_of-update c d = elim (Bool-cases (id == d)) [
    | inr off ↦ rw off refl
    | inl on ↦ (let other : (n == d) ≡ false = ground (arith, on) in rw (on, other) refl)
  ]

  -- The holder of the turn stays active where this CPU does.
  pub still_held :
      (c : Core)
      → (cores id).place ≢ stopping
      → (j : ℕ) → t.order.current_cpu_turn ≡ some j
      → (update cores id c j).place ≢ stopping
      → t.order.cpu_active j ≡ true
  still_held c ne j e m = elim (Bool-cases (id == j)) [
    | inr off ↦ v.holder j e (λ p. m (rw off p))
    | inl on ↦
        let at : id ≡ j = ground (arith, on) in
        v.holder j e (λ p. ne (ap (λ y. (cores y).place) at ∙ p))
  ]

  pub moved :
      (t' : Timer) (c : Core) (slots' : ℕ → ℕ)
      → t'.dev_list ≡ t.dev_list
      → t'.place ≡ t.place
      → t'.time ≡ t.time
      → t'.timer_stop ≡ t.timer_stop
      → ((d : ℕ) → (t.events d).fsh ≡ true → (t'.events d).fsh ≡ true)
      → slots' n ≡ slots n
      → t'.order.num_cpus ≡ t.order.num_cpus
      → ((j : ℕ) → t'.order.current_cpu_turn ≡ some j → j < n)
      → ((j : ℕ)
          → t'.order.current_cpu_turn ≡ some j
          → (update cores id c j).place ≢ stopping
          → t'.order.cpu_active j ≡ true)
      → Inv t' t'.place (phase_of n (update cores id c) ld) slots'
      → StandsAt t' slots' thru id c.place
      → ((x : ℕ)
          → (id == x) ≡ false
          → StandsAt t slots thru x (cores x).place
          → StandsAt t' slots' thru x (cores x).place)
      → InOrder n t' (update cores id c) ld slots' thru
  moved t' c slots' devs same_place same_time same_stop left same_slots cpus bound holder timed own
        others =
      record {
        devs = devs ∙ v.devs;
        cpus = cpus ∙ v.cpus;
        outside = λ x le. (let off : (id == x) ≡ false = ground arith in rw off (v.outside x le));
        known = λ d. rw (devs, same_place) (v.known d);
        runs = same_stop ∙ v.runs;
        counted =
            rw (devs, same_place)
              (Counted-later t.place t.dev_list t.events t'.events left v.counted);
        small = v.small;
        bound = bound;
        holder = holder;
        ready = v.ready;
        fresh = λ r h. v.fresh r (ap (λ m. m + 1) (sym same_slots) ∙ h ∙ same_time);
        through = v.through;
        timed = timed;
        stands = λ x x_lt.
            at_index id (λ y. y < n → StandsAt t slots thru y (cores y).place)
              (λ y. y < n → StandsAt t' slots' thru y (update cores id c y).place)
              (λ w h. rw (==_refl id) own) (λ y off w h. rw off (others y off (w h))) x (v.stands x)
              x_lt;
      }

  -- A step in its turn, or into it, that may change the order.
  pub orders :
      (o : CpuOrder) (c : Core)
      → o.num_cpus ≡ t.order.num_cpus
      → ((j : ℕ) → o.current_cpu_turn ≡ some j → j < n)
      → ((j : ℕ)
          → o.current_cpu_turn ≡ some j
          → (update cores id c j).place ≢ stopping
          → o.cpu_active j ≡ true)
      → cpu_phase (cores id).place ≡ cpu_phase c.place
      → StandsAt (record t { order = o }) slots thru id c.place
      → ((x : ℕ)
          → (id == x) ≡ false
          → StandsAt t slots thru x (cores x).place
          → StandsAt (record t { order = o }) slots thru x (cores x).place)
      → InOrder n (record t { order = o }) (update cores id c) ld slots thru
  orders o c cpus bound holder same own others =
      moved (record t { order = o }) c slots refl refl refl refl (λ d h. h) refl cpus bound holder
        (Inv-order t o _ _ slots
          (λ d. elim (Bool-cases (id == d)) [
            | inr off ↦ rw off refl
            | inl on ↦
                let at : id ≡ d = ground (arith, on) in
                let other : (n == d) ≡ false = ground (arith, on) in
                rw (on, other) (ap (λ y. cpu_phase (cores y).place) (sym at) ∙ same)
          ])
          v.timed)
        own others
