-- ===== src/Kernel/Rounds.antt =====
-- A step of any CPU keeps the order of the turns.
use btl_hdh.Base.{
  Bool, ℕ, ◌+◌, ◌<◌, ◌≤◌, ◌≡◌, refl, sym, ap, ◌∙◌, subst, ◌≢◌, inl, inr, true, false, ◌&&◌, Option,
  none, some, ◌==◌, ltb, update, Bool-cases, Option-cases, arith,
}
use btl_hdh.Base.Run.{Run, done, fault, ◌>>=◌}
use btl_hdh.Base.Int.{ℤ}
use btl_hdh.Queue.{null}
use btl_hdh.Sched.{get_mlq_proc}
use btl_hdh.CpuOrder.{CpuOrder, is_turn}
use btl_hdh.Timer.{slot_is_over}
use btl_hdh.Cpu.{Proc, Krnl, Outside}
use btl_hdh.Kernel.{
  Config, Place, waiting, picking, getting, rechecking, running, signalling, announcing, resting,
  stopping, detaching, stopped, Core, Kernel, set_core, pick, recheck, cpu_step_from, cpu_step,
}
use btl_hdh.Kernel.Turns.{in_turn, cpu_phase, announces, detaches}
use btl_hdh.Kernel.Ends.{busy_in_turn}
use btl_hdh.Kernel.Orders.{InOrder}
use btl_hdh.Kernel.Passing.{enters, goes_on, gives_up, signals, finishes, comes_back, ends_thread}

abbrev pub Sound : ℕ → Kernel → Type 0
Sound n k = (slots : ℕ → ℕ) × (thru : Bool) × InOrder n k.timer k.cores k.loader.place slots thru

abbrev AfterCpu : ℕ → Run (Option Kernel) → Type 0
AfterCpu n (done none) = Unit
AfterCpu n (done (some k)) = Sound n k
AfterCpu n fault = Unit

-- The condition of `wait_cpu_turn` tells whose turn it is.
pub is_turn-some :
    (o : CpuOrder) (id : ℕ) → is_turn o (some id) ≡ true → o.current_cpu_turn ≡ some id
unfolding is_turn
is_turn-some o id h = elim (Option-cases o.current_cpu_turn) [
  | inl e ↦ absurd (let bad : false ≡ true = rw e at h in cc)
  | inr (c, e) ↦
      let same : (c == id) ≡ true = rw e at h in
      let at : c ≡ id = ground (arith, same) in e ∙ ap some at
]

module _ (n : ℕ) (k : Kernel) (slots : ℕ → ℕ) (thru : Bool) (id : ℕ)
    (v : InOrder n k.timer k.cores k.loader.place slots thru) (lt : id < n) where
  -- From one place of the turn to another.
  goes :
      (c : Core) (place : Place)
      → (k.cores id).place ≡ place
      → in_turn place ≡ true
      → place ≢ stopping
      → in_turn c.place ≡ true
      → c.place ≢ stopping
      → InOrder n k.timer (update k.cores id c) k.loader.place slots thru
  goes c place at was ne turns apart =
      let was' = ap in_turn at ∙ was in
      goes_on n k.timer k.cores k.loader.place slots thru id v lt c was' (λ e. ne (sym at ∙ e))
        turns apart (busy_in_turn _ was' ∙ sym (busy_in_turn _ turns))

  pick-AfterCpu :
      (k.cores id).place ≡ picking → AfterCpu n (pick k id (k.cores id) >>= λ k'. done (some k'))
  unfolding pick
  pick-AfterCpu at =
      let c = k.cores id in
      elim (Bool-cases (c.proc == null)) [
        | inl a ↦ rw (a, pick) (slots, thru, goes _ picking at refl (λ e. cc) refl (λ e. cc))
        | inr a ↦ elim (Bool-cases (k.live c.proc)) [
          | inr b ↦ rw (a, b, pick) tt
          | inl b ↦ elim (Bool-cases ((k.procs c.proc).pc == (k.procs c.proc).code.size)) [
            | inl d ↦
                rw (a, b, d, pick) (slots, thru, goes _ picking at refl (λ e. cc) refl (λ e. cc))
            | inr d ↦ elim (Bool-cases (c.time_left == 0)) [
              | inl e ↦
                  rw (a, b, d, e, pick)
                    (slots, thru, goes _ picking at refl (λ f. cc) refl (λ f. cc))
              | inr e ↦
                  rw (a, b, d, e, pick)
                    (slots, thru, goes _ picking at refl (λ f. cc) refl (λ f. cc))
            ]
          ]
        ]
      ]

  recheck-AfterCpu :
      (cfg : Config) → (k.cores id).place ≡ rechecking → Sound n (recheck cfg k id (k.cores id))
  unfolding recheck
  recheck-AfterCpu cfg at =
      let c = k.cores id in
      elim (Bool-cases ((c.proc == null) && k.is_done)) [
        | inl a ↦
            rw (a, recheck)
              (slots, thru, gives_up n k.timer k.cores k.loader.place slots thru id v lt _ at refl)
        | inr a ↦ elim (Bool-cases (c.proc == null)) [
          | inl b ↦
              rw (a, b, recheck) (slots, thru, goes _ rechecking at refl (λ e. cc) refl (λ e. cc))
          | inr b ↦
              rw (a, b, recheck) (slots, thru, goes _ rechecking at refl (λ e. cc) refl (λ e. cc))
        ]
      ]

  run-AfterCpu :
      (r : Run (ℤ × Krnl × Proc))
      → (k.cores id).place ≡ running
      → AfterCpu n (
          r >>= λ (stat, krnl, proc). done (
            some (
              set_core
                (record k { krnl = krnl; procs = update k.procs (k.cores id).proc proc })
                id
                (record (k.cores id) { place = signalling true }))))
  run-AfterCpu fault at = tt
  run-AfterCpu (done (stat, krnl, proc)) at =
      (slots, thru, goes _ running at refl (λ e. cc) refl (λ e. cc))

  cpu_step_from-Sound :
      (cfg : Config) (o : Outside) (place : Place)
      → (k.cores id).place ≡ place
      → AfterCpu n (cpu_step_from cfg o k id (k.cores id) place)
  unfolding cpu_step_from
  cpu_step_from-Sound cfg o waiting at = elim (Bool-cases (is_turn k.timer.order (some id))) [
    | inl e ↦
        rw (e, cpu_step_from)
          (
            slots,
            thru,
            enters n k.timer k.cores k.loader.place slots thru id v lt _ at refl
                (is_turn-some k.timer.order id e) (λ p. cc) refl,
          )
    | inr e ↦ rw (e, cpu_step_from) tt
  ]
  cpu_step_from-Sound cfg o picking at = pick-AfterCpu at
  cpu_step_from-Sound cfg o (getting first) at = elim (Option-cases (get_mlq_proc k.sched)) [
    | inl e ↦ rw (e, cpu_step_from) tt
    | inr ((proc, sched), e) ↦
        rw (e, cpu_step_from)
          (
            slots,
            thru,
            goes _ (getting first) at refl (λ f. cc)
                (elim (Bool-cases (first && (proc == null))) [
                  | inl f ↦ rw f refl
                  | inr f ↦ rw f refl
                ])
                (λ p. elim (Bool-cases (first && (proc == null))) [
                  | inl f ↦ (let bad : signalling false ≡ stopping = rw f at p in cc bad)
                  | inr f ↦ (let bad : rechecking ≡ stopping = rw f at p in cc bad)
                ]),
          )
  ]
  cpu_step_from-Sound cfg o rechecking at = recheck-AfterCpu cfg at
  cpu_step_from-Sound cfg o running at = elim (Bool-cases (k.live (k.cores id).proc)) [
    | inl e ↦ rw (e, cpu_step_from) (run-AfterCpu _ at)
    | inr e ↦ rw (e, cpu_step_from) tt
  ]
  cpu_step_from-Sound cfg o (signalling ran) at = (
    slots,
    thru,
    signals n k.timer k.cores k.loader.place slots thru id v lt _ (ap in_turn at) (ap cpu_phase at)
        (λ active idle next over. announces (active (λ e. (let bad = sym at ∙ e in cc bad))) over),
  )
  cpu_step_from-Sound cfg o announcing at =
      (slots, thru, finishes n k.timer k.cores k.loader.place slots thru id v lt _ at refl)
  cpu_step_from-Sound cfg o resting at = elim (Bool-cases (slot_is_over k.timer id)) [
    | inl e ↦
        rw (e, cpu_step_from)
          (
            update slots id (slots id + 1),
            thru,
            comes_back n k.timer k.cores k.loader.place slots thru id v lt _ at refl e,
          )
    | inr e ↦ rw (e, cpu_step_from) tt
  ]
  cpu_step_from-Sound cfg o stopping at = (
    slots,
    thru,
    signals n k.timer k.cores k.loader.place slots thru id v lt _ (ap in_turn at) (ap cpu_phase at)
        (λ active idle next over. detaches (idle at)),
  )
  cpu_step_from-Sound cfg o detaching at =
      (slots, thru, ends_thread n k.timer k.cores k.loader.place slots thru id v lt _ at refl)
  cpu_step_from-Sound cfg o stopped at = tt

-- There is no step of a CPU that the machine does not have.
no_step :
    (n : ℕ) (cfg : Config) (o : Outside) (k : Kernel) (slots : ℕ → ℕ) (thru : Bool) (id : ℕ)
    → InOrder n k.timer k.cores k.loader.place slots thru
    → n ≤ id
    → AfterCpu n (cpu_step cfg o k id)
unfolding cpu_step cpu_step_from
no_step n cfg o k slots thru id v le = elim (Bool-cases (is_turn k.timer.order (some id))) [
  | inl e ↦
      let here = v.bound id (is_turn-some k.timer.order id e) in absurd (omega (arith, here, le))
  | inr e ↦ (let at = v.outside id le in rw (at, e) tt)
]

pub cpu_step-Sound :
    (n : ℕ) (cfg : Config) (o : Outside) (k k' : Kernel) (id : ℕ)
    → Sound n k
    → cpu_step cfg o k id ≡ done (some k')
    → Sound n k'
unfolding cpu_step
cpu_step-Sound n cfg o k k' id (slots, thru, v) e =
    subst (AfterCpu n) e (elim (Bool-cases (ltb id n)) [
      | inl h ↦
          let lt : id < n = ground (arith, h) in
          cpu_step_from-Sound n k slots thru id v lt cfg o (k.cores id).place refl
      | inr h ↦ no_step n cfg o k slots thru id v (ground (arith, h))
    ])
