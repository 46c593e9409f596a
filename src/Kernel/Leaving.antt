-- ===== src/Kernel/Leaving.antt =====
-- What a step of a CPU leaves alone: the loader, the clock and `done`; and where it leaves its loop.
use btl_hdh.Base.{
  ℕ, ◌≡◌, refl, sym, ◌∙◌, inl, inr, Bool, true, false, ◌&&◌, Option, none, some, ◌==◌, update,
  at_index, Bool-cases, Option-cases, ==_refl, arith,
}
use btl_hdh.Base.Run.{Run, done, fault, ◌>>=◌}
use btl_hdh.Base.Int.{ℤ}
use btl_hdh.Queue.{null}
use btl_hdh.Sched.{get_mlq_proc}
use btl_hdh.CpuOrder.{is_turn}
use btl_hdh.Timer.{finish_slot, detach_event, slot_is_over}
use btl_hdh.Cpu.{Proc, Krnl, Outside}
use btl_hdh.Kernel.{
  Config, Place, waiting, picking, getting, rechecking, running, signalling, announcing, resting,
  stopping, detaching, stopped, Core, Kernel, set_core, pick, recheck, cpu_step_from,
}

-- A CPU at one of these places has left its loop.
abbrev pub has_left : Place → Bool
has_left waiting = false
has_left picking = false
has_left (getting first) = false
has_left rechecking = false
has_left running = false
has_left (signalling ran) = false
has_left announcing = false
has_left resting = false
has_left stopping = true
has_left detaching = true
has_left stopped = true

abbrev pub Leaves : Bool → (ℕ → Core) → Type 0
Leaves is_done cores = (id : ℕ) → has_left (cores id).place ≡ true → is_done ≡ true

-- A CPU leaves the loader, the clock and `done` alone, and stops only where `done` is set.
abbrev pub ByCpu : Kernel → Run (Option Kernel) → Type 0
ByCpu k (done none) = Unit
ByCpu k (done (some k')) =
    (k'.timer.time ≡ k.timer.time)
    × (k'.loader ≡ k.loader)
    × (k'.is_done ≡ k.is_done)
    × Leaves k.is_done k'.cores
ByCpu k fault = Unit

module _ (k : Kernel) (id : ℕ) (v : Leaves k.is_done k.cores) where
  moves :
      (c : Core)
      → (has_left c.place ≡ true → k.is_done ≡ true)
      → Leaves k.is_done (update k.cores id c)
  moves c h q =
      at_index id (λ x. has_left (k.cores x).place ≡ true → k.is_done ≡ true)
        (λ x. has_left (update k.cores id c x).place ≡ true → k.is_done ≡ true)
        (λ w. rw (==_refl id) h) (λ x off w. rw off w) q (v q)

  stays : (c : Core) → has_left c.place ≡ false → Leaves k.is_done (update k.cores id c)
  stays c e = moves c (λ h. absurd (let bad : true ≡ false = sym h ∙ e in cc))

  pick-ByCpu : ByCpu k (pick k id (k.cores id) >>= λ k'. done (some k'))
  unfolding pick
  pick-ByCpu =
      let c = k.cores id in
      elim (Bool-cases (c.proc == null)) [
        | inl a ↦ rw (a, pick) (refl, refl, refl, stays _ refl)
        | inr a ↦ elim (Bool-cases (k.live c.proc)) [
          | inr b ↦ rw (a, b, pick) tt
          | inl b ↦ elim (Bool-cases ((k.procs c.proc).pc == (k.procs c.proc).code.size)) [
            | inl d ↦ rw (a, b, d, pick) (refl, refl, refl, stays _ refl)
            | inr d ↦ elim (Bool-cases (c.time_left == 0)) [
              | inl e ↦ rw (a, b, d, e, pick) (refl, refl, refl, stays _ refl)
              | inr e ↦ rw (a, b, d, e, pick) (refl, refl, refl, stays _ refl)
            ]
          ]
        ]
      ]

  recheck-ByCpu : (cfg : Config) → ByCpu k (done (some (recheck cfg k id (k.cores id))))
  unfolding recheck
  recheck-ByCpu cfg =
      let c = k.cores id in
      elim (Bool-cases ((c.proc == null) && k.is_done)) [
        | inl a ↦
            let over : k.is_done ≡ true = ground (arith, a) in
            rw (a, recheck) (refl, refl, refl, moves _ (λ h. over))
        | inr a ↦ elim (Bool-cases (c.proc == null)) [
          | inl b ↦ rw (a, b, recheck) (refl, refl, refl, stays _ refl)
          | inr b ↦ rw (a, b, recheck) (refl, refl, refl, stays _ refl)
        ]
      ]

  run-ByCpu :
      (r : Run (ℤ × Krnl × Proc))
      → ByCpu k (
          r >>= λ (stat, krnl, proc). done (
            some (
              set_core
                (record k { krnl = krnl; procs = update k.procs (k.cores id).proc proc })
                id
                (record (k.cores id) { place = signalling true }))))
  run-ByCpu fault = tt
  run-ByCpu (done (stat, krnl, proc)) = (refl, refl, refl, stays _ refl)

  pub cpu_step_from-ByCpu :
      (cfg : Config) (o : Outside) (place : Place)
      → (k.cores id).place ≡ place
      → ByCpu k (cpu_step_from cfg o k id (k.cores id) place)
  unfolding cpu_step_from finish_slot detach_event
  cpu_step_from-ByCpu cfg o waiting at = elim (Bool-cases (is_turn k.timer.order (some id))) [
    | inl e ↦ rw (e, cpu_step_from) (refl, refl, refl, stays _ refl)
    | inr e ↦ rw (e, cpu_step_from) tt
  ]
  cpu_step_from-ByCpu cfg o picking at = pick-ByCpu
  cpu_step_from-ByCpu cfg o (getting first) at = elim (Option-cases (get_mlq_proc k.sched)) [
    | inl e ↦ rw (e, cpu_step_from) tt
    | inr ((proc, sched), e) ↦
        rw (e, cpu_step_from)
          (
            refl,
            refl,
            refl,
            stays _ (elim (Bool-cases (first && (proc == null))) [
              | inl f ↦ rw f refl
              | inr f ↦ rw f refl
            ]),
          )
  ]
  cpu_step_from-ByCpu cfg o rechecking at = recheck-ByCpu cfg
  cpu_step_from-ByCpu cfg o running at = elim (Bool-cases (k.live (k.cores id).proc)) [
    | inl e ↦ rw (e, cpu_step_from) (run-ByCpu _)
    | inr e ↦ rw (e, cpu_step_from) tt
  ]
  cpu_step_from-ByCpu cfg o (signalling ran) at = (refl, refl, refl, stays _ refl)
  cpu_step_from-ByCpu cfg o announcing at = (refl, refl, refl, stays _ refl)
  cpu_step_from-ByCpu cfg o resting at = elim (Bool-cases (slot_is_over k.timer id)) [
    | inl e ↦ rw (e, cpu_step_from) (refl, refl, refl, stays _ refl)
    | inr e ↦ rw (e, cpu_step_from) tt
  ]
  cpu_step_from-ByCpu cfg o stopping at = (refl, refl, refl, moves _ (λ h. v id (rw at refl)))
  cpu_step_from-ByCpu cfg o detaching at = (refl, refl, refl, moves _ (λ h. v id (rw at refl)))
  cpu_step_from-ByCpu cfg o stopped at = tt
