-- ===== src/Kernel/Cores.antt =====
-- The steps of a CPU leave each process with at most one owner, and use none after it is freed.
use btl_hdh.Base.{
  ℕ, ◌-◌, ◌≡◌, refl, sym, subst, ◌≢◌, Bool, true, false, ◌&&◌, some, inl, inr, ◌==◌, if◌then◌else◌,
  update, Bool-cases, Option-cases,
}
use btl_hdh.Base.Run.{Run, done, ◌>>=◌}
use btl_hdh.Base.Int.{ℤ}
use btl_hdh.Queue.{Ptr, null}
use btl_hdh.Sched.{get_mlq_proc}
use btl_hdh.CpuOrder.{is_turn}
use btl_hdh.Timer.{slot_is_over}
use btl_hdh.Cpu.{Proc, Krnl, Outside, run}
use btl_hdh.Cpu.Progress.{Keeps, faults, keeps, next_pc, run-Keeps}
use btl_hdh.Kernel.{
  Config, Place, waiting, picking, getting, rechecking, running, signalling, announcing, resting,
  stopping, detaching, stopped, Core, Kernel, set_core, cpu_step_from,
}
use btl_hdh.Kernel.Owners.{held_at, held}
use btl_hdh.Kernel.Moves.{core_keeps, proc_changes}
use btl_hdh.Kernel.Handovers.{cpu_gets}
use btl_hdh.Kernel.Choices.{
  HasOwners, Stepped, elsewhere, all_run_one, keeps_core, held_is, live_held, pick-HasOwners,
  recheck-HasOwners,
}

placed :
    (first none_p : Bool) {p : Ptr}
    → (if first && none_p then signalling false else rechecking) ≡ running
    → p ≢ null
placed true true e = cc
placed true false e = cc
placed false none_p e = cc

module _ (k : Kernel) (id : ℕ) (v : HasOwners k) where
  gets-HasOwners :
      (cfg : Config) (o : Outside) (first : Bool)
      → Stepped o k
          (k.cores id)
          (getting first)
          (cpu_step_from cfg o k id (k.cores id) (getting first))
  unfolding cpu_step_from held held_at
  gets-HasOwners cfg o first =
      let got = cpu_gets v.owner k.live k.procs k.sched k.cores k.loader v.owned id in
      elim (Option-cases (get_mlq_proc k.sched)) [
        | inl e ↦ absurd (rw e at got)
        | inr ((p, s), e) ↦
            let c : Core = record (k.cores id) {
              proc = p;
              place = if first && (p == null) then signalling false else rechecking;
            } in
            let mine : held c ≡ p = elim (Bool-cases (first && (p == null))) [
              | inl b ↦ rw b refl
              | inr b ↦ rw b refl
            ] in
            let (owner', owned') = (rw e at got) c mine in
            rw (e, cpu_step_from)
              (record {
                owner = owner';
                owned = owned';
                runs_one = all_run_one k id v c (placed first (p == null));
              })
      ]

  -- The process comes back from `run` with its priority.
  ran-Stepped :
      (o : Outside) (r : Run (ℤ × Krnl × Proc)) (pc : ℕ)
      → run o k.krnl (k.procs (k.cores id).proc) ≡ r
      → (k.cores id).place ≡ running
      → Keeps (k.procs (k.cores id).proc) pc r
      → Stepped o k (k.cores id) running (
          r >>= λ (stat, krnl, proc). done (
            some (
              set_core
                (record k { krnl = krnl; procs = update k.procs (k.cores id).proc proc })
                id
                (record (k.cores id) { place = signalling true }))))
  unfolding held held_at
  ran-Stepped o _ pc e at faults = (refl, e)
  ran-Stepped o _ pc e at (keeps {proc' = proc} code prio at_pc) =
      let c : Core = record (k.cores id) { place = signalling true } in
      let o' =
        core_keeps v.owner k.live k.procs k.sched k.cores k.loader v.owned id c
          (sym (held_is k id v running at)) in
      record {
        owner = v.owner;
        owned =
            proc_changes v.owner k.live k.procs k.sched _ k.loader o' (k.cores id).proc proc prio;
        runs_one = all_run_one k id v c (λ b. cc);
      }

  run-Stepped :
      (cfg : Config) (o : Outside)
      → (k.cores id).place ≡ running
      → Stepped o k (k.cores id) running (cpu_step_from cfg o k id (k.cores id) running)
  unfolding cpu_step_from held held_at
  run-Stepped cfg o at =
      let c = k.cores id in
      let mine : held c ≡ c.proc = held_is k id v running at in
      let alive : k.live c.proc ≡ true =
        subst (λ p. k.live p ≡ true) mine (live_held k id v (rw mine (v.runs_one id at))) in
      rw (alive, cpu_step_from)
        (ran-Stepped o _ (next_pc (k.procs c.proc)) refl at (run-Keeps o k.krnl (k.procs c.proc)))

  pub cpu_step_from-Stepped :
      (cfg : Config) (o : Outside) (place : Place)
      → (k.cores id).place ≡ place
      → Stepped o k (k.cores id) place (cpu_step_from cfg o k id (k.cores id) place)
  unfolding cpu_step_from held held_at
  cpu_step_from-Stepped cfg o waiting at =
      let mine = held_is k id v waiting at in
      elim (Bool-cases (is_turn k.timer.order (some id))) [
        | inl e ↦
            rw (e, cpu_step_from)
              (keeps_core k id v (record (k.cores id) { place = picking }) (sym mine) (λ b. cc))
        | inr e ↦ rw (e, cpu_step_from) tt
      ]
  cpu_step_from-Stepped cfg o picking at = pick-HasOwners k id v o at
  cpu_step_from-Stepped cfg o (getting first) at = gets-HasOwners cfg o first
  cpu_step_from-Stepped cfg o rechecking at = recheck-HasOwners k id v cfg at
  cpu_step_from-Stepped cfg o running at = run-Stepped cfg o at
  cpu_step_from-Stepped cfg o (signalling ran) at = elsewhere _ _ _ (
      keeps_core k id v
        (record (k.cores id) {
          time_left = if ran then (k.cores id).time_left - 1 else (k.cores id).time_left;
          place = announcing;
        })
        (sym (held_is k id v (signalling ran) at)) (λ b. cc))
  cpu_step_from-Stepped cfg o announcing at = elsewhere _ _ _ (
      keeps_core k id v (record (k.cores id) { place = resting })
        (sym (held_is k id v announcing at)) (λ b. cc))
  cpu_step_from-Stepped cfg o resting at =
      let mine = held_is k id v resting at in
      elim (Bool-cases (slot_is_over k.timer id)) [
        | inl e ↦
            rw (e, cpu_step_from)
              (keeps_core k id v (record (k.cores id) { place = waiting }) (sym mine) (λ b. cc))
        | inr e ↦ rw (e, cpu_step_from) tt
      ]
  cpu_step_from-Stepped cfg o stopping at = elsewhere _ _ _ (
      keeps_core k id v (record (k.cores id) { place = detaching })
        (sym (held_is k id v stopping at)) (λ b. cc))
  cpu_step_from-Stepped cfg o detaching at = elsewhere _ _ _ (
      keeps_core k id v (record (k.cores id) { place = stopped })
        (sym (held_is k id v detaching at)) (λ b. cc))
  cpu_step_from-Stepped cfg o stopped at = tt
