-- ===== src/Kernel/Counters.antt =====
-- The program counters: a process that is not freed never passes the end of its code.
use btl_hdh.Base.{
  ℕ, ◌≤◌, ◌≡◌, refl, ap, sym, ◌∙◌, subst, inl, inr, Bool, true, false, ◌&&◌, Option, none, some,
  ◌==◌, ltb, update, at_index, Bool-cases, Option-cases, ==_refl, arith, ◌%◌, ◌^◌,
}
use btl_hdh.Base.Run.{Run, done, fault, ◌>>=◌}
use btl_hdh.Base.Int.{ℤ}
use btl_hdh.Queue.{Ptr, null}
use btl_hdh.Sched.{get_mlq_proc}
use btl_hdh.CpuOrder.{is_turn}
use btl_hdh.Timer.{slot_is_over}
use btl_hdh.Cpu.{Proc, Krnl, Outside}
use btl_hdh.Cpu.Progress.{Keeps, faults, keeps, next_pc, run-Keeps}
use btl_hdh.Kernel.{
  Config, Place, waiting, picking, getting, rechecking, running, signalling, announcing, resting,
  stopping, detaching, stopped, LdPlace, first_turn, first_signal, loading, until_start, publishing,
  ld_signalling, ld_announcing, ld_resting, ld_turn, finishing, leaving, ld_detaching, ld_ended,
  Kernel, Loading, set_core, pick, recheck, cpu_step_from, cpu_step, load, publish, ld_step_from,
  ld_step,
}
use btl_hdh.Kernel.Exclusive.{Reached, at_start, cpu_goes, loader_goes, timer_goes}

abbrev InCode : Proc → Type 0
InCode proc = proc.pc ≤ proc.code.size

-- Every process that is not freed has its counter within its code or at its end.
abbrev Counted : (Ptr → Bool) → (Ptr → Proc) → Type 0
Counted live procs = (p : Ptr) → live p ≡ true → InCode (procs p)

abbrev AfterCpu : Run (Option Kernel) → Type 0
AfterCpu (done none) = Unit
AfterCpu (done (some k)) = Counted k.live k.procs
AfterCpu fault = Unit

abbrev AfterLd : Option Kernel → Type 0
AfterLd none = Unit
AfterLd (some k) = Counted k.live k.procs

-- A process that is freed does not count, and one that changes has to be in its code.
freed :
    (live : Ptr → Bool) (procs : Ptr → Proc) (p : Ptr)
    → Counted live procs
    → Counted (update live p false) procs
freed live procs p v q =
    at_index p (λ x. live x ≡ true → InCode (procs x))
      (λ x. update live p false x ≡ true → InCode (procs x))
      (λ w h. absurd (ground (arith, h, ==_refl p))) (λ x off w h. w (rw off at h)) q (v q)

changed :
    (live live' : Ptr → Bool) (procs : Ptr → Proc) (p : Ptr) (proc : Proc)
    → InCode proc
    → ((q : Ptr) → (p == q) ≡ false → live' q ≡ live q)
    → Counted live procs
    → Counted live' (update procs p proc)
changed live live' procs p proc in_code same v q =
    at_index p (λ x. live x ≡ true → InCode (procs x))
      (λ x. live' x ≡ true → InCode (update procs p proc x)) (λ w h. rw (==_refl p) in_code)
      (λ x off w h. rw off (w (sym (same x off) ∙ h))) q (v q)

next_pc-InCode : (proc : Proc) → InCode proc → next_pc proc ≤ proc.code.size
next_pc-InCode proc h = ground arith

module _ (k : Kernel) (id : ℕ) (v : Counted k.live k.procs) where
  pick-Counted : AfterCpu (pick k id (k.cores id) >>= λ k'. done (some k'))
  unfolding pick
  pick-Counted =
      let c = k.cores id in
      elim (Bool-cases (c.proc == null)) [
        | inl a ↦ rw (a, pick) v
        | inr a ↦ elim (Bool-cases (k.live c.proc)) [
          | inr b ↦ rw (a, b, pick) tt
          | inl b ↦ elim (Bool-cases ((k.procs c.proc).pc == (k.procs c.proc).code.size)) [
            | inl d ↦ rw (a, b, d, pick) (freed k.live k.procs c.proc v)
            | inr d ↦ elim (Bool-cases (c.time_left == 0)) [
              | inl e ↦ rw (a, b, d, e, pick) v
              | inr e ↦ rw (a, b, d, e, pick) v
            ]
          ]
        ]
      ]

  recheck-Counted :
      (cfg : Config) → let k' = recheck cfg k id (k.cores id) in Counted k'.live k'.procs
  unfolding recheck
  recheck-Counted cfg =
      let c = k.cores id in
      elim (Bool-cases ((c.proc == null) && k.is_done)) [
        | inl a ↦ rw (a, recheck) v
        | inr a ↦ elim (Bool-cases (c.proc == null)) [
          | inl b ↦ rw (a, b, recheck) v
          | inr b ↦ rw (a, b, recheck) v
        ]
      ]

  run-Counted :
      (r : Run (ℤ × Krnl × Proc))
      → k.live (k.cores id).proc ≡ true
      → Keeps (k.procs (k.cores id).proc) (next_pc (k.procs (k.cores id).proc)) r
      → AfterCpu (
          r >>= λ (stat, krnl, proc). done (
            some (
              set_core
                (record k { krnl = krnl; procs = update k.procs (k.cores id).proc proc })
                id
                (record (k.cores id) { place = signalling true }))))
  run-Counted _ alive faults = tt
  run-Counted _ alive (keeps {proc' = proc} code prio pc) =
      let p = (k.cores id).proc in
      let size : proc.code.size ≡ (k.procs p).code.size = ap (λ x. x.size) code in
      let within = next_pc-InCode (k.procs p) (v p alive) in
      changed k.live k.live k.procs p proc (omega (arith, size, pc, within)) (λ q off. refl) v

  cpu_step_from-Counted :
      (cfg : Config) (o : Outside) (place : Place)
      → AfterCpu (cpu_step_from cfg o k id (k.cores id) place)
  unfolding cpu_step_from
  cpu_step_from-Counted cfg o waiting = elim (Bool-cases (is_turn k.timer.order (some id))) [
    | inl e ↦ rw (e, cpu_step_from) v
    | inr e ↦ rw (e, cpu_step_from) tt
  ]
  cpu_step_from-Counted cfg o picking = pick-Counted
  cpu_step_from-Counted cfg o (getting first) = elim (Option-cases (get_mlq_proc k.sched)) [
    | inl e ↦ rw (e, cpu_step_from) tt
    | inr (got, e) ↦ rw (e, cpu_step_from) v
  ]
  cpu_step_from-Counted cfg o rechecking = recheck-Counted cfg
  cpu_step_from-Counted cfg o running = elim (Bool-cases (k.live (k.cores id).proc)) [
    | inl e ↦
        let proc = k.procs (k.cores id).proc in
        rw (e, cpu_step_from) (run-Counted _ e (run-Keeps o k.krnl proc))
    | inr e ↦ rw (e, cpu_step_from) tt
  ]
  cpu_step_from-Counted cfg o (signalling ran) = v
  cpu_step_from-Counted cfg o announcing = v
  cpu_step_from-Counted cfg o resting = elim (Bool-cases (slot_is_over k.timer id)) [
    | inl e ↦ rw (e, cpu_step_from) v
    | inr e ↦ rw (e, cpu_step_from) tt
  ]
  cpu_step_from-Counted cfg o stopping = v
  cpu_step_from-Counted cfg o detaching = v
  cpu_step_from-Counted cfg o stopped = tt

  cpu_step-Counted :
      (cfg : Config) (o : Outside) (k' : Kernel)
      → cpu_step cfg o k id ≡ done (some k')
      → Counted k'.live k'.procs
  unfolding cpu_step
  cpu_step-Counted cfg o k' e = subst AfterCpu e (cpu_step_from-Counted cfg o (k.cores id).place)

module _ (cfg : Config) (l : Loading) (k : Kernel) (v : Counted k.live k.procs) where
  loads-Counted : AfterLd (ld_step_from cfg l k loading)
  unfolding ld_step_from load
  loads-Counted = elim (Bool-cases (ltb k.loader.i cfg.num_processes)) [
    | inr e ↦ rw (e, ld_step_from) v
    | inl e ↦
        rw (e, ld_step_from)
          (changed k.live (update k.live l.address true) k.procs l.address
            (record (load (cfg.code k.loader.i) l.raw_mm) { prio = cfg.prio k.loader.i % 2 ^ 32 })
            (omega arith) (λ q off. rw off refl) v)
  ]

  publishes-Counted : AfterLd (ld_step_from cfg l k publishing)
  unfolding ld_step_from publish
  publishes-Counted p alive =
      at_index k.loader.proc (λ x. k.live x ≡ true → InCode (k.procs x))
        (λ x. k.live x ≡ true → InCode ((publish l k).procs x))
        (λ w h. rw (==_refl k.loader.proc) (w h)) (λ x off w h. rw off (w h)) p (v p) alive

  ld_step_from-Counted : (place : LdPlace) → AfterLd (ld_step_from cfg l k place)
  unfolding ld_step_from
  ld_step_from-Counted first_turn = elim (Bool-cases (is_turn k.timer.order none)) [
    | inl e ↦ rw (e, ld_step_from) v
    | inr e ↦ rw (e, ld_step_from) tt
  ]
  ld_step_from-Counted first_signal = v
  ld_step_from-Counted loading = loads-Counted
  ld_step_from-Counted until_start = v
  ld_step_from-Counted publishing = publishes-Counted
  ld_step_from-Counted (ld_signalling again) = v
  ld_step_from-Counted (ld_announcing again) = v
  ld_step_from-Counted (ld_resting again) = elim (Bool-cases (slot_is_over k.timer cfg.num_cpus)) [
    | inl e ↦ rw (e, ld_step_from) v
    | inr e ↦ rw (e, ld_step_from) tt
  ]
  ld_step_from-Counted (ld_turn again) = elim (Bool-cases (is_turn k.timer.order none)) [
    | inl e ↦ rw (e, ld_step_from) v
    | inr e ↦ rw (e, ld_step_from) tt
  ]
  ld_step_from-Counted finishing = v
  ld_step_from-Counted leaving = v
  ld_step_from-Counted ld_detaching = v
  ld_step_from-Counted ld_ended = tt

  ld_step-Counted : (k' : Kernel) → ld_step cfg l k ≡ some k' → Counted k'.live k'.procs
  unfolding ld_step
  ld_step-Counted k' e = subst AfterLd e (ld_step_from-Counted k.loader.place)

-- In every state that the threads reach from one without processes, a process that is not freed has
-- its program counter within its code or at its end: a CPU that tests `pc == size` after each
-- instruction does not miss the end.
pub Reached-counters :
    (cfg : Config) (start k : Kernel) (p : Ptr)
    → ((q : Ptr) → start.live q ≡ false)
    → Reached cfg start k
    → k.live p ≡ true
    → (k.procs p).pc ≤ (k.procs p).code.size
Reached-counters cfg start _ p none_live at_start alive =
    absurd (let bad : true ≡ false = sym alive ∙ none_live p in cc)
Reached-counters cfg start _ p none_live (cpu_goes {k = k} {k' = k'} o id r e) alive =
    cpu_step-Counted k id (λ q a. Reached-counters cfg start k q none_live r a) cfg o k' e p alive
Reached-counters cfg start _ p none_live (loader_goes {k = k} {k' = k'} l r fresh e) alive =
    ld_step-Counted cfg l k (λ q a. Reached-counters cfg start k q none_live r a) k' e p alive
Reached-counters cfg start _ p none_live (timer_goes {k = k} r e) alive =
    Reached-counters cfg start k p none_live r alive
