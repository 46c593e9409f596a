-- ===== src/Kernel/Choices.antt =====
-- What a CPU does about its process at the top of its loop leaves each process with at most one owner,
-- and uses none after it is freed.
use btl_hdh.Base.{
  ℕ, ◌≡◌, refl, sym, ◌∙◌, subst, ◌≢◌, Bool, true, false, ◌&&◌, Option, none, some, inl, inr, ◌==◌,
  if◌then◌else◌, update, at_index, Bool-cases, ==_refl, arith,
}
use btl_hdh.Base.Run.{Run, done, fault, ◌>>=◌}
use btl_hdh.Queue.{Ptr, null}
use btl_hdh.Sched.{put_mlq_proc}
use btl_hdh.Timer.{Timer}
use btl_hdh.Cpu.{Krnl, Outside, run}
use btl_hdh.Kernel.{
  Config, Place, picking, getting, rechecking, running, signalling, stopping, Core, Kernel,
  set_core, pick, recheck,
}
use btl_hdh.Kernel.Owners.{Owner, nobody, cpu_of, held_at, held, Owned}
use btl_hdh.Kernel.Moves.{core_keeps, cpu_frees}
use btl_hdh.Kernel.Handovers.{cpu_puts}

-- A CPU runs a process only.
abbrev pub RunsOne : Core → Type 0
RunsOne c = c.place ≡ running → c.proc ≢ null

-- Some assignment of owners fits the state.
pub record HasOwners (k : Kernel) : Type 0 where
  pub owner : Ptr → Owner
  pub owned : Owned owner k.live k.procs k.sched k.cores k.loader
  pub runs_one : (id : ℕ) → RunsOne (k.cores id)

-- What a step of a CPU may come to: a state with owners, a wait, or a fault of the instruction that
-- its process runs.
abbrev pub Stepped : Outside → Kernel → Core → Place → Run (Option Kernel) → Type 0
Stepped o k c place (done none) = Unit
Stepped o k c place (done (some k')) = HasOwners k'
Stepped o k c place fault = (place ≡ running) × (run o k.krnl (k.procs c.proc) ≡ fault)

-- Owners do not depend on the rest of the state.
pub elsewhere :
    {k : Kernel} (t : Timer) (krnl : Krnl) (is_done : Bool)
    → HasOwners k
    → HasOwners (record k { timer = t; krnl = krnl; is_done = is_done })
elsewhere t krnl is_done v = record { owner = v.owner; owned = v.owned; runs_one = v.runs_one }

module _ (k : Kernel) (id : ℕ) (v : HasOwners k) where
  pub all_run_one : (c : Core) → RunsOne c → (x : ℕ) → RunsOne (update k.cores id c x)
  all_run_one c h x =
      at_index id (λ y. RunsOne (k.cores y)) (λ y. RunsOne (update k.cores id c y))
        (λ w. rw (==_refl id) h) (λ y off w. rw off w) x (v.runs_one x)

  pub keeps_core : (c : Core) → held c ≡ held (k.cores id) → RunsOne c → HasOwners (set_core k id c)
  keeps_core c e h = record {
    runs_one = all_run_one c h;
    owner = v.owner;
    owned = core_keeps v.owner k.live k.procs k.sched k.cores k.loader v.owned id c e;
  }

  -- The places at which the variable is what the CPU has.
  pub held_is :
      (place : Place)
      → (k.cores id).place ≡ place
      → held (k.cores id) ≡ held_at (k.cores id).proc place
  unfolding held
  held_is place e = rw e refl

  pub live_held : held (k.cores id) ≢ null → k.live (held (k.cores id)) ≡ true
  live_held some_p =
      (v.owned.alive (held (k.cores id))
        (λ n. let bad : cpu_of id ≡ nobody = sym (v.owned.cpus id some_p) ∙ n in cc)).0

  frees :
      (c : Core)
      → held (k.cores id) ≡ (k.cores id).proc
      → (k.cores id).proc ≢ null
      → held c ≡ null
      → RunsOne c
      → HasOwners (set_core (record k { live = update k.live (k.cores id).proc false }) id c)
  frees c mine some_p e h =
      let o =
        subst
          (λ p.
            Owned (update v.owner p nobody) (update k.live p false) k.procs k.sched
              (update k.cores id c) k.loader)
          mine
          (cpu_frees v.owner k.live k.procs k.sched k.cores k.loader v.owned id c (rw mine some_p)
            e) in
      record {
        owner = update v.owner (k.cores id).proc nobody;
        owned = o;
        runs_one = all_run_one c h;
      }

  puts :
      (c : Core)
      → held (k.cores id) ≡ (k.cores id).proc
      → (k.cores id).proc ≢ null
      → held c ≡ null
      → RunsOne c
      → let p = (k.cores id).proc in
        HasOwners (
          set_core
            (record k {
              sched = put_mlq_proc k.sched (record { addr = p; prio = (k.procs p).prio });
            })
            id
            c)
  puts c mine some_p e h =
      let (who', o) =
        cpu_puts v.owner k.live k.procs k.sched k.cores k.loader v.owned id c (rw mine some_p) e in
      record {
        runs_one = all_run_one c h;
        owner = update v.owner (k.cores id).proc who';
        owned =
            subst
              (λ p.
                Owned (update v.owner p who') k.live k.procs
                  (put_mlq_proc k.sched (record { addr = p; prio = (k.procs p).prio }))
                  (update k.cores id c) k.loader)
              mine o;
      }

  pub pick-HasOwners :
      (o : Outside)
      → (k.cores id).place ≡ picking
      → Stepped o k (k.cores id) picking (pick k id (k.cores id) >>= λ k'. done (some k'))
  unfolding pick held held_at
  pick-HasOwners o at =
      let c = k.cores id in
      let mine : held c ≡ c.proc = held_is picking at in
      elim (Bool-cases (c.proc == null)) [
        | inl none_p ↦
            let no_proc : c.proc ≡ null = ground arith in
            rw (none_p, pick)
              (keeps_core (record c { place = getting true }) (sym (mine ∙ no_proc)) (λ e. cc))
        | inr off ↦
            let some_p : c.proc ≢ null = ground arith in
            let alive : k.live c.proc ≡ true =
              subst (λ p. k.live p ≡ true) mine (live_held (rw mine some_p)) in
            elim (Bool-cases ((k.procs c.proc).pc == (k.procs c.proc).code.size)) [
              | inl end ↦
                  rw (off, alive, end, pick)
                    (frees (record c { time_left = 0; place = getting false }) mine some_p refl
                      (λ e. cc))
              | inr more ↦ elim (Bool-cases (c.time_left == 0)) [
                | inl out ↦
                    rw (off, alive, more, out, pick)
                      (puts (record c { place = getting false }) mine some_p refl (λ e. cc))
                | inr left ↦
                    rw (off, alive, more, left, pick)
                      (keeps_core (record c { place = rechecking }) (sym mine) (λ e. cc))
              ]
            ]
      ]

  pub recheck-HasOwners :
      (cfg : Config) → (k.cores id).place ≡ rechecking → HasOwners (recheck cfg k id (k.cores id))
  unfolding recheck held held_at
  recheck-HasOwners cfg at =
      let c = k.cores id in
      let mine : held c ≡ c.proc = held_is rechecking at in
      elim (Bool-cases ((c.proc == null) && k.is_done)) [
        | inl stop ↦
            rw (stop, recheck)
              (elsewhere _ _ _ (keeps_core (record c { place = stopping }) (sym mine) (λ e. cc)))
        | inr on ↦ elim (Bool-cases (c.proc == null)) [
          | inl none_p ↦
              rw (on, none_p, recheck)
                (keeps_core (record c { place = signalling false }) (sym mine) (λ e. cc))
          | inr off ↦
              let some_p : c.proc ≢ null = ground arith in
              rw (on, off, recheck)
                (keeps_core
                  (record c {
                    time_left = if c.time_left == 0 then cfg.time_slot else c.time_left;
                    place = running;
                  })
                  (sym mine) (λ e. some_p))
        ]
      ]
