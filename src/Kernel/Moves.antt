-- ===== src/Kernel/Moves.antt =====
-- The ways in which a process changes, stays where it is, or is freed.
use btl_hdh.Base.{
  ℕ, ◌<◌, ◌≡◌, refl, ◌∙◌, ◌≢◌, Bool, true, false, ◌==◌, update, at_index, ==_refl, arith,
}
use btl_hdh.Queue.{Ptr, null}
use btl_hdh.Sched.{max_prio, Sched}
use btl_hdh.Cpu.{Proc}
use btl_hdh.Kernel.{Core, Loader}
use btl_hdh.Kernel.Owners.{
  Owner, nobody, cpu_of, loader_of, held, has_proc, loaded, Has, Owned, unmoved-Has, unmoved-Queued,
}

pub cpu_apart : (id x : ℕ) → (id == x) ≡ false → cpu_of x ≢ cpu_of id
cpu_apart id x off e = let same : x ≡ id = cc e in absurd (ground (arith, same))

module _ (owner : Ptr → Owner) (live : Ptr → Bool) (procs : Ptr → Proc) (sched : Sched)
    (cores : ℕ → Core) (loader : Loader) (o : Owned owner live procs sched cores loader) where
  -- The variables of a CPU and of the loader after a step in which each keeps what it has.
  pub core_keeps :
      (id : ℕ) (c : Core)
      → held c ≡ held (cores id)
      → Owned owner live procs sched (update cores id c) loader
  core_keeps id c e = record {
    inv = o.inv;
    queues = o.queues;
    cpus = λ x.
        at_index id (λ y. Has owner (cpu_of y) (held (cores y)))
          (λ y. Has owner (cpu_of y) (held (update cores id c y))) (λ h. rw (==_refl id, e) h)
          (λ y off h. rw off h) x (o.cpus x);
    ld = o.ld;
    real = o.real;
    alive = o.alive;
  }

  pub loader_keeps :
      (l : Loader)
      → has_proc l.place ≡ has_proc loader.place
      → l.proc ≡ loader.proc
      → Owned owner live procs sched cores l
  unfolding loaded
  loader_keeps l h e = record {
    inv = o.inv;
    queues = o.queues;
    cpus = o.cpus;
    ld = rw (h, e) o.ld;
    real = rw (h, e) o.real;
    alive = o.alive;
  }

  -- A process changes in place, with the same priority.
  pub proc_changes :
      (p : Ptr) (proc : Proc)
      → proc.prio ≡ (procs p).prio
      → Owned owner live (update procs p proc) sched cores loader
  proc_changes p proc e = record {
    inv = o.inv;
    queues = o.queues;
    cpus = o.cpus;
    ld = o.ld;
    real = o.real;
    alive = λ q.
        at_index p (λ x. owner x ≢ nobody → (live x ≡ true) × ((procs x).prio < max_prio))
          (λ x. owner x ≢ nobody → (live x ≡ true) × ((update procs p proc x).prio < max_prio))
          (λ h ne. rw (==_refl p, e) (h ne)) (λ x off h ne. rw off (h ne)) q (o.alive q);
  }

  -- A process `p` goes from `who` to `who'`: what the others have.
  module _ (p : Ptr) (who who' : Owner) (at : owner p ≡ who) where
    pub cpus_moved :
        (id : ℕ) (c : Core)
        → ((x : ℕ) → (id == x) ≡ false → cpu_of x ≢ who)
        → Has (update owner p who') (cpu_of id) (held c)
        → (x : ℕ) → Has (update owner p who') (cpu_of x) (held (update cores id c x))
    cpus_moved id c ne mine x =
        at_index id (λ y. Has owner (cpu_of y) (held (cores y)))
          (λ y. Has (update owner p who') (cpu_of y) (held (update cores id c y)))
          (λ h. rw (==_refl id) mine)
          (λ y off h.
            rw off (unmoved-Has owner p who who' at (cpu_of y) (held (cores y)) (ne y off) h))
          x (o.cpus x)

    pub alive_moved :
        (live' : Ptr → Bool) (procs' : Ptr → Proc)
        → (who' ≢ nobody → (live' p ≡ true) × ((procs' p).prio < max_prio))
        → ((q : Ptr) → (p == q) ≡ false → (live' q ≡ live q) × (procs' q ≡ procs q))
        → (q : Ptr) → update owner p who' q ≢ nobody
        → (live' q ≡ true) × ((procs' q).prio < max_prio)
    alive_moved live' procs' here there q =
        at_index p (λ x. owner x ≢ nobody → (live x ≡ true) × ((procs x).prio < max_prio))
          (λ x. update owner p who' x ≢ nobody → (live' x ≡ true) × ((procs' x).prio < max_prio))
          (λ h ne. here (λ e. ne (rw (==_refl p) e)))
          (λ x off h ne.
            let (l, r) = there x off in let (l', r') = h (λ e. ne (rw off e)) in (l ∙ l', rw r r'))
          q (o.alive q)

  -- A CPU's process is freed, and the CPU has none.
  pub cpu_frees :
      (id : ℕ) (c : Core)
      → held (cores id) ≢ null
      → held c ≡ null
      → Owned
          (update owner (held (cores id)) nobody)
          (update live (held (cores id)) false)
          procs
          sched
          (update cores id c)
          loader
  cpu_frees id c some_p e =
      let p = held (cores id) in
      let at : owner p ≡ cpu_of id = o.cpus id some_p in
      record {
        inv = o.inv;
        queues = λ i lt. unmoved-Queued owner p (cpu_of id) nobody at i _ (λ x. cc) (o.queues i lt);
        cpus = cpus_moved p (cpu_of id) nobody at id c (cpu_apart id) (λ h. absurd (h e));
        ld = unmoved-Has owner p (cpu_of id) nobody at loader_of _ (λ x. cc) o.ld;
        real = o.real;
        alive =
            alive_moved p (cpu_of id) nobody at (update live p false) procs (λ h. absurd (h refl))
              (λ q off. (rw off refl, refl));
      }
