-- ===== src/Kernel/Handovers.antt =====
-- The ways in which a process goes from a thread to the scheduler, or from there to a CPU, and how a
-- new one comes.
use btl_hdh.Base.{
  ℕ, ◌<◌, ◌≡◌, refl, sym, ◌∙◌, subst, ◌≢◌, Bool, true, false, List, inl, inr, ◌==◌, if◌then◌else◌,
  update, at_index, All, Distinct, Bool-cases, ==_refl, arith, leb, length, Option, none, some, ◌⊎◌,
}
use btl_hdh.Queue.{Ptr, null, contents, max_queue_size}
use btl_hdh.Sched.{max_prio, Sched, get_mlq_proc, put_mlq_proc, add_mlq_proc}
use btl_hdh.Sched.Stages.{Served, Idle, Outcome, idles, serves}
use btl_hdh.Sched.Priority.{get_mlq_proc-Outcome}
use btl_hdh.Sched.Moves.{appended, put_mlq_proc-contents}
use btl_hdh.Cpu.{Proc}
use btl_hdh.Kernel.{Core, Loader}
use btl_hdh.Kernel.Owners.{
  Owner, nobody, queue_of, cpu_of, loader_of, held, has_proc, loaded, Has, Queued, Owned,
  unmoved-Has, unmoved-Queued, absent, joined-All, others_unmoved, Distinct-append,
}
use btl_hdh.Kernel.Moves.{cpu_apart, cpus_moved, alive_moved}

Owner-cases : (w : Owner) → (w ≡ nobody) ⊎ (w ≢ nobody)
Owner-cases nobody = inl refl
Owner-cases (queue_of i) = inr (λ e. cc)
Owner-cases (cpu_of id) = inr (λ e. cc)
Owner-cases loader_of = inr (λ e. cc)

module _ (owner : Ptr → Owner) (live : Ptr → Bool) (procs : Ptr → Proc) (sched : Sched)
    (cores : ℕ → Core) (loader : Loader) (o : Owned owner live procs sched cores loader) where
  -- A process at the end of the queue of its priority, or dropped if that is full.
  module _ (p : Ptr) (who : Owner) (prio : ℕ) (at : owner p ≡ who) (some_p : p ≢ null)
      (no_queue : (i : ℕ) → queue_of i ≢ who) where
    -- Who has it then.
    dest : Owner
    dest =
        if leb max_queue_size (length (contents (sched.mlq_ready_queue prio)))
        then nobody
        else queue_of prio

    after : ℕ → List Ptr
    after i = let xs = contents (sched.mlq_ready_queue i) in if prio == i then appended xs p else xs

    after-Queued : (i : ℕ) → i < max_prio → Queued (update owner p dest) i (after i)
    unfolding dest after appended
    after-Queued i lt =
        let q = o.queues i lt in
        let keep = unmoved-Queued owner p who dest at i _ (no_queue i) q in
        elim (Bool-cases (prio == i)) [
          | inr off ↦ rw off keep
          | inl on ↦
              let same : prio ≡ i = ground arith in
              let xs = contents (sched.mlq_ready_queue i) in
              let real : (p == null) ≡ false = ground arith in
              elim (Bool-cases (leb max_queue_size (length xs))) [
                | inl full ↦ rw (on, real, full) keep
                | inr room ↦
                    let goes : dest ≡ queue_of i = rw (same, room) refl in
                    rw (on, real, room)
                      (record {
                        own = joined-All owner p who dest at i xs keep.own goes;
                        once =
                            Distinct-append p xs
                              (absent owner p who dest at i xs (no_queue i) q.own) q.once;
                      })
              ]
        ]

  -- A CPU's process goes back to the scheduler.
  pub cpu_puts :
      (id : ℕ) (c : Core)
      → held (cores id) ≢ null
      → held c ≡ null
      → let p = held (cores id) in
        (who' : Owner) × Owned
          (update owner p who')
          live
          procs
          (put_mlq_proc sched (record { addr = p; prio = (procs p).prio }))
          (update cores id c)
          loader
  unfolding after
  cpu_puts id c some_p e =
      let p = held (cores id) in
      let at : owner p ≡ cpu_of id = o.cpus id some_p in
      let ne : owner p ≢ nobody = λ n. (let bad : cpu_of id ≡ nobody = sym at ∙ n in cc) in
      let (l, lt) = o.alive p ne in
      let to = dest p (cpu_of id) (procs p).prio at some_p (λ i. cc) in
      let put = λ (i : ℕ).
        put_mlq_proc-contents sched (record { addr = p; prio = (procs p).prio }) i o.inv some_p
          lt in
      (
        to,
        record {
          inv = (put 0).0;
          queues = λ i i_lt.
              subst (Queued (update owner p to) i) (sym (put i).2)
                (after-Queued p (cpu_of id) (procs p).prio at some_p (λ j. cc) i i_lt);
          cpus =
              cpus_moved owner live procs sched cores loader o p (cpu_of id) to at id c
                (cpu_apart id) (λ h. absurd (h e));
          ld = unmoved-Has owner p (cpu_of id) to at loader_of _ (λ x. cc) o.ld;
          real = o.real;
          alive =
              alive_moved owner live procs sched cores loader o p (cpu_of id) to at live procs
                (λ h. (l, lt)) (λ q off. (refl, refl));
        },
      )

  -- The loader's process goes to the scheduler.
  pub loader_adds :
      (l : Loader) (proc : Proc)
      → has_proc loader.place ≡ true
      → has_proc l.place ≡ false
      → proc.prio ≡ (procs loader.proc).prio
      → let p = loader.proc in
        (who' : Owner) × Owned
          (update owner p who')
          live
          (update procs p proc)
          (add_mlq_proc sched (record { addr = p; prio = (procs p).prio }))
          cores
          l
  unfolding after loaded
  loader_adds l proc holds left same_prio =
      let p = loader.proc in
      let some_p = o.real holds in
      let at : owner p ≡ loader_of = rw holds at o.ld some_p in
      let ne : owner p ≢ nobody = λ n. (let bad : loader_of ≡ nobody = sym at ∙ n in cc) in
      let (live_p, lt) = o.alive p ne in
      let to = dest p loader_of (procs p).prio at some_p (λ i. cc) in
      let put = λ (i : ℕ).
        put_mlq_proc-contents sched (record { addr = p; prio = (procs p).prio }) i o.inv some_p
          lt in
      (
        to,
        record {
          inv = (put 0).1;
          queues = λ i i_lt.
              subst (Queued (update owner p to) i) (sym (put i).3)
                (after-Queued p loader_of (procs p).prio at some_p (λ j. cc) i i_lt);
          cpus = λ x. unmoved-Has owner p loader_of to at (cpu_of x) _ (λ y. cc) (o.cpus x);
          ld = rw left (λ h. absurd (h refl));
          real = rw left (λ h. cc);
          alive =
              alive_moved owner live procs sched cores loader o p loader_of to at live
                (update procs p proc) (λ h. (live_p, rw (==_refl p, same_prio) lt))
                (λ q off. (refl, rw off refl));
        },
      )

  -- A CPU without a process takes one from the scheduler, or gets none.
  abbrev Receives : ℕ → Option (Ptr × Sched) → Type 0
  Receives id none = ⊥
  Receives id (some (p, s)) =
      (c : Core)
      → held c ≡ p
      → (owner' : (Ptr → Owner)) × Owned owner' live procs s (update cores id c) loader

  serves-Receives :
      (id i : ℕ) (p : Ptr) (s : Sched) → p ≢ null → Served sched i p s → Receives id (some (p, s))
  serves-Receives id i p s some_p v c e =
      let q = o.queues i v.within in
      let (at, rest) = subst (All (λ x. owner x ≡ queue_of i)) v.taken q.own in
      let (new, once) = subst Distinct v.taken q.once in
      let (live_p, lt) = o.alive p (λ n. (let bad : queue_of i ≡ nobody = sym at ∙ n in cc)) in
      (
        update owner p (cpu_of id),
        record {
          inv = v.inv;
          queues = λ j j_lt. elim (Bool-cases (i == j)) [
            | inl on ↦
                let same : i ≡ j = ground arith in
                subst (λ k. Queued (update owner p (cpu_of id)) k (contents (s.mlq_ready_queue k)))
                  same
                  (record { own = others_unmoved owner p (cpu_of id) i _ new rest; once = once })
            | inr off ↦
                let apart : j ≢ i = ground arith in
                subst (Queued (update owner p (cpu_of id)) j) (sym (v.others j apart)) (
                  unmoved-Queued owner p (queue_of i) (cpu_of id) at j _ (λ x. apart (cc x))
                    (o.queues j j_lt))
          ];
          cpus =
              cpus_moved owner live procs sched cores loader o p (queue_of i) (cpu_of id) at id c
                (λ x off. cc) (λ h. rw (e, ==_refl p) refl);
          ld = unmoved-Has owner p (queue_of i) (cpu_of id) at loader_of _ (λ x. cc) o.ld;
          real = o.real;
          alive =
              alive_moved owner live procs sched cores loader o p (queue_of i) (cpu_of id) at live
                procs (λ h. (live_p, lt)) (λ q' off. (refl, refl));
        },
      )

  idles-Receives : (id : ℕ) (s : Sched) → Idle sched s → Receives id (some (null, s))
  idles-Receives id s v c e = (
    owner,
    record {
      inv = v.inv;
      queues = λ i lt. rw v.queues (o.queues i lt);
      cpus = λ x.
          at_index id (λ y. Has owner (cpu_of y) (held (cores y)))
            (λ y. Has owner (cpu_of y) (held (update cores id c y)))
            (λ h. rw (==_refl id, e) (λ some_p. absurd (some_p refl))) (λ y off h. rw off h) x
            (o.cpus x);
      ld = o.ld;
      real = o.real;
      alive = o.alive;
    },
  )

  Outcome-Receives : (id : ℕ) (r : Option (Ptr × Sched)) → Outcome sched r → Receives id r
  Outcome-Receives id _ (idles {s'} v) = idles-Receives id s' v
  Outcome-Receives id _ (serves {p} {proc} {s'} ne v) = serves-Receives id p proc s' ne v

  pub cpu_gets : (id : ℕ) → Receives id (get_mlq_proc sched)
  cpu_gets id = Outcome-Receives id _ (get_mlq_proc-Outcome sched 0 o.inv).0

  -- An address that holds no process has no owner.
  dead_nobody : (p : Ptr) → live p ≡ false → owner p ≡ nobody
  dead_nobody p dead = elim (Owner-cases (owner p)) [
    | inl e ↦ e
    | inr ne ↦ let bad : true ≡ false = sym (o.alive p ne).0 ∙ dead in cc
  ]

  -- The loader has a new process.
  pub loader_loads :
      (l : Loader) (p : Ptr) (proc : Proc)
      → has_proc l.place ≡ true
      → l.proc ≡ p
      → p ≢ null
      → live p ≡ false
      → has_proc loader.place ≡ false
      → proc.prio < max_prio
      → Owned (update owner p loader_of) (update live p true) (update procs p proc) sched cores l
  unfolding loaded
  loader_loads l p proc holds e some_p dead none_before lt =
      let at : owner p ≡ nobody = dead_nobody p dead in
      record {
        inv = o.inv;
        queues =
            λ i i_lt. unmoved-Queued owner p nobody loader_of at i _ (λ x. cc) (o.queues i i_lt);
        cpus = λ x. unmoved-Has owner p nobody loader_of at (cpu_of x) _ (λ y. cc) (o.cpus x);
        ld = rw (holds, e, ==_refl p) (λ h. refl);
        real = λ h. rw e some_p;
        alive =
            alive_moved owner live procs sched cores loader o p nobody loader_of at
              (update live p true) (update procs p proc) (λ h. rw (==_refl p) (refl, lt))
              (λ q off. (rw off refl, rw off refl));
      }
