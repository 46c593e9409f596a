-- ===== src/Kernel/Exclusive.antt =====
-- Every interleaving of the CPUs, the loader and the timer.
use btl_hdh.Base.{
  ℕ, ◌<◌, ◌≡◌, refl, ap, sym, ◌∙◌, subst, ◌≢◌, ◌⊎◌, inl, inr, true, false, Option, some, has, [],
}
use btl_hdh.Base.Run.{Run, done, fault}
use btl_hdh.Queue.{null, contents}
use btl_hdh.Sched.{max_prio}
use btl_hdh.Sched.Stages.{Inv}
use btl_hdh.Timer.{Timer, timer_step}
use btl_hdh.Cpu.{Outside, run}
use btl_hdh.Kernel.{
  Config, Place, waiting, running, first_turn, Core, Kernel, Loading, cpu_step, ld_step,
}
use btl_hdh.Kernel.Owners.{nobody, cpu_of, loader_of, held_at, held, has_proc, loaded, absent}
use btl_hdh.Kernel.Choices.{HasOwners, Stepped, elsewhere}
use btl_hdh.Kernel.Cores.{cpu_step_from-Stepped}
use btl_hdh.Kernel.Loads.{IsFresh, PriosFit, LdStepped, ld_step_from-HasOwners}

-- The states that the threads reach from one, in any order of their steps. The loader gets fresh
-- memory.
pub data Reached (cfg : Config) (start : Kernel) : Kernel → Type 0 where
  at_start : Reached cfg start start
  cpu_goes :
      {k k' : Kernel} (o : Outside) (id : ℕ)
      → Reached cfg start k
      → cpu_step cfg o k id ≡ done (some k')
      → Reached cfg start k'
  loader_goes :
      {k k' : Kernel} (l : Loading)
      → Reached cfg start k
      → IsFresh k l
      → ld_step cfg l k ≡ some k'
      → Reached cfg start k'
  timer_goes :
      {k : Kernel} {t : Timer}
      → Reached cfg start k
      → timer_step k.timer ≡ some t
      → Reached cfg start (record k { timer = t })

-- The threads have just been made: the queues are empty, and nobody has a process.
pub record IsStart (k : Kernel) : Type 0 where
  pub inv : Inv k.sched
  pub queues : (i : ℕ) → i < max_prio → contents (k.sched.mlq_ready_queue i) ≡ []
  pub cpus : (id : ℕ) → ((k.cores id).proc ≡ null) × ((k.cores id).place ≡ waiting)
  pub loader : k.loader.place ≡ first_turn

start-HasOwners : (k : Kernel) → IsStart k → HasOwners k
unfolding held held_at loaded has_proc
start-HasOwners k s = record {
  owner = λ p. nobody;
  owned = record {
    inv = s.inv;
    queues = λ i lt. rw (s.queues i lt) (record { own = tt; once = tt });
    cpus = λ id. rw ((s.cpus id).1, (s.cpus id).0) (λ h. absurd (h refl));
    ld = rw s.loader (λ h. absurd (h refl));
    real = rw s.loader (λ h. cc);
    alive = λ p h. absurd (h refl);
  };
  runs_one = λ id. rw (s.cpus id).1 (λ h. cc);
}

cpu_step-Stepped :
    (cfg : Config) (o : Outside) (k : Kernel) (id : ℕ)
    → HasOwners k
    → Stepped o k (k.cores id) (k.cores id).place (cpu_step cfg o k id)
unfolding cpu_step
cpu_step-Stepped cfg o k id v = cpu_step_from-Stepped k id v cfg o (k.cores id).place refl

ld_step-HasOwners :
    (cfg : Config) (l : Loading) (k : Kernel)
    → PriosFit cfg
    → IsFresh k l
    → HasOwners k
    → LdStepped (ld_step cfg l k)
unfolding ld_step
ld_step-HasOwners cfg l k fit fresh v =
    ld_step_from-HasOwners k v cfg l k.loader.place fit fresh refl

Reached-HasOwners :
    (cfg : Config) (start k : Kernel)
    → PriosFit cfg
    → HasOwners start
    → Reached cfg start k
    → HasOwners k
Reached-HasOwners cfg start _ fit v at_start = v
Reached-HasOwners cfg start _ fit v (cpu_goes {k = k} o id r e) =
    subst (Stepped o k (k.cores id) (k.cores id).place) e
      (cpu_step-Stepped cfg o k id (Reached-HasOwners cfg start k fit v r))
Reached-HasOwners cfg start _ fit v (loader_goes {k = k} l r fresh e) =
    subst LdStepped e (ld_step-HasOwners cfg l k fit fresh (Reached-HasOwners cfg start k fit v r))
Reached-HasOwners cfg start _ fit v (timer_goes {k = k} {t = t} r e) =
    elsewhere t k.krnl k.is_done (Reached-HasOwners cfg start k fit v r)

-- In every state that the threads reach from the start, whatever the order of their steps, the process
-- that a CPU has is not that of another CPU, in none of the ready queues, not the one that the loader
-- has, and not freed. The priorities of the configuration are below 140.
pub Reached-Exclusive :
    (cfg : Config) (start k : Kernel) (id other i : ℕ)
    → PriosFit cfg
    → IsStart start
    → Reached cfg start k
    → held (k.cores id) ≢ null
    → id ≢ other
    → i < max_prio
    → let p = held (k.cores id) in
      (held (k.cores other) ≢ p)
      × (has p (contents (k.sched.mlq_ready_queue i)) ≡ false)
      × (loaded k.loader ≢ p)
      × (k.live p ≡ true)
Reached-Exclusive cfg start k id other i fit s r some_p ne lt =
    let v = Reached-HasOwners cfg start k fit (start-HasOwners start s) r in
    let p = held (k.cores id) in
    let at : v.owner p ≡ cpu_of id = v.owned.cpus id some_p in
    (
      λ e.
          let there : v.owner (held (k.cores other)) ≡ cpu_of other =
            v.owned.cpus other (λ n. some_p (sym e ∙ n)) in
          let both : cpu_of id ≡ cpu_of other = sym at ∙ ap v.owner (sym e) ∙ there in ne (cc both),
      absent v.owner p (cpu_of id) nobody at i _ (λ x. cc) (v.owned.queues i lt).own,
      λ e.
          let there : v.owner (loaded k.loader) ≡ loader_of =
            v.owned.ld (λ n. some_p (sym e ∙ n)) in
          let both : cpu_of id ≡ loader_of = sym at ∙ ap v.owner (sym e) ∙ there in cc,
      (v.owned.alive p (λ n. (let bad : cpu_of id ≡ nobody = sym at ∙ n in cc))).0,
    )

no_fault :
    (o : Outside) (k : Kernel) (c : Core) (place : Place) (r : Run (Option Kernel))
    → Stepped o k c place r
    → (r ≢ fault) ⊎ ((place ≡ running) × (run o k.krnl (k.procs c.proc) ≡ fault))
no_fault o k c place (done x) h = inl (λ e. cc)
no_fault o k c place fault h = inr h

-- In every state that the threads reach from the start, a step of a CPU uses no process that is freed
-- and finds the scheduler in order: its behaviour is defined, unless the instruction that its process
-- runs is undefined behaviour. The priorities of the configuration are below 140.
pub Reached-no_fault :
    (cfg : Config) (start k : Kernel) (o : Outside) (id : ℕ)
    → PriosFit cfg
    → IsStart start
    → Reached cfg start k
    → (cpu_step cfg o k id ≢ fault)
      ⊎ (((k.cores id).place ≡ running) × (run o k.krnl (k.procs (k.cores id).proc) ≡ fault))
Reached-no_fault cfg start k o id fit s r =
    no_fault o k (k.cores id) (k.cores id).place _
      (cpu_step-Stepped cfg o k id (Reached-HasOwners cfg start k fit (start-HasOwners start s) r))
