-- ===== src/Kernel/Owners.antt =====
-- Who has a process: a queue of the scheduler, a CPU, the loader, or nobody.
use btl_hdh.Base.{
  ℕ, ◌<◌, ◌≡◌, refl, ap, sym, ◌∙◌, ◌≢◌, Bool, true, false, List, [], ◌∷◌, ◌++◌, inl, inr, ◌==◌,
  if◌then◌else◌, update, All, Distinct, has, Bool-cases, ==_refl, arith,
}
use btl_hdh.Queue.{Ptr, null, contents}
use btl_hdh.Sched.{max_prio, Sched}
use btl_hdh.Sched.Stages.{Inv}
use btl_hdh.Cpu.{Proc}
use btl_hdh.Kernel.{
  Place, waiting, picking, getting, rechecking, running, signalling, announcing, resting, stopping,
  detaching, stopped, Core, LdPlace, first_turn, first_signal, loading, until_start, publishing,
  ld_signalling, ld_announcing, ld_resting, ld_turn, finishing, leaving, ld_detaching, ld_ended,
  Loader,
}

pub data Owner : Type 0 where
  nobody : Owner
  queue_of : ℕ → Owner
  cpu_of : ℕ → Owner
  loader_of : Owner

-- The process that a CPU has: before `get_proc` its variable is out of date.
unfoldable pub held_at : Ptr → Place → Ptr
held_at proc waiting = proc
held_at proc picking = proc
held_at proc (getting first) = null
held_at proc rechecking = proc
held_at proc running = proc
held_at proc (signalling ran) = proc
held_at proc announcing = proc
held_at proc resting = proc
held_at proc stopping = proc
held_at proc detaching = proc
held_at proc stopped = proc

unfoldable pub held : Core → Ptr
held c = held_at c.proc c.place

-- The loader has a process from `load` to `add_proc`.
unfoldable pub has_proc : LdPlace → Bool
has_proc first_turn = false
has_proc first_signal = false
has_proc loading = false
has_proc until_start = true
has_proc publishing = true
has_proc (ld_signalling again) = again
has_proc (ld_announcing again) = again
has_proc (ld_resting again) = again
has_proc (ld_turn again) = again
has_proc finishing = false
has_proc leaving = false
has_proc ld_detaching = false
has_proc ld_ended = false

unfoldable pub loaded : Loader → Ptr
loaded l = if has_proc l.place then l.proc else null

-- A process that `who` has is its own.
abbrev pub Has : (Ptr → Owner) → Owner → Ptr → Type 0
Has owner who p = p ≢ null → owner p ≡ who

-- What is in a queue is that queue's own, and there once.
pub record Queued (owner : Ptr → Owner) (i : ℕ) (xs : List Ptr) : Type 0 where
  pub own : All (λ p. owner p ≡ queue_of i) xs
  pub once : Distinct xs

-- Each process has at most one owner, and one that has an owner is not freed.
pub record Owned (owner : Ptr → Owner) (live : Ptr → Bool) (procs : Ptr → Proc) (sched : Sched)
    (cores : ℕ → Core) (loader : Loader) : Type 0 where
  pub inv : Inv sched
  pub queues : (i : ℕ) → i < max_prio → Queued owner i (contents (sched.mlq_ready_queue i))
  pub cpus : (id : ℕ) → Has owner (cpu_of id) (held (cores id))
  pub ld : Has owner loader_of (loaded loader)
  pub real : has_proc loader.place ≡ true → loader.proc ≢ null
  pub alive : (p : Ptr) → owner p ≢ nobody → (live p ≡ true) × ((procs p).prio < max_prio)

-- A process changes hands: what others have is as before.
module _ (owner : Ptr → Owner) (p : Ptr) (who who' : Owner) (at : owner p ≡ who) where
  pub unmoved : (q : Ptr) (w : Owner) → w ≢ who → owner q ≡ w → update owner p who' q ≡ w
  unmoved q w ne e = elim (Bool-cases (p == q)) [
    | inr off ↦ rw off e
    | inl on ↦ let same : p ≡ q = ground arith in absurd (ne (sym e ∙ ap owner (sym same) ∙ at))
  ]

  pub unmoved-Has : (w : Owner) (q : Ptr) → w ≢ who → Has owner w q → Has (update owner p who') w q
  unmoved-Has w q ne h some_q = unmoved q w ne (h some_q)

  pub unmoved-All :
      (i : ℕ) (xs : List Ptr)
      → queue_of i ≢ who
      → All (λ q. owner q ≡ queue_of i) xs
      → All (λ q. update owner p who' q ≡ queue_of i) xs
  unmoved-All i [] ne a = tt
  unmoved-All i (x ∷ xs) ne (e, a) = (unmoved x (queue_of i) ne e, unmoved-All i xs ne a)

  pub unmoved-Queued :
      (i : ℕ) (xs : List Ptr)
      → queue_of i ≢ who
      → Queued owner i xs
      → Queued (update owner p who') i xs
  unmoved-Queued i xs ne q = record { own = unmoved-All i xs ne q.own; once = q.once }

  -- A process that a queue does not own is not in it.
  pub absent :
      (i : ℕ) (xs : List Ptr)
      → queue_of i ≢ who
      → All (λ q. owner q ≡ queue_of i) xs
      → has p xs ≡ false
  unfolding has
  absent i [] ne a = refl
  absent i (x ∷ xs) ne (e, a) = elim (Bool-cases (x == p)) [
    | inr off ↦ rw off (absent i xs ne a)
    | inl on ↦ let same : x ≡ p = ground arith in absurd (ne (sym e ∙ ap owner same ∙ at))
  ]

  -- It comes to the end of a queue.
  pub joined-All :
      (i : ℕ) (xs : List Ptr)
      → All (λ q. update owner p who' q ≡ queue_of i) xs
      → who' ≡ queue_of i
      → All (λ q. update owner p who' q ≡ queue_of i) (xs ++ p ∷ [])
  joined-All i [] a e = (rw (==_refl p) e, tt)
  joined-All i (x ∷ xs) (h, a) e = (h, joined-All i xs a e)

-- Another process changes hands than those of a list.
pub others_unmoved :
    (owner : Ptr → Owner) (p : Ptr) (who' : Owner) (i : ℕ) (xs : List Ptr)
    → has p xs ≡ false
    → All (λ q. owner q ≡ queue_of i) xs
    → All (λ q. update owner p who' q ≡ queue_of i) xs
unfolding has
others_unmoved owner p who' i [] h a = tt
others_unmoved owner p who' i (x ∷ xs) h (e, a) = elim (Bool-cases (x == p)) [
  | inl on ↦ let bad : true ≡ false = rw on at h in cc
  | inr off ↦
      let apart : (p == x) ≡ false = ground arith in
      (rw apart e, others_unmoved owner p who' i xs (rw off at h) a)
]

has-append :
    (q p : Ptr) (xs : List Ptr) → has q xs ≡ false → (p == q) ≡ false → has q (xs ++ p ∷ []) ≡ false
unfolding has
has-append q p [] h ne = rw ne refl
has-append q p (x ∷ xs) h ne = ground (arith, has-append q p xs)

pub Distinct-append :
    (p : Ptr) (xs : List Ptr) → has p xs ≡ false → Distinct xs → Distinct (xs ++ p ∷ [])
unfolding has
Distinct-append p [] h d = (refl, tt)
Distinct-append p (x ∷ xs) h (new, d) = elim (Bool-cases (x == p)) [
  | inl on ↦ let bad : true ≡ false = rw on at h in cc
  | inr off ↦
      let apart : (p == x) ≡ false = ground arith in
      (has-append x p xs new apart, Distinct-append p xs (rw off at h) d)
]
