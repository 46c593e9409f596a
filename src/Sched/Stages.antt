-- ===== src/Sched/Stages.antt =====
-- The stages of `get_mlq_proc` before it takes a process: the check for a higher priority and the
-- refill of the slots; and what one call of it may come to.
use btl_hdh.Base.{
  ℕ, ◌-◌, ◌<◌, ◌≡◌, refl, ◌≢◌, ◌⊎◌, inl, inr, Option, none, some, [], ◌∷◌, arith, ◌==◌, All,
  Bool-cases, Option-cases,
}
use btl_hdh.Queue.{Ptr, null, contents, enqueue}
use btl_hdh.Sched.{max_prio, Sched, first_ready, next_ready, preempt, refill}
use btl_hdh.Sched.Scan.{
  EmptyBetween, first_ready-none, first_ready-some, next_ready-none, next_ready-some,
}

-- What the scheduler keeps between its calls.
pub record Inv (s : Sched) : Type 0 where
  pub within : s.curr_prio < max_prio
  pub slots : (i : ℕ) → i < max_prio → s.slot i ≡ max_prio - i
  pub no_null : (i : ℕ) → i < max_prio → All (λ p. p ≢ null) (contents (s.mlq_ready_queue i))

-- Process `proc` leaves the queue of priority `p`, the first that is not empty, from its front; the
-- other queues are as before, and `proc` goes to the running list.
pub record Served (s : Sched) (p : ℕ) (proc : Ptr) (s' : Sched) : Type 0 where
  pub within : p < max_prio
  pub first : (j : ℕ) → j < p → contents (s.mlq_ready_queue j) ≡ []
  pub taken : contents (s.mlq_ready_queue p) ≡ proc ∷ contents (s'.mlq_ready_queue p)
  pub others : (j : ℕ) → j ≢ p → contents (s'.mlq_ready_queue j) ≡ contents (s.mlq_ready_queue j)
  pub running : s'.running_list ≡ enqueue s.running_list proc
  pub inv : Inv s'

pub record Idle (s s' : Sched) : Type 0 where
  pub empty : (j : ℕ) → j < max_prio → contents (s.mlq_ready_queue j) ≡ []
  pub queues : s'.mlq_ready_queue ≡ s.mlq_ready_queue
  pub running : s'.running_list ≡ s.running_list
  pub inv : Inv s'

pub data Outcome (s : Sched) : Option (Ptr × Sched) → Type 0 where
  idles : {s' : Sched} → Idle s s' → Outcome s (some (null, s'))
  serves :
      {p : ℕ} {proc : Ptr} {s' : Sched}
      → proc ≢ null
      → Served s p proc s'
      → Outcome s (some (proc, s'))

-- The invariant, with no process above `curr_prio`.
pub record Scanned (s : Sched) : Type 0 where
  pub inv : Inv s
  pub above : EmptyBetween s.mlq_ready_queue 0 s.curr_prio

-- Two states with the same processes.
pub record Same (s t : Sched) : Type 0 where
  pub queues : t.mlq_ready_queue ≡ s.mlq_ready_queue
  pub running : t.running_list ≡ s.running_list

pub preempt-Scanned : (s : Sched) → Inv s → Scanned (preempt s) × Same s (preempt s)
unfolding preempt
preempt-Scanned s v = elim (Option-cases (first_ready s.mlq_ready_queue 0 s.curr_prio)) [
  | inl e ↦
      rw (e, preempt)
        (
          record {
            inv = v;
            above = λ j p q. first_ready-none s.mlq_ready_queue 0 s.curr_prio e j p (omega arith);
          },
          record { queues = refl; running = refl },
        )
  | inr (k, e) ↦
      let (lt, first) = first_ready-some s.mlq_ready_queue 0 s.curr_prio k e in
      rw (e, preempt)
        (
          record {
            inv = record { within = omega (arith, v.within); slots = v.slots; no_null = v.no_null };
            above = first.before;
          },
          record { queues = refl; running = refl },
        )
]

pub record Refilled (s t : Sched) : Type 0 where
  pub scanned : Scanned t
  pub same : Same s t
  pub slots_left : t.curr_slot ≢ 0
  pub fresh : s.curr_slot ≡ 0 → (t.mlq_ready_queue t.curr_prio).size ≢ 0

-- Either all queues are empty, or there is a level to serve.
pub refill_cases :
    (s : Sched)
    → Scanned s
    → ((refill s ≡ none) × EmptyBetween s.mlq_ready_queue 0 max_prio)
      ⊎ ((t : Sched) × (refill s ≡ some t) × Refilled s t)
unfolding refill
refill_cases s v = elim (Bool-cases (s.curr_slot == 0)) [
  | inr e ↦ inr (
    s,
    rw e,
    record {
      scanned = v;
      same = record { queues = refl; running = refl };
      slots_left = ground arith;
      fresh = ground arith;
    },
  )
  | inl e ↦ elim (Option-cases (next_ready s.mlq_ready_queue s.curr_prio 0 max_prio)) [
    | inl n ↦
        inl
          (rw (e, n, refill), next_ready-none s.mlq_ready_queue s.curr_prio v.inv.within v.above n)
    | inr (p, n) ↦
        let (lt, first) = next_ready-some s.mlq_ready_queue s.curr_prio v.inv.within v.above p n in
        inr (
          record s { curr_prio = p; curr_slot = s.slot p },
          rw (e, n, refill),
          record {
            scanned = record {
              inv = record { within = lt; slots = v.inv.slots; no_null = v.inv.no_null };
              above = first.before;
            };
            same = record { queues = refl; running = refl };
            slots_left = omega (arith, v.inv.slots p lt);
            fresh = λ _. first.ready;
          },
        )
  ]
]
