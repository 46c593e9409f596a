-- ===== src/Sched/Moves.antt =====
-- What `init_scheduler`, `add_mlq_proc` and `put_mlq_proc` do to the queues.
use btl_hdh.Base.{
  ℕ, zero, suc, ◌+◌, ◌-◌, ◌<◌, ◌≡◌, refl, ap, ◌∙◌, ◌≢◌, inl, inr, ◌||◌, List, [], ◌∷◌, ◌++◌, arith,
  ◌==◌, leb, if◌then◌else◌, update, All, Bool-cases, length, has, remove_first,
}
use btl_hdh.Queue.{Ptr, null, contents, max_queue_size, Queue, enqueue}
use btl_hdh.Queue.Refine.{contents-enqueue, contents-purgequeue, contents_empty}
use btl_hdh.Sched.{max_prio, Sched, Pcb, init_levels, init_scheduler, add_mlq_proc, put_mlq_proc}
use btl_hdh.Sched.Stages.{Inv}

-- A level that the loop of `init_scheduler` has passed.
record Fresh (s : Sched) (i : ℕ) : Type 0 where
  size : (s.mlq_ready_queue i).size ≡ 0
  slot : s.slot i ≡ max_prio - i

-- One round of that loop.
abbrev round : Sched → ℕ → Sched
round s i = record s {
  mlq_ready_queue = update s.mlq_ready_queue i (record (s.mlq_ready_queue i) { size = 0 });
  slot = update s.slot i (max_prio - i);
}

round-Fresh :
    (s : Sched) (i : ℕ) → ((j : ℕ) → j < i → Fresh s j) → (j : ℕ) → j < suc i → Fresh (round s i) j
round-Fresh s i h j lt = elim (Bool-cases (i == j)) [
  | inl e ↦
      let at : i ≡ j = ground arith in
      record { size = rw e refl; slot = rw e (ap (λ k. max_prio - k) at) }
  | inr e ↦ let old = h j (ground arith) in record { size = rw e old.size; slot = rw e old.slot }
]

init_levels-Fresh :
    (i n : ℕ) (s : Sched)
    → ((j : ℕ) → j < i → Fresh s j)
    → (j : ℕ) → j < i + n
    → Fresh (init_levels i n s) j
unfolding init_levels
init_levels-Fresh i zero s h j lt = h j (omega arith)
init_levels-Fresh i (suc n) s h j lt =
    init_levels-Fresh (suc i) n (round s i) (round-Fresh s i h) j (omega arith)

curr_prio-init_levels : (i n : ℕ) (s : Sched) → (init_levels i n s).curr_prio ≡ s.curr_prio
unfolding init_levels
curr_prio-init_levels i zero s = refl
curr_prio-init_levels i (suc n) s = curr_prio-init_levels (suc i) n (round s i)

-- `init_scheduler` empties every queue and sets up the invariant, whatever the tables held before;
-- the current priority, a static variable that it does not touch, has to be within the table.
pub init_scheduler-Inv :
    (s : Sched)
    → s.curr_prio < max_prio
    → Inv (init_scheduler s)
      × ((i : ℕ) → i < max_prio → contents ((init_scheduler s).mlq_ready_queue i) ≡ [])
      × (contents (init_scheduler s).running_list ≡ [])
unfolding init_scheduler
init_scheduler-Inv s h =
    let t = init_levels 0 max_prio s in
    let fresh = init_levels-Fresh 0 max_prio s (λ j lt. absurd (omega arith)) in
    let empties = λ (i : ℕ) (lt : i < max_prio).
      contents_empty (t.mlq_ready_queue i) (fresh i (omega arith)).size in
    (
      record {
        within = rw (curr_prio-init_levels 0 max_prio s) h;
        slots = λ i lt. (fresh i (omega arith)).slot;
        no_null = λ i lt. rw (empties i lt) tt;
      },
      empties,
      contents_empty (init_scheduler s).running_list refl,
    )

All-snoc :
    (p : Ptr) (xs : List Ptr)
    → p ≢ null
    → All (λ x. x ≢ null) xs
    → All (λ x. x ≢ null) (xs ++ p ∷ [])
All-snoc p [] h a = (h, tt)
All-snoc p (x ∷ xs) h a = (a.0, All-snoc p xs h a.1)

enqueue-no_null :
    (q : Queue) (p : Ptr)
    → All (λ x. x ≢ null) (contents q)
    → All (λ x. x ≢ null) (contents (enqueue q p))
enqueue-no_null q p a = elim (Bool-cases (p == null)) [
  | inl e ↦ rw (contents-enqueue q p, e) a
  | inr e ↦ elim (Bool-cases (leb max_queue_size (length (contents q)))) [
    | inl full ↦ rw (contents-enqueue q p, e, full) a
    | inr room ↦ rw (contents-enqueue q p, e, room) (All-snoc p (contents q) (ground arith) a)
  ]
]

-- The queue of a list after `enqueue`.
unfoldable pub appended : List Ptr → Ptr → List Ptr
appended xs p = if p == null || leb max_queue_size (length xs) then xs else xs ++ p ∷ []

queued :
    (s : Sched) (proc : Pcb) (i : ℕ)
    → contents
        (update s.mlq_ready_queue proc.prio (enqueue (s.mlq_ready_queue proc.prio) proc.addr) i)
      ≡ (if proc.prio == i
          then appended (contents (s.mlq_ready_queue i)) proc.addr
          else contents (s.mlq_ready_queue i))
unfolding appended
queued s proc i = elim (Bool-cases (proc.prio == i)) [
  | inl e ↦
      let at : proc.prio ≡ i = ground arith in
      rw e (
        contents-enqueue (s.mlq_ready_queue proc.prio) proc.addr
        ∙ ap (λ k. appended (contents (s.mlq_ready_queue k)) proc.addr) at)
  | inr e ↦ rw e refl
]

queued-no_null :
    (s : Sched) (proc : Pcb) (i : ℕ)
    → Inv s
    → i < max_prio
    → All
        (λ p. p ≢ null)
        (contents
          (update s.mlq_ready_queue proc.prio (enqueue (s.mlq_ready_queue proc.prio) proc.addr) i))
queued-no_null s proc i v lt = elim (Bool-cases (proc.prio == i)) [
  | inl e ↦
      let at : proc.prio ≡ i = ground arith in
      rw e (
        enqueue-no_null (s.mlq_ready_queue proc.prio) proc.addr (v.no_null proc.prio (omega arith)))
  | inr e ↦ rw e (v.no_null i lt)
]

-- For a priority within the table, both functions keep the invariant. They append the process to the queue of its own priority,
-- unless that holds 50, and leave the others alone; `put_mlq_proc` also takes it off the running
-- list, once, where `add_mlq_proc` leaves the running list alone.
pub put_mlq_proc-contents :
    (s : Sched) (proc : Pcb) (i : ℕ)
    → Inv s
    → proc.addr ≢ null
    → proc.prio < max_prio
    → let level = λ (t : Sched). contents (t.mlq_ready_queue i) in
      let running = contents s.running_list in
      let after = if proc.prio == i then appended (level s) proc.addr else level s in
      Inv (put_mlq_proc s proc)
      × Inv (add_mlq_proc s proc)
      × (level (put_mlq_proc s proc) ≡ after)
      × (level (add_mlq_proc s proc) ≡ after)
      × (contents (put_mlq_proc s proc).running_list
          ≡ (if has proc.addr running then remove_first proc.addr running else running))
      × ((add_mlq_proc s proc).running_list ≡ s.running_list)
unfolding put_mlq_proc add_mlq_proc appended
put_mlq_proc-contents s proc i v h lt =
    let no_nulls = λ (j : ℕ) (lt : j < max_prio). queued-no_null s proc j v lt in
    (
      record { within = v.within; slots = v.slots; no_null = no_nulls },
      record { within = v.within; slots = v.slots; no_null = no_nulls },
      queued s proc i,
      queued s proc i,
      (contents-purgequeue s.running_list proc.addr h).1,
      refl,
    )
