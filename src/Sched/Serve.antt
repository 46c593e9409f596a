-- ===== src/Sched/Serve.antt =====
-- What one call of `get_mlq_proc` hands out, from any values of its static variables.
use btl_hdh.Base.{
  ℕ, suc, ◌<◌, ◌≡◌, refl, sym, ap, ◌∙◌, subst, fun_ext, ◌≢◌, inl, inr, false, ==_refl, Option, none,
  some, ◌∷◌, arith, ◌==◌, false, All, Bool-cases, Option-cases,
}
use btl_hdh.Queue.{Ptr, null, contents, enqueue, dequeue}
use btl_hdh.Queue.Refine.{contents_of_size, contents_empty, dequeue_empty}
use btl_hdh.Sched.{
  max_prio, Sched, first_ready, preempt, refill, account, served, get_mlq_proc_fuel,
}
use btl_hdh.Sched.Scan.{EmptyBetween}
use btl_hdh.Sched.Stages.{
  Inv, Served, Outcome, idles, serves, Scanned, Same, preempt-Scanned, Refilled, refill_cases,
}

module _ (t : Sched) (v : Scanned t) (ready : (t.mlq_ready_queue t.curr_prio).size ≢ 0) where
  abbrev front : Ptr
  front = (dequeue (t.mlq_ready_queue t.curr_prio)).0

  split :
      contents (t.mlq_ready_queue t.curr_prio)
      ≡ front ∷ contents (dequeue (t.mlq_ready_queue t.curr_prio)).1
  split = contents_of_size (t.mlq_ready_queue t.curr_prio) ready

  front-ne-null : front ≢ null
  front-ne-null = (subst (All (λ p. p ≢ null)) split (v.inv.no_null t.curr_prio v.inv.within)).0

  no_null-served :
      (i : ℕ) → i < max_prio → All (λ p. p ≢ null) (contents ((served t).mlq_ready_queue i))
  no_null-served i lt = elim (Bool-cases (t.curr_prio == i)) [
    | inl e ↦ rw e (subst (All (λ p. p ≢ null)) split (v.inv.no_null t.curr_prio v.inv.within)).1
    | inr e ↦ rw e (v.inv.no_null i lt)
  ]

  account-Inv : Inv (account (served t) front)
  unfolding account
  account-Inv = record {
    within = ground (arith, v.inv.within);
    slots = v.inv.slots;
    no_null = no_null-served;
  }

  account-Served : Served t t.curr_prio front (account (served t) front)
  unfolding account
  account-Served = record {
    within = v.inv.within;
    first = λ j lt. contents_empty (t.mlq_ready_queue j) (v.above j (omega arith) lt);
    taken = rw (==_refl t.curr_prio) split;
    others = λ j ne. let off : (t.curr_prio == j) ≡ false = ground arith in rw off refl;
    running = refl;
    inv = account-Inv;
  }

  -- A level that holds a process is served at once.
  front_lem :
      (s : Sched) (fuel : ℕ)
      → refill (preempt s) ≡ some t
      → get_mlq_proc_fuel (suc fuel) s ≡ some (front, account (served t) front)
  unfolding get_mlq_proc_fuel
  front_lem s fuel e =
      let found : (front == null) ≡ false = ground (arith, front-ne-null) in
      rw (e, found, get_mlq_proc_fuel)

-- An outcome depends on the queues and the running list alone.
resume : (s t : Sched) (r : Option (Ptr × Sched)) → Same s t → Outcome t r → Outcome s r
resume s t _ same (idles i) = idles record {
  empty = λ j lt. ap (λ q. contents (q j)) (sym same.queues) ∙ i.empty j lt;
  queues = i.queues ∙ same.queues;
  running = i.running ∙ same.running;
  inv = i.inv;
}
resume s t _ same (serves {p} {proc} ne v) = serves ne record {
  within = v.within;
  first = λ j lt. ap (λ q. contents (q j)) (sym same.queues) ∙ v.first j lt;
  taken = ap (λ q. contents (q p)) (sym same.queues) ∙ v.taken;
  others = λ j h. v.others j h ∙ ap (λ q. contents (q j)) same.queues;
  running = v.running ∙ ap (λ q. enqueue q proc) same.running;
  inv = v.inv;
}

idle_lem :
    (s : Sched) (fuel : ℕ)
    → refill (preempt s) ≡ none
    → get_mlq_proc_fuel (suc fuel) s ≡ some (null, preempt s)
unfolding get_mlq_proc_fuel
idle_lem s fuel e = rw (e, get_mlq_proc_fuel)

idle-Outcome :
    (s : Sched) (fuel : ℕ)
    → Inv s
    → refill (preempt s) ≡ none
    → EmptyBetween (preempt s).mlq_ready_queue 0 max_prio
    → Outcome s (get_mlq_proc_fuel (suc fuel) s)
idle-Outcome s fuel v e none_ready =
    let (scanned, same) = preempt-Scanned s v in
    rw (idle_lem s fuel e) (
      resume s (preempt s) _ same (
        idles record {
          empty = λ j lt. contents_empty _ (none_ready j (omega arith) lt);
          queues = refl;
          running = refl;
          inv = scanned.inv;
        }))

serve-Outcome :
    (s t : Sched) (fuel : ℕ)
    → Inv s
    → refill (preempt s) ≡ some t
    → Refilled (preempt s) t
    → (t.mlq_ready_queue t.curr_prio).size ≢ 0
    → Outcome s (get_mlq_proc_fuel (suc fuel) s)
serve-Outcome s t fuel v e r ready =
    let (scanned, same) = preempt-Scanned s v in
    rw (front_lem t r.scanned ready s fuel e) (
      resume s (preempt s) _ same (
        resume (preempt s) t _ r.same
          (serves (front-ne-null t r.scanned ready) (account-Served t r.scanned ready))))

preempt_zero : (s : Sched) → s.curr_slot ≡ 0 → (preempt s).curr_slot ≡ 0
unfolding preempt
preempt_zero s h = elim (Option-cases (first_ready s.mlq_ready_queue 0 s.curr_prio)) [
  | inl e ↦ rw (e, preempt) h
  | inr (k, e) ↦ rw (e, preempt) refl
]

-- With no slot left one call is enough.
zero-Outcome :
    (s : Sched) (fuel : ℕ) → Inv s → s.curr_slot ≡ 0 → Outcome s (get_mlq_proc_fuel (suc fuel) s)
zero-Outcome s fuel v z =
    let (scanned, same) = preempt-Scanned s v in
    elim (refill_cases (preempt s) scanned) [
      | inl (e, empties) ↦ idle-Outcome s fuel v e empties
      | inr (t, e, r) ↦ serve-Outcome s t fuel v e r (r.fresh (preempt_zero s z))
    ]

module _ (t : Sched) (v : Inv t) (none_left : (t.mlq_ready_queue t.curr_prio).size ≡ 0) where
  -- The state with which `get_mlq_proc` calls itself.
  abbrev retry : Sched
  retry = record (served t) { curr_slot = 0 }

  retry-Same : Same t retry
  retry-Same = record {
    queues = fun_ext λ j. elim (Bool-cases (t.curr_prio == j)) [
      | inl e ↦
          let at : t.curr_prio ≡ j = ground arith in
          rw e (
            ap (λ r. r.1) (dequeue_empty (t.mlq_ready_queue t.curr_prio) none_left)
            ∙ ap t.mlq_ready_queue at)
      | inr e ↦ rw e refl
    ];
    running = refl;
  }

  retry-Inv : Inv retry
  retry-Inv = record {
    within = v.within;
    slots = v.slots;
    no_null = λ i lt.
        subst (λ q. All (λ p. p ≢ null) (contents (q i))) (sym retry-Same.queues) (v.no_null i lt);
  }

  retry_lem :
      (s : Sched) (fuel : ℕ)
      → refill (preempt s) ≡ some t
      → get_mlq_proc_fuel (suc fuel) s ≡ get_mlq_proc_fuel fuel retry
  unfolding get_mlq_proc_fuel
  retry_lem s fuel e =
      rw (e, get_mlq_proc_fuel, dequeue_empty (t.mlq_ready_queue t.curr_prio) none_left)

-- Two calls are enough from any state.
pub get_mlq_proc_fuel-Outcome :
    (s : Sched) (fuel : ℕ) → Inv s → Outcome s (get_mlq_proc_fuel (suc (suc fuel)) s)
get_mlq_proc_fuel-Outcome s fuel v =
    let (scanned, same) = preempt-Scanned s v in
    elim (refill_cases (preempt s) scanned) [
      | inl (e, empties) ↦ idle-Outcome s (suc fuel) v e empties
      | inr (t, e, r) ↦ elim (Bool-cases ((t.mlq_ready_queue t.curr_prio).size == 0)) [
        | inr more ↦ serve-Outcome s t (suc fuel) v e r (ground arith)
        | inl no_more ↦
            let z : (t.mlq_ready_queue t.curr_prio).size ≡ 0 = ground arith in
            rw (retry_lem t r.scanned.inv z s (suc fuel) e) (
              resume s (preempt s) _ same (
                resume (preempt s) t _ r.same (
                  resume t (retry t r.scanned.inv z) _ (retry-Same t r.scanned.inv z) (
                    zero-Outcome (retry t r.scanned.inv z) fuel (retry-Inv t r.scanned.inv z)
                      refl))))
      ]
    ]
