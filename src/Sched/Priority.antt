-- ===== src/Sched/Priority.antt =====
-- Which process `get_mlq_proc` hands out.
use btl_hdh.Base.{ℕ, suc, ◌<◌, ◌≡◌, refl, ap, Option, none, some, arith}
use native.Mathlib.Decide.{dec_lt}
use btl_hdh.Queue.{Ptr, contents}
use btl_hdh.Sched.{max_prio, Sched, get_mlq_proc_fuel, get_mlq_proc}
use btl_hdh.Sched.Stages.{Inv, Served, Outcome, idles, serves}
use btl_hdh.Sched.Serve.{get_mlq_proc_fuel-Outcome}

-- `get_mlq_proc` ends after at most one call of itself, with any more fuel than that, and keeps the
-- invariant. If no queue holds a process it returns NULL and leaves the queues and the running
-- list alone. Otherwise it returns the process at the front of the queue of the first priority that
-- holds one, takes it from that queue alone, and enqueues it in the running list.
pub get_mlq_proc-Outcome :
    (s : Sched) (fuel : ℕ)
    → Inv s
    → Outcome s (get_mlq_proc s) × Outcome s (get_mlq_proc_fuel (suc (suc fuel)) s)
unfolding get_mlq_proc
get_mlq_proc-Outcome s fuel v =
    (get_mlq_proc_fuel-Outcome s 0 v, get_mlq_proc_fuel-Outcome s fuel v)

-- The process that a call hands out.
abbrev pub handed : Option (Ptr × Sched) → Option Ptr
handed none = none
handed (some (proc, s)) = some proc

first_unique :
    (s t : Sched) (p q : ℕ) (x y : Ptr) (s' t' : Sched)
    → t.mlq_ready_queue ≡ s.mlq_ready_queue
    → Served s p x s'
    → Served t q y t'
    → x ≡ y
first_unique s t p q x y s' t' e v w =
    let same = λ (j : ℕ). ap (λ f. contents (f j)) e in
    elim (dec_lt p q) [
      | yes lt ↦ ground (arith, same p, w.first p lt, v.taken)
      | no ge ↦ elim (dec_lt q p) [
        | yes lt ↦ ground (arith, same q, v.first q lt, w.taken)
        | no le ↦
            let at : p ≡ q = omega arith in
            ground (arith, same p, v.taken, w.taken, ap (λ j. contents (t.mlq_ready_queue j)) at)
      ]
    ]

Outcome-unique :
    (s t : Sched) (a b : Option (Ptr × Sched))
    → t.mlq_ready_queue ≡ s.mlq_ready_queue
    → Outcome s a
    → Outcome t b
    → handed a ≡ handed b
Outcome-unique s t _ _ e (idles i) (idles j) = refl
Outcome-unique s t _ _ e (idles i) (serves {p} ne w) =
    ground (arith, ap (λ f. contents (f p)) e, i.empty p w.within, w.taken)
Outcome-unique s t _ _ e (serves {p} ne v) (idles j) =
    ground (arith, ap (λ f. contents (f p)) e, j.empty p v.within, v.taken)
Outcome-unique s t _ _ e (serves {p} {proc = x} {s' = s'} _ v)
      (serves {p = q} {proc = y} {s' = t'} _ w) =
    ap some (first_unique s t p q x y s' t' e v w)

-- The slots are of no effect: from the same queues, `get_mlq_proc` hands out the same process
-- whatever the current priority and the slots that it has left.
pub handed-get_mlq_proc :
    (s : Sched) (prio left : ℕ)
    → Inv s
    → prio < max_prio
    → handed (get_mlq_proc (record s { curr_prio = prio; curr_slot = left }))
      ≡ handed (get_mlq_proc s)
handed-get_mlq_proc s prio left v lt =
    let t = record s { curr_prio = prio; curr_slot = left } in
    Outcome-unique t s _ _ refl
      (get_mlq_proc-Outcome t 0 (record { within = lt; slots = v.slots; no_null = v.no_null })).0
      (get_mlq_proc-Outcome s 0 v).0
