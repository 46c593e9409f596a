-- ===== src/Timer/Slots.antt =====
-- The devices and the timer thread together: every interleaving of their steps.
use btl_hdh.Base.{
  ℕ, ◌+◌, ◌≤◌, ◌≡◌, refl, sym, subst, Bool, true, false, not, some, at_index, arith, has, Distinct,
  ==_refl,
}
use btl_hdh.Timer.{
  Event, Timer, next_round, start_timer, timer_step, finish_slot, slot_is_over, detach_event,
}
use btl_hdh.Timer.Steps.{
  Phase, busy, resting, gone, World, rest_of, resume_of, leave_of, Reached, at_start, rests,
  resumes, leaves, ticks, View, view, Kept, works, waits, waits_passed, behind, let_go, left,
  pending, Inv, StepInv, finished, resumed, next_round-Inv, step_from-Inv,
}

abbrev pub WorldInv : World → Type 0
WorldInv w = Inv w.timer w.timer.place w.phase w.slots

abbrev KeptAt : World → ℕ → Type 0
KeptAt w x =
    has x w.timer.dev_list ≡ true
    → Kept w.timer.time (w.timer.events x) (w.slots x) (view w.timer.place x) (w.phase x)

pub rest_of-Inv : (w : World) (d : ℕ) → w.phase d ≡ busy → WorldInv w → WorldInv (rest_of w d)
unfolding finish_slot
rest_of-Inv w d e v = record {
  listed = v.listed;
  loop = v.loop;
  kept = λ y.
      at_index d (KeptAt w) (KeptAt (rest_of w d))
        (λ k h. rw (==_refl d) (finished _ _ _ _ _ e (k h))) (λ x off k h. rw off (k h)) y
        (v.kept y);
}

false_of_not : (b : Bool) → not b ≡ true → b ≡ false
false_of_not true h = cc
false_of_not false h = refl

pub resume_of-Inv :
    (w : World) (d : ℕ)
    → w.phase d ≡ resting
    → slot_is_over w.timer d ≡ true
    → WorldInv w
    → WorldInv (resume_of w d)
unfolding slot_is_over
resume_of-Inv w d e over v =
    let off : (w.timer.events d).done ≡ false = false_of_not _ over in
    record {
      listed = v.listed;
      loop = v.loop;
      kept = λ y.
          at_index d (KeptAt w) (KeptAt (resume_of w d))
            (λ k h. rw (==_refl d) (resumed _ _ _ _ _ e off (k h))) (λ x off k h. rw off (k h)) y
            (v.kept y);
    }

pub leave_of-Inv : (w : World) (d : ℕ) → WorldInv w → WorldInv (leave_of w d)
unfolding detach_event
leave_of-Inv w d v = record {
  listed = v.listed;
  loop = v.loop;
  kept = λ y.
      at_index d (KeptAt w) (KeptAt (leave_of w d)) (λ k h. rw (==_refl d) (left refl))
        (λ x off k h. rw off (k h)) y (v.kept y);
}

pub tick-Inv :
    (w : World) (t : Timer)
    → timer_step w.timer ≡ some t
    → WorldInv w
    → WorldInv (record w { timer = t })
unfolding timer_step
tick-Inv w t e v =
    subst (StepInv w.phase w.slots) e (step_from-Inv w.timer w.timer.place w.phase w.slots v)

Reached-Inv : (start w : World) → WorldInv start → Reached start w → WorldInv w
Reached-Inv start _ v at_start = v
Reached-Inv start _ v (rests d r e) = rest_of-Inv _ d e (Reached-Inv start _ v r)
Reached-Inv start _ v (resumes d r e over) = resume_of-Inv _ d e over (Reached-Inv start _ v r)
Reached-Inv start _ v (leaves d r e) = leave_of-Inv _ d (Reached-Inv start _ v r)
Reached-Inv start _ v (ticks r e) = tick-Inv _ _ e (Reached-Inv start _ v r)

-- `start_timer` with devices that are at work.
abbrev pub started : Timer → World
started t = record { timer = start_timer t; phase = λ _. busy; slots = λ _. 0 }

-- What `attach_event` leaves, for devices that are told apart.
pub record IsAttached (t : Timer) : Type 0 where
  pub listed : Distinct t.dev_list
  pub time : t.time ≡ 0
  pub events :
      (d : ℕ) → has d t.dev_list ≡ true → ((t.events d).done ≡ false) × ((t.events d).fsh ≡ false)

pub started-Inv : (t : Timer) → IsAttached t → WorldInv (started t)
unfolding start_timer next_round pending view
started-Inv t a =
    let t' = record t { timer_started = true } in
    let v =
      next_round-Inv t' (λ _. busy) (λ _. 0)
        (record {
          listed = a.listed;
          loop = tt;
          kept = λ d h. works (a.events d h).0 (a.events d h).1 (sym a.time);
        }) in
    record { listed = v.listed; loop = v.loop; kept = v.kept }

-- How many slots a device has come through: as many as the time says while it works, and at most one
-- less while it waits.
pub data InStep (time slots : ℕ) : Phase → Type 0 where
  at_work : slots ≡ time → InStep time slots busy
  at_rest : slots ≤ time → time ≤ slots + 1 → InStep time slots resting
  has_left : InStep time slots gone

Kept-InStep :
    (time slots : ℕ) (event : Event) (v : View) (p : Phase)
    → Kept time event slots v p
    → InStep time slots p
Kept-InStep time slots event _ _ (works done fsh at) = at_work at
Kept-InStep time slots event _ _ (waits done fsh at) = at_rest (omega arith) (omega arith)
Kept-InStep time slots event _ _ (waits_passed done fsh at) = at_rest (omega arith) (omega arith)
Kept-InStep time slots event _ _ (behind done fsh at) = at_rest (omega arith) (omega arith)
Kept-InStep time slots event _ _ (let_go done fsh at) = at_rest (omega arith) (omega arith)
Kept-InStep time slots event _ _ (left fsh) = has_left

-- The timer keeps the devices in step, however their steps and those of the timer interleave: every
-- device that works is in the same slot, the one that `current_time` tells, and one that waits in
-- `next_slot` is in that slot or has yet to notice that it began. So the time does not move on while
-- a device is at work, and no device works twice in one slot.
pub Reached-InStep :
    (t : Timer) (w : World) (d : ℕ)
    → IsAttached t
    → Reached (started t) w
    → has d w.timer.dev_list ≡ true
    → InStep w.timer.time (w.slots d) (w.phase d)
Reached-InStep t w d a r h =
    Kept-InStep _ _ _ _ _ ((Reached-Inv (started t) w (started-Inv t a) r).kept d h)
