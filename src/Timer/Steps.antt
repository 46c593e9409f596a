-- ===== src/Timer/Steps.antt =====
-- The devices and the timer thread, and what each of their steps keeps.
use btl_hdh.Base.{
  ℕ, ◌+◌, ◌≡◌, refl, ap, ◌∙◌, sym, true, false, ◌||◌, Option, none, some, List, [], ◌∷◌, inl, inr,
  ◌==◌, if◌then◌else◌, update, arith, has, Distinct, Bool-cases,
}
use btl_hdh.Timer.{
  Event, Place, checking, advancing, resetting, releasing, ended, Timer, next_round, step_from,
  timer_step, finish_slot, slot_is_over, detach_event,
}

-- What a device does: the work of a slot, the wait in `next_slot`, or nothing after `detach_event`.
pub data Phase : Type 0 where
  busy : Phase
  resting : Phase
  gone : Phase

-- The timer, what each device does, and in how many slots it has come back from `next_slot`.
pub record World : Type 0 where
  pub timer : Timer
  pub phase : ℕ → Phase
  pub slots : ℕ → ℕ

abbrev pub rest_of : World → ℕ → World
rest_of w d = record w { timer = finish_slot w.timer d; phase = update w.phase d resting }

abbrev pub resume_of : World → ℕ → World
resume_of w d = record w { phase = update w.phase d busy; slots = update w.slots d (w.slots d + 1) }

abbrev pub leave_of : World → ℕ → World
leave_of w d = record w { timer = detach_event w.timer d; phase = update w.phase d gone }

-- The worlds that are reached from one.
pub data Reached (start : World) : World → Type 0 where
  at_start : Reached start start
  rests : {w : World} (d : ℕ) → Reached start w → w.phase d ≡ busy → Reached start (rest_of w d)
  resumes :
      {w : World} (d : ℕ)
      → Reached start w
      → w.phase d ≡ resting
      → slot_is_over w.timer d ≡ true
      → Reached start (resume_of w d)
  leaves : {w : World} (d : ℕ) → Reached start w → w.phase d ≡ busy → Reached start (leave_of w d)
  ticks :
      {w : World} {t : Timer}
      → Reached start w
      → timer_step w.timer ≡ some t
      → Reached start (record w { timer = t })

-- What the timer has in mind for a device: it is within its slot, it was, or it is to
-- be let go.
pub data View : Type 0 where
  within : View
  passed : View
  late : View

unfoldable pub view : Place → ℕ → View
view (checking rest fsh event) d = if has d rest then within else passed
view (advancing fsh event) d = passed
view (resetting fsh event) d = late
view (releasing rest fsh event) d = if has d rest then late else within
view ended d = within

-- How a device stands to the time, by what it does and how the timer sees it.
pub data Kept (time : ℕ) (event : Event) (slots : ℕ) : View → Phase → Type 0 where
  works : event.done ≡ false → event.fsh ≡ false → slots ≡ time → Kept time event slots within busy
  waits :
      event.done ≡ true → event.fsh ≡ false → slots ≡ time → Kept time event slots within resting
  waits_passed :
      event.done ≡ true → event.fsh ≡ false → slots ≡ time → Kept time event slots passed resting
  behind :
      event.done ≡ true → event.fsh ≡ false → slots + 1 ≡ time → Kept time event slots late resting
  let_go :
      event.done ≡ false
      → event.fsh ≡ false
      → slots + 1 ≡ time
      → Kept time event slots within resting
  left : {v : View} → event.fsh ≡ true → Kept time event slots v gone

-- The devices that a loop has to go.
unfoldable pub pending : Place → List ℕ
pending (checking rest fsh event) = rest
pending (advancing fsh event) = []
pending (resetting fsh event) = []
pending (releasing rest fsh event) = rest
pending ended = []

pub record Inv (t : Timer) (p : Place) (phase : ℕ → Phase) (slots : ℕ → ℕ) : Type 0 where
  pub listed : Distinct t.dev_list
  pub loop : Distinct (pending p)
  pub kept :
      (d : ℕ) → has d t.dev_list ≡ true → Kept t.time (t.events d) (slots d) (view p d) (phase d)

-- The steps of a device.
pub finished :
    (time slots : ℕ) (event : Event) (v : View) (p : Phase)
    → p ≡ busy
    → Kept time event slots v p
    → Kept time (record event { done = true }) slots v resting
finished time slots event _ _ e (works done fsh at) = waits refl fsh at
finished time slots event _ _ e (waits done fsh at) = cc
finished time slots event _ _ e (waits_passed done fsh at) = cc
finished time slots event _ _ e (behind done fsh at) = cc
finished time slots event _ _ e (let_go done fsh at) = cc
finished time slots event _ _ e (left fsh) = cc

pub resumed :
    (time slots : ℕ) (event : Event) (v : View) (p : Phase)
    → p ≡ resting
    → event.done ≡ false
    → Kept time event slots v p
    → Kept time event (slots + 1) v busy
resumed time slots event _ _ e over (works done fsh at) = cc
resumed time slots event _ _ e over (waits done fsh at) = cc
resumed time slots event _ _ e over (waits_passed done fsh at) = cc
resumed time slots event _ _ e over (behind done fsh at) = cc
resumed time slots event _ _ e over (let_go done fsh at) = works done fsh at
resumed time slots event _ _ e over (left fsh) = cc

detached :
    (time slots : ℕ) (event : Event) (v : View)
    → Kept time (record event { fsh = true }) slots v gone
detached time slots event v = left refl

-- The steps of the timer.
looked_at :
    (time slots : ℕ) (event : Event) (p : Phase)
    → (event.done || event.fsh) ≡ true
    → Kept time event slots within p
    → Kept time event slots passed p
looked_at time slots event _ h (works done fsh at) = cc
looked_at time slots event _ h (waits done fsh at) = waits_passed done fsh at
looked_at time slots event _ h (let_go done fsh at) = cc
looked_at time slots event _ h (left fsh) = left fsh

advanced :
    (time slots : ℕ) (event : Event) (p : Phase)
    → Kept time event slots passed p
    → Kept (time + 1) event slots late p
advanced time slots event _ (waits_passed done fsh at) = behind done fsh (omega (arith, at))
advanced time slots event _ (left fsh) = left fsh

released :
    (time slots : ℕ) (event : Event) (p : Phase)
    → Kept time event slots late p
    → Kept time (record event { done = false }) slots within p
released time slots event _ (behind done fsh at) = let_go refl fsh at
released time slots event _ (left fsh) = left fsh

-- A loop over the devices begins.
pub next_round-Inv :
    (t : Timer) (phase : ℕ → Phase) (slots : ℕ → ℕ)
    → Inv t ended phase slots
    → Inv (next_round t) (next_round t).place phase slots
unfolding next_round pending view
next_round-Inv t phase slots v = elim (Bool-cases t.timer_stop) [
  | inl e ↦ rw (e, next_round) (record { listed = v.listed; loop = tt; kept = v.kept })
  | inr e ↦
      rw (e, next_round)
        (record { listed = v.listed; loop = v.listed; kept = λ d h. rw h (v.kept d h) })
]

-- A step of the timer, if there is one, keeps the invariant.
abbrev pub StepInv : (ℕ → Phase) → (ℕ → ℕ) → Option Timer → Type 0
StepInv phase slots none = Unit
StepInv phase slots (some t) = Inv t t.place phase slots

-- The device that a loop comes to, and those behind it.
seen :
    (t : Timer) (d x slots : ℕ) (rest : List ℕ) (p : Phase)
    → ((t.events d).done || (t.events d).fsh) ≡ true
    → Kept t.time (t.events x) slots (if has x (d ∷ rest) then within else passed) p
    → Kept t.time (t.events x) slots (if has x rest then within else passed) p
unfolding has
seen t d x slots rest p e k = elim (Bool-cases (d == x)) [
  | inr off ↦ rw off at k
  | inl on ↦ elim (Bool-cases (has x rest)) [
    | inl r ↦ rw r (rw on at k)
    | inr r ↦
        let at : d ≡ x = ground arith in
        rw r (
          looked_at t.time slots (t.events x) p
            (ap (λ y. (t.events y).done || (t.events y).fsh) (sym at) ∙ e) (rw on at k))
  ]
]

let_loose :
    (time d x slots : ℕ) (events : ℕ → Event) (rest : List ℕ) (p : Phase)
    → has d rest ≡ false
    → Kept time (events x) slots (if has x (d ∷ rest) then late else within) p
    → Kept time
        (update events d (record (events d) { done = false }) x)
        slots
        (if has x rest then late else within)
        p
unfolding has
let_loose time d x slots events rest p new k = elim (Bool-cases (d == x)) [
  | inr off ↦ rw off (rw off at k)
  | inl on ↦
      let at : d ≡ x = ground arith in
      let once : has x rest ≡ false = ap (λ y. has y rest) (sym at) ∙ new in
      rw (on, once, at) (released time slots (events x) p (rw on at k))
]

checking-Inv :
    (t : Timer) (d : ℕ) (rest : List ℕ) (fsh event : ℕ) (phase : ℕ → Phase) (slots : ℕ → ℕ)
    → Inv t (checking (d ∷ rest) fsh event) phase slots
    → StepInv phase slots (step_from t (checking (d ∷ rest) fsh event))
unfolding step_from pending view has
checking-Inv t d rest fsh event phase slots v =
    elim (Bool-cases ((t.events d).done || (t.events d).fsh)) [
      | inr e ↦ rw (e, step_from) tt
      | inl e ↦
          rw (e, step_from)
            (record {
              listed = v.listed;
              loop = v.loop.1;
              kept = λ x h. seen t d x (slots x) rest (phase x) e (v.kept x h);
            })
    ]

pub step_from-Inv :
    (t : Timer) (p : Place) (phase : ℕ → Phase) (slots : ℕ → ℕ)
    → Inv t p phase slots
    → StepInv phase slots (step_from t p)
unfolding step_from pending view has
step_from-Inv t (checking [] fsh event) phase slots v = record {
  listed = v.listed;
  loop = tt;
  kept = v.kept;
}
step_from-Inv t (checking (d ∷ rest) fsh event) phase slots v =
    checking-Inv t d rest fsh event phase slots v
step_from-Inv t (advancing fsh event) phase slots v = record {
  listed = v.listed;
  loop = tt;
  kept = λ x h. advanced t.time (slots x) (t.events x) (phase x) (v.kept x h);
}
step_from-Inv t (resetting fsh event) phase slots v = record {
  listed = v.listed;
  loop = v.listed;
  kept = λ x h. rw h (v.kept x h);
}
step_from-Inv t (releasing (d ∷ rest) fsh event) phase slots v = record {
  listed = v.listed;
  loop = v.loop.1;
  kept = λ x h. let_loose t.time d x (slots x) t.events rest (phase x) v.loop.0 (v.kept x h);
}
step_from-Inv t (releasing [] fsh event) phase slots v =
    let over : Inv t ended phase slots = record { listed = v.listed; loop = tt; kept = v.kept } in
    elim (Bool-cases (fsh == event)) [
      | inl e ↦ rw (e, step_from) (record { listed = v.listed; loop = tt; kept = v.kept })
      | inr e ↦ rw (e, step_from) (next_round-Inv t phase slots over)
    ]
step_from-Inv t ended phase slots v = tt
