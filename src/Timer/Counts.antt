-- ===== src/Timer/Counts.antt =====
-- What `timer_routine` counts: it ends only when every device has left.
use btl_hdh.Base.{
  ℕ, ◌+◌, ◌≤◌, ◌≡◌, refl, sym, ap, ◌∙◌, subst, true, false, ◌||◌, Option, none, some, List, [], ◌∷◌,
  inl, inr, ◌==◌, if◌then◌else◌, update, arith, has, Bool-cases,
}
use btl_hdh.Timer.{
  Event, Place, checking, advancing, resetting, releasing, ended, Timer, next_round, step_from,
  timer_step, finish_slot, detach_event,
}

-- Of the devices looked at, all but those in `rest`, no more have left than there are, and if as many, all.
abbrev pub Counts : List ℕ → ℕ → ℕ → List ℕ → (ℕ → Event) → Type 0
Counts rest fsh event devs events =
    (fsh ≤ event)
    × (fsh ≡ event → (d : ℕ) → has d devs ≡ true → has d rest ≡ false → (events d).fsh ≡ true)

abbrev pub CountedAt : Place → List ℕ → (ℕ → Event) → Type 0
CountedAt (checking rest fsh event) devs events = Counts rest fsh event devs events
CountedAt (advancing fsh event) devs events = Counts [] fsh event devs events
CountedAt (resetting fsh event) devs events = Counts [] fsh event devs events
CountedAt (releasing rest fsh event) devs events = Counts [] fsh event devs events
CountedAt ended devs events = (d : ℕ) → has d devs ≡ true → (events d).fsh ≡ true

abbrev pub Counted : Timer → Type 0
Counted t = CountedAt t.place t.dev_list t.events

-- No device that has left comes back.
pub Counted-later :
    (p : Place) (devs : List ℕ) (events events' : ℕ → Event)
    → ((d : ℕ) → (events d).fsh ≡ true → (events' d).fsh ≡ true)
    → CountedAt p devs events
    → CountedAt p devs events'
Counted-later (checking rest fsh event) devs events events' f (le, all) =
    (le, λ e d h r. f d (all e d h r))
Counted-later (advancing fsh event) devs events events' f (le, all) =
    (le, λ e d h r. f d (all e d h r))
Counted-later (resetting fsh event) devs events events' f (le, all) =
    (le, λ e d h r. f d (all e d h r))
Counted-later (releasing rest fsh event) devs events events' f (le, all) =
    (le, λ e d h r. f d (all e d h r))
Counted-later ended devs events events' f all = λ d h. f d (all d h)

-- The steps of a device.
pub finish_slot-left :
    (t : Timer) (x d : ℕ) → (t.events d).fsh ≡ true → ((finish_slot t x).events d).fsh ≡ true
unfolding finish_slot
finish_slot-left t x d h = elim (Bool-cases (x == d)) [
  | inr off ↦ rw off h
  | inl on ↦ let at : x ≡ d = ground (arith, on) in rw on (ap (λ y. (t.events y).fsh) at ∙ h)
]

pub detach_event-left :
    (t : Timer) (x d : ℕ) → (t.events d).fsh ≡ true → ((detach_event t x).events d).fsh ≡ true
unfolding detach_event
detach_event-left t x d h = elim (Bool-cases (x == d)) [ inr off ↦ rw off h | inl on ↦ rw on refl ]

pub start-Counts : (devs : List ℕ) (events : ℕ → Event) → Counts devs 0 0 devs events
start-Counts devs events = (omega arith, λ e d h r. absurd (let bad = sym h ∙ r in cc bad))

module _ (t : Timer) where
  looks-Counts :
      (d : ℕ) (rest : List ℕ) (fsh event : ℕ)
      → Counts (d ∷ rest) fsh event t.dev_list t.events
      → Counts rest (if (t.events d).fsh then fsh + 1 else fsh) (event + 1) t.dev_list t.events
  unfolding has
  looks-Counts d rest fsh event (le, all) = elim (Bool-cases (t.events d).fsh) [
    | inr off ↦ rw off (omega (arith, le), λ e. absurd (omega (arith, le, e)))
    | inl on ↦ rw on (
      omega (arith, le),
      λ e x h r. elim (Bool-cases (d == x)) [
        | inl same ↦
            let at : d ≡ x = ground (arith, same) in ap (λ y. (t.events y).fsh) (sym at) ∙ on
        | inr other ↦ all (omega (arith, e)) x h (rw other r)
      ],
    )
  ]

  abbrev AfterStep : Option Timer → Type 0
  AfterStep none = Unit
  AfterStep (some t') = (t'.timer_stop ≡ false) × Counted t'

  step_from-Counted :
      (p : Place)
      → t.timer_stop ≡ false
      → CountedAt p t.dev_list t.events
      → AfterStep (step_from t p)
  unfolding step_from next_round
  step_from-Counted (checking [] fsh event) runs c = (runs, c)
  step_from-Counted (checking (d ∷ rest) fsh event) runs c =
      elim (Bool-cases ((t.events d).done || (t.events d).fsh)) [
        | inl e ↦ rw (e, step_from) (runs, looks-Counts d rest fsh event c)
        | inr e ↦ rw (e, step_from) tt
      ]
  step_from-Counted (advancing fsh event) runs c = (runs, c)
  step_from-Counted (resetting fsh event) runs c = (runs, c)
  step_from-Counted (releasing (d ∷ rest) fsh event) runs c = (
    runs,
    Counted-later (releasing rest fsh event) t.dev_list t.events
        (update t.events d (record (t.events d) { done = false }))
        (λ x h. elim (Bool-cases (d == x)) [
          | inr other ↦ rw other h
          | inl same ↦
              let at : d ≡ x = ground (arith, same) in rw same (ap (λ y. (t.events y).fsh) at ∙ h)
        ])
        c,
  )
  step_from-Counted (releasing [] fsh event) runs (le, all) = elim (Bool-cases (fsh == event)) [
    | inl e ↦
        let same : fsh ≡ event = ground (arith, e) in
        rw (e, step_from) (runs, λ d h. all same d h (unfold has in refl))
    | inr e ↦ rw (e, runs, step_from) (refl, start-Counts t.dev_list t.events)
  ]
  step_from-Counted ended runs c = tt

  pub timer_step-Counted :
      (t' : Timer)
      → t.timer_stop ≡ false
      → Counted t
      → timer_step t ≡ some t'
      → (t'.timer_stop ≡ false) × Counted t'
  unfolding timer_step
  timer_step-Counted t' runs c e = subst AfterStep e (step_from-Counted t.place runs c)
