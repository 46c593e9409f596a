-- ===== src/Kernel/Places.antt =====
-- What the place of a CPU tells about the turn, and about the slot.
use btl_hdh.Base.{ℕ, ◌+◌, ◌≡◌, refl, sym, ap, ◌∙◌, ◌≢◌, Bool, true, false, Option, some, arith}
use btl_hdh.Timer as Dev
use btl_hdh.Timer.{
  Event, Timer, checking, advancing, resetting, releasing, ended, finish_slot, slot_is_over,
  detach_event,
}
use btl_hdh.Timer.Steps.{
  pending, Phase, busy, gone, View, within, Kept, view, Inv, finished, resumed,
}
use btl_hdh.Timer.Steps as Steps
use btl_hdh.Kernel.{Place, waiting, announcing, resting, stopping, detaching}
use btl_hdh.Kernel.Turns.{
  in_turn, Over, is_resetting, Stands, waits, has_turn, announces, rests, renewed, detaches,
  has_stopped,
}

-- By the place of a CPU.
module _ {id : ℕ} {turn : Option ℕ} {active : Bool} {time slots : ℕ} {unset past : Bool} where
  pub at_turn :
      {p : Place}
      → in_turn p ≡ true
      → Stands id turn active time slots unset past p
      → (p ≢ stopping → active ≡ true)
        × (p ≡ stopping → active ≡ false)
        × (past ≡ false)
        × (turn ≡ some id)
  at_turn t (waits a h b) = cc
  at_turn t (has_turn u a b h e) = (a, b, h, e)
  at_turn t (announces a o) = cc
  at_turn t (rests a o s) = cc
  at_turn t (renewed a h s b) = cc
  at_turn t (detaches a) = cc
  at_turn t (has_stopped a) = cc

  pub at_wait :
      {p : Place}
      → p ≡ waiting
      → Stands id turn active time slots unset past p
      → (active ≡ true) × (past ≡ false)
  at_wait e (waits a h b) = (a, h)
  at_wait e (has_turn u a b h t) = absurd (let bad = ap in_turn (sym e) ∙ u in cc bad)
  at_wait e (announces a o) = cc
  at_wait e (rests a o s) = cc
  at_wait e (renewed a h s b) = cc
  at_wait e (detaches a) = cc
  at_wait e (has_stopped a) = cc

  pub at_announcing :
      {p : Place}
      → p ≡ announcing
      → Stands id turn active time slots unset past p
      → (active ≡ true) × Over id turn past
  at_announcing e (waits a h b) = cc
  at_announcing e (has_turn u a b h t) = absurd (let bad = ap in_turn (sym e) ∙ u in cc bad)
  at_announcing e (announces a o) = (a, o)
  at_announcing e (rests a o s) = cc
  at_announcing e (renewed a h s b) = cc
  at_announcing e (detaches a) = cc
  at_announcing e (has_stopped a) = cc

pub at_detaching :
    {id : ℕ} {turn : Option ℕ} {active : Bool} {time slots : ℕ} {unset past : Bool} {p : Place}
    → p ≡ detaching
    → Stands id turn active time slots unset past p
    → active ≡ false
at_detaching e (waits a h b) = cc
at_detaching e (has_turn u a b h t) = absurd (let bad = ap in_turn (sym e) ∙ u in cc bad)
at_detaching e (announces a o) = cc
at_detaching e (rests a o s) = cc
at_detaching e (renewed a h s b) = cc
at_detaching e (detaches a) = a
at_detaching e (has_stopped a) = a

pub let_go_only :
    (time slots : ℕ) (event : Event) (w : View) (phase : Phase)
    → phase ≡ Steps.Phase.resting
    → event.done ≡ false
    → Kept time event slots w phase
    → (w ≡ within) × (slots + 1 ≡ time)
let_go_only time slots event _ _ e over (Steps.works d fsh at) = cc
let_go_only time slots event _ _ e over (Steps.waits d fsh at) = cc
let_go_only time slots event _ _ e over (Steps.waits_passed d fsh at) = cc
let_go_only time slots event _ _ e over (Steps.behind d fsh at) = cc
let_go_only time slots event _ _ e over (Steps.let_go d fsh at) = (refl, at)
let_go_only time slots event _ _ e over (Steps.left fsh) = cc

-- A device at work is in the slot that the time tells.
pub busy_slots :
    (time slots : ℕ) (event : Event) (w : View) (phase : Phase)
    → phase ≡ busy
    → Kept time event slots w phase
    → (slots ≡ time) × (w ≡ within)
busy_slots time slots event _ _ e (Steps.works d fsh at) = (at, refl)
busy_slots time slots event _ _ e (Steps.waits d fsh at) = cc
busy_slots time slots event _ _ e (Steps.waits_passed d fsh at) = cc
busy_slots time slots event _ _ e (Steps.behind d fsh at) = cc
busy_slots time slots event _ _ e (Steps.let_go d fsh at) = cc
busy_slots time slots event _ _ e (Steps.left fsh) = cc

-- While a device is within its slot the order is set.
pub set_when_within : (p : Dev.Place) (d : ℕ) → view p d ≡ within → is_resetting p ≡ false
unfolding view
set_when_within (checking rest fsh event) d e = refl
set_when_within (advancing fsh event) d e = refl
set_when_within (resetting fsh event) d e = cc
set_when_within (releasing rest fsh event) d e = refl
set_when_within ended d e = refl

-- A CPU comes out of the wait for the slot where the timer has let it go.
pub resumes :
    (id : ℕ) (turn : Option ℕ) (active : Bool) (time slots : ℕ) (unset past : Bool) (p : Place)
    → p ≡ resting
    → slots + 1 ≡ time
    → unset ≡ false
    → Stands id turn active time slots unset past p
    → Stands id turn active time (slots + 1) unset past waiting
resumes id turn active time slots unset past _ e over set (waits a h b) = cc
resumes id turn active time slots unset past _ e over set (has_turn t a b h at) =
    absurd (let bad = ap in_turn (sym e) ∙ t in cc bad)
resumes id turn active time slots unset past _ e over set (announces a o) = cc
resumes id turn active time slots unset past _ e over set (rests a o s) =
    absurd (omega (arith, over, s))
resumes id turn active time slots unset past _ e over set (renewed a h s b) = waits a h (b set)
resumes id turn active time slots unset past _ e over set (detaches a) = cc
resumes id turn active time slots unset past _ e over set (has_stopped a) = cc
