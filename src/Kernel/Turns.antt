-- ===== src/Kernel/Turns.antt =====
-- How a CPU stands to the turn of the slot, and what the steps of the others do about that.
use btl_hdh.Base.{
  ℕ, zero, suc, ◌+◌, ◌≤◌, ◌<◌, ◌≡◌, refl, sym, ap, ◌∙◌, subst, ◌≢◌, Bool, true, false, Option, none,
  some, ◌==◌, inl, inr, Bool-cases, arith,
}
use btl_hdh.CpuOrder.{find_active_below}
use btl_hdh.Timer as Dev
use btl_hdh.Timer.{Event, checking, advancing, resetting, releasing, ended}
use btl_hdh.Timer.Steps.{
  Phase, busy, gone, View, late, passed, Kept, works, waits_passed, behind, let_go, left,
}
use btl_hdh.Timer.Steps as Steps
use btl_hdh.Kernel.{
  Place, waiting, picking, getting, rechecking, running, signalling, announcing, resting, stopping,
  detaching, stopped, LdPlace, first_turn, first_signal, loading, until_start, publishing,
  ld_signalling, ld_announcing, ld_resting, ld_turn, finishing, leaving, ld_detaching, ld_ended,
}

-- A CPU has the turn from `wait_cpu_turn` to `signal_next_cpu`.
abbrev pub in_turn : Place → Bool
in_turn waiting = false
in_turn picking = true
in_turn (getting first) = true
in_turn rechecking = true
in_turn running = true
in_turn (signalling ran) = true
in_turn announcing = false
in_turn resting = false
in_turn stopping = true
in_turn detaching = false
in_turn stopped = false

-- The loader has taken its turn, and has neither come to the end of the slot nor ended.
abbrev pub is_past : LdPlace → Bool
is_past first_turn = false
is_past first_signal = true
is_past loading = true
is_past until_start = true
is_past publishing = true
is_past (ld_signalling again) = true
is_past (ld_announcing again) = true
is_past (ld_resting again) = false
is_past (ld_turn again) = false
is_past finishing = true
is_past leaving = true
is_past ld_detaching = true
is_past ld_ended = false

-- The loader is before `wait_cpu_turn`.
abbrev pub ld_waits : LdPlace → Bool
ld_waits first_turn = true
ld_waits (ld_turn again) = true
ld_waits first_signal = false
ld_waits loading = false
ld_waits until_start = false
ld_waits publishing = false
ld_waits (ld_signalling again) = false
ld_waits (ld_announcing again) = false
ld_waits (ld_resting again) = false
ld_waits finishing = false
ld_waits leaving = false
ld_waits ld_detaching = false
ld_waits ld_ended = false

-- What the devices do, as the timer sees it.
abbrev pub cpu_phase : Place → Phase
cpu_phase resting = Steps.Phase.resting
cpu_phase stopped = gone
cpu_phase waiting = busy
cpu_phase picking = busy
cpu_phase (getting first) = busy
cpu_phase rechecking = busy
cpu_phase running = busy
cpu_phase (signalling ran) = busy
cpu_phase announcing = busy
cpu_phase stopping = busy
cpu_phase detaching = busy

abbrev pub ld_phase : LdPlace → Phase
ld_phase (ld_resting again) = Steps.Phase.resting
ld_phase ld_ended = gone
ld_phase first_turn = busy
ld_phase first_signal = busy
ld_phase loading = busy
ld_phase until_start = busy
ld_phase publishing = busy
ld_phase (ld_signalling again) = busy
ld_phase (ld_announcing again) = busy
ld_phase (ld_turn again) = busy
ld_phase finishing = busy
ld_phase leaving = busy
ld_phase ld_detaching = busy

-- The time has moved on, and the order has not been reset.
abbrev pub is_resetting : Dev.Place → Bool
is_resetting (checking rest fsh event) = false
is_resetting (advancing fsh event) = false
is_resetting (resetting fsh event) = true
is_resetting (releasing rest fsh event) = false
is_resetting ended = false

-- The turn comes to the CPU, or has come.
abbrev pub Before : ℕ → Option ℕ → Type 0
Before id turn = (j : ℕ) × (turn ≡ some j) × (id ≤ j)

-- The turn has come by the CPU, if the loader has not had it.
abbrev pub Over : ℕ → Option ℕ → Bool → Type 0
Over id turn past = past ≡ false → (j : ℕ) → turn ≡ some j → j < id

-- How a CPU stands at each place, by whose turn it is, whether it is active, the time, the slots that it has
-- come through, whether the order is to be reset, and whether the loader is past its turn.
pub data Stands (id : ℕ) (turn : Option ℕ) (active : Bool) (time slots : ℕ) (unset past : Bool)
    : Place → Type 0 where
  waits :
      active ≡ true
      → past ≡ false
      → Before id turn
      → Stands id turn active time slots unset past waiting
  has_turn :
      {p : Place}
      → in_turn p ≡ true
      → (p ≢ stopping → active ≡ true)
      → (p ≡ stopping → active ≡ false)
      → past ≡ false
      → turn ≡ some id
      → Stands id turn active time slots unset past p
  announces :
      active ≡ true → Over id turn past → Stands id turn active time slots unset past announcing
  rests :
      active ≡ true
      → Over id turn past
      → slots ≡ time
      → Stands id turn active time slots unset past resting
  renewed :
      active ≡ true
      → past ≡ false
      → slots + 1 ≡ time
      → (unset ≡ false → Before id turn)
      → Stands id turn active time slots unset past resting
  detaches : active ≡ false → Stands id turn active time slots unset past detaching
  has_stopped : active ≡ false → Stands id turn active time slots unset past stopped

-- The search downwards finds an active CPU, and none above it is passed over.
pub find-Before :
    (active : ℕ → Bool) (m id : ℕ)
    → active id ≡ true
    → id < m
    → Before id (find_active_below active m)
unfolding find_active_below
find-Before active zero id a lt = absurd (omega arith)
find-Before active (suc m) id a lt = elim (Bool-cases (active m)) [
  | inl e ↦ rw e (m, refl, omega arith)
  | inr e ↦ elim (Bool-cases (m == id)) [
    | inl same ↦
        let at : m ≡ id = ground (arith, same) in
        absurd (let bad : true ≡ false = sym a ∙ ap active (sym at) ∙ e in cc)
    | inr off ↦ rw e (find-Before active m id a (ground (arith, off)))
  ]
]

pub find-active :
    (active : ℕ → Bool) (m j : ℕ) → find_active_below active m ≡ some j → active j ≡ true
unfolding find_active_below
find-active active zero j e = absurd (cc e)
find-active active (suc m) j e = elim (Bool-cases (active m)) [
  | inl on ↦
      let at : some m ≡ some j = rw on at e in let same : m ≡ j = cc at in ap active (sym same) ∙ on
  | inr off ↦ find-active active m j (rw off at e)
]

pub find-below : (active : ℕ → Bool) (m j : ℕ) → find_active_below active m ≡ some j → j < m
unfolding find_active_below
find-below active zero j e = absurd (cc e)
find-below active (suc m) j e = elim (Bool-cases (active m)) [
  | inl on ↦
      (let at : some m ≡ some j = rw on at e in let same : m ≡ j = cc at in omega (arith, same))
  | inr off ↦ (let lt = find-below active m j (rw off at e) in omega (arith, lt))
]

module _ (id : ℕ) (turn : Option ℕ) (time slots : ℕ) (unset past : Bool) where
  -- Another CPU, whose turn it is, signals the next one.
  passes :
      (who : ℕ) (cpu_active : ℕ → Bool)
      → (who == id) ≡ false
      → turn ≡ some who
      → cpu_active id ≡ true
      → Before id turn
      → Before id (find_active_below cpu_active who)
  passes who cpu_active off at active (j, e, le) =
      let same : some j ≡ some who = sym e ∙ at in
      let is_who : j ≡ who = cc same in
      find-Before cpu_active who id active (ground (arith, is_who, le, off))

  skipped :
      (who : ℕ) (cpu_active : ℕ → Bool)
      → turn ≡ some who
      → Over id turn past
      → Over id (find_active_below cpu_active who) past
  skipped who cpu_active at o h j e =
      let lower = find-below cpu_active who j e in
      let above = o h who at in omega (arith, lower, above)

  pub Stands-passes :
      (who : ℕ) (cpu_active : ℕ → Bool) (p : Place)
      → (who == id) ≡ false
      → turn ≡ some who
      → Stands id turn (cpu_active id) time slots unset past p
      → Stands id (find_active_below cpu_active who) (cpu_active id) time slots unset past p
  Stands-passes who cpu_active _ off at (waits a h b) = waits a h (passes who cpu_active off at a b)
  Stands-passes who cpu_active _ off at (has_turn t a b h e) =
      let both : some who ≡ some id = sym at ∙ e in
      let same : who ≡ id = cc both in absurd (ground (arith, same, off))
  Stands-passes who cpu_active _ off at (announces a o) = announces a (skipped who cpu_active at o)
  Stands-passes who cpu_active _ off at (rests a o s) = rests a (skipped who cpu_active at o) s
  Stands-passes who cpu_active _ off at (renewed a h s b) =
      renewed a h s (λ u. passes who cpu_active off at a (b u))
  Stands-passes who cpu_active _ off at (detaches a) = detaches a
  Stands-passes who cpu_active _ off at (has_stopped a) = has_stopped a

module _ (id : ℕ) (turn : Option ℕ) (active : Bool) (time slots : ℕ) (unset : Bool) where
  absent_turn : Before id none → ⊥
  absent_turn (j, e, le) = cc e

  -- The loader takes its turn, when there is no CPU left.
  pub Stands-taken :
      (p : Place)
      → turn ≡ none
      → unset ≡ false
      → Stands id turn active time slots unset false p
      → Stands id turn active time slots unset true p
  Stands-taken _ at set (waits a h b) = absurd (absent_turn (subst (Before id) at b))
  Stands-taken _ at set (has_turn t a b h e) =
      absurd (let bad : none ≡ some id = sym at ∙ e in cc bad)
  Stands-taken _ at set (announces a o) = announces a (λ h. cc)
  Stands-taken _ at set (rests a o s) = rests a (λ h. cc) s
  Stands-taken _ at set (renewed a h s b) = absurd (absent_turn (subst (Before id) at (b set)))
  Stands-taken _ at set (detaches a) = detaches a
  Stands-taken _ at set (has_stopped a) = has_stopped a

  -- The loader, past its turn, gives the turn to any CPU, or comes to the end of the slot.
  pub Stands-past :
      (turn' : Option ℕ) (p : Place)
      → Stands id turn active time slots unset true p
      → Stands id turn' active time slots unset true p
  Stands-past turn' _ (waits a h b) = absurd (cc h)
  Stands-past turn' _ (has_turn t a b h e) = absurd (cc h)
  Stands-past turn' _ (announces a o) = announces a (λ h. cc)
  Stands-past turn' _ (rests a o s) = rests a (λ h. cc) s
  Stands-past turn' _ (renewed a h s b) = absurd (cc h)
  Stands-past turn' _ (detaches a) = detaches a
  Stands-past turn' _ (has_stopped a) = has_stopped a
