-- ===== src/Kernel/Ends.antt =====
-- How the CPUs stand to the turn where a slot ends and the order is reset.
use btl_hdh.Base.{ℕ, ◌+◌, ◌≡◌, refl, ◌≢◌, Bool, true, false, Option, arith}
use btl_hdh.Timer.{Event}
use btl_hdh.Timer.Steps.{
  Phase, busy, gone, View, late, passed, Kept, works, waits_passed, behind, let_go, left,
}
use btl_hdh.Timer.Steps as Steps
use btl_hdh.Kernel.{
  Place, waiting, picking, getting, rechecking, running, signalling, announcing, resting, stopping,
  detaching, stopped, LdPlace, first_turn, first_signal, loading, until_start, publishing,
  ld_signalling, ld_announcing, ld_resting, ld_turn, finishing, leaving, ld_detaching, ld_ended,
}
use btl_hdh.Kernel.Turns.{
  in_turn, is_past, cpu_phase, ld_phase, Before, Stands, waits, has_turn, announces, rests, renewed,
  detaches, has_stopped,
}

-- At the end of a slot every device rests or has gone.
pub past_slot :
    (time slots : ℕ) (event : Event) (phase : Phase)
    → Kept time event slots passed phase
    → (phase ≢ busy) × (phase ≡ Steps.Phase.resting → slots ≡ time)
past_slot time slots event _ (waits_passed done fsh at) = (λ e. cc, λ e. at)
past_slot time slots event _ (left fsh) = (λ e. cc, λ e. cc)

late_slot :
    (time slots : ℕ) (event : Event) (phase : Phase)
    → Kept time event slots late phase
    → (phase ≢ busy) × (phase ≡ Steps.Phase.resting → slots + 1 ≡ time)
late_slot time slots event _ (behind done fsh at) = (λ e. cc, λ e. at)
late_slot time slots event _ (left fsh) = (λ e. cc, λ e. cc)

pub busy_in_turn : (p : Place) → in_turn p ≡ true → cpu_phase p ≡ busy
busy_in_turn picking h = refl
busy_in_turn (getting first) h = refl
busy_in_turn rechecking h = refl
busy_in_turn running h = refl
busy_in_turn (signalling ran) h = refl
busy_in_turn stopping h = refl
busy_in_turn waiting h = cc
busy_in_turn announcing h = cc
busy_in_turn resting h = cc
busy_in_turn detaching h = cc
busy_in_turn stopped h = cc

pub busy_past : (ld : LdPlace) → is_past ld ≡ true → ld_phase ld ≡ busy
busy_past first_turn h = cc
busy_past first_signal h = refl
busy_past loading h = refl
busy_past until_start h = refl
busy_past publishing h = refl
busy_past (ld_signalling again) h = refl
busy_past (ld_announcing again) h = refl
busy_past (ld_resting again) h = cc
busy_past (ld_turn again) h = cc
busy_past finishing h = refl
busy_past leaving h = refl
busy_past ld_detaching h = refl
busy_past ld_ended h = cc

-- The time moves on.
pub Stands-advanced :
    (id : ℕ) (turn : Option ℕ) (active : Bool) (time slots : ℕ) (event : Event) (past : Bool)
    (p : Place)
    → Kept time event slots passed (cpu_phase p)
    → Stands id turn active time slots false past p
    → Stands id turn active (time + 1) slots true false p
Stands-advanced id turn active time slots event past p k (waits a h b) =
    absurd ((past_slot time slots event _ k).0 refl)
Stands-advanced id turn active time slots event past p k (has_turn t a b h e) =
    absurd ((past_slot time slots event _ k).0 (busy_in_turn p t))
Stands-advanced id turn active time slots event past p k (announces a o) =
    absurd ((past_slot time slots event _ k).0 refl)
Stands-advanced id turn active time slots event past p k (rests a o s) =
    renewed a refl (omega (arith, s)) (λ u. cc)
Stands-advanced id turn active time slots event past p k (renewed a h s b) =
    let at = (past_slot time slots event _ k).1 refl in absurd (omega (arith, at, s))
Stands-advanced id turn active time slots event past p k (detaches a) =
    absurd ((past_slot time slots event _ k).0 refl)
Stands-advanced id turn active time slots event past p k (has_stopped a) = has_stopped a

-- The order is reset.
pub Stands-reset :
    (id : ℕ) (turn turn' : Option ℕ) (active : Bool) (time slots : ℕ) (event : Event) (past : Bool)
    (p : Place)
    → (active ≡ true → Before id turn')
    → Kept time event slots late (cpu_phase p)
    → Stands id turn active time slots true past p
    → Stands id turn' active time slots false past p
Stands-reset id turn turn' active time slots event past p f k (waits a h b) =
    absurd ((late_slot time slots event _ k).0 refl)
Stands-reset id turn turn' active time slots event past p f k (has_turn t a b h e) =
    absurd ((late_slot time slots event _ k).0 (busy_in_turn p t))
Stands-reset id turn turn' active time slots event past p f k (announces a o) =
    absurd ((late_slot time slots event _ k).0 refl)
Stands-reset id turn turn' active time slots event past p f k (rests a o s) =
    let at = (late_slot time slots event _ k).1 refl in absurd (omega (arith, at, s))
Stands-reset id turn turn' active time slots event past p f k (renewed a h s b) =
    renewed a h s (λ u. f a)
Stands-reset id turn turn' active time slots event past p f k (detaches a) =
    absurd ((late_slot time slots event _ k).0 refl)
Stands-reset id turn turn' active time slots event past p f k (has_stopped a) = has_stopped a
