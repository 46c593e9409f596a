-- ===== src/Kernel/Slices.antt =====
-- The time slices: how long a CPU keeps a process.
use btl_hdh.Base.{
  ℕ, ◌-◌, ◌≤◌, ◌≡◌, refl, subst, sym, inl, inr, Bool, true, false, ◌&&◌, Option, none, some, ◌==◌,
  if◌then◌else◌, update, at_index, Bool-cases, Option-cases, ==_refl, arith, ltb,
}
use btl_hdh.Base.Run.{Run, done, fault, ◌>>=◌}
use btl_hdh.Base.Int.{ℤ}
use btl_hdh.Queue.{Ptr, null}
use btl_hdh.Sched.{get_mlq_proc}
use btl_hdh.CpuOrder.{is_turn}
use btl_hdh.Timer.{slot_is_over}
use btl_hdh.Cpu.{Proc, Krnl, Outside}
use btl_hdh.Kernel.{
  Config, Place, waiting, picking, getting, rechecking, running, signalling, announcing, resting,
  stopping, detaching, stopped, Core, LdPlace, first_turn, first_signal, loading, until_start,
  publishing, ld_signalling, ld_announcing, ld_resting, ld_turn, finishing, leaving, ld_detaching,
  ld_ended, Kernel, Loading, set_core, pick, recheck, cpu_step_from, cpu_step, publish,
  ld_step_from, ld_step,
}
use btl_hdh.Kernel.Exclusive.{Reached, at_start, cpu_goes, loader_goes, timer_goes, IsStart}

-- From the choice of a process until its slot is counted there is time left.
unfoldable pub is_busy : Place → Bool
is_busy waiting = false
is_busy picking = false
is_busy (getting first) = false
is_busy rechecking = false
is_busy running = true
is_busy (signalling ran) = ran
is_busy announcing = false
is_busy resting = false
is_busy stopping = false
is_busy detaching = false
is_busy stopped = false

pub record InSlice (time_slot : ℕ) (c : Core) : Type 0 where
  pub most : c.time_left ≤ time_slot
  pub least : (if is_busy c.place then 1 else 0) ≤ c.time_left

abbrev SlicesIn : Config → Kernel → Type 0
SlicesIn cfg k = (id : ℕ) → InSlice cfg.time_slot (k.cores id)

abbrev Sliced : Config → Run (Option Kernel) → Type 0
Sliced cfg (done none) = Unit
Sliced cfg (done (some k)) = SlicesIn cfg k
Sliced cfg fault = Unit

module _ (cfg : Config) (k : Kernel) (id : ℕ) (v : SlicesIn cfg k) (pos : 1 ≤ cfg.time_slot) where
  sets :
      (c : Core) → InSlice cfg.time_slot c → (x : ℕ) → InSlice cfg.time_slot (update k.cores id c x)
  sets c s x =
      at_index id (λ y. InSlice cfg.time_slot (k.cores y))
        (λ y. InSlice cfg.time_slot (update k.cores id c y)) (λ w. rw (==_refl id) s)
        (λ y off w. rw off w) x (v x)

  -- The variables at a place where no time has to be left.
  moves :
      (t : ℕ) (p : Ptr) (place : Place)
      → t ≤ cfg.time_slot
      → is_busy place ≡ false
      → (x : ℕ)
      → InSlice cfg.time_slot
          (update k.cores id (record { proc = p; time_left = t; place = place }) x)
  moves t p place h idle x =
      sets (record { proc = p; time_left = t; place = place })
        (record { most = h; least = rw idle (omega arith) }) x

  pick-Sliced : Sliced cfg (pick k id (k.cores id) >>= λ k'. done (some k'))
  unfolding pick is_busy
  pick-Sliced =
      let c = k.cores id in
      let most = (v id).most in
      elim (Bool-cases (c.proc == null)) [
        | inl a ↦ rw (a, pick) (moves c.time_left c.proc (getting true) most refl)
        | inr a ↦ elim (Bool-cases (k.live c.proc)) [
          | inr b ↦ rw (a, b, pick) tt
          | inl b ↦ elim (Bool-cases ((k.procs c.proc).pc == (k.procs c.proc).code.size)) [
            | inl d ↦ rw (a, b, d, pick) (moves 0 c.proc (getting false) (omega arith) refl)
            | inr d ↦ elim (Bool-cases (c.time_left == 0)) [
              | inl e ↦ rw (a, b, d, e, pick) (moves c.time_left c.proc (getting false) most refl)
              | inr e ↦ rw (a, b, d, e, pick) (moves c.time_left c.proc rechecking most refl)
            ]
          ]
        ]
      ]

  recheck-Sliced : SlicesIn cfg (recheck cfg k id (k.cores id))
  unfolding recheck is_busy
  recheck-Sliced =
      let c = k.cores id in
      let most = (v id).most in
      elim (Bool-cases ((c.proc == null) && k.is_done)) [
        | inl a ↦ rw (a, recheck) (moves c.time_left c.proc stopping most refl)
        | inr a ↦ elim (Bool-cases (c.proc == null)) [
          | inl b ↦ rw (a, b, recheck) (moves c.time_left c.proc (signalling false) most refl)
          | inr b ↦
              rw (a, b, recheck)
                (sets
                  (record c {
                    time_left = if c.time_left == 0 then cfg.time_slot else c.time_left;
                    place = running;
                  })
                  (record { most = ground arith; least = ground arith }))
        ]
      ]

  run-Sliced :
      (r : Run (ℤ × Krnl × Proc))
      → (k.cores id).place ≡ running
      → Sliced cfg (
          r >>= λ (stat, krnl, proc). done (
            some (
              set_core
                (record k { krnl = krnl; procs = update k.procs (k.cores id).proc proc })
                id
                (record (k.cores id) { place = signalling true }))))
  unfolding is_busy
  run-Sliced fault at = tt
  run-Sliced (done a) at =
      sets (record (k.cores id) { place = signalling true })
        (record { most = (v id).most; least = rw at at (v id).least })

  signal-Sliced :
      (ran : Bool)
      → (x : ℕ)
      → InSlice cfg.time_slot (
          update k.cores id
            (record (k.cores id) {
              time_left = if ran then (k.cores id).time_left - 1 else (k.cores id).time_left;
              place = announcing;
            })
            x)
  unfolding is_busy
  signal-Sliced true = moves _ _ announcing (omega (arith, (v id).most)) refl
  signal-Sliced false = moves _ _ announcing (v id).most refl

  cpu_step_from-Sliced :
      (o : Outside) (place : Place)
      → (k.cores id).place ≡ place
      → Sliced cfg (cpu_step_from cfg o k id (k.cores id) place)
  unfolding cpu_step_from is_busy
  cpu_step_from-Sliced o waiting at = elim (Bool-cases (is_turn k.timer.order (some id))) [
    | inl e ↦ rw (e, cpu_step_from) (moves _ _ picking (v id).most refl)
    | inr e ↦ rw (e, cpu_step_from) tt
  ]
  cpu_step_from-Sliced o picking at = pick-Sliced
  cpu_step_from-Sliced o (getting first) at = elim (Option-cases (get_mlq_proc k.sched)) [
    | inl e ↦ rw (e, cpu_step_from) tt
    | inr ((p, s), e) ↦ elim (Bool-cases (first && (p == null))) [
      | inl b ↦ rw (e, b, cpu_step_from) (moves _ p (signalling false) (v id).most refl)
      | inr b ↦ rw (e, b, cpu_step_from) (moves _ p rechecking (v id).most refl)
    ]
  ]
  cpu_step_from-Sliced o rechecking at = recheck-Sliced
  cpu_step_from-Sliced o running at = elim (Bool-cases (k.live (k.cores id).proc)) [
    | inl e ↦ rw (e, cpu_step_from) (run-Sliced _ at)
    | inr e ↦ rw (e, cpu_step_from) tt
  ]
  cpu_step_from-Sliced o (signalling ran) at = signal-Sliced ran
  cpu_step_from-Sliced o announcing at = moves _ _ resting (v id).most refl
  cpu_step_from-Sliced o resting at = elim (Bool-cases (slot_is_over k.timer id)) [
    | inl e ↦ rw (e, cpu_step_from) (moves _ _ waiting (v id).most refl)
    | inr e ↦ rw (e, cpu_step_from) tt
  ]
  cpu_step_from-Sliced o stopping at = moves _ _ detaching (v id).most refl
  cpu_step_from-Sliced o detaching at = moves _ _ stopped (v id).most refl
  cpu_step_from-Sliced o stopped at = tt

-- The loader does not touch the variables of the CPUs.
abbrev SameCores : Kernel → Option Kernel → Type 0
SameCores k none = Unit
SameCores k (some k') = k'.cores ≡ k.cores

ld_step_from-SameCores :
    (cfg : Config) (l : Loading) (k : Kernel) (place : LdPlace)
    → SameCores k (ld_step_from cfg l k place)
unfolding ld_step_from publish
ld_step_from-SameCores cfg l k first_turn = elim (Bool-cases (is_turn k.timer.order none)) [
  | inl e ↦ rw (e, ld_step_from) refl
  | inr e ↦ rw (e, ld_step_from) tt
]
ld_step_from-SameCores cfg l k first_signal = refl
ld_step_from-SameCores cfg l k loading = elim (Bool-cases (ltb k.loader.i cfg.num_processes)) [
  | inl e ↦ rw (e, ld_step_from) refl
  | inr e ↦ rw (e, ld_step_from) refl
]
ld_step_from-SameCores cfg l k until_start = refl
ld_step_from-SameCores cfg l k publishing = refl
ld_step_from-SameCores cfg l k (ld_signalling again) = refl
ld_step_from-SameCores cfg l k (ld_announcing again) = refl
ld_step_from-SameCores cfg l k (ld_resting again) =
    elim (Bool-cases (slot_is_over k.timer cfg.num_cpus)) [
      | inl e ↦ rw (e, ld_step_from) refl
      | inr e ↦ rw (e, ld_step_from) tt
    ]
ld_step_from-SameCores cfg l k (ld_turn again) = elim (Bool-cases (is_turn k.timer.order none)) [
  | inl e ↦ rw (e, ld_step_from) refl
  | inr e ↦ rw (e, ld_step_from) tt
]
ld_step_from-SameCores cfg l k finishing = refl
ld_step_from-SameCores cfg l k leaving = refl
ld_step_from-SameCores cfg l k ld_detaching = refl
ld_step_from-SameCores cfg l k ld_ended = tt

ld_step-SlicesIn :
    (cfg : Config) (l : Loading) (k k' : Kernel)
    → ld_step cfg l k ≡ some k'
    → SlicesIn cfg k
    → SlicesIn cfg k'
unfolding ld_step
ld_step-SlicesIn cfg l k k' e v =
    let same = subst (SameCores k) e (ld_step_from-SameCores cfg l k k.loader.place) in
    λ id. subst (λ f. InSlice cfg.time_slot (f id)) (sym same) (v id)

cpu_step-SlicesIn :
    (cfg : Config) (o : Outside) (k k' : Kernel) (id : ℕ)
    → 1 ≤ cfg.time_slot
    → cpu_step cfg o k id ≡ done (some k')
    → SlicesIn cfg k
    → SlicesIn cfg k'
unfolding cpu_step
cpu_step-SlicesIn cfg o k k' id pos e v =
    subst (Sliced cfg) e (cpu_step_from-Sliced cfg k id v pos o (k.cores id).place refl)

-- A CPU that starts with no time left never has more than a time slice left, and has some left
-- whenever it runs a process or counts its slot, so the count never goes below 0. The time
-- slice is at least 1.
pub Reached-InSlice :
    (cfg : Config) (start k : Kernel) (id : ℕ)
    → 1 ≤ cfg.time_slot
    → IsStart start
    → ((x : ℕ) → (start.cores x).time_left ≡ 0)
    → Reached cfg start k
    → InSlice cfg.time_slot (k.cores id)
unfolding is_busy
Reached-InSlice cfg start _ id pos s none_left at_start = record {
  most = rw (none_left id) (omega arith);
  least = rw (s.cpus id).1 (omega arith);
}
Reached-InSlice cfg start _ id pos s none_left (cpu_goes {k = k} {k' = k'} o x r e) =
    cpu_step-SlicesIn cfg o k k' x pos e (λ y. Reached-InSlice cfg start k y pos s none_left r) id
Reached-InSlice cfg start _ id pos s none_left (loader_goes {k = k} {k' = k'} l r fresh e) =
    ld_step-SlicesIn cfg l k k' e (λ y. Reached-InSlice cfg start k y pos s none_left r) id
Reached-InSlice cfg start _ id pos s none_left (timer_goes {k = k} r e) =
    Reached-InSlice cfg start k id pos s none_left r
