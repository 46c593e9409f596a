-- ===== src/Sched/Rounds.antt =====
-- A process that is handed out and put back: the scheduler's turn of one time slice.
use btl_hdh.Base.{
  ℕ, ◌<◌, ◌≡◌, refl, sym, ap, ◌∙◌, subst, ◌≢◌, Option, some, List, [], ◌∷◌, ◌++◌, arith, ◌==◌,
  false, ==_refl, length, leb,
}
use native.Mathlib.Decide.{dec_lt}
use btl_hdh.Queue.{Ptr, null, max_queue_size, contents}
use btl_hdh.Sched.{max_prio, Sched, Pcb, get_mlq_proc, put_mlq_proc}
use btl_hdh.Sched.Stages.{Inv, Served, Outcome, idles, serves}
use btl_hdh.Sched.Priority.{get_mlq_proc-Outcome}
use btl_hdh.Sched.Moves.{appended, put_mlq_proc-contents}

appended_room :
    (xs : List Ptr) (x : Ptr) → x ≢ null → length xs < max_queue_size → appended xs x ≡ xs ++ x ∷ []
unfolding appended
appended_room xs x ne room =
    let found : (x == null) ≡ false = ground arith in
    let space : leb max_queue_size (length xs) ≡ false = ground arith in rw (found, space) refl

module _ (s : Sched) (p : ℕ) (x : Ptr) (xs : List Ptr) (within : p < max_prio)
    (first : (j : ℕ) → j < p → contents (s.mlq_ready_queue j) ≡ [])
    (here : contents (s.mlq_ready_queue p) ≡ x ∷ xs) where
  -- The level that is served is the first one that holds a process.
  same_level : (q : ℕ) (y : Ptr) (s' : Sched) → Served s q y s' → q ≡ p
  same_level q y s' v = elim (dec_lt p q) [
    | yes lt ↦ absurd (ground (arith, v.first p lt, here))
    | no ge ↦ elim (dec_lt q p) [
      | yes lt ↦ absurd (ground (arith, first q lt, v.taken))
      | no le ↦ omega arith
    ]
  ]

  -- The state after `get_mlq_proc` and `put_mlq_proc`, told from the one before.
  abbrev pub Turned : Option (Ptr × Sched) → Type 0
  Turned r =
      (s' : Sched) × (r ≡ some (x, s'))
      × (contents ((put_mlq_proc s' (record { addr = x; prio = p })).mlq_ready_queue p)
          ≡ xs ++ x ∷ [])
      × ((j : ℕ)
          → j ≢ p
          → contents ((put_mlq_proc s' (record { addr = x; prio = p })).mlq_ready_queue j)
            ≡ contents (s.mlq_ready_queue j))

  turned : (r : Option (Ptr × Sched)) → length xs < max_queue_size → Outcome s r → Turned r
  turned _ room (idles i) = absurd (ground (arith, i.empty p within, here))
  turned _ room (serves {p = q} {proc = y} {s' = s'} ne v) =
      let at : q ≡ p = same_level q y s' v in
      let taken : x ∷ xs ≡ y ∷ contents (s'.mlq_ready_queue p) =
        sym here
        ∙ ap (λ j. contents (s.mlq_ready_queue j)) (sym at)
        ∙ v.taken
        ∙ ap (λ j. y ∷ contents (s'.mlq_ready_queue j)) at in
      let head : x ≡ y = cc taken in
      let rest : xs ≡ contents (s'.mlq_ready_queue p) = cc taken in
      let back : Pcb = record { addr = x; prio = p } in
      let ne' : x ≢ null = subst (λ z. z ≢ null) (sym head) ne in
      let put = λ (j : ℕ). (put_mlq_proc-contents s' back j v.inv ne' within).2 in
      (
        s',
        ap (λ z. some (z, s')) (sym head),
        put p ∙ rw (==_refl p, ← rest) (appended_room xs x ne' room),
        λ j off.
            let no_level : (p == j) ≡ false = ground arith in
            put j ∙ rw no_level (v.others j (λ e. off (e ∙ at))),
      )

  -- Where queue `p` is the first that holds a process and has room for one more, a process that is
  -- handed out and put back with its priority goes from the front of `p` to its end, and no other
  -- queue changes: the processes of the level take turns, and those below wait.
  pub put_mlq_proc-get_mlq_proc : Inv s → length xs < max_queue_size → Turned (get_mlq_proc s)
  put_mlq_proc-get_mlq_proc v room = turned _ room (get_mlq_proc-Outcome s 0 v).0
