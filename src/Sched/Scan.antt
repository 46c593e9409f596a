-- ===== src/Sched/Scan.antt =====
-- What the two search loops of `get_mlq_proc` find.
use btl_hdh.Base.{
  ℕ, zero, suc, ◌+◌, ◌%◌, ◌≤◌, ◌<◌, ◌≡◌, ◌≢◌, inl, inr, none, some, arith, ◌==◌, ◌-◌, subst, sym,
  Bool-cases,
}
use native.Mathlib.Decide.{dec_lt}
use btl_hdh.Queue.{Queue, empty}
use btl_hdh.Sched.{max_prio, first_ready, next_ready}

-- No queue of a range of priorities holds a process.
abbrev pub EmptyBetween : (ℕ → Queue) → ℕ → ℕ → Type 0
EmptyBetween mlq i n = (j : ℕ) → i ≤ j → j < n → (mlq j).size ≡ 0

pub first_ready-none :
    (mlq : ℕ → Queue) (i n : ℕ) → first_ready mlq i n ≡ none → EmptyBetween mlq i (i + n)
unfolding first_ready empty
first_ready-none mlq i zero h j p q = absurd (omega arith)
first_ready-none mlq i (suc n) h j p q = elim (Bool-cases (i == j)) [
  | inl e ↦ ground arith
  | inr e ↦ ground (arith, first_ready-none mlq (suc i) n (ground arith) j)
]

pub record IsFirst (mlq : ℕ → Queue) (i k : ℕ) : Type 0 where
  pub from : i ≤ k
  pub ready : (mlq k).size ≢ 0
  pub before : EmptyBetween mlq i k

pub first_ready-some :
    (mlq : ℕ → Queue) (i n k : ℕ) → first_ready mlq i n ≡ some k → (k < i + n) × IsFirst mlq i k
unfolding first_ready empty
first_ready-some mlq i zero k h = cc
first_ready-some mlq i (suc n) k h = elim (Bool-cases ((mlq i).size == 0)) [
  | inl e ↦
      let (lt, first) = first_ready-some mlq (suc i) n k (ground arith) in
      (
        omega arith,
        record {
          from = omega (arith, first.from);
          ready = first.ready;
          before = λ j p q. ground (arith, first.before j);
        },
      )
  | inr e ↦
      let at : i ≡ k = ground arith in
      (
        omega arith,
        record {
          from = omega arith;
          ready = subst (λ j. (mlq j).size ≢ 0) at (ground arith);
          before = λ j p q. absurd (omega arith);
        },
      )
]

-- The round `i` of the second loop looks at this priority.
abbrev pub check_prio : ℕ → ℕ → ℕ
check_prio prio i = (prio + i) % max_prio

next_ready-none_round :
    (mlq : ℕ → Queue) (prio i n : ℕ)
    → next_ready mlq prio i n ≡ none
    → (j : ℕ) → i ≤ j
    → j < i + n
    → (mlq (check_prio prio j)).size ≡ 0
unfolding next_ready empty
next_ready-none_round mlq prio i zero h j p q = absurd (omega arith)
next_ready-none_round mlq prio i (suc n) h j p q = elim (Bool-cases (i == j)) [
  | inl e ↦
      let at : i ≡ j = ground arith in
      subst (λ k. (mlq (check_prio prio k)).size ≡ 0) at (ground arith)
  | inr e ↦ ground (arith, next_ready-none_round mlq prio (suc i) n (ground arith) j)
]

record Found (mlq : ℕ → Queue) (prio i n p : ℕ) : Type 0 where
  round : ℕ
  from : i ≤ round
  below : round < i + n
  here : p ≡ check_prio prio round
  ready : (mlq p).size ≢ 0
  before : (j : ℕ) → i ≤ j → j < round → (mlq (check_prio prio j)).size ≡ 0

next_ready-some_round :
    (mlq : ℕ → Queue) (prio i n p : ℕ) → next_ready mlq prio i n ≡ some p → Found mlq prio i n p
unfolding next_ready empty
next_ready-some_round mlq prio i zero p h = cc
next_ready-some_round mlq prio i (suc n) p h =
    elim (Bool-cases ((mlq (check_prio prio i)).size == 0)) [
      | inl e ↦
          let rest = next_ready-some_round mlq prio (suc i) n p (ground arith) in
          record {
            round = rest.round;
            from = omega (arith, rest.from);
            below = omega (arith, rest.below);
            here = rest.here;
            ready = rest.ready;
            before = λ j a b. elim (Bool-cases (i == j)) [
              | inl at ↦
                  let at' : i ≡ j = ground arith in
                  subst (λ k. (mlq (check_prio prio k)).size ≡ 0) at' (ground arith)
              | inr off ↦ rest.before j (ground arith) b
            ];
          }
      | inr e ↦
          let at : check_prio prio i ≡ p = ground arith in
          record {
            round = i;
            from = omega arith;
            below = omega arith;
            here = sym at;
            ready = subst (λ j. (mlq j).size ≢ 0) at (ground arith);
            before = λ j a b. absurd (omega arith);
          }
    ]

module _ (mlq : ℕ → Queue) (prio : ℕ) (within : prio < max_prio)
    (above : EmptyBetween mlq 0 prio) where
  check_prio_self : (j : ℕ) → prio ≤ j → j < max_prio → check_prio prio (j - prio) ≡ j
  check_prio_self j p q = omega arith

  -- Where no priority above `prio` waits, the loop that starts at `prio` looks at all queues.
  pub next_ready-none : next_ready mlq prio 0 max_prio ≡ none → EmptyBetween mlq 0 max_prio
  next_ready-none h j p q = elim (dec_lt j prio) [
    | yes lt ↦ above j p lt
    | no ge ↦
        subst (λ k. (mlq k).size ≡ 0) (check_prio_self j (omega arith) q)
          (next_ready-none_round mlq prio 0 max_prio h (j - prio) (omega arith) (omega arith))
  ]

  -- And what it finds is the first priority of all that waits.
  pub next_ready-some :
      (p : ℕ) → next_ready mlq prio 0 max_prio ≡ some p → (p < max_prio) × IsFirst mlq 0 p
  next_ready-some p h =
      let found = next_ready-some_round mlq prio 0 max_prio p h in
      let not_above : ¬ (p < prio) = λ lt. found.ready (above p (omega arith) lt) in
      let at : p ≡ prio + found.round = omega (arith, found.here, found.below, not_above) in
      (
        omega (arith, found.here),
        record {
          from = omega arith;
          ready = found.ready;
          before = λ j a b. elim (dec_lt j prio) [
            | yes lt ↦ above j a lt
            | no ge ↦
                subst (λ k. (mlq k).size ≡ 0)
                  (check_prio_self j (omega arith) (omega (arith, found.here)))
                  (found.before (j - prio) (omega arith) (omega arith))
          ];
        },
      )
