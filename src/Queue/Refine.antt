-- ===== src/Queue/Refine.antt =====
-- The array queue of src/queue.c implements a first-in first-out list of at most 50 processes.
use native.Mathlib.Nat.{zero-add}
use native.Mathlib.Numerals.{add-one}
use btl_hdh.Base.{
  true, false, ℕ, zero, suc, ◌+◌, ◌-◌, ◌≤◌, ◌<◌, ◌≡◌, refl, ap, ◌∙◌, ◌≢◌, inl, inr, List, [], ◌∷◌,
  ◌++◌, none, some, ◌||◌, arith, ◌==◌, leb, if◌then◌else◌, update, window, window_snoc,
  window-update_below, window-update_above, length, length-window, remove_first, has, window-append,
  Bool-cases, Option-cases,
}
use btl_hdh.Queue.{
  Ptr, null, max_queue_size, Queue, contents, enqueue, shift, dequeue, find_proc, purgequeue,
}

-- The loop leaves what stands before its first index.
shift_below : (f : ℕ → Ptr) (i n j : ℕ) → j < i → shift f i n j ≡ f j
unfolding shift
shift_below f i zero j h = refl
shift_below f i (suc n) j h = ground (arith, shift_below (update f i (f (suc i))) (suc i) n j)

window-shift_below :
    (f : ℕ → Ptr) (i n k m : ℕ) → k + m ≤ i → window (shift f i n) k m ≡ window f k m
unfolding window
window-shift_below f i n k zero h = refl
window-shift_below f i n k (suc m) h =
    rw (shift_below f i n k (omega arith), window-shift_below f i n (suc k) m (omega arith))

-- It moves the values behind its first index one place to the front.
window-shift : (f : ℕ → Ptr) (i n : ℕ) → window (shift f i n) i n ≡ window f (suc i) n
unfolding shift window
window-shift f i zero = refl
window-shift f i (suc n) =
    let g = update f i (f (suc i)) in
    ground (
      arith,
      shift_below g (suc i) n i,
      window-shift g (suc i) n,
      window-update_below f i (suc (suc i)) n (f (suc i)),
    )

-- A missing process is missing from the list.
find_proc-none :
    (f : ℕ → Ptr) (p i n : ℕ)
    → find_proc f p i n ≡ none
    → (has p (window f i n) ≡ false) × (remove_first p (window f i n) ≡ window f i n)
unfolding find_proc window remove_first has
find_proc-none f p i zero h = (refl, refl)
find_proc-none f p i (suc n) h = ground (arith, find_proc-none f p (suc i) n)

-- What `find_proc` finds is the first place of the process, `before` places into the window.
record Found (f : ℕ → Ptr) (p i n k : ℕ) : Type 0 where
  before : ℕ
  behind : ℕ
  index : k ≡ i + before
  rounds : n ≡ before + suc behind
  here : has p (window f i n) ≡ true
  split : remove_first p (window f i n) ≡ window f i before ++ window f (suc k) behind

find_proc-some : (f : ℕ → Ptr) (p i n k : ℕ) → find_proc f p i n ≡ some k → Found f p i n k
unfolding find_proc remove_first has window
find_proc-some f p i zero k h = cc
find_proc-some f p i (suc n) k h = elim (Bool-cases (f i == p)) [
  | inl e ↦ record {
    before = 0;
    behind = n;
    index = ground arith;
    rounds = omega arith;
    here = ground arith;
    split = ground arith;
  }
  | inr e ↦
      let rest = find_proc-some f p (suc i) n k (ground arith) in
      record {
        before = suc rest.before;
        behind = rest.behind;
        index = omega arith;
        rounds = omega arith;
        here = ground arith;
        split = ground arith;
      }
]

-- A new process goes to the end. NULL is refused, and so is any process once there are 50.
pub contents-enqueue :
    (q : Queue) (p : Ptr)
    → contents (enqueue q p) ≡ (
        if p == null || leb max_queue_size (length (contents q))
        then contents q
        else contents q ++ p ∷ [])
unfolding enqueue
contents-enqueue q p = elim (Bool-cases (p == null)) [
  | inl e ↦ rw e
  | inr e ↦ elim (Bool-cases (leb max_queue_size q.size)) [
    | inl full ↦ rw (length-window q.proc 0 q.size, e, full)
    | inr room ↦
        rw (length-window q.proc 0 q.size, e, room)
          (rw add-one (
            window_snoc (update q.proc q.size p) 0 q.size
            ∙ ground (arith, window-update_above q.proc q.size 0 q.size p)))
  ]
]

-- The process at the front, and what is left.
unfoldable pub pop_front : List Ptr → Ptr × List Ptr
pop_front [] = (null, [])
pop_front (p ∷ ps) = (p, ps)

dequeue-size :
    (f : ℕ → Ptr) (n : ℕ)
    → let (p, q) = dequeue (record { proc = f; size = n }) in
      (p, contents q) ≡ pop_front (window f 0 n)
unfolding dequeue pop_front window
dequeue-size f zero = refl
dequeue-size f (suc n) = ground (arith, window-shift f 0 n)

-- `dequeue` hands out the oldest process and keeps the others in their order; on an empty queue it
-- hands out NULL and changes nothing.
contents-dequeue :
    (q : Queue) → let (p, q') = dequeue q in (p, contents q') ≡ pop_front (contents q)
contents-dequeue q = dequeue-size q.proc q.size

purge-Found :
    (f : ℕ → Ptr) (n p k : ℕ)
    → Found f p 0 n k
    → window (shift f k (n - 1 - k)) 0 (n - 1) ≡ remove_first p (window f 0 n)
purge-Found f n p k found =
    let a = found.before in
    let b = found.behind in
    let k-eq : k ≡ a = omega (arith, found.index) in
    let n-eq : n ≡ a + suc b = found.rounds in
    rw (found.split, k-eq, n-eq)
      (let r-eq : a + suc b - 1 - a ≡ b = omega arith in
        let m-eq : a + suc b - 1 ≡ a + b = omega arith in
        rw
          (
            r-eq,
            m-eq,
            window-append (shift f a b) 0 a b,
            zero-add,
            window-shift_below f a b 0 a (omega arith),
          )
          (ap (λ t. window f 0 a ++ t) (window-shift f a b)))

purgequeue-size :
    (f : ℕ → Ptr) (n : ℕ) (p : Ptr)
    → p ≢ null
    → let (r, q') = purgequeue (record { proc = f; size = n }) p in
      let xs = window f 0 n in
      (r ≡ (if has p xs then p else null))
      × (contents q' ≡ (if has p xs then remove_first p xs else xs))
unfolding purgequeue has window
purgequeue-size f zero p h = elim (Bool-cases (p == null)) [
  | inl e ↦ rw e (refl, refl)
  | inr e ↦ rw e (refl, refl)
]
purgequeue-size f (suc n) p h =
    let not_null : (p == null) ≡ false = ground arith in
    let some_left : (suc n == 0) ≡ false = ground arith in
    elim (Option-cases (find_proc f p 0 (suc n))) [
      | inl e ↦
          let (gone, same) = find_proc-none f p 0 (suc n) e in
          rw (not_null, some_left, e, gone) (refl, refl)
      | inr (k, e) ↦
          let found = find_proc-some f p 0 (suc n) k e in
          rw (not_null, some_left, e, found.here) (refl, purge-Found f (suc n) p k found)
    ]

-- `purgequeue` takes the first occurrence of a process out and hands it back; a process that is
-- not there gives NULL and changes nothing.
pub contents-purgequeue :
    (q : Queue) (p : Ptr)
    → p ≢ null
    → let (r, q') = purgequeue q p in
      let xs = contents q in
      (r ≡ (if has p xs then p else null))
      × (contents q' ≡ (if has p xs then remove_first p xs else xs))
contents-purgequeue q p h = purgequeue-size q.proc q.size p h

front_of_size :
    (f : ℕ → Ptr) (n : ℕ)
    → n ≢ 0
    → let (p, q) = dequeue (record { proc = f; size = n }) in window f 0 n ≡ p ∷ contents q
unfolding dequeue window
front_of_size f zero h = absurd (h refl)
front_of_size f (suc n) h = ground (arith, window-shift f 0 n)

-- The front of a queue that is not empty.
pub contents_of_size :
    (q : Queue) → q.size ≢ 0 → contents q ≡ (dequeue q).0 ∷ contents (dequeue q).1
contents_of_size q h = front_of_size q.proc q.size h

pub dequeue_empty : (q : Queue) → q.size ≡ 0 → dequeue q ≡ (null, q)
unfolding dequeue
dequeue_empty q h = rw h refl

nil_of_zero : (f : ℕ → Ptr) (n : ℕ) → n ≡ 0 → window f 0 n ≡ []
unfolding window
nil_of_zero f zero h = refl
nil_of_zero f (suc n) h = absurd (omega arith)

pub contents_empty : (q : Queue) → q.size ≡ 0 → contents q ≡ []
contents_empty q h = nil_of_zero q.proc q.size h

pub size_of_contents : (q : Queue) → contents q ≡ [] → q.size ≡ 0
size_of_contents q h = omega (arith, length-window q.proc 0 q.size, ap length h)

-- The three operations are those of a first-in first-out list of at most 50 processes: `enqueue`
-- appends, unless the process is NULL or there are 50 already; `dequeue` hands out the oldest process
-- and keeps the others in their order, or NULL if there is none; and `purgequeue` of a process that is
-- not NULL takes its first occurrence out and hands it back, or gives NULL and changes nothing.
pub operations_refine :
    (q : Queue) (p r : Ptr)
    → r ≢ null
    → let xs = contents q in
      (contents (enqueue q p)
        ≡ (if p == null || leb max_queue_size (length xs) then xs else xs ++ p ∷ []))
      × (((dequeue q).0, contents (dequeue q).1) ≡ pop_front xs)
      × ((purgequeue q r).0 ≡ (if has r xs then r else null))
      × (contents (purgequeue q r).1 ≡ (if has r xs then remove_first r xs else xs))
operations_refine q p r h =
    let (handed, rest) = contents-purgequeue q r h in
    (contents-enqueue q p, contents-dequeue q, handed, rest)
