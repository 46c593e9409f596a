-- ===== src/Queue.antt =====
-- src/queue.c and include/queue.h: a queue of process pointers in an array with a size, shifted on
-- every removal. The queue argument is the struct itself: the callers pass the address of a static
-- struct, so the guards `q == NULL` never fire. Process pointers are numbers, and NULL is 0.
pub mod Refine
mod Tests
use btl_hdh.Base.{
  ℕ, zero, suc, ◌+◌, ◌-◌, Bool, ◌||◌, Option, none, some, List, ◌==◌, leb, if◌then◌else◌, update,
  window,
}

-- `struct pcb_t *`
abbrev pub Ptr : Type 0
Ptr = ℕ

abbrev pub null : Ptr
null = 0

abbrev pub max_queue_size : ℕ
max_queue_size = 50

-- `struct queue_t`
pub record Queue : Type 0 where
  pub proc : ℕ → Ptr
  pub size : ℕ

-- The processes in the queue, oldest first.
abbrev pub contents : Queue → List Ptr
contents q = window q.proc 0 q.size

unfoldable pub empty : Queue → Bool
empty q = q.size == 0

unfoldable pub enqueue : Queue → Ptr → Queue
enqueue q proc =
    if proc == null
    then q
    else if leb max_queue_size q.size
    then q
    else record q { proc = update q.proc q.size proc; size = q.size + 1 }

-- `for (; i < size - 1; i++) proc[i] = proc[i + 1];`, with the rounds that are left.
unfoldable pub shift : (ℕ → Ptr) → ℕ → ℕ → ℕ → Ptr
shift proc i zero = proc
shift proc i (suc rounds) = shift (update proc i (proc (suc i))) (suc i) rounds

unfoldable pub dequeue : Queue → Ptr × Queue
dequeue q =
    if q.size == 0
    then (null, q)
    else (q.proc 0, record q { proc = shift q.proc 0 (q.size - 1); size = q.size - 1 })

-- The first loop of `purgequeue`: the first index from `i` on that holds `proc`.
unfoldable pub find_proc : (ℕ → Ptr) → Ptr → ℕ → ℕ → Option ℕ
find_proc arr proc i zero = none
find_proc arr proc i (suc rounds) =
    let rest = find_proc arr proc (suc i) rounds in if arr i == proc then some i else rest

unfoldable pub purgequeue : Queue → Ptr → Ptr × Queue
purgequeue q proc =
    if proc == null || q.size == 0 then (null, q) else elim (find_proc q.proc proc 0 q.size) [
      | none ↦ (null, q)
      | some found ↦
          (proc, record q { proc = shift q.proc found (q.size - 1 - found); size = q.size - 1 })
    ]
