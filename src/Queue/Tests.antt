-- ===== src/Queue/Tests.antt =====
-- Runs of the queue, and its theorems at concrete queues.
use btl_hdh.Base.{
  ◌≡◌, refl, [], ◌∷◌, ◌++◌, arith, ◌==◌, ◌||◌, leb, length, if◌then◌else◌, has, remove_first,
  window,
}
use btl_hdh.Queue.{
  max_queue_size, null, Queue, contents, enqueue, shift, dequeue, find_proc, purgequeue,
}
use btl_hdh.Queue.Refine.{pop_front, operations_refine}

abbrev empty_queue : Queue
empty_queue = record { proc = λ _. 0; size = 0 }

-- Processes 5, 7 and 9.
abbrev three : Queue
three = enqueue (enqueue (enqueue empty_queue 5) 7) 9

contents-three : contents three ≡ 5 ∷ 7 ∷ 9 ∷ []
unfolding enqueue window
contents-three = refl

dequeue-three : (dequeue three).0 ≡ 5
unfolding dequeue enqueue
dequeue-three = refl

purgequeue-three : contents (purgequeue three 7).1 ≡ 5 ∷ 9 ∷ []
unfolding purgequeue find_proc shift enqueue window
purgequeue-three = refl

operations_refine_example :
    let xs = contents three in
    (contents (enqueue three 4)
      ≡ (if 4 == null || leb max_queue_size (length xs) then xs else xs ++ 4 ∷ []))
    × (((dequeue three).0, contents (dequeue three).1) ≡ pop_front xs)
    × ((purgequeue three 7).0 ≡ (if has 7 xs then 7 else null))
    × (contents (purgequeue three 7).1 ≡ (if has 7 xs then remove_first 7 xs else xs))
operations_refine_example = operations_refine three 4 7 (omega arith)
