-- ===== src/Timer/Tests.antt =====
-- Two devices, and the theorem after a slot of one of them.
use btl_hdh.Base.{refl, true, false, none, [], ◌∷◌, has}
use btl_hdh.CpuOrder.{CpuOrder}
use btl_hdh.Timer.{Timer, Place, start_timer, next_round, timer_step, step_from, finish_slot}
use btl_hdh.Timer.Steps.{World, Reached, at_start, rests, ticks, rest_of}
use btl_hdh.Timer.Slots.{started, IsAttached, InStep, Reached-InStep}

abbrev order : CpuOrder
order = record {
  num_cpus = 1;
  cpu_active = λ i. true;
  current_cpu_turn = none;
  scheduling_done_count = 0;
  scheduling_barrier_released = false;
}

abbrev timer : Timer
timer = record {
  dev_list = 1 ∷ 0 ∷ [];
  events = λ _. record { done = false; fsh = false };
  time = 0;
  timer_started = false;
  timer_stop = false;
  order = order;
  place = Place.ended;
}

timer-IsAttached : IsAttached timer
unfolding has
timer-IsAttached = record { listed = (refl, (refl, tt)); time = refl; events = λ d h. (refl, refl) }

-- Device 1 is done, and the timer has looked at it.
abbrev after : World
after = record (rest_of (started timer) 1) {
  timer = record (rest_of (started timer) 1).timer { place = Place.checking (0 ∷ []) 0 1 };
}

after-Reached : Reached (started timer) after
unfolding timer_step step_from start_timer next_round finish_slot
after-Reached = ticks (rests 1 at_start refl) refl

Reached-InStep_example : InStep after.timer.time (after.slots 0) (after.phase 0)
unfolding has finish_slot start_timer next_round
Reached-InStep_example = Reached-InStep timer after 0 timer-IsAttached after-Reached refl
