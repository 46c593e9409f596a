-- ===== src/Timer.antt =====
-- src/timer.c, from `timer_routine` to `attach_event`: the timer thread and the devices (the CPUs and
-- the loader) that it keeps in step. A step is what runs under one lock. Devices are numbered, and the
-- list of devices is that of their numbers; the `malloc` of `attach_event` is not tested and succeeds.
pub mod Steps
pub mod Slots
pub mod Devices
pub mod Counts
mod Tests
use btl_hdh.Base.{
  ℕ, zero, suc, ◌+◌, Bool, true, false, ◌||◌, not, Option, none, some, List, [], ◌∷◌, ◌==◌,
  if◌then◌else◌, update,
}
use btl_hdh.CpuOrder.{CpuOrder, reset_cpu_order}

-- The flags of `struct timer_id_t`
pub record Event : Type 0 where
  pub done : Bool
  pub fsh : Bool

-- Where `timer_routine` is: at the first loop with some devices to go, before `_time++`, before
-- `reset_cpu_order`, at the second loop, or at its end. The numbers are `fsh` and `event`.
pub data Place : Type 0 where
  checking : List ℕ → ℕ → ℕ → Place
  advancing : ℕ → ℕ → Place
  resetting : ℕ → ℕ → Place
  releasing : List ℕ → ℕ → ℕ → Place
  ended : Place

-- The static variables of the file that the timer uses, and its place. `timer_started` is set before
-- the thread is made.
pub record Timer : Type 0 where
  pub dev_list : List ℕ
  pub events : ℕ → Event
  pub time : ℕ
  pub timer_started : Bool
  pub timer_stop : Bool
  pub order : CpuOrder
  pub place : Place

-- The condition of the outer loop.
unfoldable pub next_round : Timer → Timer
next_round t = record t { place = if t.timer_stop then ended else checking t.dev_list 0 0 }

unfoldable pub start_timer : Timer → Timer
start_timer t = next_round (record t { timer_started = true })

-- A step of `timer_routine` from a place; `none` where it waits or has ended.
unfoldable pub step_from : Timer → Place → Option Timer
step_from t (checking [] fsh event) = some (record t { place = advancing fsh event })
step_from t (checking (d ∷ rest) fsh event) =
    let id = t.events d in
    if id.done || id.fsh
    then some (record t { place = checking rest (if id.fsh then fsh + 1 else fsh) (event + 1) })
    else none
step_from t (advancing fsh event) =
    some (record t { time = t.time + 1; place = resetting fsh event })
step_from t (resetting fsh event) =
    some (record t { order = reset_cpu_order t.order; place = releasing t.dev_list fsh event })
step_from t (releasing (d ∷ rest) fsh event) = some (record t {
  events = update t.events d (record (t.events d) { done = false });
  place = releasing rest fsh event;
})
step_from t (releasing [] fsh event) =
    some (if fsh == event then record t { place = ended } else next_round t)
step_from t ended = none

unfoldable pub timer_step : Timer → Option Timer
timer_step t = step_from t t.place

-- The two halves of `next_slot`: a device says that it is done, and waits until that is taken back.
unfoldable pub finish_slot : Timer → ℕ → Timer
finish_slot t d = record t { events = update t.events d (record (t.events d) { done = true }) }

unfoldable pub slot_is_over : Timer → ℕ → Bool
slot_is_over t d = not ((t.events d).done)

unfoldable pub detach_event : Timer → ℕ → Timer
detach_event t d = record t { events = update t.events d (record (t.events d) { fsh = true }) }

-- A new device, `d`; `none` is the NULL that the code returns once the timer runs.
unfoldable pub attach_event : Timer → ℕ → Option Timer
attach_event t d =
    if t.timer_started
    then none
    else some (record t {
      dev_list = d ∷ t.dev_list;
      events = update t.events d (record { done = false; fsh = false });
    })
