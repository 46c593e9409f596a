-- ===== src/Boot/Runs.antt =====
-- The turns and the steps of every run of the program, from what `main` sets up.
use btl_hdh.Base.{◌⊎◌, ℕ, ◌≤◌, ◌≡◌, true, false, some}
use btl_hdh.Cpu.{CodeSeg}
use btl_hdh.Config.{Config, rounds_of}
use btl_hdh.Memphy.{Memphy, Raw}
use btl_hdh.Kernel.{Kernel}
use btl_hdh.Kernel.Exclusive.{Reached}
use btl_hdh.Kernel.Turns.{in_turn, is_past}
use btl_hdh.Kernel.Alone.{Reached-turns}
use btl_hdh.Kernel.Alive.{HaveEnded, CanStep, Reached-CanStep}
use btl_hdh.Boot.{machine, boot}
use btl_hdh.Boot.Start.{IsZeroed, boot-IsStart}

-- With at most 64 CPUs, in every state that the threads reach from what `main` sets up on static variables
-- that are 0, however their steps interleave: a CPU that has come out of `wait_cpu_turn` and has not called
-- `signal_next_cpu` has the turn, it is the only such CPU, and the loader is not between its own
-- `wait_cpu_turn` and the end of its slot. So two CPUs never schedule or run a process at once, and the
-- loader publishes a process only while no CPU does.
pub boot-turns :
    (raw : Raw) (garbage : Memphy) (c : Config) (code : ℕ → CodeSeg) (k k' : Kernel)
    → IsZeroed k
    → rounds_of c.num_cpus ≤ 64
    → Reached (machine c code) (boot raw garbage c k) k'
    → (id : ℕ) → in_turn (k'.cores id).place ≡ true
    → (k'.timer.order.current_cpu_turn ≡ some id)
      × (is_past k'.loader.place ≡ false)
      × ((x : ℕ) → in_turn (k'.cores x).place ≡ true → x ≡ id)
unfolding machine
boot-turns raw garbage c code k k' z le r id turn =
    let (start, booted, turn_at, at_first, not_done, none_alive) = boot-IsStart raw garbage c k z in
    Reached-turns (machine c code) (boot raw garbage c k) k' le start booted r id turn

-- There is no deadlock: with at most 64 CPUs, in every state that the threads reach from what `main` sets up
-- on static variables that are 0, however their steps interleave, either all threads have ended, those of the
-- CPUs, the loader's and the timer's, or the timer has a step, or the loader has one whatever memory it is
-- given, or a CPU of the machine has one, which is a step of its own or undefined behaviour, whatever the
-- instruction that it runs meets. So the timer thread ends only where every other thread has.
pub boot-CanStep :
    (raw : Raw) (garbage : Memphy) (c : Config) (code : ℕ → CodeSeg) (k k' : Kernel)
    → IsZeroed k
    → rounds_of c.num_cpus ≤ 64
    → Reached (machine c code) (boot raw garbage c k) k'
    → HaveEnded (machine c code) k' ⊎ CanStep (machine c code) k'
unfolding machine
boot-CanStep raw garbage c code k k' z le r =
    let (start, booted, turn_at, at_first, not_done, none_alive) = boot-IsStart raw garbage c k z in
    Reached-CanStep (machine c code) (boot raw garbage c k) k' le start booted r
