-- ===== src/Kernel/Scripts.antt =====
-- Runs of the threads by a list of whose turn it is to make a step, to reach states for the tests.
use btl_hdh.Base.{
  ℕ, ◌≡◌, refl, Bool, true, false, none, some, [], ◌∷◌, List, arith, ◌∙◌, ap, inl, inr, ◌⊎◌,
  Option-cases, not, ◌&&◌, ◌==◌,
}
use btl_hdh.Base.Run.{Run, done, fault}
use btl_hdh.Timer.{timer_step}
use btl_hdh.Cpu.{Outside}
use btl_hdh.Kernel.{Config, Kernel, Loading, cpu_step, ld_step}
use btl_hdh.Kernel.Loads.{IsFresh}
use btl_hdh.Kernel.Exclusive.{Reached, cpu_goes, loader_goes, timer_goes}

-- The steps of a CPU, of the loader with an address for a new process, and of the timer.
pub data Mover : Type 0 where
  cpu : ℕ → Mover
  loader : ℕ → Mover
  clock : Mover

&&-elim : (a b : Bool) → (a && b) ≡ true → (a ≡ true) × (b ≡ true)
&&-elim true true h = (refl, refl)
&&-elim true false h = cc
&&-elim false b h = cc

false_of_not : (b : Bool) → not b ≡ true → b ≡ false
false_of_not true h = cc
false_of_not false h = refl

Run-cases : {A : Type 0} (r : Run A) → (r ≡ fault) ⊎ ((a : A) × (r ≡ done a))
Run-cases (done a) = inr (a, refl)
Run-cases fault = inl refl

module _ (cfg : Config) (outside : Outside) (loading_at : ℕ → Loading) where
  abbrev pub go : Mover → Kernel → Kernel
  go (cpu id) k = elim (cpu_step cfg outside k id) [
    | done r ↦ elim r [ none ↦ k | some k' ↦ k' ]
    | fault ↦ k
  ]
  go (loader a) k = elim (ld_step cfg (loading_at a) k) [ none ↦ k | some k' ↦ k' ]
  go clock k = elim (timer_step k.timer) [ none ↦ k | some t ↦ record k { timer = t } ]

  abbrev pub goes : List Mover → Kernel → Kernel
  goes [] k = k
  goes (m ∷ ms) k = goes ms (go m k)

  -- The loader's address is one for a new process.
  abbrev pub is_fresh : Mover → Kernel → Bool
  is_fresh (cpu id) k = true
  is_fresh (loader a) k = not ((loading_at a).address == 0) && not (k.live (loading_at a).address)
  is_fresh clock k = true

  abbrev pub all_fresh : List Mover → Kernel → Bool
  all_fresh [] k = true
  all_fresh (m ∷ ms) k = is_fresh m k && all_fresh ms (go m k)

  fresh : (a : ℕ) (k : Kernel) → is_fresh (loader a) k ≡ true → IsFresh k (loading_at a)
  fresh a k h =
      let (real, unused) =
        &&-elim (not ((loading_at a).address == 0)) (not (k.live (loading_at a).address)) h in
      record { real = ground (arith, real); unused = false_of_not _ unused }

  module _ (start : Kernel) where
    go-Reached :
        (m : Mover) (k : Kernel)
        → is_fresh m k ≡ true
        → Reached cfg start k
        → Reached cfg start (go m k)
    go-Reached (cpu id) k f r = elim (Run-cases (cpu_step cfg outside k id)) [
      | inl e ↦ rw (e, go) r
      | inr (o, e) ↦ elim (Option-cases o) [
        | inl n ↦ rw (e, n, go) r
        | inr (k', n) ↦ rw (e, n, go) (cpu_goes outside id r (e ∙ ap done n))
      ]
    ]
    go-Reached (loader a) k f r = elim (Option-cases (ld_step cfg (loading_at a) k)) [
      | inl e ↦ rw (e, go) r
      | inr (k', e) ↦ rw (e, go) (loader_goes (loading_at a) r (fresh a k f) e)
    ]
    go-Reached clock k f r = elim (Option-cases (timer_step k.timer)) [
      | inl e ↦ rw (e, go) r
      | inr (t, e) ↦ rw (e, go) (timer_goes r e)
    ]

    pub goes-Reached :
        (ms : List Mover) (k : Kernel)
        → all_fresh ms k ≡ true
        → Reached cfg start k
        → Reached cfg start (goes ms k)
    goes-Reached [] k f r = r
    goes-Reached (m ∷ ms) k f r =
        let (first, rest) = &&-elim (is_fresh m k) (all_fresh ms (go m k)) f in
        goes-Reached ms (go m k) rest (go-Reached m k first r)
