-- ===== src/Kernel/Loads.antt =====
-- The steps of the loader leave each process with at most one owner.
use btl_hdh.Base.{
  ℕ, ◌<◌, ◌%◌, ◌^◌, ◌≡◌, refl, ◌≢◌, true, false, Option, none, some, inl, inr, ltb, update,
  Bool-cases,
}
use btl_hdh.Queue.{null}
use btl_hdh.Setup.{init_mm}
use btl_hdh.Sched.{max_prio}
use btl_hdh.CpuOrder.{is_turn}
use btl_hdh.Timer.{slot_is_over}
use btl_hdh.Kernel.{
  Config, LdPlace, first_turn, first_signal, loading, until_start, publishing, ld_signalling,
  ld_announcing, ld_resting, ld_turn, finishing, leaving, ld_detaching, ld_ended, Kernel, Loading,
  ld_at, load, publish, ld_step_from,
}
use btl_hdh.Kernel.Owners.{loader_of, has_proc}
use btl_hdh.Kernel.Moves.{loader_keeps}
use btl_hdh.Kernel.Handovers.{loader_adds, loader_loads}
use btl_hdh.Kernel.Choices.{HasOwners, elsewhere}

-- `malloc` gives the address of nothing that lives.
pub record IsFresh (k : Kernel) (l : Loading) : Type 0 where
  pub real : l.address ≢ null
  pub unused : k.live l.address ≡ false

-- The priorities of the configuration are below 140.
abbrev pub PriosFit : Config → Type 0
PriosFit cfg = (i : ℕ) → cfg.prio i % 2 ^ 32 < max_prio

abbrev pub LdStepped : Option Kernel → Type 0
LdStepped none = Unit
LdStepped (some k) = HasOwners k

module _ (k : Kernel) (v : HasOwners k) where
  keeps_loader :
      (place : LdPlace) → has_proc place ≡ has_proc k.loader.place → HasOwners (ld_at k place)
  keeps_loader place e = record {
    owner = v.owner;
    owned =
        loader_keeps v.owner k.live k.procs k.sched k.cores k.loader v.owned
          (record k.loader { place = place }) e refl;
    runs_one = v.runs_one;
  }

  loads :
      (cfg : Config) (l : Loading)
      → PriosFit cfg
      → IsFresh k l
      → k.loader.place ≡ loading
      → LdStepped (ld_step_from cfg l k loading)
  unfolding ld_step_from has_proc load
  loads cfg l fit fresh at = elim (Bool-cases (ltb k.loader.i cfg.num_processes)) [
    | inr e ↦ rw (e, ld_step_from) (keeps_loader finishing (rw at refl))
    | inl e ↦
        rw (e, ld_step_from)
          (record {
            owner = update v.owner l.address loader_of;
            owned =
                loader_loads v.owner k.live k.procs k.sched k.cores k.loader v.owned
                  (record k.loader { proc = l.address; place = until_start }) l.address
                  (record (load (cfg.code k.loader.i) l.raw_mm) {
                    prio = cfg.prio k.loader.i % 2 ^ 32;
                  })
                  refl refl fresh.real fresh.unused (rw at refl) (fit k.loader.i);
            runs_one = v.runs_one;
          })
  ]

  publishes : (cfg : Config) (l : Loading) → k.loader.place ≡ publishing → HasOwners (publish l k)
  unfolding publish has_proc
  publishes cfg l at =
      let (who', o) =
        loader_adds v.owner k.live k.procs k.sched k.cores k.loader v.owned (publish l k).loader
          (record (k.procs k.loader.proc) {
            mm = (init_mm l.alloc_vma l.alloc_pgd l.vm_freerg_list l.raw_mm).1;
          })
          (rw at refl) refl refl in
      record { owner = update v.owner k.loader.proc who'; owned = o; runs_one = v.runs_one }

  pub ld_step_from-HasOwners :
      (cfg : Config) (l : Loading) (place : LdPlace)
      → PriosFit cfg
      → IsFresh k l
      → k.loader.place ≡ place
      → LdStepped (ld_step_from cfg l k place)
  unfolding ld_step_from has_proc
  ld_step_from-HasOwners cfg l first_turn fit fresh at =
      elim (Bool-cases (is_turn k.timer.order none)) [
        | inl e ↦ rw (e, ld_step_from) (keeps_loader first_signal (rw at refl))
        | inr e ↦ rw (e, ld_step_from) tt
      ]
  ld_step_from-HasOwners cfg l first_signal fit fresh at =
      elsewhere _ _ _ (keeps_loader loading (rw at refl))
  ld_step_from-HasOwners cfg l loading fit fresh at = loads cfg l fit fresh at
  ld_step_from-HasOwners cfg l until_start fit fresh at =
      elim (Bool-cases (ltb k.timer.time (cfg.start_time k.loader.i))) [
        | inl e ↦ rw (e, ld_step_from) (keeps_loader (ld_announcing true) (rw at refl))
        | inr e ↦ rw (e, ld_step_from) (keeps_loader publishing (rw at refl))
      ]
  ld_step_from-HasOwners cfg l publishing fit fresh at = publishes cfg l at
  ld_step_from-HasOwners cfg l (ld_signalling true) fit fresh at =
      elsewhere _ _ _ (keeps_loader until_start (rw at refl))
  ld_step_from-HasOwners cfg l (ld_signalling false) fit fresh at =
      elsewhere _ _ _ (keeps_loader (ld_announcing false) (rw at refl))
  ld_step_from-HasOwners cfg l (ld_announcing again) fit fresh at =
      elsewhere _ _ _ (keeps_loader (ld_resting again) (rw at refl))
  ld_step_from-HasOwners cfg l (ld_resting again) fit fresh at =
      elim (Bool-cases (slot_is_over k.timer cfg.num_cpus)) [
        | inl e ↦ rw (e, ld_step_from) (keeps_loader (ld_turn again) (rw at refl))
        | inr e ↦ rw (e, ld_step_from) tt
      ]
  ld_step_from-HasOwners cfg l (ld_turn true) fit fresh at =
      elim (Bool-cases (is_turn k.timer.order none)) [
        | inl e ↦ rw (e, ld_step_from) (keeps_loader (ld_signalling true) (rw at refl))
        | inr e ↦ rw (e, ld_step_from) tt
      ]
  ld_step_from-HasOwners cfg l (ld_turn false) fit fresh at =
      elim (Bool-cases (is_turn k.timer.order none)) [
        | inl e ↦ rw (e, ld_step_from) (keeps_loader loading (rw at refl))
        | inr e ↦ rw (e, ld_step_from) tt
      ]
  ld_step_from-HasOwners cfg l finishing fit fresh at =
      elsewhere _ _ _ (keeps_loader leaving (rw at refl))
  ld_step_from-HasOwners cfg l leaving fit fresh at =
      elsewhere _ _ _ (keeps_loader ld_detaching (rw at refl))
  ld_step_from-HasOwners cfg l ld_detaching fit fresh at =
      elsewhere _ _ _ (keeps_loader ld_ended (rw at refl))
  ld_step_from-HasOwners cfg l ld_ended fit fresh at = tt
