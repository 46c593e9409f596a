-- ===== src/Paging/Registers.antt =====
-- src/libmem.c: bytes of the registers of a process, and the frames that it gives back. Register 30
-- stands behind the table of 30 entries; to read it is undefined behaviour.
use btl_hdh.Base.{
  ap, ◌∙◌, ℕ, ◌+◌, ◌%◌, ◌^◌, ◌≡◌, refl, Bool, not, Option, none, some, List, [], ◌∷◌, ◌==◌, ltb,
  if◌then◌else◌, arith,
}
use btl_hdh.Base.Int.{ℤ, success, failure, is_negative}
use btl_hdh.Base.Chain.{Chain, null, wild, node, of_list}
use btl_hdh.Base.Run.{Run, done, fault, ◌>>=◌}
use btl_hdh.Memphy.{put_freefp}
use btl_hdh.Mm.{Mm}
use btl_hdh.Pte.{present, swapped, fpn_of, swp_of}
use btl_hdh.PageTable.{pte_get_entry}
use btl_hdh.Vma.{get_vma_by_num}
use btl_hdh.Regions.{get_symrg_byid}
use btl_hdh.Regions.Pages.{with_pages}
use btl_hdh.Setup.{max_symtbl_sz}
use btl_hdh.Mapping.{data_after}
use btl_hdh.Paging.{Devices, pg_getval, pg_setval}

-- `currg->rg_start`
unfoldable pub start_of : Mm → ℕ → Run ℕ
start_of mm id = if ltb id max_symtbl_sz then done ((mm.symrgtbl id).rg_start) else fault

-- The result, what is stored through `data`, and the state. What `pg_getval` returns is not looked at,
-- and a register that is refused is read through NULL.
unfoldable pub read :
    (ℕ → ℕ) → (ℕ → Bool) → (ℕ → Bool) → Devices → Mm → ℕ → ℕ → Run (ℤ × Option ℕ × Devices × Mm)
read raw malloc_out malloc_in krnl mm rgid offset = elim (get_symrg_byid rgid) [
  | none ↦ fault
  | some id ↦ do
    rg_start ← start_of mm id
    (data', krnl', mm') ← pg_getval raw malloc_out malloc_in krnl mm ((rg_start + offset) % 2 ^ 64)
    done (success, data', krnl', mm')
]

-- `data` holds what the stack did where nothing was stored.
unfoldable pub libread :
    (ℕ → ℕ) → (ℕ → Bool) → (ℕ → Bool) → Devices → Mm → ℕ → ℕ → Run (ℤ × ℕ × Devices × Mm)
libread raw malloc_out malloc_in krnl mm source offset = do
  (val, data', krnl', mm') ← read raw malloc_out malloc_in krnl mm source offset
  done (val, data_after (raw 0) data', krnl', mm')

unfoldable pub write :
    (ℕ → ℕ)
    → (ℕ → Bool)
    → (ℕ → Bool)
    → (ℕ → Bool)
    → Devices
    → Mm
    → ℕ
    → ℕ
    → ℕ
    → ℕ
    → Run (ℤ × Devices × Mm)
write raw malloc_out malloc_in malloc_dirty krnl mm vmaid rgid offset value = do
  cur_vma ← get_vma_by_num mm vmaid
  elim (get_symrg_byid rgid) [
    | none ↦ done (failure, krnl, mm)
    | some id ↦ elim cur_vma [
      | none ↦ done (failure, krnl, mm)
      | some i ↦ do
        rg_start ← start_of mm id
        (ret, krnl', mm') ←
            pg_setval raw malloc_out malloc_in malloc_dirty krnl mm ((rg_start + offset) % 2 ^ 64)
              value
        done (success, krnl', mm')
    ]
  ]

unfoldable pub libwrite :
    (ℕ → ℕ)
    → (ℕ → Bool)
    → (ℕ → Bool)
    → (ℕ → Bool)
    → Devices
    → Mm
    → ℕ
    → ℕ
    → ℕ
    → Run (ℤ × Devices × Mm)
libwrite raw malloc_out malloc_in malloc_dirty krnl mm data' destination offset = do
  (val, krnl', mm') ← write raw malloc_out malloc_in malloc_dirty krnl mm 0 destination offset data'
  done (if is_negative val then failure else val, krnl', mm')

-- The frame of an entry goes to the free list of its device.
unfoldable pub give_back : Devices → ℕ → Devices
give_back krnl pte =
    if not (present pte == 0)
    then record krnl { mram = (put_freefp krnl.mram (fpn_of pte)).1 }
    else if not (swapped pte == 0)
    then record krnl { active_mswp = (put_freefp krnl.active_mswp (swp_of pte)).1 }
    else krnl

-- The loop of `free_pcb_memph`, where `entry` reads the entry of a page. The entry is kept in 32 bits.
unfoldable pub collect_loop : (ℕ → ℕ) → Devices → Chain ℕ → Run Devices
collect_loop entry krnl null = done krnl
collect_loop entry krnl wild = fault
collect_loop entry krnl (node pgn pg_next) =
    collect_loop entry (give_back krnl (entry pgn % 2 ^ 32)) pg_next

unfoldable pub free_pcb_memph : Devices → Mm → Run (ℤ × Devices)
free_pcb_memph krnl mm = do
  krnl' ← collect_loop (pte_get_entry mm) krnl mm.fifo_pgn
  done (success, krnl')

no_flags : (pte : ℕ) → (present (pte % 2 ^ 32) ≡ 0) × (swapped (pte % 2 ^ 32) ≡ 0)
unfolding present swapped
no_flags pte = omega arith

give_back-nothing : (krnl : Devices) (pte : ℕ) → give_back krnl (pte % 2 ^ 32) ≡ krnl
unfolding give_back
give_back-nothing krnl pte = let (absent, online) = no_flags pte in rw (absent, online) refl

collect_loop-nothing :
    (entry : ℕ → ℕ) (krnl : Devices) (pages : List ℕ)
    → collect_loop entry krnl (of_list pages) ≡ done krnl
unfolding collect_loop
collect_loop-nothing entry krnl [] = refl
collect_loop-nothing entry krnl (p ∷ pages) =
    ap (λ k. collect_loop entry k (of_list pages)) (give_back-nothing krnl (entry p))
    ∙ collect_loop-nothing entry krnl pages

-- `free_pcb_memph` gives no frame back, whatever pages the process has: the flags stand in the upper
-- half of an entry, which is cut off.
pub free_pcb_memph-nothing :
    (krnl : Devices) (mm : Mm) (pages : List ℕ)
    → free_pcb_memph krnl (with_pages mm pages) ≡ done (success, krnl)
unfolding free_pcb_memph
free_pcb_memph-nothing krnl mm pages =
    simp (collect_loop-nothing (pte_get_entry (with_pages mm pages)) krnl pages) refl
