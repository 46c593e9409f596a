-- ===== src/Setup/Fresh.antt =====
-- A process's memory after `init_mm`.
use btl_hdh.Base.{ℕ, zero, suc, ◌≡◌, refl, true, none}
use btl_hdh.Base.Int.{success}
use btl_hdh.Base.Chain.{Chain, null, wild}
use btl_hdh.Base.Run.{done, fault}
use btl_hdh.Mm.{Region, Mm, init_vm_rg, enlist_vm_rg_node}
use btl_hdh.PageTable.{pte_get_entry, follow, get_pgd, get_pd_from_pagenum, no_tables}
use btl_hdh.Setup.{init_mm, free_tables, free_pgd, free_nodes, free_mm}

free_tables-empty : {A : Type 0} (below : A → ℕ) (n : ℕ) → free_tables below no_tables n ≡ 0
unfolding free_tables
free_tables-empty below zero = refl
free_tables-empty below (suc n) = rw (free_tables-empty below n) refl

-- `init_mm` whose `malloc`s succeed gives an empty page table: every entry reads as 0. What `free_mm`
-- does next depends on what `malloc` had left in the list of free regions of the area: if that was
-- NULL it frees the three blocks that were made (the directory, the area and its region,
-- in all), and if it was no pointer its behaviour is undefined.
pub free_mm-init_mm :
    (mm : Mm) (pgn : ℕ)
    → let fresh = λ (list : Chain Region). (init_mm true true list mm).1 in
      (pte_get_entry (fresh wild) pgn ≡ 0)
      × (free_mm (fresh null)
          ≡ done (success, 3, record (fresh null) { pgd = none; mmap = null; fifo_pgn = null }))
      × (free_mm (fresh wild) ≡ fault)
unfolding init_mm free_mm free_nodes free_pgd pte_get_entry follow get_pgd get_pd_from_pagenum
    enlist_vm_rg_node init_vm_rg
free_mm-init_mm mm pgn = (refl, rw (free_tables-empty) refl, refl)
