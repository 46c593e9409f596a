-- ===== src/PageTable/Tests.antt =====
-- An address space with an empty page table, and the theorems at it.
use btl_hdh.Base.{◌+◌, [], ◌∷◌, ◌^◌, ◌≡◌, refl, true, some, ltb}
use btl_hdh.Base.Chain.{null}
use btl_hdh.Mm.{Mm}
use btl_hdh.Pte.{set_fpn, set_swap}
use btl_hdh.PageTable.{
  get_pd_from_address, get_pd_from_pagenum, no_tables, access, write_pte, walk_pgd, alter_pte,
  pte_set_swap, pte_set_fpn, pte_set_entry, pte_get_entry, follow, get_pgd,
}
use btl_hdh.PageTable.Entries.{Changes, pte_get_entry-pte_set}

abbrev mm : Mm
mm = record {
  pgd = some no_tables;
  mmap = null;
  symrgtbl = λ _. record { rg_start = 0; rg_end = 0 };
  fifo_pgn = null;
}

-- Two pages that share all tables but the last.
near_pages :
    (let mm' = (pte_set_entry (λ _. true) (pte_set_entry (λ _. true) mm 513 7).1 2 8).1 in
      pte_get_entry mm' 513 ∷ pte_get_entry mm' 2 ∷ pte_get_entry mm' 1 ∷ [])
    ≡ 7 ∷ 8 ∷ 0 ∷ []
unfolding pte_set_entry pte_get_entry alter_pte walk_pgd access write_pte follow get_pgd
    get_pd_from_pagenum get_pd_from_address
near_pages = refl

pte_get_entry-pte_set_example :
    Changes (set_fpn 5) 2 (2 ^ 45 + 2) mm (pte_set_fpn (λ n. ltb n 3) mm 2 5)
    × Changes (set_swap 1 9) 2 (2 ^ 45 + 2) mm (pte_set_swap (λ n. ltb n 3) mm 2 1 9)
    × Changes (λ pte. 77) 2 (2 ^ 45 + 2) mm (pte_set_entry (λ n. ltb n 3) mm 2 77)
pte_get_entry-pte_set_example = pte_get_entry-pte_set (λ n. ltb n 3) mm 2 (2 ^ 45 + 2) 5 1 9 77
