-- ===== src/Setup.antt =====
-- `init_mm` and `free_mm` of src/mm64.c.
pub mod Fresh
mod Tests
use btl_hdh.Base.{ℕ, zero, suc, ◌+◌, Bool, true, false, not, Option, none, some, ltb, if◌then◌else◌}
use btl_hdh.Base.Int.{ℤ, success, failure}
use btl_hdh.Base.Chain.{Chain, null, wild, node}
use btl_hdh.Base.Run.{Run, done, fault, ◌>>=◌}
use btl_hdh.Mm.{Region, Area, Pt, Pmd, Pud, P4d, Pgd, Mm, init_vm_rg, enlist_vm_rg_node}
use btl_hdh.PageTable.{no_tables}

-- PAGING_MAX_SYMTBL_SZ
abbrev pub max_symtbl_sz : ℕ
max_symtbl_sz = 30

-- `alloc_vma` and `alloc_pgd` say whether the two `malloc`s succeed; `init_vm_rg` does not test its
-- own, so `first_rg` is never NULL here. `vm_freerg_list` is what `malloc` left in the list of the new
-- area, which is not set before the first region goes in front of it.
unfoldable pub init_mm : Bool → Bool → Chain Region → Mm → ℤ × Mm
init_mm alloc_vma alloc_pgd vm_freerg_list mm =
    let first_rg = init_vm_rg 0 0 in
    let vma0 : Area = record {
      vm_id = 0;
      vm_start = 0;
      vm_end = 0;
      sbrk = 0;
      vm_freerg_list = enlist_vm_rg_node vm_freerg_list first_rg;
    } in
    if not alloc_vma
    then (failure, mm)
    else if not alloc_pgd
    then (failure, record mm { pgd = none })
    else (
      success,
      record {
        pgd = some no_tables;
        mmap = node vma0 null;
        symrgtbl =
            λ i. if ltb i max_symtbl_sz then record { rg_start = 0; rg_end = 0 } else mm.symrgtbl i;
        fifo_pgn = null;
      },
    )

-- The loops of `free_mm` over the tables: how many blocks are freed below the entries before `n`, where
-- `below` counts those of one entry's table.
unfoldable pub free_tables : {A : Type 0} → (A → ℕ) → (ℕ → Option A) → ℕ → ℕ
free_tables below table' zero = 0
free_tables below table' (suc n) =
    free_tables below table' n + elim (table' n) [ none ↦ 0 | some a ↦ below a + 1 ]

unfoldable pub free_pgd : Pgd → ℕ
free_pgd pgd =
    free_tables
      (λ p4d.
        free_tables (λ pud. free_tables (λ pmd. free_tables (λ pt. 0) pmd 512) pud 512) p4d 512)
      pgd 512
    + 1

-- The loops over the lists: how many nodes are freed.
unfoldable pub free_nodes : {A : Type 0} → (A → Run ℕ) → Chain A → Run ℕ
free_nodes below null = done 0
free_nodes below wild = fault
free_nodes below (node a rest) = do n ← below a; m ← free_nodes below rest; done (n + 1 + m)

-- The result, the number of blocks that are freed, and the process's memory.
unfoldable pub free_mm : Mm → Run (ℤ × ℕ × Mm)
free_mm mm = do
  areas ← free_nodes (λ vma. free_nodes (λ rg. done 0) vma.vm_freerg_list) mm.mmap
  pages ← free_nodes (λ pgn. done 0) mm.fifo_pgn
  done (
    success,
    elim mm.pgd [ none ↦ 0 | some pgd ↦ free_pgd pgd ] + areas + pages,
    record mm { pgd = none; mmap = null; fifo_pgn = null },
  )
