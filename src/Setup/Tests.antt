-- ===== src/Setup/Tests.antt =====
-- A struct with arbitrary contents, and the theorem at it.
use btl_hdh.Base.{ℕ, ◌≡◌, refl, true, some, none}
use btl_hdh.Base.Int.{success}
use btl_hdh.Base.Chain.{Chain, null, wild}
use btl_hdh.Base.Run.{done, fault}
use btl_hdh.Mm.{Region, Mm}
use btl_hdh.PageTable.{pte_get_entry}
use btl_hdh.Setup.{init_mm, free_mm, free_tables}
use btl_hdh.Setup.Fresh.{free_mm-init_mm}

abbrev unset : Mm
unset = record {
  pgd = none;
  mmap = wild;
  symrgtbl = λ i. record { rg_start = i; rg_end = 5 };
  fifo_pgn = wild;
}

three_tables : free_tables {A = ℕ} (λ pt. 0) (λ i. some i) 3 ≡ 3
unfolding free_tables
three_tables = refl

free_mm-init_mm_example :
    let fresh = λ (list : Chain Region). (init_mm true true list unset).1 in
    (pte_get_entry (fresh wild) 5 ≡ 0)
    × (free_mm (fresh null)
        ≡ done (success, 3, record (fresh null) { pgd = none; mmap = null; fifo_pgn = null }))
    × (free_mm (fresh wild) ≡ fault)
free_mm-init_mm_example = free_mm-init_mm unset 5
