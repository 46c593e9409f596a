-- ===== src/PageMap/Tests.antt =====
-- Three writes to an empty table of either kind.
use btl_hdh.Base.{◌≡◌, refl, some, [], ◌∷◌, List, arith}
use btl_hdh.Base.Chain.{null}
use btl_hdh.PageTable.{no_tables, pte_get_entry, follow, get_pgd, get_pd_from_pagenum}
use btl_hdh.PageMap.Writes.{Write, AreBelow, last_written, set_all}
use btl_hdh.PageMap.Tables.{five_levels, flat, set_all-five_levels}

abbrev mm : btl_hdh.Mm.Mm
mm = record {
  pgd = some no_tables;
  mmap = null;
  symrgtbl = λ _. record { rg_start = 0; rg_end = 0 };
  fifo_pgn = null;
}

abbrev flat_mm : btl_hdh.Flat.Mm
flat_mm = record {
  pgd = some (λ _. 0);
  mmap = null;
  symrgtbl = λ _. record { rg_start = 0; rg_end = 0 };
  fifo_pgn = null;
}

abbrev writes : List Write
writes =
    record { pgn = 3; pte_val = 5 }
    ∷ record { pgn = 700; pte_val = 6 }
    ∷ record { pgn = 3; pte_val = 7 }
    ∷ []

writes-AreBelow : AreBelow writes
writes-AreBelow =
    ((omega arith, omega arith), ((omega arith, omega arith), ((omega arith, omega arith), tt)))

both_empty : five_levels.get_entry mm 3 ≡ flat.get_entry flat_mm 3
unfolding pte_get_entry follow get_pgd get_pd_from_pagenum btl_hdh.Flat.pte_get_entry
both_empty = refl

set_all-five_levels_example :
    let entry = five_levels.get_entry (set_all five_levels writes mm) 3 in
    (entry ≡ flat.get_entry (set_all flat writes flat_mm) 3)
    × (entry ≡ last_written writes 3 (five_levels.get_entry mm 3))
set_all-five_levels_example =
    set_all-five_levels writes mm flat_mm 3 (no_tables, refl) refl writes-AreBelow (omega arith)
      both_empty
