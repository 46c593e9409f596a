-- ===== src/Paging/Tests.antt =====
-- A memory of two frames with a page in each, and the theorems at it.
use btl_hdh.Base.{◌+◌, ◌^◌, ◌≡◌, refl, true, some, [], ◌∷◌, ◌==◌, if◌then◌else◌, arith}
use btl_hdh.Base.Int.{success}
use btl_hdh.Base.Chain.{null}
use btl_hdh.Base.Run.{done, ◌>>=◌}
use btl_hdh.Memphy.{Memphy}
use btl_hdh.Mm.{Mm, Pt, Pgd}
use btl_hdh.Pte.{present, fpn_of}
use btl_hdh.PageTable.{pte_get_entry, follow, get_pgd, get_pd_from_pagenum, get_pd_from_address}
use btl_hdh.Paging.{Devices, pg_getval, pg_setval}
use btl_hdh.Paging.Access.{IsMapped, place, pg_getval-pg_setval}
use btl_hdh.Paging.Registers.{free_pcb_memph, free_pcb_memph-nothing}
use btl_hdh.Regions.Pages.{with_pages}

-- Page `n` of the first two is in frame `1 - n`.
abbrev pt : Pt
pt i = if i == 0 then 2 ^ 63 + 1 else 2 ^ 63

abbrev pgd : Pgd
pgd i = some (λ j. some (λ k. some (λ l. some pt)))

abbrev mm : Mm
mm = record {
  pgd = some pgd;
  mmap = null;
  symrgtbl = λ _. record { rg_start = 0; rg_end = 0 };
  fifo_pgn = null;
}

abbrev device : Memphy
device = record {
  storage = some (λ a. a);
  maxsz = 8192;
  rdmflg = true;
  cursor = 0;
  free_fp_list = null;
  used_fp_list = null;
}

abbrev krnl : Devices
krnl = record { mram = device; active_mswp = device; active_mswp_id = 0 }

first_IsMapped : IsMapped krnl mm 5
unfolding pte_get_entry follow get_pgd get_pd_from_pagenum get_pd_from_address present fpn_of
first_IsMapped = record { is_present = refl; word = omega arith; within = omega arith }

second_IsMapped : IsMapped krnl mm 4101
unfolding pte_get_entry follow get_pgd get_pd_from_pagenum get_pd_from_address present fpn_of
second_IsMapped = record { is_present = refl; word = omega arith; within = omega arith }

places : (place mm 5 ∷ place mm 4101 ∷ []) ≡ 4101 ∷ 5 ∷ []
unfolding place pte_get_entry follow get_pgd get_pd_from_pagenum get_pd_from_address fpn_of
places = refl

pg_getval-pg_setval_example :
    (do
      (ret, krnl', mm') ← pg_setval (λ _. 0) (λ _. true) (λ _. true) (λ _. true) krnl mm 5 99
      (value, krnl'', mm'') ← pg_getval (λ _. 0) (λ _. true) (λ _. true) krnl' mm' 4101
      done value)
    ≡ done (some (if place mm 5 == place mm 4101 then 99 else place mm 4101))
pg_getval-pg_setval_example =
    pg_getval-pg_setval (λ _. 0) (λ _. true) (λ _. true) (λ _. true) krnl mm 5 4101 99 (λ a. a) pgd
      refl (λ n. refl) (omega arith) (omega arith) first_IsMapped second_IsMapped refl refl
      (omega arith)

nothing_freed : free_pcb_memph krnl (with_pages mm (0 ∷ 1 ∷ [])) ≡ done (success, krnl)
nothing_freed = free_pcb_memph-nothing krnl mm (0 ∷ 1 ∷ [])
