-- ===== src/Regions/Tests.antt =====
-- A process with two free regions, and the theorems at it.
use btl_hdh.Base.{ℕ, ◌+◌, ◌≡◌, refl, true, some, none, List, [], ◌∷◌, arith, All, update}
use btl_hdh.Base.Int.{success, failure}
use btl_hdh.Base.Chain.{null, of_list}
use btl_hdh.Base.Run.{done, fault, ◌>>=◌}
use btl_hdh.Mm.{Region, Area, Mm}
use btl_hdh.Vma.{get_vma_by_num, find_area, area_at}
use btl_hdh.Regions.{get_free_vmrg_area, fit_loop, find_victim_page, alloc, free}
use btl_hdh.Regions.Fit.{IsRegion, FittedIn, get_free_vmrg_area-Fitted}
use btl_hdh.Regions.Pages.{with_pages, find_victim_page-oldest}
use btl_hdh.Regions.Heap.{with_free, cleared, new_process, free-registers, alloc-alloc}

abbrev region : ℕ → ℕ → Region
region rg_start rg_end = record { rg_start = rg_start; rg_end = rg_end }

abbrev rgs : List Region
rgs = region 0 100 ∷ region 200 500 ∷ region 600 700 ∷ []

abbrev mm : Mm
mm = record {
  pgd = none;
  mmap = null;
  symrgtbl = λ i. region (1000 + i) (1010 + i);
  fifo_pgn = null;
}

abbrev area : Area
area = record { vm_id = 0; vm_start = 0; vm_end = 4096; sbrk = 0; vm_freerg_list = null }

takes_all :
    fit_loop 300 (of_list rgs)
    ≡ done (some (region 200 500), of_list (region 0 100 ∷ region 600 700 ∷ []))
unfolding fit_loop
takes_all = refl

rgs-IsRegion : All IsRegion rgs
rgs-IsRegion = omega arith

abbrev with_gaps : Mm
with_gaps = with_free mm area rgs []

abbrev gaps : Area
gaps = record area { vm_freerg_list = of_list rgs }

finds_it : get_vma_by_num with_gaps 0 ≡ done (some 0)
unfolding get_vma_by_num find_area
finds_it = refl

is_it : area_at 0 with_gaps.mmap ≡ done gaps
unfolding area_at
is_it = refl

get_free_vmrg_area-Fitted_example :
    (get_free_vmrg_area mm 0 300 ≡ done (none, mm))
    × FittedIn with_gaps 0 300 rgs (get_free_vmrg_area with_gaps 0 300)
get_free_vmrg_area-Fitted_example =
    get_free_vmrg_area-Fitted with_gaps mm 0 300 0 gaps rgs (omega arith) refl finds_it is_it refl
      rgs-IsRegion

free-registers_example :
    (free (with_free mm area rgs []) 2
      ≡ done (
        success,
        record (with_free mm area (region 1002 1012 ∷ rgs) []) {
          symrgtbl = update mm.symrgtbl 2 cleared;
        },
      ))
    × (free mm 30 ≡ fault)
    × (free mm 31 ≡ done (failure, mm))
free-registers_example =
    free-registers mm area rgs [] 2 31 (omega arith) (omega arith) (omega arith)

alloc-alloc_example :
    (do
      (ret, addr, krnl_mm, mm') ← alloc (λ _ _. true) (region 0 0) none (new_process mm) 0 1 300
      alloc (λ _ _. true) (region 0 0) krnl_mm mm' 0 2 100)
    ≡ done (
      success,
      some 0,
      none,
      record (new_process mm) {
        symrgtbl = update (update mm.symrgtbl 1 (region 0 300)) 2 (region 0 100);
      },
    )
alloc-alloc_example =
    alloc-alloc (λ _ _. true) (region 0 0) mm 1 2 300 100 (omega arith) (omega arith) (omega arith)
      (omega arith) (omega arith) (omega arith)

find_victim_page-oldest_example :
    (find_victim_page (with_pages mm (9 ∷ 8 ∷ 7 ∷ []))
      ≡ done (success, some 7, with_pages mm (9 ∷ 8 ∷ [])))
    × (find_victim_page (with_pages mm []) ≡ done (failure, none, with_pages mm []))
    × (find_victim_page (with_pages mm (9 ∷ [])) ≡ fault)
find_victim_page-oldest_example = find_victim_page-oldest mm 9 7 (8 ∷ [])
