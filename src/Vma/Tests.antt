-- ===== src/Vma/Tests.antt =====
-- Two areas of an address space, and the theorems at them.
use btl_hdh.Base.{
  ℕ, ◌+◌, ◌%◌, ◌^◌, ◌≡◌, refl, true, false, ◌||◌, none, some, List, [], ◌∷◌, ◌++◌, ◌⊎◌, leb,
  if◌then◌else◌, arith, has,
}
use btl_hdh.Base.Int.{success, failure}
use btl_hdh.Base.Chain.{null, of_list}
use btl_hdh.Base.Run.{done, fault, ◌>>=◌}
use btl_hdh.Mm.{Region, Area, Mm}
use btl_hdh.Vma.{overlap, find_area, get_vma_by_num, area_at, page_alignsz, inc_vma_limit}
use btl_hdh.Vma.Lists.{add_vm_area, remove_vm_area}
use btl_hdh.Vma.Insert.{with_areas, any_overlap, AreDisjoint, AreSorted, add_vm_area-Inserted}
use btl_hdh.Vma.Remove.{ids, remove_vm_area-add_vm_area}
use btl_hdh.Vma.Limit.{grow, others_overlap, inc_vma_limit-Outcome}
use btl_hdh.Vma.Joins.{Linked}
use btl_hdh.Vma.Search.{get_vma_by_num-areas}

abbrev area : ℕ → ℕ → ℕ → Area
area vm_id vm_start vm_end = record {
  vm_id = vm_id;
  vm_start = vm_start;
  vm_end = vm_end;
  sbrk = vm_start;
  vm_freerg_list = null;
}

abbrev mm : Mm
mm = record {
  pgd = none;
  mmap = null;
  symrgtbl = λ _. record { rg_start = 0; rg_end = 0 };
  fifo_pgn = null;
}

abbrev vmas : List Area
vmas = area 0 0 4096 ∷ area 2 8192 12288 ∷ []

abbrev new : Area
new = area 1 4096 8192

rounds_up : page_alignsz 4097 ≡ 8192
unfolding page_alignsz
rounds_up = refl

vmas-AreDisjoint : AreDisjoint vmas
unfolding overlap
vmas-AreDisjoint = ((refl, tt), (tt, tt))

new-apart : any_overlap new vmas ≡ false
unfolding any_overlap overlap
new-apart = refl

new-fresh : has 1 (ids vmas) ≡ false
unfolding has
new-fresh = refl

add_vm_area-Inserted_example :
    ((any_overlap new vmas ≡ true)
      × (add_vm_area (with_areas mm vmas) new ≡ done (failure, with_areas mm vmas)))
    ⊎ ((any_overlap new vmas ≡ false)
        × (xs : List Area) × (ys : List Area) × (add_vm_area (with_areas mm vmas) new
            ≡ done (success, with_areas mm (xs ++ new ∷ ys)))
        × (vmas ≡ xs ++ ys)
        × AreDisjoint (xs ++ new ∷ ys)
        × (AreSorted vmas → AreSorted (xs ++ new ∷ ys)))
add_vm_area-Inserted_example = add_vm_area-Inserted mm vmas new vmas-AreDisjoint

remove_vm_area-add_vm_area_example :
    (do (ret, mm') ← add_vm_area (with_areas mm vmas) new; remove_vm_area mm' 1)
    ≡ done (success, with_areas mm vmas)
remove_vm_area-add_vm_area_example =
    remove_vm_area-add_vm_area mm vmas new [] new-apart new-fresh refl

finds_first : get_vma_by_num (with_areas mm vmas) 0 ≡ done (some 0)
unfolding get_vma_by_num find_area
finds_first = refl

first_is : area_at 0 (of_list vmas) ≡ done (area 0 0 4096)
unfolding area_at
first_is = refl

inc_vma_limit-Outcome_example :
    let vm_end = (4096 + page_alignsz 100) % 2 ^ 64 in
    let sbrk = (0 + 100) % 2 ^ 64 in
    let grown = grow 0 vm_end sbrk vmas in
    let bigger = record (area 0 0 4096) { vm_end = vm_end; sbrk = sbrk } in
    inc_vma_limit
      (λ _ _. true)
      (record { rg_start = 0; rg_end = 0 })
      (some (with_areas mm vmas))
      mm
      0
      100
    ≡ done (
        if leb vm_end 0 || others_overlap 0 bigger 0 grown
        then (failure, some (with_areas mm vmas), mm)
        else (success, some (with_areas mm grown), mm))
inc_vma_limit-Outcome_example =
    inc_vma_limit-Outcome (λ _ _. true) (record { rg_start = 0; rg_end = 0 }) mm mm vmas 0 100 0
      (area 0 0 4096) finds_first first_is (omega arith)

get_vma_by_num-areas_example :
    (get_vma_by_num (with_areas mm vmas) 1 ≡ done (some 1))
    × (get_vma_by_num (with_areas mm (area 0 0 4096 ∷ area 0 0 4096 ∷ [])) 1 ≡ fault)
get_vma_by_num-areas_example =
    get_vma_by_num-areas mm 1 (area 0 0 4096 ∷ []) (area 2 8192 12288) (area 0 0 4096) []
      (omega arith, tt) (omega arith) (omega arith)

-- An area with three free regions, the second of which spans address 2048.
abbrev linked : Linked
linked = record { area = area 1 0 4096; vm_next = 900 }

abbrev region : ℕ → ℕ → Region
region rg_start rg_end = record { rg_start = rg_start; rg_end = rg_end }
