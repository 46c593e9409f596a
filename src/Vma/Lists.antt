-- ===== src/Vma/Lists.antt =====
-- src/mm-vm.c: areas are made, put into the list and taken out of it.
use btl_hdh.Base.{ℕ, Bool, true, false, not, Option, none, some, ◌==◌, ltb, if◌then◌else◌}
use btl_hdh.Base.Int.{ℤ, success, failure}
use btl_hdh.Base.Chain.{Chain, null, wild, node}
use btl_hdh.Base.Run.{Run, done, fault, ◌>>=◌}
use btl_hdh.Mm.{Area, Mm}
use btl_hdh.Vma.{overlap}
use btl_hdh.Setup.{free_nodes}

-- `alloc_vma` and `alloc_rg` say whether the two `malloc`s succeed; `none` is NULL.
unfoldable pub create_vm_area : Bool → Bool → ℕ → ℕ → ℕ → Option Area
create_vm_area alloc_vma alloc_rg vmaid vm_start vm_end =
    if not alloc_vma
    then none
    else some (record {
      vm_id = vmaid;
      vm_start = vm_start;
      vm_end = vm_end;
      sbrk = vm_start;
      vm_freerg_list =
          if alloc_rg then node (record { rg_start = vm_start; rg_end = vm_start }) null else null;
    })

-- Whether an area of the list overlaps the new one.
unfoldable pub overlaps_any : Area → Chain Area → Run Bool
overlaps_any new_vma null = done false
overlaps_any new_vma wild = fault
overlaps_any new_vma (node cur vm_next) =
    let rest = overlaps_any new_vma vm_next in
    if overlap cur.vm_start cur.vm_end new_vma.vm_start new_vma.vm_end then done true else rest

-- The new area behind those with smaller numbers.
unfoldable pub insert_behind : Area → Chain Area → Run (Chain Area)
insert_behind new_vma null = done (node new_vma null)
insert_behind new_vma wild = fault
insert_behind new_vma (node cur vm_next) =
    let rest = insert_behind new_vma vm_next in
    if ltb cur.vm_id new_vma.vm_id
    then (do cs ← rest; done (node cur cs))
    else done (node new_vma (node cur vm_next))

-- The insertion of `add_vm_area`, which treats the head by another test than the areas behind it.
unfoldable pub insert_area : Area → Chain Area → Run (Chain Area)
insert_area new_vma null = done (node new_vma null)
insert_area new_vma wild = fault
insert_area new_vma (node cur vm_next) =
    if ltb new_vma.vm_id cur.vm_id
    then done (node new_vma (node cur vm_next))
    else (do cs ← insert_behind new_vma vm_next; done (node cur cs))

unfoldable pub add_vm_area : Mm → Area → Run (ℤ × Mm)
add_vm_area mm new_vma = do
  overlapping ← overlaps_any new_vma mm.mmap
  (if overlapping
      then done (failure, mm)
      else (do mmap' ← insert_area new_vma mm.mmap; done (success, record mm { mmap = mmap' })))

-- The list without the first area of that number, and that area; `none` if there is none.
unfoldable pub remove_area : ℕ → Chain Area → Run (Option (Area × Chain Area))
remove_area vmaid null = done none
remove_area vmaid wild = fault
remove_area vmaid (node cur vm_next) =
    let behind = remove_area vmaid vm_next in
    if cur.vm_id == vmaid then done (some (cur, vm_next)) else elim behind [
      | fault ↦ fault
      | done none ↦ done none
      | done (some (vma, rest)) ↦ done (some (vma, node cur rest))
    ]

unfoldable pub remove_vm_area : Mm → ℕ → Run (ℤ × Mm)
remove_vm_area mm vmaid = do
  found ← remove_area vmaid mm.mmap
  elim found [
    | none ↦ done (failure, mm)
    | some (cur, rest) ↦ do
      freed ← free_nodes (λ rg. done 0) cur.vm_freerg_list
      done (success, record mm { mmap = rest })
  ]
