-- ===== src/Vma/Joins.antt =====
-- src/mm-vm.c: two adjacent areas become one, and one becomes two. A pointer `vm_next` is an address
-- here, and the two areas of a merge are different objects.
use btl_hdh.Base.{ℕ, ◌+◌, Bool, not, ◌==◌, ◌&&◌, ltb, leb, if◌then◌else◌, Option, none, some}
use btl_hdh.Base.Int.{ℤ, success, failure}
use btl_hdh.Base.Chain.{Chain, null, wild, node}
use btl_hdh.Base.Run.{Run, done, fault, ◌>>=◌}
use btl_hdh.Mm.{Region, Area}

-- `struct vm_area_struct` with its `vm_next`
pub record Linked : Type 0 where
  pub area : Area
  pub vm_next : ℕ

-- The second list behind the last node of the first.
unfoldable pub append_rgs : Chain Region → Chain Region → Run (Chain Region)
append_rgs null rgs = done rgs
append_rgs wild rgs = fault
append_rgs (node rg rg_next) rgs = do list ← append_rgs rg_next rgs; done (node rg list)

-- The area that starts first takes the other one over.
unfoldable pub take_over : Linked → Linked → Run (Linked × Linked)
take_over vma1 vma2 = do
  list ← append_rgs vma1.area.vm_freerg_list vma2.area.vm_freerg_list
  let joined : Linked = record {
    area = record vma1.area {
      vm_end = vma2.area.vm_end;
      sbrk = if ltb vma2.area.sbrk vma1.area.sbrk then vma1.area.sbrk else vma2.area.sbrk;
      vm_freerg_list = list;
    };
    vm_next = vma2.vm_next;
  }
  done (joined, record vma2 { area = record vma2.area { vm_freerg_list = null } })

-- The result and the two areas.
unfoldable pub merge_vm_areas : Linked → Linked → Run (ℤ × Linked × Linked)
merge_vm_areas vma1 vma2 =
    if not (vma1.area.vm_end == vma2.area.vm_start) && not (vma2.area.vm_end == vma1.area.vm_start)
    then done (failure, vma1, vma2)
    else if ltb vma2.area.vm_start vma1.area.vm_start
    then (do (low, high) ← take_over vma2 vma1; done (success, high, low))
    else (do (low, high) ← take_over vma1 vma2; done (success, low, high))

-- The loop of `split_vm_area`: the list of the lower area and that of the upper one. A region that
-- spans the address is cut in two if `alloc` is true, and its node still points to those behind it,
-- which are then in both lists.
unfoldable pub split_rgs : Bool → ℕ → Chain Region → Run (Chain Region × Chain Region)
split_rgs alloc split_addr null = done (null, null)
split_rgs alloc split_addr wild = fault
split_rgs alloc split_addr (node rg rg_next) =
    let rest = split_rgs alloc split_addr rg_next in
    if leb split_addr rg.rg_start
    then done (null, node rg rg_next)
    else if ltb split_addr rg.rg_end
    then done (
        if alloc
        then (
          node (record { rg_start = rg.rg_start; rg_end = split_addr }) rg_next,
          node (record { rg_start = split_addr; rg_end = rg.rg_end }) rg_next,
        )
        else (node rg rg_next, null))
    else (do (low, high) ← rest; done (node rg low, high))

-- `new_addr` is the address that `malloc` gives for the new area, `none` where it fails; the result is
-- that of the function, the area, and the new one if it was made.
unfoldable pub split_vm_area : Option ℕ → Bool → Linked → ℕ → Run (ℤ × Linked × Option Linked)
split_vm_area new_addr alloc vma split_addr =
    if leb split_addr vma.area.vm_start
    then done (failure, vma, none)
    else if leb vma.area.vm_end split_addr
    then done (failure, vma, none)
    else elim new_addr [
      | none ↦ done (failure, vma, none)
      | some new_vma ↦ do
        (low, high) ← split_rgs alloc split_addr vma.area.vm_freerg_list
        let lower : Linked = record {
          area = record vma.area {
            vm_end = split_addr;
            sbrk = if ltb split_addr vma.area.sbrk then split_addr else vma.area.sbrk;
            vm_freerg_list = low;
          };
          vm_next = new_vma;
        }
        let upper : Linked = record {
          area = record {
            vm_id = vma.area.vm_id + 1;
            vm_start = split_addr;
            vm_end = vma.area.vm_end;
            sbrk = if ltb split_addr vma.area.sbrk then vma.area.sbrk else split_addr;
            vm_freerg_list = high;
          };
          vm_next = vma.vm_next;
        }
        done (success, lower, some upper)
    ]
