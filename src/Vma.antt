-- ===== src/Vma.antt =====
-- src/mm-vm.c: the list of memory areas of a process. A pointer to an area of the list is its place
-- in the list, from 0. The numbers of areas are not negative, and fit an `int`.
pub mod Insert
pub mod Remove
pub mod Limit
pub mod Search
mod Tests
pub mod Lists
pub mod Joins
pub mod Halves
use btl_hdh.Base.{
  int_or_zero, ℕ, zero, suc, ◌+◌, ◌-◌, ◌*◌, ◌/◌, ◌%◌, ◌^◌, Bool, true, false, ◌&&◌, not, Option,
  none, some, ◌==◌, ltb, leb, if◌then◌else◌,
}
use btl_hdh.Base.Int.{ℤ, success, failure, is_negative}
use btl_hdh.Base.Chain.{Chain, null, wild, node}
use btl_hdh.Base.Run.{Run, done, fault, ◌>>=◌}
use btl_hdh.Memphy.{Memphy}
use btl_hdh.Mm.{Region, Area, Mm}
use btl_hdh.Mapping.{pagesz, vm_map_ram, swap_cp_page}

-- OVERLAP
unfoldable pub overlap : ℕ → ℕ → ℕ → ℕ → Bool
overlap x1 x2 y1 y2 = ltb x1 y2 && ltb y1 x2

-- The search from an area on. At the end of the list the code reads the number of the area that the
-- NULL pointer points to, before it tests the pointer.
unfoldable pub find_area : ℕ → ℕ → Chain Area → Run ℕ
find_area vmaid i null = fault
find_area vmaid i wild = fault
find_area vmaid i (node vma vm_next) =
    let rest = find_area vmaid (suc i) vm_next in if ltb vma.vm_id vmaid then rest else done i

unfoldable pub get_vma_by_num : Mm → ℕ → Run (Option ℕ)
get_vma_by_num mm vmaid = elim mm.mmap [
  | null ↦ done none
  | wild ↦ fault
  | node vma vm_next ↦ do i ← find_area vmaid 0 (node vma vm_next); done (some i)
]

-- `*pvma` for the area at a place
unfoldable pub area_at : ℕ → Chain Area → Run Area
area_at i null = fault
area_at i wild = fault
area_at zero (node vma vm_next) = done vma
area_at (suc i) (node vma vm_next) = area_at i vm_next

-- `pvma->vm_end = vm_end; pvma->sbrk = sbrk`
unfoldable pub set_limits : ℕ → ℕ → ℕ → Chain Area → Chain Area
set_limits i vm_end sbrk null = null
set_limits i vm_end sbrk wild = wild
set_limits zero vm_end sbrk (node vma vm_next) =
    node (record vma { vm_end = vm_end; sbrk = sbrk }) vm_next
set_limits (suc i) vm_end sbrk (node vma vm_next) = node vma (set_limits i vm_end sbrk vm_next)

unfoldable pub mm_swap_page : (ℕ → ℕ) → Memphy → Memphy → ℕ → ℕ → Run (ℤ × Memphy × Memphy)
mm_swap_page raw mram active_mswp vicfpn swpfpn = do
  (ret, mram', active_mswp') ← swap_cp_page raw mram vicfpn active_mswp swpfpn
  done (success, mram', active_mswp')

unfoldable pub get_vm_area_node_at_brk : Mm → ℕ → ℕ → ℕ → Run Region
get_vm_area_node_at_brk krnl_mm vmaid size alignedsz = do
  found ← get_vma_by_num krnl_mm vmaid
  elim found [
    | none ↦ fault
    | some i ↦ do
      cur_vma ← area_at i krnl_mm.mmap
      done (record { rg_start = cur_vma.sbrk; rg_end = (cur_vma.sbrk + size) % 2 ^ 64 })
  ]

-- The loop of `validate_overlap_vm_area` from the area at place `i` on; `cur` is the place of
-- `cur_area`.
unfoldable pub validate_loop : ℕ → Area → ℕ → Chain Area → Run ℤ
validate_loop cur cur_area i null = done success
validate_loop cur cur_area i wild = fault
validate_loop cur cur_area i (node vma vm_next) =
    let rest = validate_loop cur cur_area (suc i) vm_next in
    if not (i == cur) && overlap cur_area.vm_start cur_area.vm_end vma.vm_start vma.vm_end
    then done failure
    else rest

unfoldable pub validate_overlap_vm_area : Mm → ℕ → ℕ → ℕ → Run ℤ
validate_overlap_vm_area krnl_mm vmaid vmastart vmaend =
    if leb vmaend vmastart then done failure else (do
      found ← get_vma_by_num krnl_mm vmaid
      elim found [
        | none ↦ done failure
        | some cur ↦ do
          cur_area ← area_at cur krnl_mm.mmap
          validate_loop cur cur_area 0 krnl_mm.mmap
      ])

-- PAGING_PAGE_ALIGNSZ
unfoldable pub page_alignsz : ℕ → ℕ
page_alignsz sz = (sz + pagesz - 1) % 2 ^ 64 / pagesz * pagesz

-- A negative number of pages has no rounds, as 0 has none. `krnl_mm` is `caller->krnl->mm`, which may be NULL, and `mm` is `caller->mm`, another object. `newrg`
-- is the region that is made, and not handed out. The test of what `vm_map_ram` returns, an unsigned
-- number, for less than 0 never holds.
unfoldable pub inc_vma_limit :
    (ℕ → ℕ → Bool) → Region → Option Mm → Mm → ℕ → ℕ → Run (ℤ × Option Mm × Mm)
inc_vma_limit malloc newrg none mm vmaid inc_sz = done (failure, none, mm)
inc_vma_limit malloc newrg (some krnl_mm) mm vmaid inc_sz = do
  found ← get_vma_by_num krnl_mm vmaid
  elim found [
    | none ↦ done (failure, some krnl_mm, mm)
    | some i ↦ do
      cur_vma ← area_at i krnl_mm.mmap
      let inc_amt = page_alignsz inc_sz
      let old_end = cur_vma.vm_end
      let old_sbrk = cur_vma.sbrk
      let vm_end = (old_end + inc_amt) % 2 ^ 64
      let grown = record krnl_mm {
        mmap = set_limits i vm_end ((old_sbrk + inc_sz) % 2 ^ 64) krnl_mm.mmap;
      }
      valid ← validate_overlap_vm_area grown vmaid cur_vma.vm_start vm_end
      (if is_negative valid
          then done
              (failure, some (record grown { mmap = set_limits i old_end old_sbrk grown.mmap }), mm)
          else (do
            (mapped, mm', ret_rg) ←
                vm_map_ram malloc mm old_end vm_end old_end (int_or_zero (inc_amt / pagesz))
                  (some newrg)
            done (success, some grown, mm')))
  ]
