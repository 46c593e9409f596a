-- ===== src/Regions.antt =====
-- src/libmem.c: the regions of a process. `symrgtbl` has 30 entries; to write behind them is undefined
-- behaviour. Sizes fit an `int`. A process and the kernel exist, so the tests of `caller`, its `krnl`
-- and its `mm` for NULL never fire; the lock makes each function one step.
pub mod Fit
pub mod Pages
pub mod Heap
mod Tests
use btl_hdh.Base.{
  ℕ, zero, suc, ◌+◌, ◌-◌, ◌%◌, ◌^◌, Bool, true, false, ◌&&◌, ◌||◌, not, Option, none, some, ◌==◌,
  ltb, leb, if◌then◌else◌, update,
}
use btl_hdh.Base.Int.{ℤ, success, failure, is_negative}
use btl_hdh.Base.Chain.{Chain, null, wild, node}
use btl_hdh.Base.Run.{Run, done, fault, ◌>>=◌}
use btl_hdh.Mm.{Region, Area, Mm}
use btl_hdh.Setup.{max_symtbl_sz}
use btl_hdh.Vma.{get_vma_by_num, area_at, inc_vma_limit}

-- The loop of `get_free_vmrg_area`: the region it takes, and the list after it. Where a region is used
-- up, its node takes over the next one, or stays as an empty region at the end of the list.
unfoldable pub fit_loop : ℕ → Chain Region → Run (Option Region × Chain Region)
fit_loop size null = done (none, null)
fit_loop size wild = fault
fit_loop size (node rgit rg_next) =
    let next_end = (rgit.rg_start + size) % 2 ^ 64 in
    let rest = fit_loop size rg_next in
    if leb next_end rgit.rg_end
    then (if ltb next_end rgit.rg_end
        then done (
          some (record { rg_start = rgit.rg_start; rg_end = next_end }),
          node (record { rg_start = next_end; rg_end = rgit.rg_end }) rg_next,
        )
        else elim rg_next [
          | null ↦ done (
            some (record { rg_start = rgit.rg_start; rg_end = next_end }),
            node (record { rg_start = rgit.rg_end; rg_end = rgit.rg_end }) null,
          )
          | wild ↦ fault
          | node nextrg further ↦
              done
                (some (record { rg_start = rgit.rg_start; rg_end = next_end }), node nextrg further)
        ])
    else (do (newrg, rest') ← rest; done (newrg, node rgit rest'))

-- `cur_vma->vm_freerg_list = list` for the area at a place
unfoldable pub set_freerg : ℕ → Chain Region → Chain Area → Chain Area
set_freerg i list null = null
set_freerg i list wild = wild
set_freerg zero list (node vma vm_next) = node (record vma { vm_freerg_list = list }) vm_next
set_freerg (suc i) list (node vma vm_next) = node vma (set_freerg i list vm_next)

-- The region that is stored through `newrg`, `none` where the function returns -1. A region that starts
-- at the last address counts as none.
unfoldable pub get_free_vmrg_area : Mm → ℕ → ℕ → Run (Option Region × Mm)
get_free_vmrg_area mm vmaid size = do
  found ← get_vma_by_num mm vmaid
  elim found [
    | none ↦ done (none, mm)
    | some i ↦ do
      cur_vma ← area_at i mm.mmap
      (newrg, list) ← fit_loop size cur_vma.vm_freerg_list
      let mm' = record mm { mmap = set_freerg i list mm.mmap }
      elim newrg [
        | none ↦ done (none, mm')
        | some rg ↦ done (if rg.rg_start == 2 ^ 64 - 1 then none else some rg, mm')
      ]
  ]

-- The region goes in front of the free list of the first area; one that is not longer than 0 is
-- refused. `rg_next` is that of the node, which stays where the list is NULL.
unfoldable pub enlist_vm_freerg_list : Mm → Region → Chain Region → Run (ℤ × Mm)
enlist_vm_freerg_list mm rg_elmt rg_next = do
  first ← area_at 0 mm.mmap
  (if leb rg_elmt.rg_end rg_elmt.rg_start then done (failure, mm) else elim first.vm_freerg_list [
    | null ↦ done (success, record mm { mmap = set_freerg 0 (node rg_elmt rg_next) mm.mmap })
    | wild ↦ done (success, record mm { mmap = set_freerg 0 (node rg_elmt wild) mm.mmap })
    | node rg_node further ↦
        done
          (success, record mm { mmap = set_freerg 0 (node rg_elmt (node rg_node further)) mm.mmap })
  ])

-- A register that is one too large is let through.
unfoldable pub get_symrg_byid : ℕ → Option ℕ
get_symrg_byid rgid = if ltb max_symtbl_sz rgid then none else some rgid

-- `mm->symrgtbl[rgid] = rg`
unfoldable pub set_symrg : Mm → ℕ → Region → Run Mm
set_symrg mm rgid rg =
    if ltb rgid max_symtbl_sz
    then done (record mm { symrgtbl = update mm.symrgtbl rgid rg })
    else fault

-- An `addr_t` stored in an `int` and added to an `addr_t` again.
unfoldable pub through_int : ℕ → ℕ
through_int x = if ltb (x % 2 ^ 32) (2 ^ 31) then x % 2 ^ 32 else x % 2 ^ 32 + (2 ^ 64 - 2 ^ 32)

-- The result, what is stored through `alloc_addr`, and the two address spaces: `krnl_mm` is
-- `caller->krnl->mm`, which may be NULL, `mm` is `caller->mm`, another object. The system call of the
-- operation SYSMEM_INC_OP, whose own `malloc` succeeds here, is `inc_vma_limit`, for a caller without
-- an `mm`, which it does not reach; what it returns is not looked at.
unfoldable pub alloc :
    (ℕ → ℕ → Bool) → Region → Option Mm → Mm → ℕ → ℕ → ℕ → Run (ℤ × Option ℕ × Option Mm × Mm)
alloc malloc newrg krnl_mm mm vmaid rgid size = do
  found ← get_vma_by_num mm vmaid
  (rgnode, mm') ← get_free_vmrg_area mm vmaid size
  elim rgnode [
    | some rg ↦ do mm'' ← set_symrg mm' rgid rg; done (success, some rg.rg_start, krnl_mm, mm'')
    | none ↦ elim found [
      | none ↦ done (failure, none, krnl_mm, mm')
      | some i ↦ do
        cur_vma ← area_at i mm'.mmap
        let old_sbrk = through_int cur_vma.sbrk
        (ret, krnl_mm', mm'') ← inc_vma_limit malloc newrg krnl_mm mm' vmaid size
        mm''' ←
            set_symrg mm'' rgid
              (record { rg_start = old_sbrk; rg_end = (old_sbrk + size) % 2 ^ 64 })
        done (success, some old_sbrk, krnl_mm', mm''')
    ]
  ]

-- `rgid` is at most 30 after the test, and 30 is behind the table.
unfoldable pub free : Mm → ℕ → Run (ℤ × Mm)
free mm rgid = elim (get_symrg_byid rgid) [
  | none ↦ done (failure, mm)
  | some id ↦
      let rgnode = mm.symrgtbl id in
      if not (ltb id max_symtbl_sz)
      then fault
      else if rgnode.rg_start == 0 && rgnode.rg_end == 0
      then done (failure, mm)
      else (do
        mm' ← set_symrg mm id (record { rg_start = 0; rg_end = 0 })
        (ret, mm'') ← enlist_vm_freerg_list mm' rgnode null
        done (success, mm''))
]

-- What the library calls return: -1 where `__alloc` or `__free` does.
unfoldable pub liballoc :
    (ℕ → ℕ → Bool) → Region → Option Mm → Mm → ℕ → ℕ → Run (ℤ × Option Mm × Mm)
liballoc malloc newrg krnl_mm mm size reg_index = do
  (val, addr, krnl_mm', mm') ← alloc malloc newrg krnl_mm mm 0 reg_index size
  done (if is_negative val then failure else val, krnl_mm', mm')

unfoldable pub libfree : Mm → ℕ → Run (ℤ × Mm)
libfree mm reg_index = do
  (val, mm') ← free mm reg_index
  done (if is_negative val then failure else success, mm')

-- The last page of the FIFO list, the oldest, and the list without it. A list of one page has no
-- page in front of the last one, and the code writes through the NULL pointer.
unfoldable pub last_page : Chain ℕ → Run (ℕ × Chain ℕ)
last_page null = fault
last_page wild = fault
last_page (node pgn pg_next) =
    let rest = last_page pg_next in
    elim pg_next [
      | null ↦ done (pgn, null)
      | wild ↦ fault
      | node p further ↦ do (victim, rest') ← rest; done (victim, node pgn rest')
    ]

unfoldable pub find_victim_page : Mm → Run (ℤ × Option ℕ × Mm)
find_victim_page mm = elim mm.fifo_pgn [
  | null ↦ done (failure, none, mm)
  | wild ↦ fault
  | node pgn pg_next ↦ elim pg_next [
    | null ↦ fault
    | wild ↦ fault
    | node p further ↦ do
      (victim, rest) ← last_page (node pgn (node p further))
      done (success, some victim, record mm { fifo_pgn = rest })
  ]
]
