-- ===== src/Flat.antt =====
-- src/mm.c, the configuration without MM64: 32-bit words, pages of 256 bytes, and a page table that is
-- one array of 2^14 entries. The functions have the names of those of src/mm64.c. A `malloc` that the
-- code does not test succeeds; a process and its `mm` exist.
pub mod Entries
pub mod Ranges
mod Tests
use btl_hdh.Base.{
  ℕ, zero, suc, ◌+◌, ◌-◌, ◌*◌, ◌/◌, ◌%◌, ◌^◌, Bool, Option, none, some, List, [], ◌==◌, ltb, leb,
  if◌then◌else◌, update,
}
use btl_hdh.Base.Int.{ℤ, success, failure}
use btl_hdh.Base.Chain.{Chain, null, wild, node, of_list}
use btl_hdh.Base.Run.{Run, done, fault, ◌>>=◌}
use btl_hdh.Memphy.{Frame, Memphy, read, write}
use btl_hdh.Mm.{Region, Area, init_vm_rg, enlist_vm_rg_node, enlist_pgn_node}
use btl_hdh.Pte.{get_val, set_val, set_bit, clear_bit}
use btl_hdh.Mapping.{data_after}
use btl_hdh.Setup.{max_symtbl_sz, free_nodes}

-- PAGING_PAGESZ and PAGING_MAX_PGN
abbrev pub pagesz : ℕ
pagesz = 256

abbrev pub max_pgn : ℕ
max_pgn = 16384

-- The layout of an entry.
abbrev pub present_bit : ℕ
present_bit = 31

abbrev pub swapped_bit : ℕ
swapped_bit = 30

abbrev pub dirty_bit : ℕ
dirty_bit = 28

abbrev pub fpn_width : ℕ
fpn_width = 13

abbrev pub swptyp_width : ℕ
swptyp_width = 5

abbrev pub swpoff_lobit : ℕ
swpoff_lobit = 5

abbrev pub swpoff_width : ℕ
swpoff_width = 21

-- `return -1` and `return -3000` as an `addr_t`
abbrev pub minus_one : ℕ
minus_one = 2 ^ 32 - 1

abbrev pub out_of_memory : ℕ
out_of_memory = 2 ^ 32 - 3000

-- PAGING_PAGE_PRESENT and its like, as bits, and PAGING_FPN
unfoldable pub present : ℕ → ℕ
present pte = get_val pte present_bit 1

unfoldable pub swapped : ℕ → ℕ
swapped pte = get_val pte swapped_bit 1

unfoldable pub fpn_of : ℕ → ℕ
fpn_of pte = get_val pte 0 fpn_width

-- The result and the entry; `drt` is not used.
unfoldable pub init_pte : ℕ → ℕ → ℕ → ℕ → ℕ → ℕ → ℕ → ℤ × ℕ
init_pte pte pre fpn drt swp swptyp swpoff =
    if pre == 0
    then (success, pte)
    else if swp == 0
    then (if fpn == 0 then (failure, pte) else (
      success,
      set_val (clear_bit (clear_bit (set_bit pte present_bit) swapped_bit) dirty_bit) fpn 0
          fpn_width,
    ))
    else (
      success,
      (let marked = clear_bit (set_bit (set_bit pte present_bit) swapped_bit) dirty_bit in
          set_val (set_val marked swptyp 0 swptyp_width) swpoff swpoff_lobit swpoff_width),
    )

-- What `pte_set_fpn` and `pte_set_swap` do to the entry.
unfoldable pub set_fpn : ℕ → ℕ → ℕ
set_fpn fpn pte = set_val (clear_bit (set_bit pte present_bit) swapped_bit) fpn 0 fpn_width

unfoldable pub set_swap : ℕ → ℕ → ℕ → ℕ
set_swap swptyp swpoff pte =
    let marked = set_bit (set_bit pte present_bit) swapped_bit in
    set_val (set_val marked swptyp 0 swptyp_width) swpoff swpoff_lobit swpoff_width

-- `struct mm_struct` of this configuration; a `pgd` that is not NULL has `max_pgn` entries.
pub record Mm : Type 0 where
  pub pgd : Option (ℕ → ℕ)
  pub mmap : Chain Area
  pub symrgtbl : ℕ → Region
  pub fifo_pgn : Chain ℕ

-- The tests at the top of the functions that write an entry, and the write.
unfoldable pub alter_pte : Mm → ℕ → (ℕ → ℕ) → ℤ × Mm
alter_pte mm pgn change = elim mm.pgd [
  | none ↦ (failure, mm)
  | some pgd ↦
      if leb max_pgn pgn
      then (failure, mm)
      else (success, record mm { pgd = some (update pgd pgn (change (pgd pgn))) })
]

unfoldable pub pte_set_swap : Mm → ℕ → ℕ → ℕ → ℤ × Mm
pte_set_swap mm pgn swptyp swpoff = alter_pte mm pgn (set_swap swptyp swpoff)

unfoldable pub pte_set_fpn : Mm → ℕ → ℕ → ℤ × Mm
pte_set_fpn mm pgn fpn = alter_pte mm pgn (set_fpn fpn)

-- The value is a `pte_t`, of 32 bits.
unfoldable pub pte_set_entry : Mm → ℕ → ℕ → ℤ × Mm
pte_set_entry mm pgn pte_val = alter_pte mm pgn (λ pte. pte_val % 2 ^ 32)

unfoldable pub pte_get_entry : Mm → ℕ → ℕ
pte_get_entry mm pgn = elim mm.pgd [ none ↦ 0 | some pgd ↦ if leb max_pgn pgn then 0 else pgd pgn ]

-- PAGING_PGN(addr + pgit * PAGING_PAGESZ), bits 8 to 21
unfoldable pub page_at : ℕ → ℕ → ℕ
page_at addr pgit = (addr + pgit * pagesz) % 2 ^ 32 / pagesz % 2 ^ 14

-- What the writes return is not looked at.
unfoldable pub memset_loop : Mm → ℕ → ℕ → ℕ → Mm
memset_loop mm addr pgit zero = mm
memset_loop mm addr pgit (suc rounds) =
    memset_loop (pte_set_entry mm (page_at addr pgit) 0).1 addr (suc pgit) rounds

unfoldable pub vmap_pgd_memset : Mm → ℕ → ℕ → ℤ × Mm
vmap_pgd_memset mm addr pgnum = (success, memset_loop mm addr 0 pgnum)

unfoldable pub map_loop : Mm → ℕ → ℕ → ℕ → Chain Frame → Run Mm
map_loop mm addr pgit zero fpit = done mm
map_loop mm addr pgit (suc rounds) null = done mm
map_loop mm addr pgit (suc rounds) wild = fault
map_loop mm addr pgit (suc rounds) (node fp fp_next) =
    let pgn = page_at addr pgit in
    let mm' = (pte_set_fpn mm pgn fp.fpn).1 in
    map_loop (record mm' { fifo_pgn = enlist_pgn_node mm'.fifo_pgn pgn }) addr (suc pgit) rounds
      fp_next

-- The region that is stored through `ret_rg`, if that is not NULL.
unfoldable pub mapped_region : ℕ → ℕ → Option Region → Option Region
mapped_region addr pgnum none = none
mapped_region addr pgnum (some rg) =
    some (record { rg_start = addr; rg_end = (addr + pgnum * pagesz) % 2 ^ 32 })

unfoldable pub vmap_page_range :
    Mm → ℕ → ℕ → Chain Frame → Option Region → Run (ℕ × Mm × Option Region)
vmap_page_range mm addr pgnum frames ret_rg = do
  mm' ← map_loop mm addr 0 pgnum frames
  done (0, mm', mapped_region addr pgnum ret_rg)

-- The function is that of src/mm64.c but for the width of its result.
unfoldable pub alloc_pages_range :
    (ℕ → Bool) → ℕ → Memphy → ℕ → List Frame → Run (ℕ × List Frame × Memphy)
alloc_pages_range alloc owner mram req_pgnum frm_lst = do
  (ret, frm_lst', mram') ← btl_hdh.Mapping.alloc_pages_range alloc owner mram req_pgnum frm_lst
  done (ret % 2 ^ 32, frm_lst', mram')

-- An `addr_t` is never less than 0, so of the failures only -3000 is noticed.
unfoldable pub vm_map_ram :
    (ℕ → Bool) → ℕ → Memphy → Mm → ℕ → ℕ → Option Region → Run (ℕ × Memphy × Mm × Option Region)
vm_map_ram alloc owner mram mm mapstart incpgnum ret_rg = do
  (ret_alloc, frm_lst, mram') ← alloc_pages_range alloc owner mram incpgnum []
  (if ret_alloc == out_of_memory then done (minus_one, mram', mm, ret_rg) else (do
    (ret, mm', ret_rg') ← vmap_page_range mm mapstart incpgnum (of_list frm_lst) ret_rg
    done (0, mram', mm', ret_rg')))

-- The loop of `__swap_cp_page` between two different devices; `raw` is what `data` holds before the
-- read of a round.
unfoldable pub copy_loop : (ℕ → ℕ) → ℕ → ℕ → ℕ → ℕ → Memphy → Memphy → Run (Memphy × Memphy)
copy_loop raw srcfpn dstfpn cellidx zero mpsrc mpdst = done (mpsrc, mpdst)
copy_loop raw srcfpn dstfpn cellidx (suc rounds) mpsrc mpdst = do
  (ret, value, mpsrc') ← read mpsrc ((srcfpn * pagesz + cellidx) % 2 ^ 32)
  (ret', mpdst') ←
      write mpdst ((dstfpn * pagesz + cellidx) % 2 ^ 32) (data_after (raw cellidx) value)
  copy_loop raw srcfpn dstfpn (suc cellidx) rounds mpsrc' mpdst'

unfoldable pub swap_cp_page : (ℕ → ℕ) → Memphy → ℕ → Memphy → ℕ → Run (ℤ × Memphy × Memphy)
swap_cp_page raw mpsrc srcfpn mpdst dstfpn = do
  (mpsrc', mpdst') ← copy_loop raw srcfpn dstfpn 0 pagesz mpsrc mpdst
  done (success, mpsrc', mpdst')

-- `vm_freerg_list` is what `malloc` left in the list of the new area; `old` is the struct before.
unfoldable pub init_mm : Chain Region → Mm → ℤ × Mm
init_mm vm_freerg_list old =
    let vma0 : Area = record {
      vm_id = 0;
      vm_start = 0;
      vm_end = 0;
      sbrk = 0;
      vm_freerg_list = enlist_vm_rg_node vm_freerg_list (init_vm_rg 0 0);
    } in
    (
      success,
      record {
        pgd = some (λ i. 0);
        mmap = node vma0 null;
        symrgtbl = λ i.
            if ltb i max_symtbl_sz then record { rg_start = 0; rg_end = 0 } else old.symrgtbl i;
        fifo_pgn = null;
      },
    )

-- The result, the number of blocks that are freed, and the process's memory.
unfoldable pub free_mm : Mm → Run (ℤ × ℕ × Mm)
free_mm mm = do
  areas ← free_nodes (λ vma. free_nodes (λ rg. done 0) vma.vm_freerg_list) mm.mmap
  pages ← free_nodes (λ pgn. done 0) mm.fifo_pgn
  done (
    success,
    elim mm.pgd [ none ↦ 0 | some pgd ↦ 1 ] + areas + pages,
    record mm { pgd = none; mmap = null; fifo_pgn = null },
  )
