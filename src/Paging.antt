-- ===== src/Paging.antt =====
-- src/libmem.c, from `pg_getpage` to `free_pcb_memph`, and `__sys_memmap` of src/sys_mem.c: access to
-- the pages of a process. In a system call the caller is a new struct whose `mm` is NULL; its `malloc`
-- succeeds here. `krnl->mm` is NULL. `raw` is what a byte on the stack holds before it is written.
-- The values that are written to memory are bytes.
pub mod Access
pub mod Registers
mod Tests
use btl_hdh.Base.{
  int_or_zero, ℕ, zero, suc, ◌+◌, ◌*◌, ◌/◌, ◌%◌, ◌^◌, Bool, true, false, ◌&&◌, not, Option, none,
  some, ◌==◌, ltb, if◌then◌else◌,
}
use btl_hdh.Base.Int.{ℤ, success, failure, is_negative}
use btl_hdh.Base.Chain.{Chain, null, wild, node}
use btl_hdh.Base.Run.{Run, done, fault, ◌>>=◌}
use btl_hdh.Memphy.{Memphy, read, write, get_freefp, put_freefp}
use btl_hdh.Mm.{Region, Mm, enlist_pgn_node}
use btl_hdh.Pte.{present, swapped, fpn_of, swp_of, set_dirty}
use btl_hdh.PageTable.{pte_get_entry, pte_set_entry, pte_set_fpn, pte_set_swap}
use btl_hdh.Mapping.{pagesz, data_after}
use btl_hdh.Vma.{mm_swap_page, get_vma_by_num}
use btl_hdh.Regions.{find_victim_page, get_symrg_byid}
use btl_hdh.Setup.{max_symtbl_sz}

-- The devices of `struct krnl_t` that the functions use.
pub record Devices : Type 0 where
  pub mram : Memphy
  pub active_mswp : Memphy
  pub active_mswp_id : ℕ

-- The operations of `__sys_memmap`.
pub data Memop : Type 0 where
  map_op : Memop
  inc_op : Memop
  swp_op : Memop
  io_read : Memop
  io_write : Memop
  other_op : Memop

-- The registers `a2` and `a3`, and what `a3` holds afterwards. The operation for a range of pages reads
-- through the NULL `mm` of the caller, unless their number, an `int`, is not positive; the one for more memory finds no
-- `mm` of the kernel, and changes nothing. What the operations return is not looked at.
unfoldable pub sys_memmap : (ℕ → ℕ) → Devices → Memop → ℕ → ℕ → Run (ℤ × ℕ × Devices)
sys_memmap raw krnl map_op a2 a3 = if int_or_zero a3 == 0 then done (success, a3, krnl) else fault
sys_memmap raw krnl inc_op a2 a3 = done (success, a3, krnl)
sys_memmap raw krnl swp_op a2 a3 = do
  (ret, mram', active_mswp') ← mm_swap_page raw krnl.mram krnl.active_mswp a2 a3
  done (success, a3, record krnl { mram = mram'; active_mswp = active_mswp' })
sys_memmap raw krnl io_read a2 a3 = do
  (ret, value, mram') ← read krnl.mram a2
  done (success, data_after (raw 0) value, record krnl { mram = mram' })
sys_memmap raw krnl io_write a2 a3 = do
  (ret, mram') ← write krnl.mram a2 a3
  done (success, a3, record krnl { mram = mram' })
sys_memmap raw krnl other_op a2 a3 = done (success, a3, krnl)

-- The victim's page goes to a frame of the swap device: the frame of memory that it leaves, and the
-- state. `none` where `pg_getpage` returns -1; the page and the frame of swap it took stay taken.
unfoldable pub swap_out : (ℕ → ℕ) → (ℕ → Bool) → Devices → Mm → Run (Option ℕ × Devices × Mm)
swap_out raw malloc krnl mm = do
  (ret, victim, mm') ← find_victim_page mm
  elim victim [
    | none ↦ done (none, krnl, mm')
    | some vicpgn ↦ do
      let vicfpn = fpn_of (pte_get_entry mm' vicpgn)
      (ret', got, active_mswp') ← get_freefp krnl.active_mswp
      let krnl' = record krnl { active_mswp = active_mswp' }
      elim got [
        | none ↦ done (none, krnl', mm')
        | some victim_swpfpn ↦ do
          (ret'', a3, krnl'') ← sys_memmap raw krnl' swp_op vicfpn victim_swpfpn
          let mm'' = (pte_set_swap malloc mm' vicpgn krnl.active_mswp_id victim_swpfpn).1
          done (some vicfpn, krnl'', mm'')
      ]
  ]

-- A frame of memory, free or taken from a victim.
unfoldable pub target_frame : (ℕ → ℕ) → (ℕ → Bool) → Devices → Mm → Run (Option ℕ × Devices × Mm)
target_frame raw malloc krnl mm = do
  (ret, got, mram') ← get_freefp krnl.mram
  let krnl' = record krnl { mram = mram' }
  elim got [ some tgtfpn ↦ done (some tgtfpn, krnl', mm) | none ↦ swap_out raw malloc krnl' mm ]

-- The loop that fills a new page with zeros, from byte `i` on.
unfoldable pub zero_loop : (ℕ → ℕ) → Devices → ℕ → ℕ → ℕ → Run Devices
zero_loop raw krnl tgtfpn i zero = done krnl
zero_loop raw krnl tgtfpn i (suc rounds) = do
  (ret, a3, krnl') ← sys_memmap raw krnl io_write ((tgtfpn * pagesz + i) % 2 ^ 64) 0
  zero_loop raw krnl' tgtfpn (suc i) rounds

-- What the frame gets: the page of swap, or zeros. The system call copies from memory to swap.
unfoldable pub fill_frame : (ℕ → ℕ) → Devices → ℕ → ℕ → Run Devices
fill_frame raw krnl pte tgtfpn =
    if swapped pte == 0 then zero_loop raw krnl tgtfpn 0 pagesz else (do
      (ret, a3, krnl') ← sys_memmap raw krnl swp_op tgtfpn (swp_of pte)
      done (record krnl' { active_mswp = (put_freefp krnl'.active_mswp (swp_of pte)).1 }))

-- The frame of the page, `none` where the function returns -1. `malloc_out` and `malloc_in` are for the
-- tables that the entries of the victim and of the page may need.
unfoldable pub pg_getpage :
    (ℕ → ℕ) → (ℕ → Bool) → (ℕ → Bool) → Devices → Mm → ℕ → Run (Option ℕ × Devices × Mm)
pg_getpage raw malloc_out malloc_in krnl mm pgn =
    let pte = pte_get_entry mm pgn in
    if present pte == 0
    then (do
      (target, krnl', mm') ← target_frame raw malloc_out krnl mm
      elim target [
        | none ↦ done (none, krnl', mm')
        | some tgtfpn ↦ do
          krnl'' ← fill_frame raw krnl' pte tgtfpn
          let mm'' = (pte_set_fpn malloc_in mm' pgn tgtfpn).1
          let mm''' = record mm'' { fifo_pgn = enlist_pgn_node mm''.fifo_pgn pgn }
          done (some (fpn_of (pte_get_entry mm''' pgn)), krnl'', mm''')
      ])
    else done (some (fpn_of pte), krnl, mm)

-- (fpn << PAGING_ADDR_FPN_LOBIT) + PAGING_OFFST(addr)
unfoldable pub phyaddr : ℕ → ℕ → ℕ
phyaddr fpn addr = (fpn * 2 ^ 12 + addr % pagesz) % 2 ^ 64

-- The byte, `none` where the function returns -1.
unfoldable pub pg_getval :
    (ℕ → ℕ) → (ℕ → Bool) → (ℕ → Bool) → Devices → Mm → ℕ → Run (Option ℕ × Devices × Mm)
pg_getval raw malloc_out malloc_in krnl mm addr = do
  (page, krnl', mm') ← pg_getpage raw malloc_out malloc_in krnl mm (addr / pagesz)
  elim page [
    | none ↦ done (none, krnl', mm')
    | some fpn ↦ do
      (ret, a3, krnl'') ← sys_memmap raw krnl' io_read (phyaddr fpn addr) 0
      done (some a3, krnl'', mm')
  ]

-- `malloc_dirty` is for the tables of the entry that is marked as dirty.
unfoldable pub pg_setval :
    (ℕ → ℕ) → (ℕ → Bool) → (ℕ → Bool) → (ℕ → Bool) → Devices → Mm → ℕ → ℕ → Run (ℤ × Devices × Mm)
pg_setval raw malloc_out malloc_in malloc_dirty krnl mm addr value = do
  (page, krnl', mm') ← pg_getpage raw malloc_out malloc_in krnl mm (addr / pagesz)
  elim page [
    | none ↦ done (failure, krnl', mm')
    | some fpn ↦ do
      (ret, a3, krnl'') ← sys_memmap raw krnl' io_write (phyaddr fpn addr) value
      let pte = set_dirty (pte_get_entry mm' (addr / pagesz))
      done (success, krnl'', (pte_set_entry malloc_dirty mm' (addr / pagesz) pte).1)
  ]
