-- ===== src/Mapping.antt =====
-- src/mm64.c, from `vmap_pgd_memset` to `__swap_cp_page`: ranges of pages, and the copy of a page.
-- Functions that return `addr_t` return words: -1 is 2^64 - 1. Where a loop asks for memory, `malloc`
-- and `alloc` take the round; numbers of pages are not negative. `enlist_pgn_node` does not test its
-- `malloc`, which succeeds here. The products of `int`s wrap around here; that they overflow is undefined
-- behaviour, from 2^19 pages on.
pub mod Ranges
pub mod Frames
pub mod Copy
mod Tests
use btl_hdh.Base.{
  ℕ, zero, suc, ◌+◌, ◌-◌, ◌*◌, ◌/◌, ◌%◌, ◌^◌, Bool, true, false, not, Option, none, some, List, [],
  ◌∷◌, ◌++◌, if◌then◌else◌, ltb, ◌==◌, ◌&&◌,
}
use btl_hdh.Base.Int.{ℤ, success, failure, is_negative}
use btl_hdh.Base.Chain.{Chain, null, wild, node}
use btl_hdh.Base.Run.{Run, done, fault, ◌>>=◌}
use btl_hdh.Memphy.{Frame, Memphy, get_freefp, read, write}
use btl_hdh.Mm.{Mm, Region, enlist_pgn_node}
use btl_hdh.PageTable.{pte_set_entry, pte_set_fpn}

-- PAGING_PAGESZ
abbrev pub pagesz : ℕ
pagesz = 4096

-- `return -1` and `return -3000` as an `addr_t`
abbrev pub minus_one : ℕ
minus_one = 2 ^ 64 - 1

abbrev pub out_of_memory : ℕ
out_of_memory = 2 ^ 64 - 3000

-- `i * PAGING_PAGESZ`, a product of `int`s, as it is added to an `addr_t`.
unfoldable pub pages_size : ℕ → ℕ
pages_size i =
    let product = i * pagesz % 2 ^ 32 in
    if ltb product (2 ^ 31) then product else product + (2 ^ 64 - 2 ^ 32)

-- PAGING_PGN(addr + pgit * PAGING_PAGESZ)
unfoldable pub page_at : ℕ → ℕ → ℕ
page_at addr pgit = (addr + pages_size pgit) % 2 ^ 64 / pagesz

-- The loop from round `pgit` on, with `rounds` to go.
unfoldable pub memset_loop : (ℕ → ℕ → Bool) → Mm → ℕ → ℕ → ℕ → ℤ × Mm
memset_loop malloc mm addr pgit zero = (success, mm)
memset_loop malloc mm addr pgit (suc rounds) =
    let r = pte_set_entry (malloc pgit) mm (page_at addr pgit) 0 in
    let rest = memset_loop malloc r.1 addr (suc pgit) rounds in
    if is_negative r.0 then (failure, r.1) else rest

unfoldable pub vmap_pgd_memset : (ℕ → ℕ → Bool) → Mm → ℕ → ℕ → ℤ × Mm
vmap_pgd_memset malloc mm addr pgnum = memset_loop malloc mm addr 0 pgnum

unfoldable pub map_loop : (ℕ → ℕ → Bool) → Mm → ℕ → ℕ → ℕ → Chain Frame → Run (ℕ × Mm)
map_loop malloc mm addr pgit zero fpit = done (0, mm)
map_loop malloc mm addr pgit (suc rounds) null = done (0, mm)
map_loop malloc mm addr pgit (suc rounds) wild = fault
map_loop malloc mm addr pgit (suc rounds) (node fp fp_next) =
    let pgn = page_at addr pgit in
    let (ret, mm') = pte_set_fpn (malloc pgit) mm pgn fp.fpn in
    let mm'' = record mm' { fifo_pgn = enlist_pgn_node mm'.fifo_pgn pgn } in
    let rest = map_loop malloc mm'' addr (suc pgit) rounds fp_next in
    if is_negative ret then done (minus_one, mm') else rest

-- The region that is stored through `ret_rg`, if that is not NULL.
unfoldable pub mapped_region : ℕ → ℕ → Option Region → Option Region
mapped_region addr pgnum none = none
mapped_region addr pgnum (some rg) =
    some (record { rg_start = addr; rg_end = (addr + pages_size pgnum) % 2 ^ 64 })

unfoldable pub vmap_page_range :
    (ℕ → ℕ → Bool) → Mm → ℕ → ℕ → Chain Frame → Option Region → Run (ℕ × Mm × Option Region)
vmap_page_range malloc mm addr pgnum frames ret_rg = do
  (ret, mm') ← map_loop malloc mm addr 0 pgnum frames
  done (ret, mm', mapped_region addr pgnum ret_rg)

-- The rounds of `alloc_pages_range`. `last` says whether `last_fp` points to the last node of
-- `frm_lst` (it is NULL at first), `alloc` whether the `malloc` of a round succeeds.
unfoldable pub alloc_loop :
    (ℕ → Bool) → ℕ → ℕ → ℕ → Memphy → List Frame → Bool → Run (ℕ × List Frame × Memphy)
alloc_loop alloc owner pgit zero mram frm_lst last = done (0, frm_lst, mram)
alloc_loop alloc owner pgit (suc rounds) mram frm_lst last = elim (get_freefp mram) [
  | fault ↦ fault
  | done (ret, got, mram') ↦ elim got [
    | none ↦ done (out_of_memory, frm_lst, mram')
    | some fpn ↦
        let frm_lst' = frm_lst ++ record { fpn = fpn; owner = owner } ∷ [] in
        let rest = alloc_loop alloc owner (suc pgit) rounds mram' frm_lst' true in
        if not (alloc pgit)
        then done (minus_one, frm_lst, mram')
        else elim frm_lst [ [] ↦ rest | fp ∷ fps ↦ if last then rest else fault ]
  ]
]

unfoldable pub alloc_pages_range :
    (ℕ → Bool) → ℕ → Memphy → ℕ → List Frame → Run (ℕ × List Frame × Memphy)
alloc_pages_range alloc owner mram req_pgnum frm_lst =
    alloc_loop alloc owner 0 req_pgnum mram frm_lst false

-- No frames are asked for (the call is commented out), so `ret_alloc` is 0, and the list that is
-- mapped is NULL. What the mapping returns is not looked at.
unfoldable pub vm_map_ram :
    (ℕ → ℕ → Bool) → Mm → ℕ → ℕ → ℕ → ℕ → Option Region → Run (ℕ × Mm × Option Region)
vm_map_ram malloc mm astart aend mapstart incpgnum ret_rg = do
  (ret, mm', ret_rg') ← vmap_page_range malloc mm mapstart incpgnum null ret_rg
  done (0, mm', ret_rg')

-- `data` after a read, where it `held` something before.
unfoldable pub data_after : ℕ → Option ℕ → ℕ
data_after held none = held
data_after held (some v) = v

-- The loop of `__swap_cp_page` between two different devices; `raw` is what `data` holds before the
-- read of a round.
unfoldable pub copy_loop : (ℕ → ℕ) → ℕ → ℕ → ℕ → ℕ → Memphy → Memphy → Run (Memphy × Memphy)
copy_loop raw srcfpn dstfpn cellidx zero mpsrc mpdst = done (mpsrc, mpdst)
copy_loop raw srcfpn dstfpn cellidx (suc rounds) mpsrc mpdst = do
  (ret, value, mpsrc') ← read mpsrc ((srcfpn * pagesz + cellidx) % 2 ^ 64)
  (ret', mpdst') ←
      write mpdst ((dstfpn * pagesz + cellidx) % 2 ^ 64) (data_after (raw cellidx) value)
  copy_loop raw srcfpn dstfpn (suc cellidx) rounds mpsrc' mpdst'

unfoldable pub swap_cp_page : (ℕ → ℕ) → Memphy → ℕ → Memphy → ℕ → Run (ℤ × Memphy × Memphy)
swap_cp_page raw mpsrc srcfpn mpdst dstfpn = do
  (mpsrc', mpdst') ← copy_loop raw srcfpn dstfpn 0 pagesz mpsrc mpdst
  done (success, mpsrc', mpdst')
