-- ===== src/Memphy.antt =====
-- src/mm-memphy.c and the device structs of include/os-mm.h: a memory device with its lists of free
-- and used frames. A device is the struct itself: the kernel passes the address of an object, so
-- the guards `mp == NULL` never fire. Bytes are numbers, sizes are not negative and fit an `int`. What `malloc` leaves
-- in a fresh list node is an argument, `Raw`; where the code tests a `malloc` for NULL, so is whether
-- it succeeds.
pub mod Frames
pub mod Cells
pub mod Cursor
pub mod Format
pub mod Inspect
pub mod Queries
mod Tests
use btl_hdh.Base.{
  ℕ, zero, suc, ◌+◌, ◌-◌, ◌/◌, ◌%◌, Bool, true, false, ◌&&◌, not, Option, none, some, ◌==◌, ltb,
  leb, if◌then◌else◌, update,
}
use btl_hdh.Base.Int.{ℤ, pos, success, failure, is_negative}
use btl_hdh.Base.Chain.{Chain, null, wild, node}
use btl_hdh.Base.Run.{Run, done, fault, ◌>>=◌}

-- `struct framephy_struct`, but for its `fp_next`; `owner` is a pointer, 0 for NULL.
pub record Frame : Type 0 where
  pub fpn : ℕ
  pub owner : ℕ

-- `struct memphy_struct`; `storage` is `none` where the pointer is NULL.
pub record Memphy : Type 0 where
  pub storage : Option (ℕ → ℕ)
  pub maxsz : ℕ
  pub rdmflg : Bool
  pub cursor : ℕ
  pub free_fp_list : Chain Frame
  pub used_fp_list : Chain Frame

-- The fields of a `struct framephy_struct` that `malloc` has just returned.
pub record Raw : Type 0 where
  pub fp_next : Chain Frame
  pub owner : ℕ

-- `while (numstep < offset && numstep < maxsz)`, with at least `maxsz - numstep` rounds of fuel.
unfoldable pub mv_csr_loop : ℕ → ℕ → ℕ → ℕ → ℕ → ℕ
mv_csr_loop zero offset maxsz numstep cursor = cursor
mv_csr_loop (suc fuel) offset maxsz numstep cursor =
    let rest = mv_csr_loop fuel offset maxsz (numstep + 1) ((cursor + 1) % maxsz) in
    if ltb numstep offset && ltb numstep maxsz then rest else cursor

unfoldable pub mv_csr : Memphy → ℕ → Memphy
mv_csr mp offset = record mp { cursor = mv_csr_loop mp.maxsz offset mp.maxsz 0 0 }

-- `mp->storage[addr]`, which is `maxsz` bytes long.
unfoldable pub load : Memphy → ℕ → Run ℕ
load mp addr = elim mp.storage [
  | none ↦ fault
  | some cells ↦ if ltb addr mp.maxsz then done (cells addr) else fault
]

-- `mp->storage[addr] = data`
unfoldable pub store : Memphy → ℕ → ℕ → Run Memphy
store mp addr data' = elim mp.storage [
  | none ↦ fault
  | some cells ↦
      if ltb addr mp.maxsz
      then done (record mp { storage = some (update cells addr data') })
      else fault
]

-- The result, what is stored through `value` (`none` if nothing), and the device.
unfoldable pub seq_read : Memphy → ℕ → Run (ℤ × Option ℕ × Memphy)
seq_read mp addr =
    if not mp.rdmflg
    then done (failure, none, mp)
    else (do value ← load (mv_csr mp addr) addr; done (success, some value, mv_csr mp addr))

unfoldable pub read : Memphy → ℕ → Run (ℤ × Option ℕ × Memphy)
read mp addr =
    if mp.rdmflg
    then (if leb mp.maxsz addr
        then done (failure, none, mp)
        else (do value ← load mp addr; done (success, some value, mp)))
    else seq_read mp addr

unfoldable pub seq_write : Memphy → ℕ → ℕ → Run (ℤ × Memphy)
seq_write mp addr value =
    if not mp.rdmflg
    then done (failure, mp)
    else (do mp' ← store (mv_csr mp addr) addr value; done (success, mp'))

unfoldable pub write : Memphy → ℕ → ℕ → Run (ℤ × Memphy)
write mp addr value =
    if mp.rdmflg
    then (if leb mp.maxsz addr
        then done (failure, mp)
        else (do mp' ← store mp addr value; done (success, mp')))
    else seq_write mp addr value

-- The loop of `MEMPHY_format`: what follows the last node so far, whose `fp_next` is `next`.
unfoldable pub format_loop : Raw → ℕ → ℕ → Chain Frame → Chain Frame
format_loop raw iter zero next = next
format_loop raw iter (suc rounds) next =
    node (record { fpn = iter; owner = raw.owner }) (format_loop raw (suc iter) rounds null)

unfoldable pub format : Raw → Memphy → ℕ → ℤ × Memphy
format raw mp pagesz =
    let numfp = mp.maxsz / pagesz in
    if numfp == 0 then (failure, mp) else (
      success,
      record mp {
        free_fp_list =
            node (record { fpn = 0; owner = raw.owner })
              (format_loop raw 1 (numfp - 1) raw.fp_next);
      },
    )

unfoldable pub get_freefp : Memphy → Run (ℤ × Option ℕ × Memphy)
get_freefp mp = elim mp.free_fp_list [
  | null ↦ done (failure, none, mp)
  | wild ↦ fault
  | node fp rest ↦ done (success, some fp.fpn, record mp { free_fp_list = rest })
]

unfoldable pub put_freefp : Memphy → ℕ → ℤ × Memphy
put_freefp mp fpn =
    (success, record mp { free_fp_list = node (record { fpn = fpn; owner = 0 }) mp.free_fp_list })

-- `alloc` says whether the `malloc` succeeds.
unfoldable pub put_usedfp : Bool → Memphy → ℕ → ℕ → ℤ × Memphy
put_usedfp alloc mp fpn owner = if not alloc then (failure, mp) else (
  success,
  record mp { used_fp_list = node (record { fpn = fpn; owner = owner }) mp.used_fp_list },
)

-- The argument `fpn` is not used: the frame is the first free one.
unfoldable pub get_usedfp : Bool → Memphy → ℕ → ℕ → Run (ℤ × Memphy)
get_usedfp alloc mp fpn owner = elim (get_freefp mp) [
  | fault ↦ fault
  | done (ret, got, mp') ↦ elim got [
    | none ↦ done (failure, mp')
    | some allocated_fpn ↦ done (put_usedfp alloc mp' allocated_fpn owner)
  ]
]

-- The chain without the first node for `fpn`; `none` if there is no such node.
unfoldable pub remove_node : ℕ → Chain Frame → Run (Option (Chain Frame))
remove_node fpn null = done none
remove_node fpn wild = fault
remove_node fpn (node fp rest) =
    let behind = remove_node fpn rest in
    if fp.fpn == fpn then done (some rest) else elim behind [
      | fault ↦ fault
      | done none ↦ done none
      | done (some rest') ↦ done (some (node fp rest'))
    ]

unfoldable pub remove_usedfp : Memphy → ℕ → Run (ℤ × Memphy)
remove_usedfp mp fpn = elim (remove_node fpn mp.used_fp_list) [
  | fault ↦ fault
  | done none ↦ done (failure, mp)
  | done (some rest) ↦ done (success, record mp { used_fp_list = rest })
]

unfoldable pub free_usedfp : Memphy → ℕ → Run (ℤ × Memphy)
free_usedfp mp fpn = do
  (ret, mp') ← remove_usedfp mp fpn
  if is_negative ret then done (failure, mp') else done (put_freefp mp' fpn)
