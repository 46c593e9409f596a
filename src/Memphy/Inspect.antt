-- ===== src/Memphy/Inspect.antt =====
-- src/mm-memphy.c: `init_memphy`, `MEMPHY_cleanup` and the functions that look at the frame lists.
use btl_hdh.Base.{
  int_or_zero, ℕ, suc, ◌+◌, ◌/◌, Bool, true, false, not, Option, none, some, ◌==◌, ltb,
  if◌then◌else◌,
}
use btl_hdh.Base.Int.{ℤ, success, failure, is_negative}
use btl_hdh.Base.Chain.{Chain, null, wild, node}
use btl_hdh.Base.Run.{Run, done, fault, ◌>>=◌}
use btl_hdh.Memphy.{Memphy, Frame, Raw, format}

-- The size is stored in an `int`; a negative one has no frames, as 0 has none. `mp` is the struct before the call, whose fields may hold anything; `pagesz` is PAGING_PAGESZ.
unfoldable pub init_memphy : Raw → ℕ → Memphy → ℕ → ℕ → ℤ × Memphy
init_memphy raw pagesz mp max_size randomflg =
    let sized = record mp {
      storage = some (λ _. 0);
      maxsz = int_or_zero max_size;
      used_fp_list = null;
    } in
    let (ret, formatted) = format raw sized pagesz in
    let listed = if is_negative ret then record formatted { free_fp_list = null } else formatted in
    let flagged = record listed { rdmflg = not (randomflg == 0) } in
    (success, if not flagged.rdmflg then record flagged { cursor = 0 } else flagged)

unfoldable pub get_frame_count : Chain Frame → Run ℕ
get_frame_count null = done 0
get_frame_count wild = fault
get_frame_count (node fp rest) = do n ← get_frame_count rest; done (suc n)

-- The numbers of free, used and all frames.
unfoldable pub get_stats : ℕ → Memphy → Run (ℕ × ℕ × ℕ)
get_stats pagesz mp = do
  free_frames ← get_frame_count mp.free_fp_list
  used_frames ← get_frame_count mp.used_fp_list
  done (free_frames, used_frames, mp.maxsz / pagesz)

-- The owner of the first node for the frame.
unfoldable pub find_node : ℕ → Chain Frame → Run (Option ℕ)
find_node fpn null = done none
find_node fpn wild = fault
find_node fpn (node fp rest) =
    let behind = find_node fpn rest in if fp.fpn == fpn then done (some fp.owner) else behind

-- The result, and what is stored through `owner`.
unfoldable pub find_frame : Memphy → ℕ → Run (ℤ × Option ℕ)
find_frame mp fpn = elim (find_node fpn mp.used_fp_list) [
  | fault ↦ fault
  | done none ↦ done (failure, none)
  | done (some owner) ↦ done (success, some owner)
]

unfoldable pub is_frame_free : Memphy → ℕ → Run Bool
is_frame_free mp fpn = elim (find_node fpn mp.free_fp_list) [
  | fault ↦ fault
  | done none ↦ done false
  | done (some _) ↦ done true
]

unfoldable pub validate : ℕ → Memphy → Run ℤ
validate pagesz mp = elim mp.storage [
  | none ↦ done failure
  | some _ ↦ if mp.maxsz == 0 then done failure else (do
    free_count ← get_frame_count mp.free_fp_list
    used_count ← get_frame_count mp.used_fp_list
    if ltb (mp.maxsz / pagesz) (free_count + used_count) then done failure else done success)
]

-- Both list walks free every node.
unfoldable pub cleanup : Memphy → Run (ℤ × Memphy)
cleanup mp = do
  _ ← get_frame_count mp.free_fp_list
  _ ← get_frame_count mp.used_fp_list
  done (success, record mp { storage = none; free_fp_list = null; used_fp_list = null })
