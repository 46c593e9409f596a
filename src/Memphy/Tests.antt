-- ===== src/Memphy/Tests.antt =====
-- A device of four pages of 16 bytes, and the theorems at it.
use btl_hdh.Base.{
  int_or_zero-small, ℕ, ◌+◌, ◌/◌, ◌≡◌, refl, arith, if◌then◌else◌, ◌==◌, ltb, leb, ◌||◌, not, true,
  false, none, some, List, [], ◌∷◌, has, length, update,
}
use btl_hdh.Base.Int.{success, failure}
use btl_hdh.Base.Chain.{null, wild, of_list}
use btl_hdh.Base.Run.{done, fault, ◌>>=◌}
use btl_hdh.Memphy.{
  Frame, Memphy, Raw, read, write, seq_read, seq_write, mv_csr, mv_csr_loop, get_freefp, get_usedfp,
  free_usedfp, format_loop, format,
}
use btl_hdh.Memphy.Inspect.{init_memphy, is_frame_free, get_stats, validate}
use btl_hdh.Memphy.Cells.{IsLive, read-write}
use btl_hdh.Memphy.Frames.{fpns, with_lists, Keeps, usedfp-Keeps, drop_frame, free_usedfp-moves}
use btl_hdh.Memphy.Format.{frames_from, init_memphy-frames}
use btl_hdh.Memphy.Queries.{validate-lists}

abbrev frame : ℕ → ℕ → Frame
frame n o = record { fpn = n; owner = o }

abbrev raw : Raw
raw = record { fp_next = wild; owner = 7 }

abbrev unset : Memphy
unset = record {
  storage = none;
  maxsz = 0;
  rdmflg = false;
  cursor = 0;
  free_fp_list = wild;
  used_fp_list = wild;
}

abbrev device : Memphy
device = record {
  storage = some (λ _. 0);
  maxsz = 64;
  rdmflg = true;
  cursor = 0;
  free_fp_list = null;
  used_fp_list = null;
}

abbrev free : List Frame
free = frame 2 0 ∷ frame 3 0 ∷ []

abbrev used : List Frame
used = frame 1 9 ∷ frame 0 9 ∷ []

device-IsLive : IsLive device
device-IsLive = record { cells = λ _. 0; storage = refl }

four_frames :
    (init_memphy raw 16 unset 64 1).1.free_fp_list
    ≡ of_list (frame 0 7 ∷ frame 1 7 ∷ frame 2 7 ∷ frame 3 7 ∷ [])
unfolding init_memphy format format_loop
four_frames = rw (int_or_zero-small 64 (omega arith)) refl

wraps : (mv_csr device 100).cursor ≡ 0
unfolding mv_csr mv_csr_loop
wraps = refl

abbrev live : IsLive device
live = record { cells = λ _. 0; storage = refl }

read-write_example :
    let dev = record device { storage = some (update (λ _. 0) 5 200) } in
    (read device 5 ≡ done (if leb 64 5 then (failure, none, device) else (success, some 0, device)))
    × (write device 5 200 ≡ done (if leb 64 5 then (failure, device) else (success, dev)))
    × (read dev 5
        ≡ done (
            if leb 64 5
            then (failure, none, dev)
            else (success, some (if 5 == 5 then 200 else 0), dev)))
read-write_example = read-write device 5 5 200 live refl

abbrev tape : Memphy
tape = record device { rdmflg = false }

tape_refuses :
    (read tape 5 ≡ done (failure, none, tape)) × (write tape 5 200 ≡ done (failure, tape))
unfolding read write seq_read seq_write
tape_refuses = (refl, refl)

usedfp-Keeps_example :
    Keeps device free used (get_usedfp true (with_lists device free used) 3 9)
    × Keeps device free used (free_usedfp (with_lists device free used) 3)
usedfp-Keeps_example = usedfp-Keeps device free used 3 9

free_usedfp-moves_example :
    (free_usedfp (with_lists device (frame 3 0 ∷ []) used) 0
      ≡ done (
          if has 0 (fpns used)
          then (success, with_lists device (frame 0 0 ∷ frame 3 0 ∷ []) (drop_frame 0 used))
          else (failure, with_lists device (frame 3 0 ∷ []) used)))
    × ((do
      (ret, dev) ← get_usedfp true (with_lists device (frame 2 0 ∷ frame 3 0 ∷ []) used) 0 9
      free_usedfp dev 2)
        ≡ done (success, with_lists device (frame 2 0 ∷ frame 3 0 ∷ []) used))
free_usedfp-moves_example = free_usedfp-moves device (frame 2 0) (frame 3 0 ∷ []) used 0 9

init_memphy-frames_example :
    let (ret, dev) = init_memphy raw 16 unset 64 1 in
    let small = (init_memphy raw 16 unset 20 1).1 in
    ((ret ≡ success)
      × (dev ≡ with_lists dev (frames_from 7 0 (64 / 16)) [])
      × (dev.storage ≡ some (λ _. 0))
      × (dev.maxsz ≡ 64)
      × (dev.rdmflg ≡ not (1 == 0)))
    × ((do (ret', got, dev') ← get_freefp small; done got) ≡ done (some 0))
    × ((do (ret', got, dev') ← get_freefp small; get_freefp dev') ≡ fault)
init_memphy-frames_example =
    init_memphy-frames raw raw 16 unset 64 20 1 (omega arith) (omega arith) refl (omega arith) refl

frames_validated :
    (is_frame_free (with_lists device free used) 3 ≡ done (has 3 (fpns free)))
    × (get_stats 16 (with_lists device free used) ≡ done (length free, length used, 64 / 16))
    × (validate 16 (with_lists device free used)
        ≡ done (if 64 == 0 || ltb (64 / 16) (length free + length used) then failure else success))
frames_validated = validate-lists 16 device free used 3 (λ _. 0) refl
