-- ===== src/Flat/Tests.antt =====
-- An address space with an empty table, a memory with three free frames, and the theorems at them.
use btl_hdh.Base.{◌%◌, ◌^◌, ℕ, ◌≡◌, refl, true, false, none, some, [], ◌∷◌, List}
use btl_hdh.Base.Int.{success}
use btl_hdh.Base.Chain.{null}
use btl_hdh.Base.Run.{done}
use btl_hdh.Memphy.{Frame, Memphy, get_freefp}
use btl_hdh.Mm.{init_vm_rg, enlist_vm_rg_node}
use btl_hdh.Setup.{free_nodes}
use btl_hdh.Flat.{
  Mm, set_fpn, set_swap, pte_set_fpn, pte_set_swap, pte_set_entry, present, swapped, fpn_of,
  vm_map_ram, alloc_pages_range, vmap_page_range, map_loop, mapped_region, init_mm, free_mm,
}
use btl_hdh.Flat.Entries.{WritesEntry, flat_entries}
use btl_hdh.Flat.Ranges.{with_free}

abbrev unset : Mm
unset = record {
  pgd = none;
  mmap = null;
  symrgtbl = λ _. record { rg_start = 0; rg_end = 0 };
  fifo_pgn = null;
}

abbrev mm : Mm
mm = record unset { pgd = some (λ _. 0) }

abbrev device : Memphy
device = record {
  storage = some (λ a. 0);
  maxsz = 1024;
  rdmflg = true;
  cursor = 0;
  free_fp_list = null;
  used_fp_list = null;
}

abbrev frame : ℕ → Frame
frame fpn = record { fpn = fpn; owner = 0 }

abbrev free : List Frame
free = frame 1 ∷ frame 2 ∷ frame 3 ∷ []

-- The fields of entries of 32 bits.
fields :
    (present (set_fpn 5 0)
      ∷ fpn_of (set_fpn 5 0)
      ∷ swapped (set_swap 1 6 0)
      ∷ fpn_of (set_swap 1 6 0)
      ∷ [])
    ≡ 1 ∷ 5 ∷ 1 ∷ 193 ∷ []
unfolding present fpn_of swapped set_fpn set_swap
fields = refl

-- A `malloc` that fails is not noticed: the result is 0, and a frame is lost.
unnoticed :
    vm_map_ram (λ k. false) 9 (with_free device free) mm 256 1 none
    ≡ done (0, with_free device (frame 2 ∷ frame 3 ∷ []), mm, none)
unfolding vm_map_ram alloc_pages_range vmap_page_range map_loop mapped_region
    btl_hdh.Mapping.alloc_pages_range btl_hdh.Mapping.alloc_loop get_freefp
unnoticed = refl

set_up_and_freed :
    free_mm (init_mm null unset).1
    ≡ done (success, 3, record (init_mm null unset).1 { pgd = none; mmap = null; fifo_pgn = null })
unfolding free_mm init_mm free_nodes enlist_vm_rg_node init_vm_rg
set_up_and_freed = refl

written_at_2 :
    WritesEntry (set_fpn 5) 2 2 mm (pte_set_fpn mm 2 5)
    × WritesEntry (set_swap 1 9) 2 2 mm (pte_set_swap mm 2 1 9)
    × WritesEntry (λ pte. 77 % 2 ^ 32) 2 2 mm (pte_set_entry mm 2 77)
written_at_2 = flat_entries mm 2 2 5 1 9 77
