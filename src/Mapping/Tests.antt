-- ===== src/Mapping/Tests.antt =====
-- An address space, two devices of two frames, and the theorems at them.
use btl_hdh.Base.{
  ℕ, ◌+◌, ◌-◌, ◌*◌, ◌^◌, ◌≡◌, refl, true, ◌&&◌, some, none, List, [], ◌∷◌, leb, ltb, if◌then◌else◌,
  arith, take, drop, length,
}
use btl_hdh.Base.Int.{success}
use btl_hdh.Base.Chain.{null, of_list}
use btl_hdh.Base.Run.{done, fault}
use btl_hdh.Memphy.{Frame, Memphy}
use btl_hdh.Mm.{Mm, Region}
use btl_hdh.Pte.{set_fpn}
use btl_hdh.PageTable.{
  pte_get_entry, no_tables, pte_set_fpn, alter_pte, walk_pgd, access, write_pte, follow, get_pgd,
  get_pd_from_address, get_pd_from_pagenum,
}
use btl_hdh.Mapping.{
  vmap_pgd_memset, vmap_page_range, alloc_pages_range, out_of_memory, mapped_region, swap_cp_page,
  map_loop, pages_size, page_at,
}
use btl_hdh.Mapping.Ranges.{Blank, Mapped, vmap_pgd_memset-Blank, vmap_page_range-Mapped}
use btl_hdh.Mapping.Frames.{owned, alloc_pages_range-lists}
use btl_hdh.Mapping.Copy.{swap_cp_page-frames}

abbrev mm : Mm
mm = record {
  pgd = some no_tables;
  mmap = null;
  symrgtbl = λ _. record { rg_start = 0; rg_end = 0 };
  fifo_pgn = null;
}

abbrev rg : Region
rg = record { rg_start = 1; rg_end = 2 }

abbrev frames : List Frame
frames = record { fpn = 7; owner = 0 } ∷ record { fpn = 3; owner = 0 } ∷ []

abbrev device : (ℕ → ℕ) → Memphy
device bytes = record {
  storage = some bytes;
  maxsz = 8192;
  rdmflg = true;
  cursor = 0;
  free_fp_list = null;
  used_fp_list = null;
}

-- Three pages are asked for, two frames are given.
abbrev entries_of : ℕ → ℕ → ℕ
entries_of a q = elim (vmap_page_range (λ _ _. true) mm (a * 4096) 3 (of_list frames) none) [
  | done (ret, mm', ret_rg) ↦ pte_get_entry mm' q
  | fault ↦ 0
]

two_mapped :
    (entries_of 511 511 ∷ entries_of 511 512 ∷ entries_of 511 513 ∷ [])
    ≡ (2 ^ 63 + 7) ∷ (2 ^ 63 + 3) ∷ 0 ∷ []
unfolding vmap_page_range map_loop pages_size page_at mapped_region pte_set_fpn pte_get_entry
    alter_pte walk_pgd access write_pte follow get_pgd get_pd_from_pagenum get_pd_from_address
    set_fpn
two_mapped = refl

two_pages_cleared : Blank 511 2 mm (vmap_pgd_memset (λ _ _. true) mm (511 * 4096) 2)
two_pages_cleared =
    vmap_pgd_memset-Blank (λ _ _. true) mm 511 2 no_tables refl (λ i n. refl) (omega arith)
      (omega arith)

vmap_page_range-Mapped_example :
    (mm' : Mm) × (vmap_page_range (λ _ _. true) mm (511 * 4096) 3 (of_list frames) (some rg)
      ≡ done (0, mm', some (record { rg_start = 511 * 4096; rg_end = (511 + 3) * 4096 })))
    × Mapped 511 (take 3 frames) mm mm'
vmap_page_range-Mapped_example =
    vmap_page_range-Mapped (λ _ _. true) mm 511 3 frames rg no_tables refl (λ i n. refl)
      (omega arith) (omega arith)

alloc_pages_range-lists_example :
    alloc_pages_range
      (λ _. true)
      9
      (record (device (λ _. 0)) { free_fp_list = of_list frames })
      3
      []
    ≡ done (
      if leb 3 (length frames) then 0 else out_of_memory,
      owned 9 (take 3 frames),
      record (device (λ _. 0)) { free_fp_list = of_list (drop 3 frames) },
    )
alloc_pages_range-lists_example =
    alloc_pages_range-lists (λ _. true) 9 3 (device (λ _. 0)) frames (λ k. refl)

swap_cp_page-frames_example :
    (f : ℕ → ℕ) × (swap_cp_page (λ _. 0) (device (λ a. a + 1)) 1 (device (λ a. 0)) 0
      ≡ done (success, device (λ a. a + 1), record (device (λ a. 0)) { storage = some f }))
    × ((j : ℕ)
        → f j ≡ (
            if leb (0 * 4096) j && ltb j (0 * 4096 + 4096)
            then 1 * 4096 + (j - 0 * 4096) + 1
            else 0))
swap_cp_page-frames_example =
    swap_cp_page-frames (λ _. 0) 1 0 (device (λ a. a + 1)) (device (λ a. 0)) (λ a. a + 1) (λ a. 0)
      refl refl refl refl (omega arith) (omega arith) (omega arith) (omega arith)
