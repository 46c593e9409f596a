-- ===== src/Regions/Heap.antt =====
-- `__alloc` and `__free` on the free list of the first area.
use btl_hdh.Base.{
  ℕ, ◌%◌, ◌^◌, ◌<◌, ◌≡◌, refl, ap, ◌∙◌, Bool, true, false, ◌&&◌, none, some, List, [], ◌∷◌, ltb,
  leb, ◌==◌, arith, update,
}
use btl_hdh.Base.Int.{success, failure}
use btl_hdh.Base.Chain.{null, node, of_list}
use btl_hdh.Base.Run.{done, fault, ◌>>=◌}
use btl_hdh.Mm.{Region, Area, Mm}
use btl_hdh.Vma.{find_area, get_vma_by_num, area_at, inc_vma_limit}
use btl_hdh.Vma.Insert.{with_areas}
use btl_hdh.Regions.{
  fit_loop, set_freerg, get_free_vmrg_area, enlist_vm_freerg_list, get_symrg_byid, set_symrg,
  through_int, alloc, free,
}
use native.Mathlib.Nat.{mod-eq_of_lt, zero-add}

abbrev pub with_free : Mm → Area → List Region → List Area → Mm
with_free mm a rgs vmas = with_areas mm (record a { vm_freerg_list = of_list rgs } ∷ vmas)

abbrev pub cleared : Region
cleared = record { rg_start = 0; rg_end = 0 }

get_symrg_byid-within : (rgid : ℕ) → rgid < 30 → get_symrg_byid rgid ≡ some rgid
unfolding get_symrg_byid
get_symrg_byid-within rgid h = let low : ltb 30 rgid ≡ false = ground arith in rw low refl

get_symrg_byid-behind : (rgid : ℕ) → 30 < rgid → get_symrg_byid rgid ≡ none
unfolding get_symrg_byid
get_symrg_byid-behind rgid h = let high : ltb 30 rgid ≡ true = ground arith in rw high refl

get_symrg_byid-thirty : get_symrg_byid 30 ≡ some 30
unfolding get_symrg_byid
get_symrg_byid-thirty = refl

-- `__free` of a register of the table that holds a region of at least one byte: it succeeds, clears the
-- register, and puts the region in front of the free list of the first area, which ends in NULL.
free-lists :
    (mm : Mm) (a : Area) (rgs : List Region) (vmas : List Area) (rgid : ℕ)
    → rgid < 30
    → (mm.symrgtbl rgid).rg_start < (mm.symrgtbl rgid).rg_end
    → free (with_free mm a rgs vmas) rgid
      ≡ done (
        success,
        record (with_free mm a (mm.symrgtbl rgid ∷ rgs) vmas) {
          symrgtbl = update mm.symrgtbl rgid cleared;
        },
      )
unfolding free set_symrg enlist_vm_freerg_list area_at set_freerg
free-lists mm a [] vmas rgid h some_bytes =
    let in_table : ltb rgid 30 ≡ true = ground arith in
    let set : ((mm.symrgtbl rgid).rg_start == 0) && ((mm.symrgtbl rgid).rg_end == 0) ≡ false =
      ground arith in
    let long : leb (mm.symrgtbl rgid).rg_end (mm.symrgtbl rgid).rg_start ≡ false = ground arith in
    simp (get_symrg_byid-within rgid h, in_table, set, long, free) refl
free-lists mm a (rg ∷ rgs) vmas rgid h some_bytes =
    let in_table : ltb rgid 30 ≡ true = ground arith in
    let set : ((mm.symrgtbl rgid).rg_start == 0) && ((mm.symrgtbl rgid).rg_end == 0) ≡ false =
      ground arith in
    let long : leb (mm.symrgtbl rgid).rg_end (mm.symrgtbl rgid).rg_start ≡ false = ground arith in
    simp (get_symrg_byid-within rgid h, in_table, set, long, free) refl

-- The bound on the register is off by one: register 30, behind the table of 30 entries, is let through,
-- and `__free` reads and writes outside the table; any larger one is refused.
free-last :
    (mm : Mm) (rgid : ℕ) → 30 < rgid → (free mm 30 ≡ fault) × (free mm rgid ≡ done (failure, mm))
unfolding free
free-last mm rgid h =
    (simp (get_symrg_byid-thirty, free) refl, simp (get_symrg_byid-behind rgid h, free) refl)

-- `__free` of a register of the table that holds a region of at least one byte: it succeeds, clears the
-- register, and puts the region in front of the free list of the first area, which ends in NULL. The
-- bound on the register is off by one: register 30, behind the table of 30 entries, is let through,
-- and `__free` reads and writes outside the table; any larger one is refused.
pub free-registers :
    (mm : Mm) (a : Area) (rgs : List Region) (vmas : List Area) (rgid far : ℕ)
    → rgid < 30
    → (mm.symrgtbl rgid).rg_start < (mm.symrgtbl rgid).rg_end
    → 30 < far
    → (free (with_free mm a rgs vmas) rgid
        ≡ done (
          success,
          record (with_free mm a (mm.symrgtbl rgid ∷ rgs) vmas) {
            symrgtbl = update mm.symrgtbl rgid cleared;
          },
        ))
      × (free mm 30 ≡ fault)
      × (free mm far ≡ done (failure, mm))
free-registers mm a rgs vmas rgid far h some_bytes behind =
    let (last, further) = free-last mm far behind in
    (free-lists mm a rgs vmas rgid h some_bytes, last, further)

-- A process with one area, as `init_mm` makes it where the list of free regions that `malloc` left behind the
-- empty region is NULL.
abbrev pub new_process : Mm → Mm
new_process mm = with_areas mm (
    record { vm_id = 0; vm_start = 0; vm_end = 0; sbrk = 0; vm_freerg_list = node cleared null }
    ∷ [])

alloc_new :
    (malloc : ℕ → ℕ → Bool) (newrg : Region) (mm : Mm) (rgid size : ℕ)
    → rgid < 30
    → 0 < size
    → size < 2 ^ 31
    → alloc malloc newrg none (new_process mm) 0 rgid size
      ≡ done (
        success,
        some 0,
        none,
        record (new_process mm) {
          symrgtbl = update mm.symrgtbl rgid (record { rg_start = 0; rg_end = size });
        },
      )
unfolding alloc get_vma_by_num find_area get_free_vmrg_area area_at fit_loop set_freerg set_symrg
    inc_vma_limit through_int
alloc_new malloc newrg mm rgid size h pos small =
    let in_table : ltb rgid 30 ≡ true = ground arith in
    let e : size % 2 ^ 64 ≡ size = mod-eq_of_lt {n = size} {m = 2 ^ 64} (omega arith) in
    let no_room : leb size 0 ≡ false = ground arith in
    simp (zero-add size, e, no_room, in_table) refl

-- Two registers of the table that a new process allocates, of sizes from 1 to below 2^31, get overlapping
-- regions, where its list of free regions, of one empty region, ends in NULL: as the kernel has no `mm`, the
-- break does not move, and each `__alloc` gives the region from address 0 on.
pub alloc-alloc :
    (malloc : ℕ → ℕ → Bool) (newrg : Region) (mm : Mm) (r q s t : ℕ)
    → r < 30
    → q < 30
    → 0 < s
    → s < 2 ^ 31
    → 0 < t
    → t < 2 ^ 31
    → (do
      (ret, addr, krnl_mm, mm') ← alloc malloc newrg none (new_process mm) 0 r s
      alloc malloc newrg krnl_mm mm' 0 q t)
      ≡ done (
        success,
        some 0,
        none,
        record (new_process mm) {
          symrgtbl =
              update
                (update mm.symrgtbl r (record { rg_start = 0; rg_end = s }))
                q
                (record { rg_start = 0; rg_end = t });
        },
      )
alloc-alloc malloc newrg mm r q s t hr hq ps ss pt st =
    let first : Mm = record mm {
      symrgtbl = update mm.symrgtbl r (record { rg_start = 0; rg_end = s });
    } in
    ap (λ x. x >>= λ y. alloc malloc newrg y.2 y.3 0 q t) (alloc_new malloc newrg mm r s hr ps ss)
    ∙ alloc_new malloc newrg first q t hq pt st
