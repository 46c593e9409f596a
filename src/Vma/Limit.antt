-- ===== src/Vma/Limit.antt =====
-- What `inc_vma_limit` does to a list of areas that ends in NULL.
use btl_hdh.Base.{
  int_or_zero, ◌≤◌, ℕ, zero, suc, ◌+◌, ◌/◌, ◌%◌, ◌^◌, ◌≡◌, refl, sym, ap, ◌∙◌, Bool, true, false,
  ◌&&◌, ◌||◌, not, some, List, [], ◌∷◌, inl, inr, ◌==◌, leb, if◌then◌else◌, Bool-cases,
}
use btl_hdh.Base.Int.{success, failure}
use btl_hdh.Base.Chain.{node, of_list}
use btl_hdh.Base.Run.{Run, done, fault, ◌>>=◌}
use btl_hdh.Mm.{Region, Area, Mm}
use btl_hdh.Mapping.{pagesz}
use btl_hdh.Mapping.Ranges.{vm_map_ram-nothing}
use btl_hdh.Vma.{
  find_area, get_vma_by_num, area_at, set_limits, validate_loop, validate_overlap_vm_area,
  page_alignsz, inc_vma_limit,
}
use btl_hdh.Vma.Insert.{with_areas, overlapping}

-- The list with other limits for the area at a place.
unfoldable pub grow : ℕ → ℕ → ℕ → List Area → List Area
grow i vm_end sbrk [] = []
grow zero vm_end sbrk (vma ∷ vmas) = record vma { vm_end = vm_end; sbrk = sbrk } ∷ vmas
grow (suc i) vm_end sbrk (vma ∷ vmas) = vma ∷ grow i vm_end sbrk vmas

-- Whether an area of the list, but for the one at place `cur`, overlaps `cur_area`. The list stands at
-- place `i`.
unfoldable pub others_overlap : ℕ → Area → ℕ → List Area → Bool
others_overlap cur cur_area i [] = false
others_overlap cur cur_area i (vma ∷ vmas) =
    if not (i == cur) && overlapping cur_area vma
    then true
    else others_overlap cur cur_area (suc i) vmas

set_limits-of_list :
    (i e s : ℕ) (vmas : List Area) → set_limits i e s (of_list vmas) ≡ of_list (grow i e s vmas)
unfolding set_limits grow
set_limits-of_list i e s [] = refl
set_limits-of_list zero e s (a ∷ vmas) = refl
set_limits-of_list (suc i) e s (a ∷ vmas) = ap (node a) (set_limits-of_list i e s vmas)

find_area-grow :
    (v j i e s : ℕ) (vmas : List Area)
    → find_area v j (of_list (grow i e s vmas)) ≡ find_area v j (of_list vmas)
unfolding find_area grow
find_area-grow v j i e s [] = refl
find_area-grow v j zero e s (a ∷ vmas) = refl
find_area-grow v j (suc i) e s (a ∷ vmas) = rw (find_area-grow v (suc j) i e s vmas) refl

get_vma_by_num-grow :
    (v i e s : ℕ) (mm : Mm) (vmas : List Area)
    → get_vma_by_num (with_areas mm (grow i e s vmas)) v ≡ get_vma_by_num (with_areas mm vmas) v
unfolding get_vma_by_num grow find_area
get_vma_by_num-grow v i e s mm [] = refl
get_vma_by_num-grow v zero e s mm (a ∷ vmas) = refl
get_vma_by_num-grow v (suc i) e s mm (a ∷ vmas) = rw (find_area-grow v 1 i e s vmas) refl

area_at-grow :
    (i e s : ℕ) (a : Area) (vmas : List Area)
    → area_at i (of_list vmas) ≡ done a
    → area_at i (of_list (grow i e s vmas)) ≡ done (record a { vm_end = e; sbrk = s })
unfolding area_at grow
area_at-grow i e s a [] h = cc
area_at-grow zero e s a (b ∷ vmas) h =
    ap (λ (r : Run Area). r >>= λ x. done (record x { vm_end = e; sbrk = s })) h
area_at-grow (suc i) e s a (b ∷ vmas) h = area_at-grow i e s a vmas h

-- The old limits give the old list.
grow-grow :
    (i e s : ℕ) (a : Area) (vmas : List Area)
    → area_at i (of_list vmas) ≡ done a
    → grow i a.vm_end a.sbrk (grow i e s vmas) ≡ vmas
unfolding area_at grow
grow-grow i e s a [] h = refl
grow-grow zero e s a (b ∷ vmas) h =
    ap
      (λ r. elim r as (λ x. List Area) [
        | done x ↦ record b { vm_end = x.vm_end; sbrk = x.sbrk } ∷ vmas
        | fault ↦ b ∷ vmas
      ])
      (sym h)
grow-grow (suc i) e s a (b ∷ vmas) h = ap (◌∷◌ b) (grow-grow i e s a vmas h)

validate_loop-of_list :
    (cur : ℕ) (a : Area) (i : ℕ) (vmas : List Area)
    → validate_loop cur a i (of_list vmas)
      ≡ done (if others_overlap cur a i vmas then failure else success)
unfolding validate_loop others_overlap
validate_loop-of_list cur a i [] = refl
validate_loop-of_list cur a i (b ∷ vmas) = elim (Bool-cases (not (i == cur) && overlapping a b)) [
  | inl e ↦ rw e refl
  | inr e ↦ rw e (validate_loop-of_list cur a (suc i) vmas)
]

validate_overlap_vm_area-lists :
    (mm : Mm) (vmas : List Area) (vmaid cur vmastart vmaend : ℕ) (a : Area)
    → get_vma_by_num (with_areas mm vmas) vmaid ≡ done (some cur)
    → area_at cur (of_list vmas) ≡ done a
    → validate_overlap_vm_area (with_areas mm vmas) vmaid vmastart vmaend
      ≡ done (if leb vmaend vmastart || others_overlap cur a 0 vmas then failure else success)
unfolding validate_overlap_vm_area
validate_overlap_vm_area-lists mm vmas vmaid cur vmastart vmaend a found at =
    elim (Bool-cases (leb vmaend vmastart)) [
      | inl e ↦ rw e refl
      | inr e ↦ rw (e, found, at) (validate_loop-of_list cur a 0 vmas)
    ]

-- `inc_vma_limit` on a list of areas that ends in NULL, one of which is found for the number: it fails,
-- and leaves every limit as it was, if the area would be empty or would overlap another one after its
-- end moved up by the size rounded up to pages; otherwise it moves the end so and the break by the
-- size. On both branches it maps no page of the process. The size is at most 2^31 - 4096, so that the number
-- of its pages, an `int`, and their size, a product of `int`s, do not overflow.
pub inc_vma_limit-Outcome :
    (malloc : ℕ → ℕ → Bool) (newrg : Region) (krnl_mm mm : Mm) (vmas : List Area)
    (vmaid inc_sz i : ℕ) (a : Area)
    → get_vma_by_num (with_areas krnl_mm vmas) vmaid ≡ done (some i)
    → area_at i (of_list vmas) ≡ done a
    → inc_sz + 4096 ≤ 2 ^ 31
    → let vm_end = (a.vm_end + page_alignsz inc_sz) % 2 ^ 64 in
      let sbrk = (a.sbrk + inc_sz) % 2 ^ 64 in
      let grown = grow i vm_end sbrk vmas in
      let area = record a { vm_end = vm_end; sbrk = sbrk } in
      inc_vma_limit malloc newrg (some (with_areas krnl_mm vmas)) mm vmaid inc_sz
      ≡ done (
          if leb vm_end a.vm_start || others_overlap i area 0 grown
          then (failure, some (with_areas krnl_mm vmas), mm)
          else (success, some (with_areas krnl_mm grown), mm))
unfolding inc_vma_limit
inc_vma_limit-Outcome malloc newrg krnl_mm mm vmas vmaid inc_sz i a found at few =
    let vm_end = (a.vm_end + page_alignsz inc_sz) % 2 ^ 64 in
    let sbrk = (a.sbrk + inc_sz) % 2 ^ 64 in
    let grown = grow i vm_end sbrk vmas in
    let area = record a { vm_end = vm_end; sbrk = sbrk } in
    let v =
      validate_overlap_vm_area-lists krnl_mm grown vmaid i a.vm_start vm_end area
        (get_vma_by_num-grow vmaid i vm_end sbrk krnl_mm vmas ∙ found)
        (area_at-grow i vm_end sbrk a vmas at) in
    elim (Bool-cases (leb vm_end a.vm_start || others_overlap i area 0 grown)) [
      | inl b ↦
          simp
            (
              found,
              at,
              set_limits-of_list i vm_end sbrk vmas,
              v,
              b,
              set_limits-of_list i a.vm_end a.sbrk grown,
              grow-grow i vm_end sbrk a vmas at,
            )
            refl
      | inr b ↦
          simp
            (
              found,
              at,
              set_limits-of_list i vm_end sbrk vmas,
              v,
              b,
              vm_map_ram-nothing malloc mm a.vm_end vm_end a.vm_end
                  (int_or_zero (page_alignsz inc_sz / pagesz)) (some newrg),
            )
            refl
    ]
