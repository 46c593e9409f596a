-- ===== src/Regions/Fit.antt =====
-- The addresses in a list of free regions: taking a region from it and putting one back.
use btl_hdh.Base.{
  zero, suc, sym, ap, ◌∙◌, ◌-◌, ◌==◌, ℕ, ◌+◌, ◌%◌, ◌^◌, ◌≤◌, ◌<◌, ◌≡◌, refl, true, false, ◌&&◌,
  Option, none, some, List, [], ◌∷◌, ◌⊎◌, inl, inr, ltb, leb, if◌then◌else◌, arith, All, Bool-cases,
}
use btl_hdh.Base.Chain.{Chain, null, wild, node, of_list}
use btl_hdh.Base.Run.{Run, done}
use btl_hdh.Mm.{Region, Area, Mm}
use btl_hdh.Vma.{get_vma_by_num, area_at}
use btl_hdh.Regions.{fit_loop, set_freerg, get_free_vmrg_area}
use native.Mathlib.Nat.{mod-eq_of_lt}

-- 1 if the address lies in the region, else 0.
abbrev pub inside : ℕ → Region → ℕ
inside x rg = if leb rg.rg_start x && ltb x rg.rg_end then 1 else 0

-- In how many regions of a list it lies.
abbrev pub cover : ℕ → List Region → ℕ
cover x [] = 0
cover x (rg ∷ rgs) = inside x rg + cover x rgs

-- A region whose bounds are in order, in the lower half of the address range.
abbrev pub IsRegion : Region → Type 0
IsRegion rg = (rg.rg_start ≤ rg.rg_end) × (rg.rg_end < 2 ^ 63)

-- The sizes that find no region.
abbrev pub TooShort : ℕ → List Region → Type 0
TooShort size rgs = All (λ rg. rg.rg_end < rg.rg_start + size) rgs

-- Either no region is long enough and nothing changes, or a region of the size is taken: each address
-- lies in as many regions of the list and the region taken together as it did in the list before.
abbrev pub Fitted : ℕ → List Region → Run (Option Region × Chain Region) → Type 0
Fitted size rgs r =
    ((r ≡ done (none, of_list rgs)) × TooShort size rgs)
    ⊎ ((newrg : Region) × (rgs' : List Region) × (r ≡ done (some newrg, of_list rgs'))
        × (newrg.rg_end ≡ newrg.rg_start + size)
        × (newrg.rg_end < 2 ^ 63)
        × All IsRegion rgs'
        × ((x : ℕ) → inside x newrg + cover x rgs' ≡ cover x rgs))

split_inside :
    (x start end' size : ℕ)
    → start + size ≤ end'
    → (if leb start x && ltb x (start + size) then 1 else 0)
        + (if leb (start + size) x && ltb x end' then 1 else 0)
      ≡ (if leb start x && ltb x end' then 1 else 0)
split_inside x start end' size h = ground arith

nothing_inside : (x y : ℕ) → inside x (record { rg_start = y; rg_end = y }) ≡ 0
nothing_inside x y = ground arith

same_inside :
    (x start end' size : ℕ)
    → start + size ≤ end'
    → ltb (start + size) end' ≡ false
    → inside x (record { rg_start = start; rg_end = start + size })
      ≡ inside x (record { rg_start = start; rg_end = end' })
same_inside x start end' size h m = ground arith

-- A region that is used up.
fit_exact :
    (size : ℕ) (rg : Region) (rgs : List Region)
    → size < 2 ^ 31
    → IsRegion rg
    → All IsRegion rgs
    → rg.rg_start + size ≤ rg.rg_end
    → ltb (rg.rg_start + size) rg.rg_end ≡ false
    → Fitted size (rg ∷ rgs) (fit_loop size (of_list (rg ∷ rgs)))
unfolding fit_loop
fit_exact size rg [] bound (h1, h2) h fits m =
    let e : (rg.rg_start + size) % 2 ^ 64 ≡ rg.rg_start + size = mod-eq_of_lt (omega arith) in
    let l : leb (rg.rg_start + size) rg.rg_end ≡ true = ground arith in
    inr (
      record { rg_start = rg.rg_start; rg_end = rg.rg_start + size },
      record { rg_start = rg.rg_end; rg_end = rg.rg_end } ∷ [],
      simp (e, l, m) refl,
      refl,
      omega (arith, h2, fits),
      ((omega arith, h2), tt),
      λ x.
          omega
            (arith, same_inside x rg.rg_start rg.rg_end size fits m, nothing_inside x rg.rg_end),
    )
fit_exact size rg (g ∷ rgs) bound (h1, h2) h fits m =
    let e : (rg.rg_start + size) % 2 ^ 64 ≡ rg.rg_start + size = mod-eq_of_lt (omega arith) in
    let l : leb (rg.rg_start + size) rg.rg_end ≡ true = ground arith in
    inr (
      record { rg_start = rg.rg_start; rg_end = rg.rg_start + size },
      g ∷ rgs,
      simp (e, l, m) refl,
      refl,
      omega (arith, h2, fits),
      h,
      λ x. omega (arith, same_inside x rg.rg_start rg.rg_end size fits m),
    )

fit_here :
    (size : ℕ) (rg : Region) (rgs : List Region)
    → size < 2 ^ 31
    → IsRegion rg
    → All IsRegion rgs
    → rg.rg_start + size ≤ rg.rg_end
    → Fitted size (rg ∷ rgs) (fit_loop size (of_list (rg ∷ rgs)))
unfolding fit_loop
fit_here size rg rgs bound (h1, h2) h fits =
    let e : (rg.rg_start + size) % 2 ^ 64 ≡ rg.rg_start + size = mod-eq_of_lt (omega arith) in
    let l : leb (rg.rg_start + size) rg.rg_end ≡ true = ground arith in
    elim (Bool-cases (ltb (rg.rg_start + size) rg.rg_end)) [
      | inl m ↦ inr (
        record { rg_start = rg.rg_start; rg_end = rg.rg_start + size },
        record { rg_start = rg.rg_start + size; rg_end = rg.rg_end } ∷ rgs,
        simp (e, l, m) refl,
        refl,
        omega (arith, h2, fits),
        ((fits, h2), h),
        λ x. omega (arith, split_inside x rg.rg_start rg.rg_end size fits),
      )
      | inr m ↦ fit_exact size rg rgs bound (h1, h2) h fits m
    ]

-- The loop of `get_free_vmrg_area` on a list that ends in NULL, of regions whose bounds are in order
-- and below 2^63: if no region is as long as the size it finds none and the list stays; otherwise it
-- takes a region of exactly that size out of the list, and each address lies in as many regions of
-- the list and the region taken together as it did in the list before: no free byte is lost or
-- handed out twice.
fit_loop-Fitted :
    (size : ℕ) (rgs : List Region)
    → size < 2 ^ 31
    → All IsRegion rgs
    → Fitted size rgs (fit_loop size (of_list rgs))
unfolding fit_loop
fit_loop-Fitted size [] bound h = inl (refl, tt)
fit_loop-Fitted size (rg ∷ rgs) bound ((h1, h2), h) =
    elim (Bool-cases (leb (rg.rg_start + size) rg.rg_end)) [
      | inl l ↦ fit_here size rg rgs bound (h1, h2) h (ground arith)
      | inr l ↦
          let e : (rg.rg_start + size) % 2 ^ 64 ≡ rg.rg_start + size = mod-eq_of_lt (omega arith) in
          elim (fit_loop-Fitted size rgs bound h) [
            | inl (run, short) ↦ inl (simp (e, l, run) refl, (ground arith, short))
            | inr (newrg, rgs', run, len, low, ok, covers) ↦ inr (
              newrg,
              rg ∷ rgs',
              simp (e, l, run) refl,
              len,
              low,
              ((h1, h2), ok),
              λ x. omega (arith, covers x),
            )
          ]
    ]

-- The list of an area, written back as it is.
set_freerg-same :
    (i : ℕ) (vmas : Chain Area) (a : Area)
    → area_at i vmas ≡ done a
    → set_freerg i a.vm_freerg_list vmas ≡ vmas
unfolding set_freerg area_at
set_freerg-same i null a e = refl
set_freerg-same i wild a e = refl
set_freerg-same zero (node vma vm_next) a e =
    let same : vma ≡ a = cc e in
    ap (λ x. node (record vma { vm_freerg_list = x.vm_freerg_list }) vm_next) (sym same)
set_freerg-same (suc i) (node vma vm_next) a e = ap (node vma) (set_freerg-same i vm_next a e)

-- The process with another list of free regions in the area at a place.
abbrev pub with_freerg : Mm → ℕ → List Region → Mm
with_freerg mm i rgs = record mm { mmap = set_freerg i (of_list rgs) mm.mmap }

-- Either no region is found, every region is too short and nothing changes, or a region of the size is
-- taken out of the list of the area: each address lies in as many regions of the list and the region taken
-- together as it did in the list before.
abbrev pub FittedIn : Mm → ℕ → ℕ → List Region → Run (Option Region × Mm) → Type 0
FittedIn mm i size rgs r =
    ((r ≡ done (none, mm)) × TooShort size rgs)
    ⊎ ((newrg : Region) × (rgs' : List Region) × (r ≡ done (some newrg, with_freerg mm i rgs'))
        × (newrg.rg_end ≡ newrg.rg_start + size)
        × All IsRegion rgs'
        × ((x : ℕ) → inside x newrg + cover x rgs' ≡ cover x rgs))

-- `get_free_vmrg_area` of a size below 2^31: if the process has no area it finds none and changes nothing.
-- Else, in the area that is found for the number, whose list of free regions ends in NULL and has regions
-- with bounds in order and below 2^63: if no region is as long as the size it finds none and changes nothing;
-- otherwise it takes a region of exactly that size out of the list, and each address lies in as many regions
-- of the list and the region taken together as it did in the list before: no free byte is lost or handed
-- out twice.
pub get_free_vmrg_area-Fitted :
    (mm bare : Mm) (vmaid size i : ℕ) (a : Area) (rgs : List Region)
    → size < 2 ^ 31
    → bare.mmap ≡ null
    → get_vma_by_num mm vmaid ≡ done (some i)
    → area_at i mm.mmap ≡ done a
    → a.vm_freerg_list ≡ of_list rgs
    → All IsRegion rgs
    → (get_free_vmrg_area bare vmaid size ≡ done (none, bare))
      × FittedIn mm i size rgs (get_free_vmrg_area mm vmaid size)
unfolding get_free_vmrg_area
get_free_vmrg_area-Fitted mm bare vmaid size i a rgs bound no_area found at list h = (
  rw no_area (unfold get_vma_by_num in rw no_area refl),
  elim (fit_loop-Fitted size rgs bound h) [
    | inl (run, short) ↦
        let same : set_freerg i (of_list rgs) mm.mmap ≡ mm.mmap =
          ap (λ c. set_freerg i c mm.mmap) (sym list) ∙ set_freerg-same i mm.mmap a at in
        inl (simp (found, at, list, run, same) refl, short)
    | inr (newrg, rgs', run, len, low, ok, covers) ↦
        let real : (newrg.rg_start == 2 ^ 64 - 1) ≡ false = ground (arith, len, low) in
        inr (newrg, rgs', simp (found, at, list, run, real) refl, len, ok, covers)
  ],
)
