-- ===== src/Vma/Search.antt =====
-- Which area `get_vma_by_num` finds.
use btl_hdh.Base.{
  ℕ, suc, ◌+◌, ◌≤◌, ◌<◌, ◌≡◌, refl, ap, ◌∙◌, false, some, List, [], ◌∷◌, ◌++◌, ltb, arith, All,
  length, lt→ltb,
}
use btl_hdh.Base.Chain.{of_list}
use btl_hdh.Base.Run.{done, fault}
use btl_hdh.Mm.{Area, Mm}
use btl_hdh.Vma.{find_area, get_vma_by_num}
use btl_hdh.Vma.Insert.{with_areas}

abbrev pub AreBelow : ℕ → List Area → Type 0
AreBelow v vmas = All (λ vma. vma.vm_id < v) vmas

find_area-first :
    (v i : ℕ) (xs : List Area) (a : Area) (ys : List Area)
    → AreBelow v xs
    → v ≤ a.vm_id
    → find_area v i (of_list (xs ++ a ∷ ys)) ≡ done (i + length xs)
unfolding find_area
find_area-first v i [] a ys low high =
    let e : ltb a.vm_id v ≡ false = ground arith in rw e (ap done {x = i} {y = i + 0} (omega arith))
find_area-first v i (x ∷ xs) a ys (p, low) high = rw (lt→ltb x.vm_id v p) (
    find_area-first v (suc i) xs a ys low high
    ∙ ap done {x = suc i + length xs} {y = i + suc (length xs)} (omega arith))

find_area-beyond : (v i : ℕ) (xs : List Area) → AreBelow v xs → find_area v i (of_list xs) ≡ fault
unfolding find_area
find_area-beyond v i [] low = refl
find_area-beyond v i (x ∷ xs) (p, low) = rw (lt→ltb x.vm_id v p) (find_area-beyond v (suc i) xs low)

-- `get_vma_by_num` finds the first area whose number is at least the one asked for, even if that is
-- another number.
get_vma_by_num-first :
    (mm : Mm) (v : ℕ) (xs : List Area) (a : Area) (ys : List Area)
    → AreBelow v xs
    → v ≤ a.vm_id
    → get_vma_by_num (with_areas mm (xs ++ a ∷ ys)) v ≡ done (some (length xs))
unfolding get_vma_by_num
get_vma_by_num-first mm v [] a ys low high = rw (find_area-first v 0 [] a ys low high) refl
get_vma_by_num-first mm v (x ∷ xs) a ys low high =
    rw (find_area-first v 0 (x ∷ xs) a ys low high)
      (ap (λ n. done (some n)) {x = 0 + suc (length xs)} {y = suc (length xs)} (omega arith))

-- On a list of at least one area, all of which have smaller numbers than the one asked for,
-- `get_vma_by_num` does not return NULL: it reads through the NULL pointer at the end of the list.
get_vma_by_num-beyond :
    (mm : Mm) (v : ℕ) (a : Area) (vmas : List Area)
    → AreBelow v (a ∷ vmas)
    → get_vma_by_num (with_areas mm (a ∷ vmas)) v ≡ fault
unfolding get_vma_by_num
get_vma_by_num-beyond mm v a vmas low = rw (find_area-beyond v 0 (a ∷ vmas) low) refl

-- On a list of areas that ends in NULL, `get_vma_by_num` finds the first area whose number is at least
-- the one asked for, even if that is another number. If there are areas but all have smaller numbers
-- it does not return NULL: it reads through the NULL pointer at the end of the list.
pub get_vma_by_num-areas :
    (mm : Mm) (v : ℕ) (xs : List Area) (a b : Area) (ys : List Area)
    → AreBelow v xs
    → v ≤ a.vm_id
    → b.vm_id < v
    → (get_vma_by_num (with_areas mm (xs ++ a ∷ ys)) v ≡ done (some (length xs)))
      × (get_vma_by_num (with_areas mm (b ∷ xs)) v ≡ fault)
get_vma_by_num-areas mm v xs a b ys low high lower =
    (get_vma_by_num-first mm v xs a ys low high, get_vma_by_num-beyond mm v b xs (lower, low))
