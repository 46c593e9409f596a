-- ===== src/Vma/Remove.antt =====
-- `remove_vm_area` takes back what `add_vm_area` put in.
use btl_hdh.Base.{
  ℕ, ◌+◌, ◌≡◌, refl, sym, ap, ◌∙◌, true, false, some, List, [], ◌∷◌, ◌++◌, inl, inr, ◌==◌,
  Bool-cases, map, has, ==_refl, subst,
}
use btl_hdh.Base.Int.{success}
use btl_hdh.Base.Chain.{of_list}
use btl_hdh.Base.Run.{done, ◌>>=◌}
use btl_hdh.Mm.{Region, Area, Mm}
use btl_hdh.Setup.{free_nodes}
use btl_hdh.Vma.Lists.{add_vm_area, remove_area, remove_vm_area}
use btl_hdh.Vma.Insert.{with_areas, any_overlap, overlaps_any-of_list, insert_area-Inserted}

abbrev pub ids : List Area → List ℕ
ids vmas = map (λ a. a.vm_id) vmas

-- The regions of a list that ends in NULL can be freed.
free_regions :
    (rgs : List Region) → (n : ℕ) × (free_nodes (λ (rg : Region). done 0) (of_list rgs) ≡ done n)
unfolding free_nodes
free_regions [] = (0, refl)
free_regions (rg ∷ rgs) = let (n, e) = free_regions rgs in (0 + 1 + n, rw e refl)

remove_area-first :
    (new : Area) (xs ys : List Area)
    → has new.vm_id (ids (xs ++ ys)) ≡ false
    → remove_area new.vm_id (of_list (xs ++ new ∷ ys)) ≡ done (some (new, of_list (xs ++ ys)))
unfolding remove_area has
remove_area-first new [] ys h = rw (==_refl new.vm_id) refl
remove_area-first new (x ∷ xs) ys h = elim (Bool-cases (x.vm_id == new.vm_id)) [
  | inl e ↦
      (let r : has new.vm_id (ids (x ∷ xs ++ ys)) ≡ true = rw e refl in
        let q : has new.vm_id (ids (x ∷ xs ++ ys)) ≡ false = h in cc)
  | inr e ↦
      let r : has new.vm_id (ids (x ∷ xs ++ ys)) ≡ has new.vm_id (ids (xs ++ ys)) = rw e refl in
      rw (e, remove_area-first new xs ys (sym r ∙ h)) refl
]

-- An area that overlaps none of the list, whose number none of the list has and whose list of regions
-- ends in NULL: added and removed by its number, it leaves the address space as it was.
pub remove_vm_area-add_vm_area :
    (mm : Mm) (vmas : List Area) (new : Area) (rgs : List Region)
    → any_overlap new vmas ≡ false
    → has new.vm_id (ids vmas) ≡ false
    → new.vm_freerg_list ≡ of_list rgs
    → (do (ret, mm') ← add_vm_area (with_areas mm vmas) new; remove_vm_area mm' new.vm_id)
      ≡ done (success, with_areas mm vmas)
unfolding add_vm_area remove_vm_area
remove_vm_area-add_vm_area mm vmas new rgs apart fresh ends =
    let (xs, ys, run, whole, sorted) = insert_area-Inserted new vmas in
    let gone =
      remove_area-first new xs ys (subst (λ l. has new.vm_id (ids l) ≡ false) whole fresh) in
    let (n, freed) = free_regions rgs in
    let all_freed : free_nodes (λ (rg : Region). done 0) new.vm_freerg_list ≡ done n =
      ap (free_nodes (λ (rg : Region). done 0)) ends ∙ freed in
    rw (overlaps_any-of_list new vmas, apart, run, gone, all_freed)
      (ap (λ l. done (success, with_areas mm l)) (sym whole))
