-- ===== src/Vma/Insert.antt =====
-- What `add_vm_area` and `remove_vm_area` do to a list of areas that ends in NULL.
use btl_hdh.Base.{
  subst, ◌≤◌, ◌≡◌, refl, sym, ap, ◌∙◌, Bool, true, false, List, [], ◌∷◌, ◌++◌, ◌⊎◌, inl, inr, ltb,
  if◌then◌else◌, arith, All, Bool-cases,
}
use btl_hdh.Base.Int.{success, failure}
use btl_hdh.Base.Chain.{Chain, of_list}
use btl_hdh.Base.Run.{Run, done}
use btl_hdh.Mm.{Area, Mm}
use btl_hdh.Vma.{overlap}
use btl_hdh.Vma.Lists.{overlaps_any, insert_behind, insert_area, add_vm_area}

abbrev pub with_areas : Mm → List Area → Mm
with_areas mm vmas = record mm { mmap = of_list vmas }

abbrev pub overlapping : Area → Area → Bool
overlapping a b = overlap a.vm_start a.vm_end b.vm_start b.vm_end

-- No two areas of the list overlap.
abbrev pub AreDisjoint : List Area → Type 0
AreDisjoint [] = Unit
AreDisjoint (a ∷ vmas) = All (λ b. overlapping a b ≡ false) vmas × AreDisjoint vmas

-- The numbers of the areas do not decrease.
abbrev pub AreSorted : List Area → Type 0
AreSorted [] = Unit
AreSorted (a ∷ vmas) = All (λ b. a.vm_id ≤ b.vm_id) vmas × AreSorted vmas

-- Whether an area of the list overlaps the new one.
unfoldable pub any_overlap : Area → List Area → Bool
any_overlap new [] = false
any_overlap new (a ∷ vmas) = if overlapping a new then true else any_overlap new vmas

pub overlaps_any-of_list :
    (new : Area) (vmas : List Area) → overlaps_any new (of_list vmas) ≡ done (any_overlap new vmas)
unfolding overlaps_any any_overlap
overlaps_any-of_list new [] = refl
overlaps_any-of_list new (a ∷ vmas) = elim (Bool-cases (overlapping a new)) [
  | inl e ↦ rw e refl
  | inr e ↦ rw e (overlaps_any-of_list new vmas)
]

no_overlap :
    (new : Area) (vmas : List Area)
    → any_overlap new vmas ≡ false
    → All (λ a. overlapping a new ≡ false) vmas
unfolding any_overlap
no_overlap new [] h = tt
no_overlap new (a ∷ vmas) h = elim (Bool-cases (overlapping a new)) [
  | inl e ↦ cc
  | inr e ↦ (
    e,
    no_overlap new vmas
        (let r : any_overlap new (a ∷ vmas) ≡ any_overlap new vmas = rw e refl in sym r ∙ h),
  )
]

overlap_sym : (a b : Area) → overlapping a b ≡ overlapping b a
unfolding overlap
overlap_sym a b = ground arith

-- The property holds of the list with one more area if it holds of the list and of the area.
All-mid :
    (P : Area → Type 0) (new : Area) (xs ys : List Area)
    → All P (xs ++ ys)
    → P new
    → All P (xs ++ new ∷ ys)
All-mid P new [] ys h p = (p, h)
All-mid P new (x ∷ xs) ys (q, h) p = (q, All-mid P new xs ys h p)

All-map :
    (P Q : Area → Type 0) (vmas : List Area) → ((a : Area) → P a → Q a) → All P vmas → All Q vmas
All-map P Q [] f h = tt
All-map P Q (a ∷ vmas) f (p, h) = (f a p, All-map P Q vmas f h)

AreDisjoint-insert :
    (new : Area) (xs ys : List Area)
    → All (λ a. overlapping a new ≡ false) (xs ++ ys)
    → AreDisjoint (xs ++ ys)
    → AreDisjoint (xs ++ new ∷ ys)
AreDisjoint-insert new [] ys h d = (
  All-map (λ a. overlapping a new ≡ false) (λ a. overlapping new a ≡ false) ys
      (λ a e. overlap_sym new a ∙ e) h,
  d,
)
AreDisjoint-insert new (x ∷ xs) ys (p, h) (q, d) =
    (All-mid (λ b. overlapping x b ≡ false) new xs ys q p, AreDisjoint-insert new xs ys h d)

-- Where the new area goes: behind `xs`, in front of `ys`.
abbrev pub Inserted : Area → List Area → Run (Chain Area) → Type 0
Inserted new vmas r =
    (xs : List Area) × (ys : List Area) × (r ≡ done (of_list (xs ++ new ∷ ys)))
    × (vmas ≡ xs ++ ys)
    × (AreSorted vmas → AreSorted (xs ++ new ∷ ys))

-- An area in front of those of larger numbers, and one in front of a list with the new one.
sorted_front :
    (new a : Area) (vmas : List Area)
    → new.vm_id ≤ a.vm_id
    → AreSorted (a ∷ vmas)
    → AreSorted (new ∷ a ∷ vmas)
sorted_front new a vmas le (h, s) = (
  (
    le,
    All-map (λ b. a.vm_id ≤ b.vm_id) (λ b. new.vm_id ≤ b.vm_id) vmas (λ b k. omega (arith, le, k))
        h,
  ),
  (h, s),
)

sorted_behind :
    (new a : Area) (vmas xs ys : List Area)
    → a.vm_id ≤ new.vm_id
    → vmas ≡ xs ++ ys
    → (AreSorted vmas → AreSorted (xs ++ new ∷ ys))
    → AreSorted (a ∷ vmas)
    → AreSorted (a ∷ xs ++ new ∷ ys)
sorted_behind new a vmas xs ys le whole rest (h, s) = (
  All-mid (λ b. a.vm_id ≤ b.vm_id) new xs ys (subst (λ l. All (λ b. a.vm_id ≤ b.vm_id) l) whole h)
      le,
  rest s,
)

insert_behind-Inserted :
    (new : Area) (vmas : List Area) → Inserted new vmas (insert_behind new (of_list vmas))
unfolding insert_behind
insert_behind-Inserted new [] = ([], [], refl, refl, λ s. (tt, tt))
insert_behind-Inserted new (a ∷ vmas) = elim (Bool-cases (ltb a.vm_id new.vm_id)) [
  | inl e ↦
      let (xs, ys, run, whole, sorted) = insert_behind-Inserted new vmas in
      (
        a ∷ xs,
        ys,
        rw (e, run) refl,
        ap (◌∷◌ a) whole,
        sorted_behind new a vmas xs ys (ground arith) whole sorted,
      )
  | inr e ↦ ([], a ∷ vmas, rw e refl, refl, sorted_front new a vmas (ground arith))
]

pub insert_area-Inserted :
    (new : Area) (vmas : List Area) → Inserted new vmas (insert_area new (of_list vmas))
unfolding insert_area
insert_area-Inserted new [] = ([], [], refl, refl, λ s. (tt, tt))
insert_area-Inserted new (a ∷ vmas) = elim (Bool-cases (ltb new.vm_id a.vm_id)) [
  | inl e ↦ ([], a ∷ vmas, rw e refl, refl, sorted_front new a vmas (ground arith))
  | inr e ↦
      let (xs, ys, run, whole, sorted) = insert_behind-Inserted new vmas in
      (
        a ∷ xs,
        ys,
        rw (e, run) refl,
        ap (◌∷◌ a) whole,
        sorted_behind new a vmas xs ys (ground arith) whole sorted,
      )
]

-- `add_vm_area` fails and changes nothing exactly if the new area overlaps one of the list. Otherwise it
-- puts it into the list, which keeps its other areas in their order; a list without overlaps stays
-- one, and a list sorted by the numbers of the areas stays sorted.
pub add_vm_area-Inserted :
    (mm : Mm) (vmas : List Area) (new : Area)
    → AreDisjoint vmas
    → ((any_overlap new vmas ≡ true)
        × (add_vm_area (with_areas mm vmas) new ≡ done (failure, with_areas mm vmas)))
      ⊎ ((any_overlap new vmas ≡ false)
          × (xs : List Area) × (ys : List Area) × (add_vm_area (with_areas mm vmas) new
              ≡ done (success, with_areas mm (xs ++ new ∷ ys)))
          × (vmas ≡ xs ++ ys)
          × AreDisjoint (xs ++ new ∷ ys)
          × (AreSorted vmas → AreSorted (xs ++ new ∷ ys)))
unfolding add_vm_area
add_vm_area-Inserted mm vmas new d = elim (Bool-cases (any_overlap new vmas)) [
  | inl e ↦ inl (e, rw (overlaps_any-of_list new vmas, e) refl)
  | inr e ↦
      let (xs, ys, run, whole, sorted) = insert_area-Inserted new vmas in
      inr (
        e,
        xs,
        ys,
        rw (overlaps_any-of_list new vmas, e, run) refl,
        whole,
        AreDisjoint-insert new xs ys
            (subst (λ l. All (λ a. overlapping a new ≡ false) l) whole (no_overlap new vmas e))
            (subst AreDisjoint whole d),
        sorted,
      )
]
