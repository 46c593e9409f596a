-- ===== src/Vma/Halves.antt =====
-- What `split_vm_area` makes of an area, and what `merge_vm_areas` makes of that.
use btl_hdh.Base.{ℕ, ◌+◌, ◌<◌, ◌≤◌, List, [], ◌∷◌, ltb, if◌then◌else◌, All}
use btl_hdh.Base.Chain.{of_list}
use btl_hdh.Mm.{Region}
use btl_hdh.Vma.Joins.{Linked}

-- Regions that end before an address, and regions the first of which starts behind it.
abbrev pub EndBefore : ℕ → List Region → Type 0
EndBefore a xs = All (λ rg. (rg.rg_start < a) × (rg.rg_end ≤ a)) xs

abbrev pub StartsBehind : ℕ → List Region → Type 0
StartsBehind a [] = Unit
StartsBehind a (rg ∷ ys) = a ≤ rg.rg_start

-- The area with a list of free regions.
abbrev pub with_rgs : Linked → List Region → Linked
with_rgs vma rgs = record vma { area = record vma.area { vm_freerg_list = of_list rgs } }

-- The two halves.
abbrev pub lower : Linked → ℕ → ℕ → List Region → Linked
lower vma new_vma a rgs = record {
  area = record vma.area {
    vm_end = a;
    sbrk = if ltb a vma.area.sbrk then a else vma.area.sbrk;
    vm_freerg_list = of_list rgs;
  };
  vm_next = new_vma;
}

abbrev pub upper : Linked → ℕ → List Region → Linked
upper vma a rgs = record {
  area = record {
    vm_id = vma.area.vm_id + 1;
    vm_start = a;
    vm_end = vma.area.vm_end;
    sbrk = if ltb a vma.area.sbrk then vma.area.sbrk else a;
    vm_freerg_list = of_list rgs;
  };
  vm_next = vma.vm_next;
}

-- The area after a split and a merge: its break is at least at the address of the split.
abbrev pub joined : Linked → ℕ → List Region → Linked
joined vma a rgs = record vma {
  area = record vma.area {
    sbrk = if ltb a vma.area.sbrk then vma.area.sbrk else a;
    vm_freerg_list = of_list rgs;
  };
}
