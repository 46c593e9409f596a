-- ===== src/PageTable/Walk.antt =====
-- One level of a walk changes one entry of the table, or none.
use btl_hdh.Base.{
  ℕ, Bool, true, ◌&&◌, Option, some, ◌≡◌, refl, ap, sym, ◌∙◌, ◌==◌, if◌then◌else◌, update, inl, inr,
  Bool-cases, Option-cases, ==_iff,
}
use btl_hdh.Mm.{Pgd}
use btl_hdh.PageTable.{Pd, Walked, access, write_pte, walk_pgd, follow, get_pgd}

-- A walk changes the entry that it is for by `change` if it arrives, and nothing else: `get` reads
-- some entry, and `hit` says whether that is the one the walk is for.
unfoldable pub IsAt : {A : Type 0} → (A → ℕ) → Bool → (ℕ → ℕ) → (A → Walked A) → Type 0
IsAt {A} get hit change deeper =
    (a : A) → get (deeper a).table ≡ (if (deeper a).arrived && hit then change (get a) else get a)

-- `write_pte` is such a walk.
write_pte-IsAt : (i j : ℕ) (change : ℕ → ℕ) → IsAt (λ pt. pt j) (i == j) change (write_pte i change)
unfolding IsAt write_pte
write_pte-IsAt i j change pt = elim (Bool-cases (i == j)) [
  | inl e ↦ rw e (ap (λ k. change (pt k)) ((==_iff i j).0 e))
  | inr e ↦ rw e refl
]

-- What a level stores reads as its walk left it.
stored :
    {A : Type 0} (i j : ℕ) (get : A → ℕ) (hit : Bool) (change : ℕ → ℕ) (deeper : A → Walked A)
    (a : A) (t : ℕ → Option A)
    → follow get (t i) ≡ get a
    → IsAt get hit change deeper
    → follow get (update t i (some (deeper a).table) j) ≡ (
        if (deeper a).arrived && ((i == j) && hit)
        then change (follow get (t j))
        else follow get (t j))
unfolding IsAt follow
stored i j get hit change deeper a t same h = elim (Bool-cases (i == j)) [
  | inl e ↦
      let here : follow get (t j) ≡ get a =
        ap (λ k. follow get (t k)) (sym ((==_iff i j).0 e)) ∙ same in
      rw (e, here) (h a)
  | inr e ↦ elim (Bool-cases (deeper a).arrived) [ inl b ↦ rw (e, b) refl | inr b ↦ rw (e, b) refl ]
]

-- A level above such a walk is one too, if a fresh table reads as 0.
access-IsAt :
    {A : Type 0} (alloc : Bool) (fresh : A) (i j : ℕ) (get : A → ℕ) (hit : Bool) (change : ℕ → ℕ)
    (deeper : A → Walked A)
    → get fresh ≡ 0
    → IsAt get hit change deeper
    → IsAt (λ t. follow get (t j)) ((i == j) && hit) change (access alloc fresh i deeper)
unfolding IsAt access follow
access-IsAt alloc fresh i j get hit change deeper empty h t = elim (Option-cases (t i)) [
  | inl e ↦ elim (Bool-cases alloc) [
    | inl b ↦ simp (e, b, access) (stored i j get hit change deeper fresh t (rw e (sym empty)) h)
    | inr b ↦ simp (e, b, access) refl
  ]
  | inr (a, e) ↦ simp (e, access) (stored i j get hit change deeper a t (rw e refl) h)
]

-- The indices agree at every level.
unfoldable pub same_entry : Pd → Pd → Bool
same_entry pd qd =
    (pd.pgd == qd.pgd)
    && ((pd.p4d == qd.p4d) && ((pd.pud == qd.pud) && ((pd.pmd == qd.pmd) && (pd.pt == qd.pt))))

-- The whole walk changes the entry of its own indices, if it arrives, and no other.
pub walk_pgd-IsAt :
    (malloc : ℕ → Bool) (pd qd : Pd) (change : ℕ → ℕ)
    → IsAt (get_pgd qd) (same_entry pd qd) change (walk_pgd malloc pd change)
unfolding walk_pgd get_pgd same_entry follow
walk_pgd-IsAt malloc pd qd change = access-IsAt _ _ _ _ _ _ change _ refl (
    access-IsAt _ _ _ _ _ _ change _ refl (
      access-IsAt _ _ _ _ _ _ change _ refl
        (access-IsAt _ _ _ _ _ _ change _ refl (write_pte-IsAt pd.pt qd.pt change))))

-- A level arrives if its `malloc` succeeds and so does the rest of the walk.
access-arrives :
    {A : Type 0} (alloc : Bool) (fresh : A) (i : ℕ) (deeper : A → Walked A)
    → alloc ≡ true
    → ((a : A) → (deeper a).arrived ≡ true)
    → (t : ℕ → Option A) → (access alloc fresh i deeper t).arrived ≡ true
unfolding access
access-arrives alloc fresh i deeper ok h t = elim (Option-cases (t i)) [
  | inl e ↦ simp (e, ok, access) (h fresh)
  | inr (a, e) ↦ simp (e, access) (h a)
]

pub walk_pgd-arrives :
    (malloc : ℕ → Bool) (pd : Pd) (change : ℕ → ℕ)
    → ((n : ℕ) → malloc n ≡ true)
    → (pgd : Pgd) → (walk_pgd malloc pd change pgd).arrived ≡ true
unfolding walk_pgd write_pte
walk_pgd-arrives malloc pd change ok = access-arrives _ _ _ _ (ok 0) (
    access-arrives _ _ _ _ (ok 1)
      (access-arrives _ _ _ _ (ok 2) (access-arrives _ _ _ _ (ok 3) (λ pt. refl))))
