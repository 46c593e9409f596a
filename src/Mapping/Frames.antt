-- ===== src/Mapping/Frames.antt =====
-- What `alloc_pages_range` takes from a device whose free list ends in NULL.
use btl_hdh.Base.{
  ap₂, ℕ, zero, suc, ◌≡◌, refl, sym, ap, ◌∙◌, Bool, true, false, List, [], ◌∷◌, ◌++◌, leb,
  if◌then◌else◌, arith, length, take, drop, ◌⊎◌, inl, inr,
}
use btl_hdh.Base.Chain.{of_list}
use btl_hdh.Base.Run.{Run, done, fault}
use btl_hdh.Memphy.{Frame, Memphy, get_freefp}
use btl_hdh.Mapping.{alloc_loop, alloc_pages_range, out_of_memory}

-- The nodes made for some frames.
unfoldable pub owned : ℕ → List Frame → List Frame
owned owner [] = []
owned owner (f ∷ fs) = record { fpn = f.fpn; owner = owner } ∷ owned owner fs

append_nil : (xs : List Frame) → xs ++ [] ≡ xs
append_nil [] = refl
append_nil (x ∷ xs) = ap (◌∷◌ x) (append_nil xs)

append_one : (xs : List Frame) (y : Frame) (ys : List Frame) → (xs ++ y ∷ []) ++ ys ≡ xs ++ y ∷ ys
append_one [] y ys = refl
append_one (x ∷ xs) y ys = ap (◌∷◌ x) (append_one xs y ys)

-- `last_fp` points to a node wherever it is used.
linked :
    (frm_lst : List Frame) (last : Bool) (rest : Run (ℕ × List Frame × Memphy))
    → (frm_lst ≡ []) ⊎ (last ≡ true)
    → (elim frm_lst as (λ x. Run (ℕ × List Frame × Memphy)) [
      | [] ↦ rest
      | fp ∷ fps ↦ if last then rest else fault
    ])
      ≡ rest
linked [] last rest h = refl
linked (f ∷ fs) last rest (inl h) = cc
linked (f ∷ fs) last rest (inr h) = rw h refl

leb-zero : (k : ℕ) → leb 0 k ≡ true
leb-zero k = ground arith

leb-none : (n : ℕ) → leb (suc n) 0 ≡ false
leb-none n = ground arith

leb-suc : (n k : ℕ) → leb (suc n) (suc k) ≡ leb n k
leb-suc n k = ground arith

abbrev ended : ℕ → Memphy → List Frame → List Frame → Bool → Run (ℕ × List Frame × Memphy)
ended owner mp frm_lst rest enough =
    done (if enough then 0 else out_of_memory, frm_lst, record mp { free_fp_list = of_list rest })

alloc_loop-ended :
    (alloc : ℕ → Bool) (owner i n : ℕ) (mp : Memphy) (frm_lst fs : List Frame) (last : Bool)
    → ((k : ℕ) → alloc k ≡ true)
    → (frm_lst ≡ []) ⊎ (last ≡ true)
    → alloc_loop alloc owner i n (record mp { free_fp_list = of_list fs }) frm_lst last
      ≡ ended owner mp (frm_lst ++ owned owner (take n fs)) (drop n fs) (leb n (length fs))
unfolding alloc_loop get_freefp owned take drop
alloc_loop-ended alloc owner i zero mp frm_lst fs last ok h =
    ap₂ (λ l b. ended owner mp l fs b) (sym (append_nil frm_lst)) (sym (leb-zero (length fs)))
alloc_loop-ended alloc owner i (suc n) mp frm_lst [] last ok h =
    ap₂ (λ l b. ended owner mp l [] b) (sym (append_nil frm_lst)) (sym (leb-none n))
alloc_loop-ended alloc owner i (suc n) mp frm_lst (f ∷ fs) last ok h =
    let fp : Frame = record { fpn = f.fpn; owner = owner } in
    simp (ok i) (
      linked frm_lst last _ h
      ∙ alloc_loop-ended alloc owner (suc i) n mp (frm_lst ++ fp ∷ []) fs true ok (inr refl)
      ∙ ap₂ (λ l b. ended owner mp l (drop n fs) b)
          (append_one frm_lst fp (owned owner (take n fs))) (sym (leb-suc n (length fs))))

-- `alloc_pages_range` takes the first `req_pgnum` free frames, in their order, for the owner, and
-- leaves the others free. If there are fewer it takes all of them and returns -3000: the frames then
-- stand in the list it hands over, and no longer in that of the device.
pub alloc_pages_range-lists :
    (alloc : ℕ → Bool) (owner n : ℕ) (mp : Memphy) (fs : List Frame)
    → ((k : ℕ) → alloc k ≡ true)
    → alloc_pages_range alloc owner (record mp { free_fp_list = of_list fs }) n []
      ≡ done (
        if leb n (length fs) then 0 else out_of_memory,
        owned owner (take n fs),
        record mp { free_fp_list = of_list (drop n fs) },
      )
unfolding alloc_pages_range
alloc_pages_range-lists alloc owner n mp fs ok =
    alloc_loop-ended alloc owner 0 n mp [] fs false ok (inl refl)
