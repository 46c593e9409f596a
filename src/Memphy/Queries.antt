-- ===== src/Memphy/Queries.antt =====
-- What the functions that look at the frame lists tell of lists that end in NULL.
use btl_hdh.Base.{
  ℕ, ◌+◌, ◌||◌, ◌⊎◌, ◌/◌, ◌≡◌, refl, if◌then◌else◌, inl, inr, Bool-cases, ltb, true, false, Option,
  none, some, ◌==◌, List, [], ◌∷◌, has, length,
}
use btl_hdh.Base.Int.{success, failure}
use btl_hdh.Base.Chain.{of_list}
use btl_hdh.Base.Run.{done}
use btl_hdh.Memphy.{Frame, Memphy}
use btl_hdh.Memphy.Inspect.{get_frame_count, get_stats, find_node, is_frame_free, validate}
use btl_hdh.Memphy.Frames.{fpns, with_lists}

get_frame_count-of_list : (fs : List Frame) → get_frame_count (of_list fs) ≡ done (length fs)
unfolding get_frame_count
get_frame_count-of_list [] = refl
get_frame_count-of_list (f ∷ fs) = rw (get_frame_count-of_list fs) refl

-- The owner that the first node for a frame names.
unfoldable pub owner_of : ℕ → List Frame → Option ℕ
owner_of fpn [] = none
owner_of fpn (f ∷ fs) = if f.fpn == fpn then some f.owner else owner_of fpn fs

find_node-of_list :
    (fpn : ℕ) (fs : List Frame) → find_node fpn (of_list fs) ≡ done (owner_of fpn fs)
unfolding find_node owner_of
find_node-of_list fpn [] = refl
find_node-of_list fpn (f ∷ fs) = elim (Bool-cases (f.fpn == fpn)) [
  | inl e ↦ rw e refl
  | inr e ↦ rw e (find_node-of_list fpn fs)
]

owner_of-has :
    (fpn : ℕ) (fs : List Frame)
    → ((has fpn (fpns fs) ≡ false) × (owner_of fpn fs ≡ none))
      ⊎ ((has fpn (fpns fs) ≡ true) × (o : ℕ) × (owner_of fpn fs ≡ some o))
unfolding owner_of has
owner_of-has fpn [] = inl (refl, refl)
owner_of-has fpn (f ∷ fs) = elim (Bool-cases (f.fpn == fpn)) [
  | inl e ↦ rw e (inr (refl, f.owner, refl))
  | inr e ↦ rw e (owner_of-has fpn fs)
]

-- `MEMPHY_is_frame_free` says whether a frame stands in the free list; `MEMPHY_get_stats` counts
-- the nodes of the lists and the frames of the device; `MEMPHY_validate` accepts a device with
-- storage exactly if its size is not 0 and its lists do not have more nodes than it has frames.
pub validate-lists :
    (pagesz : ℕ) (mp : Memphy) (free used : List Frame) (fpn : ℕ) (cells : ℕ → ℕ)
    → mp.storage ≡ some cells
    → let total = mp.maxsz / pagesz in
      let dev = with_lists mp free used in
      (is_frame_free dev fpn ≡ done (has fpn (fpns free)))
      × (get_stats pagesz dev ≡ done (length free, length used, total))
      × (validate pagesz dev
          ≡ done
              (if mp.maxsz == 0 || ltb total (length free + length used) then failure else success))
unfolding is_frame_free get_stats validate
validate-lists pagesz mp free used fpn cells stands = (
  elim (owner_of-has fpn free) [
    | inl (no_frame, e) ↦ simp (find_node-of_list fpn free, e, no_frame, is_frame_free)
    | inr (here, o, e) ↦ simp (find_node-of_list fpn free, e, here, is_frame_free)
  ],
  simp (get_frame_count-of_list free, get_frame_count-of_list used),
  elim (Bool-cases (mp.maxsz == 0)) [
    | inl e ↦ simp (stands, e, validate)
    | inr e ↦ elim (Bool-cases (ltb (mp.maxsz / pagesz) (length free + length used))) [
      | inl m ↦
          simp (stands, e, m, get_frame_count-of_list free, get_frame_count-of_list used, validate)
      | inr m ↦
          simp (stands, e, m, get_frame_count-of_list free, get_frame_count-of_list used, validate)
    ]
  ],
)
