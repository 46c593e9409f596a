-- ===== src/Memphy/Frames.antt =====
-- The frame lists of a device as lists of frame numbers.
use btl_hdh.Base.{
  ℕ, ◌+◌, ◌≡◌, refl, ap, ◌∙◌, arith, if◌then◌else◌, inl, inr, Bool-cases, ==_refl, Bool, true,
  false, none, some, ◌==◌, List, [], ◌∷◌, map, has, count, remove_first, count-remove_first,
}
use btl_hdh.Base.Int.{ℤ, success, failure}
use btl_hdh.Base.Chain.{of_list}
use btl_hdh.Base.Run.{Run, done, ◌>>=◌}
use btl_hdh.Memphy.{
  Frame, Memphy, get_freefp, put_freefp, put_usedfp, get_usedfp, remove_node, remove_usedfp,
  free_usedfp,
}

abbrev pub fpns : List Frame → List ℕ
fpns = map (λ (f : Frame). f.fpn)

-- The device with its frame lists, both of which end in NULL.
abbrev pub with_lists : Memphy → List Frame → List Frame → Memphy
with_lists mp free used = record mp { free_fp_list = of_list free; used_fp_list = of_list used }

-- How often a frame stands in the two lists.
abbrev pub tally : ℕ → List Frame → List Frame → ℕ
tally f free used = count f (fpns free) + count f (fpns used)

-- A list without the first node for a frame.
unfoldable pub drop_frame : ℕ → List Frame → List Frame
drop_frame fpn [] = []
drop_frame fpn (f ∷ fs) = if f.fpn == fpn then fs else f ∷ drop_frame fpn fs

pub fpns-drop_frame :
    (fpn : ℕ) (fs : List Frame) → fpns (drop_frame fpn fs) ≡ remove_first fpn (fpns fs)
unfolding drop_frame remove_first
fpns-drop_frame fpn [] = refl
fpns-drop_frame fpn (f ∷ fs) = elim (Bool-cases (f.fpn == fpn)) [
  | inl e ↦ rw e refl
  | inr e ↦ rw e (ap (◌∷◌ f.fpn) (fpns-drop_frame fpn fs))
]

pub remove_node-of_list :
    (fpn : ℕ) (fs : List Frame)
    → remove_node fpn (of_list fs)
      ≡ done (if has fpn (fpns fs) then some (of_list (drop_frame fpn fs)) else none)
unfolding remove_node drop_frame has
remove_node-of_list fpn [] = refl
remove_node-of_list fpn (f ∷ fs) = elim (Bool-cases (f.fpn == fpn)) [
  | inl e ↦ rw e refl
  | inr e ↦ elim (Bool-cases (has fpn (fpns fs))) [
    | inl h ↦ simp (e, remove_node-of_list fpn fs, h)
    | inr h ↦ simp (e, remove_node-of_list fpn fs, h)
  ]
]

remove_usedfp-lists :
    (mp : Memphy) (free used : List Frame) (fpn : ℕ)
    → remove_usedfp (with_lists mp free used) fpn
      ≡ done (
          if has fpn (fpns used)
          then (success, with_lists mp free (drop_frame fpn used))
          else (failure, with_lists mp free used))
unfolding remove_usedfp
remove_usedfp-lists mp free used fpn = elim (Bool-cases (has fpn (fpns used))) [
  | inl h ↦ simp (h, remove_node-of_list fpn used, remove_usedfp)
  | inr h ↦ simp (h, remove_node-of_list fpn used, remove_usedfp)
]

-- `MEMPHY_free_usedfp` of a frame that is in use moves it from the used to the front of the free
-- list; of any other frame it fails and changes nothing.
free_usedfp-lists :
    (mp : Memphy) (free used : List Frame) (fpn : ℕ)
    → free_usedfp (with_lists mp free used) fpn
      ≡ done (
          if has fpn (fpns used)
          then (
            success,
            with_lists mp (record { fpn = fpn; owner = 0 } ∷ free) (drop_frame fpn used),
          )
          else (failure, with_lists mp free used))
unfolding free_usedfp put_freefp
free_usedfp-lists mp free used fpn = elim (Bool-cases (has fpn (fpns used))) [
  | inl h ↦ simp (h, remove_usedfp-lists mp free used fpn, free_usedfp)
  | inr h ↦ simp (h, remove_usedfp-lists mp free used fpn, free_usedfp)
]

get_freefp-lists :
    (mp : Memphy) (f : Frame) (free used : List Frame)
    → get_freefp (with_lists mp (f ∷ free) used)
      ≡ done (success, some f.fpn, with_lists mp free used)
unfolding get_freefp
get_freefp-lists mp f free used = refl

-- What `MEMPHY_get_usedfp` leaves, by the free frames: it takes the first of them, whatever frame
-- it was asked for. If the `malloc` of the node fails, that frame is in neither list.
unfoldable pub got_usedfp : Bool → Memphy → ℕ → List Frame → List Frame → ℤ × Memphy
got_usedfp alloc mp owner [] used = (failure, with_lists mp [] used)
got_usedfp alloc mp owner (f ∷ free) used =
    if alloc
    then (success, with_lists mp free (record { fpn = f.fpn; owner = owner } ∷ used))
    else (failure, with_lists mp free used)

pub get_usedfp-lists :
    (alloc : Bool) (mp : Memphy) (free used : List Frame) (fpn owner : ℕ)
    → get_usedfp alloc (with_lists mp free used) fpn owner
      ≡ done (got_usedfp alloc mp owner free used)
unfolding get_usedfp get_freefp put_usedfp got_usedfp
get_usedfp-lists alloc mp [] used fpn owner = refl
get_usedfp-lists true mp (f ∷ free) used fpn owner = refl
get_usedfp-lists false mp (f ∷ free) used fpn owner = refl

-- The frames that a result accounts for: those in its lists, and the one handed out.
tally_freed :
    (f fpn : ℕ) (free used : List Frame)
    → has fpn (fpns used) ≡ true
    → tally f (record { fpn = fpn; owner = 0 } ∷ free) (drop_frame fpn used) ≡ tally f free used
unfolding count
tally_freed f fpn free used h =
    rw (fpns-drop_frame fpn used) (ground (arith, count-remove_first fpn f (fpns used) h))

-- An operation changes nothing but the two lists, and each frame stands in them together as often as
-- before.
abbrev pub Keeps : Memphy → List Frame → List Frame → Run (ℤ × Memphy) → Type 0
Keeps mp free used r =
    (ret : ℤ) × (free' : List Frame) × (used' : List Frame) × (r
      ≡ done (ret, with_lists mp free' used'))
    × ((f : ℕ) → tally f free' used' ≡ tally f free used)

get_usedfp-Keeps :
    (mp : Memphy) (free used : List Frame) (fpn owner : ℕ)
    → Keeps mp free used (get_usedfp true (with_lists mp free used) fpn owner)
unfolding got_usedfp count
get_usedfp-Keeps mp [] used fpn owner =
    (failure, [], used, get_usedfp-lists true mp [] used fpn owner, λ f. refl)
get_usedfp-Keeps mp (x ∷ free) used fpn owner = (
  success,
  free,
  record { fpn = x.fpn; owner = owner } ∷ used,
  get_usedfp-lists true mp (x ∷ free) used fpn owner,
  λ f. ground arith,
)

free_usedfp-Keeps :
    (mp : Memphy) (free used : List Frame) (fpn : ℕ)
    → Keeps mp free used (free_usedfp (with_lists mp free used) fpn)
free_usedfp-Keeps mp free used fpn = elim (Bool-cases (has fpn (fpns used))) [
  | inl h ↦ (
    success,
    record { fpn = fpn; owner = 0 } ∷ free,
    drop_frame fpn used,
    free_usedfp-lists mp free used fpn ∙ rw h refl,
    λ f. tally_freed f fpn free used h,
  )
  | inr h ↦ (failure, free, used, free_usedfp-lists mp free used fpn ∙ rw h refl, λ f. refl)
]

-- Moving frames between the lists loses and doubles none: after `MEMPHY_get_usedfp` with a `malloc`
-- that succeeds and after `MEMPHY_free_usedfp`, on every branch, the device is as before but for its
-- two lists, and each frame stands in them together as often as before.
pub usedfp-Keeps :
    (mp : Memphy) (free used : List Frame) (fpn owner : ℕ)
    → Keeps mp free used (get_usedfp true (with_lists mp free used) fpn owner)
      × Keeps mp free used (free_usedfp (with_lists mp free used) fpn)
usedfp-Keeps mp free used fpn owner =
    (get_usedfp-Keeps mp free used fpn owner, free_usedfp-Keeps mp free used fpn)

-- A frame that `MEMPHY_get_usedfp` has put in use is the one that `MEMPHY_free_usedfp` gives back:
-- the used list is as before, and the frame is the first free one again.
free_usedfp-get_usedfp :
    (mp : Memphy) (f : Frame) (free used : List Frame) (fpn owner : ℕ)
    → (do
      (ret, mp') ← get_usedfp true (with_lists mp (f ∷ free) used) fpn owner
      free_usedfp mp' f.fpn)
      ≡ done (success, with_lists mp (record { fpn = f.fpn; owner = 0 } ∷ free) used)
unfolding has drop_frame got_usedfp
free_usedfp-get_usedfp mp f free used fpn owner =
    ap (λ r. r >>= λ x. free_usedfp x.1 f.fpn) (get_usedfp-lists true mp (f ∷ free) used fpn owner)
    ∙ free_usedfp-lists mp free (record { fpn = f.fpn; owner = owner } ∷ used) f.fpn
    ∙ rw (==_refl f.fpn) refl

-- On lists that end in NULL, `MEMPHY_free_usedfp` of a frame that is in use moves it from the used to
-- the front of the free list; of any other frame it fails and changes nothing. A frame that
-- `MEMPHY_get_usedfp` has put in use, its `malloc` succeeding, is the one that `MEMPHY_free_usedfp`
-- gives back: the used list is as before, and the frame is the first free one again.
pub free_usedfp-moves :
    (mp : Memphy) (f : Frame) (free used : List Frame) (fpn owner : ℕ)
    → (free_usedfp (with_lists mp free used) fpn
        ≡ done (
            if has fpn (fpns used)
            then (
              success,
              with_lists mp (record { fpn = fpn; owner = 0 } ∷ free) (drop_frame fpn used),
            )
            else (failure, with_lists mp free used)))
      × ((do
        (ret, mp') ← get_usedfp true (with_lists mp (f ∷ free) used) fpn owner
        free_usedfp mp' f.fpn)
          ≡ done (success, with_lists mp (record { fpn = f.fpn; owner = 0 } ∷ free) used))
free_usedfp-moves mp f free used fpn owner =
    (free_usedfp-lists mp free used fpn, free_usedfp-get_usedfp mp f free used fpn owner)
