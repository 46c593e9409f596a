-- ===== src/Memphy/Format.antt =====
-- The device that `init_memphy` sets up, and what the frame lists then tell.
use btl_hdh.Base.{
  int_or_zero-small, ◌^◌, ℕ, zero, suc, ◌+◌, ◌-◌, ◌/◌, ◌<◌, ◌≡◌, refl, ap, arith, if◌then◌else◌,
  inl, inr, Bool-cases, ltb, false, some, ◌==◌, List, [], ◌∷◌, count, not,
}
use btl_hdh.Base.Int.{success}
use btl_hdh.Base.Chain.{Chain, null, wild, node, of_list}
use btl_hdh.Base.Run.{done, fault, ◌>>=◌}
use btl_hdh.Memphy.{Frame, Memphy, Raw, format_loop, format, get_freefp}
use btl_hdh.Memphy.Inspect.{init_memphy}
use btl_hdh.Memphy.Frames.{fpns, with_lists}

-- Frames `i` to `i + n - 1`, in order.
unfoldable pub frames_from : ℕ → ℕ → ℕ → List Frame
frames_from owner i zero = []
frames_from owner i (suc n) = record { fpn = i; owner = owner } ∷ frames_from owner (suc i) n

format_loop-null :
    (raw : Raw) (i n : ℕ) → format_loop raw i n null ≡ of_list (frames_from raw.owner i n)
unfolding format_loop frames_from
format_loop-null raw i zero = refl
format_loop-null raw i (suc n) =
    ap (node (record { fpn = i; owner = raw.owner })) (format_loop-null raw (suc i) n)

format_loop_some :
    (raw : Raw) (i n : ℕ) (next : Chain Frame)
    → format_loop raw i (suc n) next ≡ of_list (frames_from raw.owner i (suc n))
unfolding format_loop frames_from
format_loop_some raw i n next =
    ap (node (record { fpn = i; owner = raw.owner })) (format_loop-null raw (suc i) n)

-- A range of frames has each of them once.
pub count-frames_from :
    (owner i n f : ℕ)
    → count f (fpns (frames_from owner i n))
      ≡ (if ltb f i then 0 else if ltb f (i + n) then 1 else 0)
unfolding frames_from count
count-frames_from owner i zero f = ground arith
count-frames_from owner i (suc n) f = ground (arith, count-frames_from owner (suc i) n f)

-- With two frames or more the code has written the last pointer of the list.
init_list :
    (raw : Raw) (n : ℕ)
    → 1 < n
    → node (record { fpn = 0; owner = raw.owner }) (format_loop raw 1 (n - 1) raw.fp_next)
      ≡ of_list (frames_from raw.owner 0 n)
unfolding frames_from
init_list raw zero h = absurd (omega arith)
init_list raw (suc zero) h = absurd (omega arith)
init_list raw (suc (suc n)) h =
    let rounds : suc (suc n) - 1 ≡ suc n = omega arith in
    rw rounds
      (ap (node (record { fpn = 0; owner = raw.owner })) (format_loop_some raw 1 n raw.fp_next))

format-lists :
    (raw : Raw) (mp : Memphy) (pagesz : ℕ)
    → 1 < mp.maxsz / pagesz
    → format raw mp pagesz ≡ (
      success,
      record mp { free_fp_list = of_list (frames_from raw.owner 0 (mp.maxsz / pagesz)) },
    )
unfolding format
format-lists raw mp pagesz h =
    let some_frames : (mp.maxsz / pagesz == 0) ≡ false = ground arith in
    simp (some_frames, init_list raw (mp.maxsz / pagesz) h)

-- `init_memphy` of a size of at least two pages and below 2^31, which fits an `int`, gives a zeroed
-- device of that size whose free list is exactly its frames, in order, and whose used list is empty,
-- whatever the struct and the fresh memory held before.
init_memphy-lists :
    (raw : Raw) (pagesz : ℕ) (mp : Memphy) (max_size randomflg : ℕ)
    → 1 < max_size / pagesz
    → max_size < 2 ^ 31
    → let (ret, mp') = init_memphy raw pagesz mp max_size randomflg in
      (ret ≡ success)
      × (mp' ≡ with_lists mp' (frames_from raw.owner 0 (max_size / pagesz)) [])
      × (mp'.storage ≡ some (λ _. 0))
      × (mp'.maxsz ≡ max_size)
      × (mp'.rdmflg ≡ not (randomflg == 0))
unfolding init_memphy
init_memphy-lists raw pagesz mp max_size randomflg h fits =
    let sized = record mp { storage = some (λ _. 0); maxsz = max_size; used_fp_list = null } in
    let kept = int_or_zero-small max_size fits in
    elim (Bool-cases (randomflg == 0)) [
      | inl e ↦ rw (kept, format-lists raw sized pagesz h, e) (refl, refl, refl, refl, refl)
      | inr e ↦ rw (kept, format-lists raw sized pagesz h, e) (refl, refl, refl, refl, refl)
    ]

-- On a device of exactly one page `init_memphy` never writes the last pointer of the free list: the
-- only frame can be taken, and what `malloc` left in that pointer decides what follows. If it is
-- no pointer, the next request for a frame is undefined behaviour, where it should fail.
init_memphy-one_frame :
    (raw : Raw) (pagesz : ℕ) (mp : Memphy) (max_size randomflg : ℕ)
    → max_size / pagesz ≡ 1
    → max_size < 2 ^ 31
    → raw.fp_next ≡ wild
    → (do (ret, got, mp') ← get_freefp (init_memphy raw pagesz mp max_size randomflg).1; done got)
        ≡ done (some 0)
      × ((do
        (ret, got, mp') ← get_freefp (init_memphy raw pagesz mp max_size randomflg).1
        get_freefp mp')
          ≡ fault)
unfolding init_memphy format format_loop get_freefp
init_memphy-one_frame raw pagesz mp max_size randomflg h fits w =
    let kept = int_or_zero-small max_size fits in
    elim (Bool-cases (randomflg == 0)) [
      | inl e ↦ rw (kept, h, e, w) (refl, refl)
      | inr e ↦ rw (kept, h, e, w) (refl, refl)
    ]

-- `init_memphy` of a size of at least two pages and below 2^31, which fits an `int`, gives a zeroed
-- device of that size whose free list is exactly its frames, in order, and whose used list is empty,
-- whatever the struct and the fresh memory held before. On a device of exactly one page, of a size below
-- 2^31, it never writes the last pointer of the free list: if `malloc` left no pointer there, the only
-- frame can be taken, and the next request for a frame is undefined behaviour, where it should fail.
pub init_memphy-frames :
    (raw raw' : Raw) (pagesz : ℕ) (mp : Memphy) (max_size one_page randomflg : ℕ)
    → 1 < max_size / pagesz
    → max_size < 2 ^ 31
    → one_page / pagesz ≡ 1
    → one_page < 2 ^ 31
    → raw'.fp_next ≡ wild
    → let (ret, mp') = init_memphy raw pagesz mp max_size randomflg in
      let small = (init_memphy raw' pagesz mp one_page randomflg).1 in
      ((ret ≡ success)
        × (mp' ≡ with_lists mp' (frames_from raw.owner 0 (max_size / pagesz)) [])
        × (mp'.storage ≡ some (λ _. 0))
        × (mp'.maxsz ≡ max_size)
        × (mp'.rdmflg ≡ not (randomflg == 0)))
      × ((do (ret', got, mp'') ← get_freefp small; done got) ≡ done (some 0))
      × ((do (ret', got, mp'') ← get_freefp small; get_freefp mp'') ≡ fault)
init_memphy-frames raw raw' pagesz mp max_size one_page randomflg h fits one one_fits w =
    let (first, next) = init_memphy-one_frame raw' pagesz mp one_page randomflg one one_fits w in
    (init_memphy-lists raw pagesz mp max_size randomflg h fits, first, next)
