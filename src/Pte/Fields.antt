-- ===== src/Pte/Fields.antt =====
-- What the updates of an entry do to its fields.
use btl_hdh.Base.{ℕ, ◌+◌, ◌*◌, ◌%◌, ◌^◌, ◌<◌, ◌≡◌, arith}
use btl_hdh.Pte.{get_val, present, swapped, dirty, fpn_of, swp_of, swptyp_of, set_fpn, set_swap}

-- `pte_set_fpn` makes the entry present and not swapped, with the frame number cut to its 32 bits,
-- and keeps the dirty bit and the bits 32 to 59; the entry stays a 64-bit word.
pub set_fpn-fields :
    (fpn pte : ℕ)
    → pte < 2 ^ 64
    → (present (set_fpn fpn pte) ≡ 1)
      × (swapped (set_fpn fpn pte) ≡ 0)
      × (fpn_of (set_fpn fpn pte) ≡ fpn % 2 ^ 32)
      × (dirty (set_fpn fpn pte) ≡ dirty pte)
      × (get_val (set_fpn fpn pte) 32 28 ≡ get_val pte 32 28)
      × (set_fpn fpn pte < 2 ^ 64)
unfolding set_fpn present swapped fpn_of dirty
set_fpn-fields fpn pte h = omega arith

-- `pte_set_swap` makes the entry swapped, with the swap type and offset cut to their bits, and leaves
-- it present. Read as that of a present page, its frame number is the swap type and offset.
set_swap-fields :
    (swptyp swpoff pte : ℕ)
    → pte < 2 ^ 64
    → let e = set_swap swptyp swpoff pte in
      (present e ≡ 1)
      × (swapped e ≡ 1)
      × (swptyp_of e ≡ swptyp % 2 ^ 5)
      × (swp_of e ≡ swpoff % 2 ^ 27)
      × (fpn_of e ≡ swptyp % 2 ^ 5 + swpoff % 2 ^ 27 * 2 ^ 5)
      × (dirty e ≡ dirty pte)
      × (e < 2 ^ 64)
unfolding set_swap present swapped fpn_of dirty swp_of swptyp_of
set_swap-fields swptyp swpoff pte h = omega arith

-- `pte_set_fpn` and `pte_set_swap` set the fields of a 64-bit entry that they mean to, each cut to its
-- bits, and keep the dirty bit; `pte_set_fpn` also keeps the bits 32 to 59. Both leave the entry
-- present, also where the page is swapped out: its frame number then reads as the swap type and offset.
pub entry_fields :
    (fpn swptyp swpoff pte : ℕ)
    → pte < 2 ^ 64
    → let e = set_fpn fpn pte in
      let f = set_swap swptyp swpoff pte in
      ((present e ≡ 1)
        × (swapped e ≡ 0)
        × (fpn_of e ≡ fpn % 2 ^ 32)
        × (dirty e ≡ dirty pte)
        × (get_val e 32 28 ≡ get_val pte 32 28)
        × (e < 2 ^ 64))
      × (present f ≡ 1)
      × (swapped f ≡ 1)
      × (swptyp_of f ≡ swptyp % 2 ^ 5)
      × (swp_of f ≡ swpoff % 2 ^ 27)
      × (fpn_of f ≡ swptyp % 2 ^ 5 + swpoff % 2 ^ 27 * 2 ^ 5)
      × (dirty f ≡ dirty pte)
      × (f < 2 ^ 64)
entry_fields fpn swptyp swpoff pte h =
    let (p, s, t, o, f, d, w) = set_swap-fields swptyp swpoff pte h in
    (set_fpn-fields fpn pte h, p, s, t, o, f, d, w)
