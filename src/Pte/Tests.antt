-- ===== src/Pte/Tests.antt =====
-- Entries with all fields in use, and the theorems at one.
use btl_hdh.Base.{ℕ, ◌+◌, ◌*◌, ◌%◌, ◌^◌, ◌≡◌, ◌<◌, refl, arith}
use btl_hdh.Pte.{get_val, present, swapped, dirty, fpn_of, swp_of, swptyp_of, set_fpn, set_swap}
use btl_hdh.Pte.Fields.{entry_fields}
use Prim.Native.Nat.{bit_and, bit_or, ◌-◌}

-- Dirty and swapped, with user number 3 and frame number 9.
abbrev pte : ℕ
pte = 2 ^ 62 + 2 ^ 60 + 3 * 2 ^ 32 + 9

pte-word : pte < 2 ^ 64
pte-word = omega arith

-- The macros' bit operations.
set_fpn_bits :
    set_fpn 5 pte
    ≡ bit_or
        (bit_and (bit_and (bit_or pte (2 ^ 63)) (2 ^ 64 - 1 - 2 ^ 62)) (2 ^ 64 - 2 ^ 32))
        (bit_and 5 (2 ^ 32 - 1))
unfolding set_fpn
set_fpn_bits = refl

set_swap_bits :
    set_swap 1 6 pte
    ≡ bit_or
        (bit_and
          (bit_or (bit_and (bit_or pte (2 ^ 63 + 2 ^ 62)) (2 ^ 64 - 2 ^ 5)) (bit_and 1 (2 ^ 5 - 1)))
          (2 ^ 64 - 1 - (2 ^ 32 - 2 ^ 5)))
        (bit_and (6 * 2 ^ 5) (2 ^ 32 - 2 ^ 5))
unfolding set_swap
set_swap_bits = refl

entry_fields_example :
    let e = set_fpn 5 pte in
    let f = set_swap 1 6 pte in
    ((present e ≡ 1)
      × (swapped e ≡ 0)
      × (fpn_of e ≡ 5 % 2 ^ 32)
      × (dirty e ≡ dirty pte)
      × (get_val e 32 28 ≡ get_val pte 32 28)
      × (e < 2 ^ 64))
    × (present f ≡ 1)
    × (swapped f ≡ 1)
    × (swptyp_of f ≡ 1 % 2 ^ 5)
    × (swp_of f ≡ 6 % 2 ^ 27)
    × (fpn_of f ≡ 1 % 2 ^ 5 + 6 % 2 ^ 27 * 2 ^ 5)
    × (dirty f ≡ dirty pte)
    × (f < 2 ^ 64)
entry_fields_example = entry_fields 5 1 6 pte pte-word
