-- ===== src/Pte.antt =====
-- The page table entries of include/mm.h in the 64-bit mode (MM64), and `init_pte` and the bit
-- updates of src/mm64.c. A value with contiguous masks is read and written by its fields: `v & mask`
-- of the mask from bit `lo` on, `width` bits wide, is `v / 2 ^ lo % 2 ^ width * 2 ^ lo`.
pub mod Fields
mod Tests
use btl_hdh.Base.{ℕ, ◌+◌, ◌-◌, ◌*◌, ◌/◌, ◌%◌, ◌^◌, ◌==◌, if◌then◌else◌}
use btl_hdh.Base.Int.{ℤ, success, failure}

-- GETVAL(v, mask, lo)
abbrev pub get_val : ℕ → ℕ → ℕ → ℕ
get_val v lo width = v / 2 ^ lo % 2 ^ width

-- SETVAL(v, value, mask, lo); the mask ends within the word, so it cuts what `value << lo` loses.
abbrev pub set_val : ℕ → ℕ → ℕ → ℕ → ℕ
set_val v value lo width = v - get_val v lo width * 2 ^ lo + value % 2 ^ width * 2 ^ lo

-- SETBIT and CLRBIT of BIT_ULL(k)
abbrev pub set_bit : ℕ → ℕ → ℕ
set_bit v k = set_val v 1 k 1

abbrev pub clear_bit : ℕ → ℕ → ℕ
clear_bit v k = set_val v 0 k 1

abbrev pub present_bit : ℕ
present_bit = 63

abbrev pub swapped_bit : ℕ
swapped_bit = 62

abbrev pub dirty_bit : ℕ
dirty_bit = 60

abbrev pub fpn_width : ℕ
fpn_width = 32

abbrev pub swptyp_width : ℕ
swptyp_width = 5

abbrev pub swpoff_lobit : ℕ
swpoff_lobit = 5

abbrev pub swpoff_width : ℕ
swpoff_width = 27

-- PAGING_PAGE_PRESENT, as a bit
unfoldable pub present : ℕ → ℕ
present pte = get_val pte present_bit 1

-- `pte & PAGING_PTE_SWAPPED_MASK`, as a bit
unfoldable pub swapped : ℕ → ℕ
swapped pte = get_val pte swapped_bit 1

unfoldable pub dirty : ℕ → ℕ
dirty pte = get_val pte dirty_bit 1

-- PAGING_FPN
unfoldable pub fpn_of : ℕ → ℕ
fpn_of pte = get_val pte 0 fpn_width

-- PAGING_SWP
unfoldable pub swp_of : ℕ → ℕ
swp_of pte = get_val pte swpoff_lobit swpoff_width

unfoldable pub swptyp_of : ℕ → ℕ
swptyp_of pte = get_val pte 0 swptyp_width

-- What `pte_set_fpn` does to the entry.
unfoldable pub set_fpn : ℕ → ℕ → ℕ
set_fpn fpn pte = set_val (clear_bit (set_bit pte present_bit) swapped_bit) fpn 0 fpn_width

-- What `pte_set_swap` does to the entry.
unfoldable pub set_swap : ℕ → ℕ → ℕ → ℕ
set_swap swptyp swpoff pte =
    let marked = set_bit (set_bit pte present_bit) swapped_bit in
    set_val (set_val marked swptyp 0 swptyp_width) swpoff swpoff_lobit swpoff_width

-- `pte |= PAGING_PTE_DIRTY_MASK`
unfoldable pub set_dirty : ℕ → ℕ
set_dirty pte = set_bit pte dirty_bit

-- The result and the entry; `drt` is not used.
unfoldable pub init_pte : ℕ → ℕ → ℕ → ℕ → ℕ → ℕ → ℕ → ℤ × ℕ
init_pte pte pre fpn drt swp swptyp swpoff =
    if pre == 0
    then (success, pte)
    else if swp == 0
    then (if fpn == 0 then (failure, pte) else (
      success,
      set_val (clear_bit (clear_bit (set_bit pte present_bit) swapped_bit) dirty_bit) fpn 0
          fpn_width,
    ))
    else (
      success,
      (let marked = clear_bit (set_bit (set_bit pte present_bit) swapped_bit) dirty_bit in
          set_val (set_val marked swptyp 0 swptyp_width) swpoff swpoff_lobit swpoff_width),
    )
