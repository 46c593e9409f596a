-- ===== src/PageTable.antt =====
-- The page table of src/mm64.c: the indices of an address, and the functions that read and write
-- the entry of a page. Where a table is missing on the way to an entry that is written, `malloc` is
-- asked for one: `malloc n` says whether it succeeds for the table of level `n` (0: P4D, 1: PUD,
-- 2: PMD, 3: PT). The tables made before one fails stay. `fst` and `snd` of a walk are whether it
-- arrived, and the table after it.
pub mod Walk
pub mod Index
pub mod Entries
mod Tests
use btl_hdh.Base.{
  ℕ, ◌*◌, ◌/◌, ◌%◌, ◌^◌, Bool, true, false, Option, none, some, if◌then◌else◌, update,
}
use btl_hdh.Base.Int.{ℤ, success, failure}
use btl_hdh.Mm.{Pt, Pmd, Pud, P4d, Pgd, Mm}
use btl_hdh.Pte.{set_fpn, set_swap}

-- PAGING64_ADDR_PT and its like: nine bits of an address from `lobit` on.
abbrev pub index : ℕ → ℕ → ℕ
index lobit addr = addr / 2 ^ lobit % 512

-- The indices that `get_pd_from_address` stores.
pub record Pd : Type 0 where
  pub pgd : ℕ
  pub p4d : ℕ
  pub pud : ℕ
  pub pmd : ℕ
  pub pt : ℕ

unfoldable pub get_pd_from_address : ℕ → Pd
get_pd_from_address addr = record {
  pgd = index 48 addr;
  p4d = index 39 addr;
  pud = index 30 addr;
  pmd = index 21 addr;
  pt = index 12 addr;
}

unfoldable pub get_pd_from_pagenum : ℕ → Pd
get_pd_from_pagenum pgn = get_pd_from_address (pgn * 2 ^ 12 % 2 ^ 64)

-- A table just allocated, all of whose entries are 0.
abbrev pub no_tables {ℓ} : {A : Type ℓ} → ℕ → Option A
no_tables i = none

abbrev pub no_entries : Pt
no_entries i = 0

-- What a walk gives: whether it arrived, and the table.
pub record Walked (A : Type 0) : Type 0 where
  pub arrived : Bool
  pub table : A

-- One level: the table at entry `i` is walked by `deeper`, and made first if it is missing.
unfoldable pub access :
    {A : Type 0} → Bool → A → ℕ → (A → Walked A) → (ℕ → Option A) → Walked (ℕ → Option A)
access alloc fresh i deeper table' = elim (table' i) [
  | some a ↦
      let w = deeper a in record { arrived = w.arrived; table = update table' i (some w.table) }
  | none ↦
      if alloc
      then (let w = deeper fresh in
          record { arrived = w.arrived; table = update table' i (some w.table) })
      else record { arrived = false; table = table' }
]

-- The entry itself.
unfoldable pub write_pte : ℕ → (ℕ → ℕ) → Pt → Walked Pt
write_pte i change table' = record { arrived = true; table = update table' i (change (table' i)) }

-- All levels below the PGD.
unfoldable pub walk_pgd : (ℕ → Bool) → Pd → (ℕ → ℕ) → Pgd → Walked Pgd
walk_pgd malloc pd change = access (malloc 0) no_tables pd.pgd (
    access (malloc 1) no_tables pd.p4d (
      access (malloc 2) no_tables pd.pud
        (access (malloc 3) no_entries pd.pmd (write_pte pd.pt change))))

-- The walk of the functions that write an entry, which apply `change` to it.
unfoldable pub alter_pte : (ℕ → Bool) → Mm → ℕ → (ℕ → ℕ) → ℤ × Mm
alter_pte malloc mm pgn change = elim mm.pgd [
  | none ↦ (failure, mm)
  | some pgd ↦
      let w = walk_pgd malloc (get_pd_from_pagenum pgn) change pgd in
      (if w.arrived then success else failure, record mm { pgd = some w.table })
]

unfoldable pub pte_set_swap : (ℕ → Bool) → Mm → ℕ → ℕ → ℕ → ℤ × Mm
pte_set_swap malloc mm pgn swptyp swpoff = alter_pte malloc mm pgn (set_swap swptyp swpoff)

unfoldable pub pte_set_fpn : (ℕ → Bool) → Mm → ℕ → ℕ → ℤ × Mm
pte_set_fpn malloc mm pgn fpn = alter_pte malloc mm pgn (set_fpn fpn)

unfoldable pub pte_set_entry : (ℕ → Bool) → Mm → ℕ → ℕ → ℤ × Mm
pte_set_entry malloc mm pgn pte_val = alter_pte malloc mm pgn (λ pte. pte_val)

-- A missing table reads as entries that are 0.
unfoldable pub follow : {A : Type 0} → (A → ℕ) → Option A → ℕ
follow get none = 0
follow get (some a) = get a

unfoldable pub get_pgd : Pd → Pgd → ℕ
get_pgd pd pgd =
    follow
      (λ p4d.
        follow (λ pud. follow (λ pmd. follow (λ pt. pt pd.pt) (pmd pd.pmd)) (pud pd.pud))
          (p4d pd.p4d))
      (pgd pd.pgd)

unfoldable pub pte_get_entry : Mm → ℕ → ℕ
pte_get_entry mm pgn = follow (get_pgd (get_pd_from_pagenum pgn)) mm.pgd
