-- ===== src/Mm.antt =====
-- The structs of include/os-mm.h for an address space. Addresses are 64-bit words. A table of 512
-- entries is a function of the index, and a NULL pointer to one is `none`: an entry of the upper
-- levels is 0 or the address of a table, which the code casts back to a pointer. The fields `p4d`,
-- `pud`, `pmd` and `pt` are written once, as NULL, and never read.
use btl_hdh.Base.{ℕ, Option}
use btl_hdh.Base.Chain.{Chain, node}

-- `struct vm_rg_struct`, but for its `rg_next`.
pub record Region : Type 0 where
  pub rg_start : ℕ
  pub rg_end : ℕ

-- `struct vm_area_struct`, but for its `vm_next` and its owner `vm_mm`.
pub record Area : Type 0 where
  pub vm_id : ℕ
  pub vm_start : ℕ
  pub vm_end : ℕ
  pub sbrk : ℕ
  pub vm_freerg_list : Chain Region

-- The five levels of the page table.
abbrev pub Pt : Type 0
Pt = ℕ → ℕ

abbrev pub Pmd : Type 0
Pmd = ℕ → Option Pt

abbrev pub Pud : Type 0
Pud = ℕ → Option Pmd

abbrev pub P4d : Type 0
P4d = ℕ → Option Pud

abbrev pub Pgd : Type 0
Pgd = ℕ → Option P4d

-- `struct mm_struct`
pub record Mm : Type 0 where
  pub pgd : Option Pgd
  pub mmap : Chain Area
  pub symrgtbl : ℕ → Region
  pub fifo_pgn : Chain ℕ

-- `init_vm_rg`: the node's `rg_next` is NULL. The result of `malloc` is not tested.
unfoldable pub init_vm_rg : ℕ → ℕ → Region
init_vm_rg rg_start rg_end = record { rg_start = rg_start; rg_end = rg_end }

unfoldable pub enlist_vm_rg_node : Chain Region → Region → Chain Region
enlist_vm_rg_node rglist rgnode = node rgnode rglist

unfoldable pub enlist_pgn_node : Chain ℕ → ℕ → Chain ℕ
enlist_pgn_node plist pgn = node pgn plist
