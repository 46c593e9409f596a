-- ===== src/PageMap.antt =====
-- What src/mm64.c and src/mm.c, the two configurations of the page table, have in common: the entries
-- of the pages of a process, by number, below the size of the smaller table.
pub mod Writes
pub mod Tables
mod Tests
use btl_hdh.Base.{ℕ, ◌^◌, ◌<◌, ◌≡◌, ◌==◌, if◌then◌else◌}
use btl_hdh.Base.Int.{ℤ, success}

-- PAGING_MAX_PGN of src/mm.c
abbrev pub max_pgn : ℕ
max_pgn = 16384

-- `pte_get_entry` and `pte_set_entry` on some representation, for processes that have a table and values of
-- 32 bits, which fit the entries of both tables.
pub record PageMap (S : Type 0) : Type 1 where
  pub IsSetUp : S → Type 0
  pub get_entry : S → ℕ → ℕ
  pub set_entry : S → ℕ → ℕ → ℤ × S
  pub set_entry-success :
      (s : S) (pgn pte_val : ℕ)
      → IsSetUp s
      → pgn < max_pgn
      → ((set_entry s pgn pte_val).0 ≡ success) × IsSetUp (set_entry s pgn pte_val).1
  pub get_entry-set_entry :
      (s : S) (pgn q pte_val : ℕ)
      → IsSetUp s
      → pgn < max_pgn
      → q < max_pgn
      → pte_val < 2 ^ 32
      → get_entry (set_entry s pgn pte_val).1 q ≡ (if pgn == q then pte_val else get_entry s q)
