-- ===== src/Config.antt =====
-- src/os.c, `read_config` with MM_PAGING, MM64 and MLQ_SCHED: the numbers of the machine and the list of
-- processes. What `malloc` leaves in the arrays is an argument; for a number of processes below 1 they
-- have no elements that are used.
pub mod Formats
pub mod Entries
pub mod Reads
mod Tests
use btl_hdh.Base.{
  ℕ, zero, suc, ◌+◌, ◌^◌, Option, none, some, List, [], ◌∷◌, ◌++◌, ◌==◌, ltb, if◌then◌else◌, update,
  length,
}
use btl_hdh.Base.Int.{ℤ, pos, negsuc}
use btl_hdh.Base.Exit.{Exit, returns, exits, faults, ◌>>=◌}
use btl_hdh.Scan.{
  codes, skip_space, Item, found, missing, scan_unsigned, scan_int, scan_all, scan_word, fgets,
}

abbrev pub paging_max_mmswp : ℕ
paging_max_mmswp = 4

-- PAGING_PAGESZ with MM64
abbrev pub paging_pagesz : ℕ
paging_pagesz = 4096

-- The variables of the file that `read_config` sets.
pub record Config : Type 0 where
  pub time_slot : ℤ
  pub num_cpus : ℤ
  pub num_processes : ℤ
  pub memramsz : ℤ
  pub memswpsz : ℕ → ℤ
  pub path : ℕ → List ℕ
  pub start_time : ℕ → ℕ
  pub prio : ℕ → ℕ

-- `fscanf` of the first line, into variables that are 0, and white space.
unfoldable pub set_first : Config → List ℤ → Config
set_first c [] = c
set_first c (a ∷ []) = record c { time_slot = a }
set_first c (a ∷ b ∷ []) = record c { time_slot = a; num_cpus = b }
set_first c (a ∷ b ∷ n ∷ more) = record c { time_slot = a; num_cpus = b; num_processes = n }

unfoldable pub read_first : Config → List ℕ → Exit (Config × List ℕ)
read_first c file = do
  (values, rest) ← scan_all scan_int 3 file
  returns (set_first c values, if length values == 3 then skip_space rest else rest)

-- The sizes where the file does not say them.
unfoldable pub default_sizes : Config → Config
default_sizes c = record c {
  memramsz = pos 0x100000;
  memswpsz = λ sit. if sit == 0 then pos 0x1000000 else pos 0;
}

-- At least one page
unfoldable pub at_least_page : ℤ → ℤ
at_least_page (negsuc n) = pos paging_pagesz
at_least_page (pos n) = if ltb n paging_pagesz then pos paging_pagesz else pos n

-- The sizes of a memory line; `none` where it is not one.
unfoldable pub sizes_of : Config → List ℤ → Option Config
sizes_of c (ram ∷ s_0 ∷ s_1 ∷ s_2 ∷ s_3 ∷ more) = some (record c {
  memramsz = at_least_page ram;
  memswpsz =
      λ sit. if sit == 0 then s_0 else if sit == 1 then s_1 else if sit == 2 then s_2 else s_3;
})
sizes_of c _ = none

-- A line that is not a memory line is read again as that of a process.
unfoldable pub read_memory : Config → List ℕ → Exit (Config × List ℕ)
read_memory c file = elim (fgets 256 file) [
  | none ↦ returns (c, file)
  | some (line, rest) ↦ (do
    (values, _) ← scan_all scan_int 5 line
    returns (elim (sizes_of c values) [ none ↦ (c, file) | some c' ↦ (c', rest) ]))
]

-- `strcat` of the two parts into an array of 100 bytes; the second is in one of as many.
unfoldable pub path_of : List ℕ → Exit (List ℕ)
path_of proc =
    let path = codes "input/proc/" ++ proc in if ltb (length path) 100 then returns path else faults

-- The last directive of the `fscanf` of a process, and white space.
unfoldable pub read_prio : ℕ → Config → List ℕ → Exit (Config × List ℕ)
read_prio i c file = elim (scan_unsigned (2 ^ 64) file) [
  | exits ↦ exits
  | faults ↦ faults
  | returns (missing rest) ↦ returns (c, rest)
  | returns (found prio rest) ↦ returns (record c { prio = update c.prio i prio }, skip_space rest)
]

-- A round of the loop; where `fscanf` does not come to `proc`, that holds no string.
unfoldable pub read_process : ℕ → Config → List ℕ → Exit (Config × List ℕ)
read_process i c file = elim (scan_unsigned (2 ^ 64) file) [
  | exits ↦ exits
  | faults ↦ faults
  | returns (missing rest) ↦ faults
  | returns (found start rest) ↦ elim (scan_word rest) [
    | none ↦ faults
    | some (proc, rest') ↦ (do
      path ← path_of proc
      read_prio i
          (record c { start_time = update c.start_time i start; path = update c.path i path })
          rest')
  ]
]

unfoldable pub read_processes : ℕ → ℕ → Config → List ℕ → Exit (Config × List ℕ)
read_processes i zero c file = returns (c, file)
read_processes i (suc rounds) c file = do
  (c', file') ← read_process i c file
  read_processes (suc i) rounds c' file'

-- How often `for (i = 0; i < n; i++)` goes round.
abbrev pub rounds_of : ℤ → ℕ
rounds_of (pos n) = n
rounds_of (negsuc n) = 0

-- `fresh` has the zeros of the static variables, and what `malloc` leaves in the arrays.
unfoldable pub read_config : (List ℕ → Option (List ℕ)) → Config → List ℕ → Exit Config
read_config files fresh path = elim (files path) [
  | none ↦ exits
  | some file ↦ (do
    (c, rest) ← read_first fresh file
    (c', rest') ← read_memory (default_sizes c) rest
    (c'', _) ← read_processes 0 (rounds_of c'.num_processes) c' rest'
    returns c'')
]
