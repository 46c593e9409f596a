-- ===== src/Config/Formats.antt =====
-- The two formats of the files in input/: a line with three numbers, in the new one a line with the sizes
-- of the memories, and a line for each process.
use btl_hdh.Base.{
  ℕ, ◌+◌, ◌^◌, ◌<◌, ◌≡◌, false, ◌||◌, Option, none, some, List, [], ◌∷◌, ◌++◌, ◌==◌, length,
}
use btl_hdh.Base.Int.{ℤ, pos}
use btl_hdh.Scan.{codes, is_digit}
use btl_hdh.Scan.Numerals.{Numeral, value, written, IsNumeral}
use btl_hdh.Scan.Words.{IsWord, spelled, AreBelow}
use btl_hdh.Config.{at_least_page}

-- The name of a process has at least one byte, `first`.
pub record Entry : Type 0 where
  pub start : Numeral
  pub first : ℕ
  pub others : List ℕ
  pub prio : Numeral

abbrev pub name : Entry → List ℕ
name e = e.first ∷ e.others

abbrev pub entry_line : Entry → List ℕ → List ℕ
entry_line e rest = written e.start (b' ' ∷ (name e ++ b' ' ∷ written e.prio rest))

unfoldable pub entry_lines : List Entry → List ℕ
entry_lines [] = []
entry_lines (e ∷ es) = entry_line e (b'\n' ∷ entry_lines es)

-- The path fits into its array.
pub record IsEntry (e : Entry) : Type 0 where
  pub start : IsNumeral e.start
  pub start_fits : value e.start < 2 ^ 64
  pub prio : IsNumeral e.prio
  pub prio_fits : value e.prio < 2 ^ 64
  pub word : IsWord (name e)
  pub short : length (codes "input/proc/" ++ name e) < 100

pub record Sizes : Type 0 where
  pub ram : Numeral
  pub swp_0 : Numeral
  pub swp_1 : Numeral
  pub swp_2 : Numeral
  pub swp_3 : Numeral

abbrev pub sizes_list : Sizes → List Numeral
sizes_list s = s.ram ∷ s.swp_0 ∷ s.swp_1 ∷ s.swp_2 ∷ s.swp_3 ∷ []

-- The bytes of a line of sizes, after a space that the line does not have.
abbrev pub sizes_line : Sizes → List ℕ
sizes_line s = written s.ram (spelled (s.swp_0 ∷ s.swp_1 ∷ s.swp_2 ∷ s.swp_3 ∷ []) [])

abbrev pub memory_lines : Option Sizes → List ℕ → List ℕ
memory_lines none rest = rest
memory_lines (some s) rest = sizes_line s ++ b'\n' ∷ rest

unfoldable pub config_file : Numeral → Numeral → Numeral → Option Sizes → List Entry → List ℕ
config_file slot cpus count sizes es =
    written slot (spelled (cpus ∷ count ∷ []) (b'\n' ∷ memory_lines sizes (entry_lines es)))

-- A line of sizes fits into the buffer of 256 bytes. In the old format the first process has a name
-- that does not start like a number, a start time that is an `int`, and a line that fits.
abbrev pub AreSizes : Option Sizes → List Entry → Type 0
AreSizes (some s) es = AreBelow (2 ^ 31) (sizes_list s) × (length (sizes_line s) + 1 < 256)
AreSizes none [] = Unit
AreSizes none (e ∷ es) =
    ((is_digit e.first || e.first == b'-' || e.first == b'+') ≡ false)
    × (value e.start < 2 ^ 31)
    × (length (entry_line e []) + 1 < 256)

abbrev pub ram_of : Option Sizes → ℤ
ram_of none = pos 0x100000
ram_of (some s) = at_least_page (pos (value s.ram))

abbrev pub swp_of : Option Sizes → List ℤ
swp_of none = pos 0x1000000 ∷ pos 0 ∷ pos 0 ∷ pos 0 ∷ []
swp_of (some s) =
    pos (value s.swp_0) ∷ pos (value s.swp_1) ∷ pos (value s.swp_2) ∷ pos (value s.swp_3) ∷ []

abbrev pub paths : List Entry → List (List ℕ)
paths [] = []
paths (e ∷ es) = (codes "input/proc/" ++ name e) ∷ paths es

abbrev pub starts : List Entry → List ℕ
starts [] = []
starts (e ∷ es) = value e.start ∷ starts es

abbrev pub prios : List Entry → List ℕ
prios [] = []
prios (e ∷ es) = value e.prio ∷ prios es
