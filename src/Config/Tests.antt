-- ===== src/Config/Tests.antt =====
-- A file of each format.
use btl_hdh.Base.{ℕ, ◌≡◌, refl, Option, none, some, List, [], ◌∷◌, arith, All, window}
use btl_hdh.Base.Int.{pos}
use btl_hdh.Base.Exit.{returns}
use btl_hdh.Scan.{codes}
use btl_hdh.Scan.Numerals.{Numeral}
use btl_hdh.Config.{Config, at_least_page, read_config}
use btl_hdh.Config.Formats.{Entry, IsEntry, entry_lines, Sizes, config_file}
use btl_hdh.Config.Reads.{read_config-config_file}

abbrev numeral : ℕ → Numeral
numeral d = record { first = d; others = [] }

abbrev entries : List Entry
entries = record { start = numeral 3; first = b'p'; others = codes "0s"; prio = numeral 2 } ∷ []

abbrev sizes : Sizes
sizes = record {
  ram = record { first = 8; others = 1 ∷ 9 ∷ 2 ∷ [] };
  swp_0 = numeral 9;
  swp_1 = numeral 0;
  swp_2 = numeral 0;
  swp_3 = numeral 0;
}

new_text :
    config_file (numeral 6) (numeral 2) (numeral 1) (some sizes) entries
    ≡ codes "6 2 1\n8192 9 0 0 0\n3 p0s 2\n"
unfolding config_file entry_lines
new_text = refl

old_text : config_file (numeral 6) (numeral 2) (numeral 1) none entries ≡ codes "6 2 1\n3 p0s 2\n"
unfolding config_file entry_lines
old_text = refl

abbrev fresh : Config
fresh = record {
  time_slot = pos 0;
  num_cpus = pos 0;
  num_processes = pos 0;
  memramsz = pos 0;
  memswpsz = λ _. pos 0;
  path = λ _. [];
  start_time = λ _. 77;
  prio = λ _. 77;
}

abbrev files : List ℕ → Option (List ℕ)
files path = some (config_file (numeral 6) (numeral 2) (numeral 1) (some sizes) entries)

entries-IsEntry : All IsEntry entries
entries-IsEntry = (
  record {
    start = omega arith;
    start_fits = omega arith;
    prio = omega arith;
    prio_fits = omega arith;
    word = (refl, (refl, (refl, tt)));
    short = omega arith;
  },
  tt,
)

read_config-config_file_example :
    (c : Config) × (read_config files fresh (codes "input/a") ≡ returns c)
    × (c.time_slot ≡ pos 6)
    × (c.num_cpus ≡ pos 2)
    × (c.num_processes ≡ pos 1)
    × (c.memramsz ≡ pos 8192)
    × (window c.memswpsz 0 4 ≡ pos 9 ∷ pos 0 ∷ pos 0 ∷ pos 0 ∷ [])
    × (window c.path 0 1 ≡ codes "input/proc/p0s" ∷ [])
    × (window c.start_time 0 1 ≡ 3 ∷ [])
    × (window c.prio 0 1 ≡ 2 ∷ [])
unfolding at_least_page
read_config-config_file_example =
    read_config-config_file files fresh (codes "input/a") (numeral 6) (numeral 2) (numeral 1)
      (some sizes) entries (omega arith) refl entries-IsEntry (omega arith) refl
