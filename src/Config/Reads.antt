-- ===== src/Config/Reads.antt =====
-- `read_config` reads what a file of either format says.
use btl_hdh.Base.{
  ℕ, ◌^◌, ◌≡◌, refl, sym, ap, ap₂, ◌∙◌, Option, none, some, List, [], ◌∷◌, ◌++◌, ◌==◌,
  if◌then◌else◌, All, length, window,
}
use btl_hdh.Base.Int.{ℤ, pos}
use btl_hdh.Base.Exit.{Exit, returns, ◌>>=◌}
use btl_hdh.Scan.{skip_space, starts_digit, scan_int, scan_all, fgets}
use btl_hdh.Scan.Numerals.{Numeral, value, written, Ends, scan_int-space}
use btl_hdh.Scan.Words.{
  fgets-line, spelled, AreBelow, scan_all-int, scan_all-first, spelled-line, spelled-append,
}
use btl_hdh.Config.{
  Config, set_first, read_first, default_sizes, sizes_of, read_memory, read_config,
}
use btl_hdh.Config.Formats.{
  Entry, entry_line, entry_lines, IsEntry, Sizes, sizes_list, sizes_line, memory_lines, config_file,
  AreSizes, ram_of, swp_of, paths, starts, prios,
}
use btl_hdh.Config.Entries.{
  read_processes-Listed, skip_space-digit, entry_scanned, entry_line-line, entry_line-append,
}

-- A line of sizes is read whole.
sizes_scanned :
    (s : Sizes)
    → AreBelow (2 ^ 31) (sizes_list s)
    → scan_all scan_int 5 (sizes_line s ++ b'\n' ∷ [])
      ≡ returns (pos (value s.ram) ∷ swp_of (some s), b'\n' ∷ [])
sizes_scanned s h =
    let end : Ends (b'\n' ∷ []) = unfold starts_digit in refl in
    sym (
      scan_all-first scan_int 4 (sizes_line s ++ b'\n' ∷ [])
        (scan_int-space b' ' (sizes_line s ++ b'\n' ∷ []) refl))
    ∙ ap (scan_all scan_int 5) (spelled-append (sizes_list s) (b'\n' ∷ []))
    ∙ scan_all-int (sizes_list s) (b'\n' ∷ []) h end

-- The sizes and where the processes begin.
abbrev Sized : Option Sizes → Config → List Entry → Exit (Config × List ℕ) → Type 0
Sized sizes c es out =
    (w : ℕ → ℤ) × (file : List ℕ) × (out
      ≡ returns (record c { memramsz = ram_of sizes; memswpsz = w }, file))
    × (window w 0 4 ≡ swp_of sizes)
    × (skip_space file ≡ skip_space (entry_lines es))

read_memory-Sized :
    (sizes : Option Sizes) (es : List Entry) (c : Config)
    → All IsEntry es
    → AreSizes sizes es
    → Sized sizes c es (read_memory (default_sizes c) (memory_lines sizes (entry_lines es)))
unfolding read_memory default_sizes sizes_of window
read_memory-Sized none [] c h a = (
  (default_sizes c).memswpsz,
  [],
  unfold fgets entry_lines in refl,
  refl,
  unfold entry_lines in refl,
)
read_memory-Sized none (e ∷ es) c h a =
    let got = fgets-line 256 (entry_line e []) (entry_lines es) (entry_line-line e h.0) a.2 in
    let (left, scanned) = entry_scanned e h.0 a.0 a.1 in
    let line : entry_lines (e ∷ es) ≡ entry_line e [] ++ b'\n' ∷ entry_lines es =
      unfold entry_lines in sym (entry_line-append e (b'\n' ∷ entry_lines es)) in
    (
      (default_sizes c).memswpsz,
      entry_lines (e ∷ es),
      rw (ap (fgets 256) line ∙ got, read_memory)
          (rw (entry_line-append e (b'\n' ∷ [])) (rw (scanned, ◌>>=◌) refl)),
      refl,
      refl,
    )
read_memory-Sized (some s) es c h a =
    let got =
      fgets-line 256 (sizes_line s) (entry_lines es) (spelled-line (2 ^ 31) (sizes_list s) a.0).1
        a.1 in
    (
      (λ sit.
          if sit == 0
          then pos (value s.swp_0)
          else if sit == 1
          then pos (value s.swp_1)
          else if sit == 2
          then pos (value s.swp_2)
          else pos (value s.swp_3)),
      entry_lines es,
      rw (got, read_memory) (rw (sizes_scanned s a.0, ◌>>=◌) refl),
      refl,
      refl,
    )

read_first-numbers :
    (c : Config) (slot cpus count : Numeral) (rest : List ℕ)
    → AreBelow (2 ^ 31) (slot ∷ cpus ∷ count ∷ [])
    → read_first c (written slot (spelled (cpus ∷ count ∷ []) (b'\n' ∷ rest)))
      ≡ returns (
        record c {
          time_slot = pos (value slot);
          num_cpus = pos (value cpus);
          num_processes = pos (value count);
        },
        skip_space rest,
      )
unfolding read_first set_first
read_first-numbers c slot cpus count rest h =
    let line = written slot (spelled (cpus ∷ count ∷ []) (b'\n' ∷ rest)) in
    let end : Ends (b'\n' ∷ rest) = unfold starts_digit in refl in
    let scanned =
      sym (scan_all-first scan_int 2 line (scan_int-space b' ' line refl))
      ∙ scan_all-int (slot ∷ cpus ∷ count ∷ []) (b'\n' ∷ rest) h end in
    rw (scanned, read_first) (unfold skip_space in refl)

-- No line begins with white space.
skip_space-lines :
    (sizes : Option Sizes) (es : List Entry)
    → All IsEntry es
    → AreSizes sizes es
    → skip_space (memory_lines sizes (entry_lines es)) ≡ memory_lines sizes (entry_lines es)
skip_space-lines none [] h a = unfold skip_space entry_lines in refl
skip_space-lines none (e ∷ es) h a =
    unfold entry_lines in skip_space-digit e.start.first _ h.0.start.first
skip_space-lines (some s) es h a = skip_space-digit s.ram.first _ a.0.0.0.first

-- `read_config` of a file of either format, with numbers that fit, gives the numbers of the machine, the sizes
-- that the file says, with at least a page of RAM, or else the default ones, and the processes in order: their
-- start times, their paths in input/proc and their priorities.
pub read_config-config_file :
    (files : List ℕ → Option (List ℕ)) (fresh : Config) (path : List ℕ) (slot cpus count : Numeral)
    (sizes : Option Sizes) (es : List Entry)
    → AreBelow (2 ^ 31) (slot ∷ cpus ∷ count ∷ [])
    → value count ≡ length es
    → All IsEntry es
    → AreSizes sizes es
    → files path ≡ some (config_file slot cpus count sizes es)
    → (c : Config) × (read_config files fresh path ≡ returns c)
      × (c.time_slot ≡ pos (value slot))
      × (c.num_cpus ≡ pos (value cpus))
      × (c.num_processes ≡ pos (length es))
      × (c.memramsz ≡ ram_of sizes)
      × (window c.memswpsz 0 4 ≡ swp_of sizes)
      × (window c.path 0 (length es) ≡ paths es)
      × (window c.start_time 0 (length es) ≡ starts es)
      × (window c.prio 0 (length es) ≡ prios es)
unfolding read_config config_file
read_config-config_file files fresh path slot cpus count sizes es h counted v a at =
    let first = record fresh {
      time_slot = pos (value slot);
      num_cpus = pos (value cpus);
      num_processes = pos (length es);
    } in
    let lines = memory_lines sizes (entry_lines es) in
    let one =
      read_first-numbers fresh slot cpus count lines h
      ∙ ap₂ (λ n t. returns (record first { num_processes = pos n }, t)) counted
          (skip_space-lines sizes es v a) in
    let (w, file, two, swp, fits) = read_memory-Sized sizes es first v a in
    let sized = record first { memramsz = ram_of sizes; memswpsz = w } in
    let (p, s, q, rest, three, kept, ps, ss, qs) = read_processes-Listed es 0 sized file v fits in
    (
      record sized { path = p; start_time = s; prio = q },
      rw (at, read_config) (rw (one, ◌>>=◌) (rw (two, ◌>>=◌) (rw (three, ◌>>=◌) refl))),
      refl,
      refl,
      refl,
      refl,
      swp,
      ps,
      ss,
      qs,
    )
