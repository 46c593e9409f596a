-- ===== src/Config/Entries.antt =====
-- The lines of the processes in a configuration file.
use mathlib.Core.List.{append_assoc}
use btl_hdh.Base.{
  ℕ, suc, ◌+◌, ◌<◌, ◌^◌, ◌≡◌, refl, ap, ap₂, ◌∙◌, false, ◌||◌, List, [], ◌∷◌, ◌++◌, ◌==◌, arith,
  All, length, update, window, ==_refl, lt→ltb,
}
use btl_hdh.Base.Int.{pos}
use btl_hdh.Base.Exit.{Exit, returns, ◌>>=◌}
use btl_hdh.Scan.{
  codes, is_digit, is_space, skip_space, missing, scan_sign, starts_digit, scan_magnitude, scan_int,
  scan_all,
}
use btl_hdh.Scan.Numerals.{
  value, written, digits, Ends, scan_unsigned-written, scan_unsigned-cong, scan_unsigned-space,
  scan_int-written,
}
use btl_hdh.Scan.Words.{IsWord, scan_word-word, skip_space_idem, digits-line}
use btl_hdh.Config.{Config, path_of, read_prio, read_process, read_processes}
use btl_hdh.Config.Formats.{Entry, name, entry_line, entry_lines, IsEntry, paths, starts, prios}

-- The state after a process.
abbrev with_entry : ℕ → Config → Entry → Config
with_entry i c e = record c {
  start_time = update c.start_time i (value e.start);
  path = update c.path i (codes "input/proc/" ++ name e);
  prio = update c.prio i (value e.prio);
}

read_process-entry :
    (i : ℕ) (c : Config) (e : Entry) (file rest : List ℕ)
    → IsEntry e
    → skip_space file ≡ skip_space (entry_line e (b'\n' ∷ rest))
    → read_process i c file ≡ returns (with_entry i c e, skip_space rest)
unfolding read_process read_prio path_of
read_process-entry i c e file rest v at =
    let behind = b' ' ∷ written e.prio (b'\n' ∷ rest) in
    let gap : Ends (b' ' ∷ (name e ++ behind)) = unfold starts_digit in refl in
    let end : Ends (b'\n' ∷ rest) = unfold starts_digit in refl in
    let start =
      scan_unsigned-cong (2 ^ 64) file (entry_line e (b'\n' ∷ rest)) at
      ∙ scan_unsigned-written (2 ^ 64) e.start (b' ' ∷ (name e ++ behind)) v.start v.start_fits
          gap in
    let word =
      scan_word-word (b' ' ∷ (name e ++ behind)) e.first e.others behind
        (unfold skip_space in rw v.word.0 refl) v.word refl in
    let prio =
      scan_unsigned-space (2 ^ 64) b' ' (written e.prio (b'\n' ∷ rest)) refl
      ∙ scan_unsigned-written (2 ^ 64) e.prio (b'\n' ∷ rest) v.prio v.prio_fits end in
    rw (start, read_process)
      (rw (word, read_process)
        (rw (lt→ltb _ _ v.short, ◌>>=◌) (rw (prio, read_prio) (unfold skip_space in refl))))

-- The arrays after the loop: as they were before `i`, and with the processes from there on.
abbrev pub Listed : ℕ → Config → List Entry → Exit (Config × List ℕ) → Type 0
Listed i c es out =
    (p : ℕ → List ℕ) × (s : ℕ → ℕ) × (q : ℕ → ℕ) × (rest : List ℕ) × (out
      ≡ returns (record c { path = p; start_time = s; prio = q }, rest))
    × ((j : ℕ) → j < i → (p j ≡ c.path j) × (s j ≡ c.start_time j) × (q j ≡ c.prio j))
    × (window p i (length es) ≡ paths es)
    × (window s i (length es) ≡ starts es)
    × (window q i (length es) ≡ prios es)

pub read_processes-Listed :
    (es : List Entry) (i : ℕ) (c : Config) (file : List ℕ)
    → All IsEntry es
    → skip_space file ≡ skip_space (entry_lines es)
    → Listed i c es (read_processes i (length es) c file)
unfolding read_processes window
read_processes-Listed [] i c file h e =
    (c.path, c.start_time, c.prio, file, refl, λ j lt. (refl, refl, refl), refl, refl, refl)
read_processes-Listed (e ∷ es) i c file h at =
    let one =
      read_process-entry i c e file (entry_lines es) h.0 (at ∙ unfold entry_lines in refl) in
    let (p, s, q, rest, more, kept, ps, ss, qs) =
      read_processes-Listed es (suc i) (with_entry i c e) (skip_space (entry_lines es)) h.1
        (skip_space_idem (entry_lines es)) in
    let (p_i, s_i, q_i) = kept i (omega arith) in
    (
      p,
      s,
      q,
      rest,
      rw (one, read_processes) more,
      λ j lt.
          (let off : (i == j) ≡ false = ground arith in
            let (p_j, s_j, q_j) = kept j (omega arith) in
            (p_j ∙ rw off refl, s_j ∙ rw off refl, q_j ∙ rw off refl)),
      ap₂ ◌∷◌ (p_i ∙ rw (==_refl i) refl) ps,
      ap₂ ◌∷◌ (s_i ∙ rw (==_refl i) refl) ss,
      ap₂ ◌∷◌ (q_i ∙ rw (==_refl i) refl) qs,
    )

-- A digit is not white space.
pub skip_space-digit :
    (d : ℕ) (rest : List ℕ) → d < 10 → skip_space ((b'0' + d) ∷ rest) ≡ (b'0' + d) ∷ rest
unfolding skip_space
skip_space-digit d rest h = let black : is_space (b'0' + d) ≡ false = ground arith in rw black refl

-- The byte after a name's space does not start a number.
scan_magnitude-name :
    (c : ℕ) (rest : List ℕ)
    → is_space c ≡ false
    → (is_digit c || c == b'-' || c == b'+') ≡ false
    → scan_magnitude (b' ' ∷ c ∷ rest) ≡ missing (c ∷ rest)
unfolding scan_magnitude skip_space scan_sign starts_digit
scan_magnitude-name c rest black h =
    let no_minus : (c == b'-') ≡ false = ground (arith, h) in
    let no_plus : (c == b'+') ≡ false = ground (arith, h) in
    let no_digit : is_digit c ≡ false = ground (arith, h) in
    rw (black, no_minus, no_plus, no_digit) refl

-- The line of a process is not one of sizes.
pub entry_scanned :
    (e : Entry)
    → IsEntry e
    → (is_digit e.first || e.first == b'-' || e.first == b'+') ≡ false
    → value e.start < 2 ^ 31
    → (rest : List ℕ) × (scan_all scan_int 5 (entry_line e (b'\n' ∷ []))
        ≡ returns (pos (value e.start) ∷ [], rest))
unfolding scan_all
entry_scanned e v h small =
    let more = e.others ++ b' ' ∷ written e.prio (b'\n' ∷ []) in
    let gap : Ends (b' ' ∷ e.first ∷ more) = unfold starts_digit in refl in
    let start = scan_int-written e.start (b' ' ∷ e.first ∷ more) v.start small gap in
    let stop : scan_int (b' ' ∷ e.first ∷ more) ≡ returns (missing (e.first ∷ more)) =
      unfold scan_int in rw (scan_magnitude-name e.first more v.word.0 h, scan_int) refl in
    (e.first ∷ more, rw (start, scan_all) (rw (stop, scan_all) refl))

word-line :
    (w rest : List ℕ)
    → IsWord w
    → All (λ c. (c == b'\n') ≡ false) rest
    → All (λ c. (c == b'\n') ≡ false) (w ++ rest)
word-line [] rest h r = r
word-line (c ∷ w) rest h r = (ground (arith, h.0), word-line w rest h.1 r)

pub entry_line-line : (e : Entry) → IsEntry e → All (λ c. (c == b'\n') ≡ false) (entry_line e [])
entry_line-line e v =
    let prio = digits-line e.prio.others [] v.prio.others tt in
    let behind =
      word-line (name e) (b' ' ∷ written e.prio []) v.word (refl, (ground arith, prio)) in
    (ground arith, digits-line e.start.others _ v.start.others (refl, behind))

-- The line of a process goes on with what follows it.
pub entry_line-append : (e : Entry) (rest : List ℕ) → entry_line e [] ++ rest ≡ entry_line e rest
entry_line-append e rest =
    let behind = written e.prio [] in
    let prio : behind ++ rest ≡ written e.prio rest =
      append_assoc ((b'0' + e.prio.first) ∷ digits e.prio.others) [] rest in
    let named : (name e ++ b' ' ∷ behind) ++ rest ≡ name e ++ b' ' ∷ written e.prio rest =
      append_assoc (name e) (b' ' ∷ behind) rest ∙ ap (λ t. name e ++ b' ' ∷ t) prio in
    append_assoc ((b'0' + e.start.first) ∷ digits e.start.others) (b' ' ∷ (name e ++ b' ' ∷ behind))
      rest
    ∙ ap (λ t. written e.start (b' ' ∷ t)) named
