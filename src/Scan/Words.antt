-- ===== src/Scan/Words.antt =====
-- Words, lines and the numbers of one format, with what follows them.
use mathlib.Core.List.{append_assoc}
use btl_hdh.Base.{
  ℕ, inl, inr, Bool-cases, ◌^◌, zero, suc, ◌+◌, ◌-◌, ◌≤◌, ◌<◌, ◌≡◌, refl, ◌∙◌, ap, true, false,
  List, [], ◌∷◌, ◌++◌, some, ◌==◌, arith, All, length,
}
use btl_hdh.Base.Int.{pos}
use btl_hdh.Base.Exit.{Exit, returns}
use btl_hdh.Scan.{
  is_space, skip_space, Item, found, scan_magnitude, scan_sign, starts_digit, scan_unsigned,
  scan_int, scan_all, scan_word, take_word, drop_word, take_line, drop_line, fgets,
}
use btl_hdh.Scan.Numerals.{
  Numeral, value, written, digits, IsNumeral, Ends, scan_unsigned-written, scan_unsigned-space,
  scan_int-written, scan_int-space,
}

pub skip_space_idem : (s : List ℕ) → skip_space (skip_space s) ≡ skip_space s
unfolding skip_space
skip_space_idem [] = refl
skip_space_idem (c ∷ cs) = elim (Bool-cases (is_space c)) [
  | inl e ↦ rw e (skip_space_idem cs)
  | inr e ↦ rw e (rw e refl)
]

-- What a line does to the array, and where it leaves the file.
-- A word ends at white space or at the end.
abbrev pub Breaks : List ℕ → Type 0
Breaks [] = Unit
Breaks (c ∷ cs) = is_space c ≡ true

abbrev pub IsWord : List ℕ → Type 0
IsWord w = All (λ c. is_space c ≡ false) w

take_word-append :
    (w rest : List ℕ)
    → IsWord w
    → Breaks rest
    → (take_word (w ++ rest) ≡ w) × (drop_word (w ++ rest) ≡ rest)
unfolding take_word drop_word
take_word-append [] [] h b = (refl, refl)
take_word-append [] (c ∷ cs) h b = rw b (refl, refl)
take_word-append (c ∷ w) rest h b =
    let (taken, left) = take_word-append w rest h.1 b in rw h.0 (ap (◌∷◌ c) taken, left)

-- `%s` at a word with white space before it.
pub scan_word-word :
    (s : List ℕ) (c : ℕ) (w rest : List ℕ)
    → skip_space s ≡ c ∷ (w ++ rest)
    → IsWord (c ∷ w)
    → Breaks rest
    → scan_word s ≡ some (c ∷ w, rest)
unfolding scan_word
scan_word-word s c w rest e h b =
    let (taken, left) = take_word-append (c ∷ w) rest h b in rw e (rw (taken, left) refl)

-- A line of fewer bytes than are read.
line-append :
    (n : ℕ) (line rest : List ℕ)
    → All (λ c. (c == b'\n') ≡ false) line
    → length line < n
    → (take_line n (line ++ b'\n' ∷ rest) ≡ line ++ b'\n' ∷ [])
      × (drop_line n (line ++ b'\n' ∷ rest) ≡ rest)
unfolding take_line drop_line
line-append zero line rest h lt = absurd (omega arith)
line-append (suc n) [] rest h lt = (refl, refl)
line-append (suc n) (c ∷ line) rest h lt =
    let (taken, left) = line-append n line rest h.1 (omega arith) in rw h.0 (ap (◌∷◌ c) taken, left)

pub fgets-line :
    (size : ℕ) (line rest : List ℕ)
    → All (λ c. (c == b'\n') ≡ false) line
    → length line + 1 < size
    → fgets size (line ++ b'\n' ∷ rest) ≡ some (line ++ b'\n' ∷ [], rest)
unfolding fgets
fgets-line size [] rest h lt =
    let (taken, left) = line-append (size - 1) [] rest h (omega arith) in rw (taken, left) refl
fgets-line size (c ∷ line) rest h lt =
    let (taken, left) = line-append (size - 1) (c ∷ line) rest h (omega arith) in
    rw (taken, left) refl

-- Numerals with a space before each.
abbrev pub spelled : List Numeral → List ℕ → List ℕ
spelled [] rest = rest
spelled (n ∷ ns) rest = b' ' ∷ written n (spelled ns rest)

abbrev pub AreBelow : ℕ → List Numeral → Type 0
AreBelow bound ns = All (λ n. IsNumeral n × (value n < bound)) ns

abbrev pub values_with {ℓ} : {A : Type ℓ} → (Numeral → A) → List Numeral → List A
values_with v [] = []
values_with v (n ∷ ns) = v n ∷ values_with v ns

abbrev pub values : List Numeral → List ℕ
values = values_with value

Ends-spelled : (ns : List Numeral) (rest : List ℕ) → Ends rest → Ends (spelled ns rest)
Ends-spelled [] rest e = e
Ends-spelled (n ∷ ns) rest e = unfold starts_digit in refl

-- The numbers of a format are all there.
module _ {A : Type 0} (scan : List ℕ → Exit (Item A)) (v : Numeral → A) (Reads : Numeral → Type 0)
    (reads : (n : Numeral) (rest : List ℕ)
      → Reads n
      → Ends rest
      → scan (b' ' ∷ written n rest) ≡ returns (found (v n) rest)) where
  pub scan_all-spelled :
      (ns : List Numeral) (rest : List ℕ)
      → All Reads ns
      → Ends rest
      → scan_all scan (length ns) (spelled ns rest) ≡ returns (values_with v ns, rest)
  unfolding scan_all
  scan_all-spelled [] rest h e = refl
  scan_all-spelled (n ∷ ns) rest h e =
      rw (reads n (spelled ns rest) h.0 (Ends-spelled ns rest e), scan_all)
        (rw (scan_all-spelled ns rest h.1 e, scan_all) refl)

reads_unsigned :
    (modulus : ℕ) (n : Numeral) (rest : List ℕ)
    → IsNumeral n × (value n < modulus)
    → Ends rest
    → scan_unsigned modulus (b' ' ∷ written n rest) ≡ returns (found (value n) rest)
reads_unsigned modulus n rest h e =
    scan_unsigned-space modulus b' ' (written n rest) refl
    ∙ scan_unsigned-written modulus n rest h.0 h.1 e

pub scan_all-unsigned :
    (modulus : ℕ) (ns : List Numeral) (rest : List ℕ)
    → AreBelow modulus ns
    → Ends rest
    → scan_all (scan_unsigned modulus) (length ns) (spelled ns rest) ≡ returns (values ns, rest)
scan_all-unsigned modulus =
    scan_all-spelled (scan_unsigned modulus) value (λ n. IsNumeral n × (value n < modulus))
      (reads_unsigned modulus)

pub reads_int :
    (n : Numeral) (rest : List ℕ)
    → IsNumeral n × (value n < 2 ^ 31)
    → Ends rest
    → scan_int (b' ' ∷ written n rest) ≡ returns (found (pos (value n)) rest)
reads_int n rest h e = scan_int-space b' ' (written n rest) refl ∙ scan_int-written n rest h.0 h.1 e

pub scan_all-int :
    (ns : List Numeral) (rest : List ℕ)
    → AreBelow (2 ^ 31) ns
    → Ends rest
    → scan_all scan_int (length ns) (spelled ns rest)
      ≡ returns (values_with (λ n. pos (value n)) ns, rest)
scan_all-int =
    scan_all-spelled scan_int (λ n. pos (value n)) (λ n. IsNumeral n × (value n < 2 ^ 31)) reads_int

-- A line with at most as many numbers as the format has directives.
pub scan_all-line :
    (modulus n : ℕ) (ns : List Numeral)
    → AreBelow modulus ns
    → length ns ≤ n
    → (rest : List ℕ) × (scan_all (scan_unsigned modulus) n (spelled ns (b'\n' ∷ []))
        ≡ returns (values ns, rest))
unfolding scan_all
scan_all-line modulus zero [] h le = (b'\n' ∷ [], refl)
scan_all-line modulus (suc n) [] h le =
    ([], unfold scan_unsigned scan_magnitude skip_space scan_sign starts_digit in refl)
scan_all-line modulus zero (m ∷ ns) h le = absurd (omega arith)
scan_all-line modulus (suc n) (m ∷ ns) h le =
    let end : Ends (b'\n' ∷ []) = unfold starts_digit in refl in
    let one =
      reads_unsigned modulus m (spelled ns (b'\n' ∷ [])) h.0 (Ends-spelled ns (b'\n' ∷ []) end) in
    let (rest, more) = scan_all-line modulus n ns h.1 (omega arith) in
    (rest, rw (one, scan_all) (rw (more, scan_all) refl))

-- Numerals have no end of a line in them.
pub digits-line :
    (ds : List ℕ) (rest : List ℕ)
    → All (λ d. d < 10) ds
    → All (λ c. (c == b'\n') ≡ false) rest
    → All (λ c. (c == b'\n') ≡ false) (digits ds ++ rest)
digits-line [] rest h r = r
digits-line (d ∷ ds) rest h r = (ground arith, digits-line ds rest h.1 r)

pub spelled-line :
    (bound : ℕ) (ns : List Numeral)
    → AreBelow bound ns
    → All (λ c. (c == b'\n') ≡ false) (spelled ns [])
spelled-line bound [] h = tt
spelled-line bound (n ∷ ns) h =
    let first = h.0.0.first in
    (refl, (ground arith, digits-line n.others _ h.0.0.others (spelled-line bound ns h.1)))

pub spelled-append : (ns : List Numeral) (rest : List ℕ) → spelled ns [] ++ rest ≡ spelled ns rest
spelled-append [] rest = refl
spelled-append (n ∷ ns) rest =
    ap (λ t. b' ' ∷ (b'0' + n.first) ∷ t)
      (append_assoc (digits n.others) (spelled ns []) rest
        ∙ ap (◌++◌ (digits n.others)) (spelled-append ns rest))

-- The first number of a line has no space before it.
pub scan_all-first {ℓ} :
    {A : Type ℓ} (scan : List ℕ → Exit (Item A)) (n : ℕ) (s : List ℕ)
    → scan (b' ' ∷ s) ≡ scan s
    → scan_all scan (suc n) (b' ' ∷ s) ≡ scan_all scan (suc n) s
unfolding scan_all
scan_all-first scan n s e = rw (e, scan_all) refl
