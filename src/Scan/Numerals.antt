-- ===== src/Scan/Numerals.antt =====
-- Numerals, and what the directives for numbers make of them.
use btl_hdh.Base.{
  ℕ, ◌==◌, ◌+◌, ◌-◌, ◌*◌, ◌<◌, ◌≡◌, refl, true, false, List, [], ◌∷◌, ◌++◌, arith, All, ◌^◌, lt→ltb,
}
use btl_hdh.Base.Int.{pos}
use btl_hdh.Base.Exit.{returns}
use btl_hdh.Scan.{
  is_digit, is_space, skip_space, found, scan_digits, scan_sign, starts_digit, scan_magnitude,
  scan_unsigned, scan_int, signed,
}

-- The digits of a numeral, with the first one apart; leading zeros are as good as others.
pub record Numeral : Type 0 where
  pub first : ℕ
  pub others : List ℕ

abbrev pub value_from : ℕ → List ℕ → ℕ
value_from acc [] = acc
value_from acc (d ∷ ds) = value_from (acc * 10 + d) ds

abbrev pub value : Numeral → ℕ
value n = value_from n.first n.others

abbrev pub digits : List ℕ → List ℕ
digits [] = []
digits (d ∷ ds) = (b'0' + d) ∷ digits ds

-- A numeral as it is written, before `rest`.
abbrev pub written : Numeral → List ℕ → List ℕ
written n rest = (b'0' + n.first) ∷ (digits n.others ++ rest)

pub record IsNumeral (n : Numeral) : Type 0 where
  pub first : n.first < 10
  pub others : All (λ d. d < 10) n.others

-- What follows does not go on with the numeral.
abbrev pub Ends : List ℕ → Type 0
Ends rest = starts_digit rest ≡ false

scan_digits-digits :
    (acc : ℕ) (ds rest : List ℕ)
    → All (λ d. d < 10) ds
    → Ends rest
    → scan_digits acc (digits ds ++ rest) ≡ (value_from acc ds, rest)
unfolding scan_digits starts_digit
scan_digits-digits acc [] [] h e = refl
scan_digits-digits acc [] (c ∷ cs) h e = rw e
scan_digits-digits acc (d ∷ ds) rest h e =
    let digit : is_digit (b'0' + d) ≡ true = ground arith in
    let less : b'0' + d - b'0' ≡ d = omega arith in
    rw (digit, less) (scan_digits-digits (acc * 10 + d) ds rest h.1 e)

pub scan_magnitude-written :
    (n : Numeral) (rest : List ℕ)
    → IsNumeral n
    → Ends rest
    → scan_magnitude (written n rest) ≡ found (false, value n) rest
unfolding scan_magnitude skip_space scan_sign starts_digit
scan_magnitude-written n rest h e =
    let black : is_space (b'0' + n.first) ≡ false = ground arith in
    let no_minus : (b'0' + n.first == b'-') ≡ false = ground arith in
    let no_plus : (b'0' + n.first == b'+') ≡ false = ground arith in
    let digit : is_digit (b'0' + n.first) ≡ true = ground arith in
    let start : 0 * 10 + n.first ≡ n.first = omega arith in
    let scanned = scan_digits-digits 0 (n.first ∷ n.others) rest (h.first, h.others) e in
    rw (black, no_minus, no_plus, digit) (rw (scanned, start) refl)

-- White space before a number is skipped.
pub scan_magnitude-space :
    (c : ℕ) (s : List ℕ) → is_space c ≡ true → scan_magnitude (c ∷ s) ≡ scan_magnitude s
unfolding scan_magnitude skip_space
scan_magnitude-space c s h = rw h

pub scan_unsigned-cong :
    (modulus : ℕ) (s t : List ℕ)
    → skip_space s ≡ skip_space t
    → scan_unsigned modulus s ≡ scan_unsigned modulus t
unfolding scan_unsigned scan_magnitude
scan_unsigned-cong modulus s t e = rw (e, scan_unsigned, scan_magnitude) refl

-- A numeral of a value of the type is read.
pub scan_unsigned-written :
    (modulus : ℕ) (n : Numeral) (rest : List ℕ)
    → IsNumeral n
    → value n < modulus
    → Ends rest
    → scan_unsigned modulus (written n rest) ≡ returns (found (value n) rest)
unfolding scan_unsigned
scan_unsigned-written modulus n rest h lt e =
    rw (scan_magnitude-written n rest h e, scan_unsigned) (rw (lt→ltb _ _ lt) refl)

pub scan_unsigned-space :
    (modulus c : ℕ) (s : List ℕ)
    → is_space c ≡ true
    → scan_unsigned modulus (c ∷ s) ≡ scan_unsigned modulus s
unfolding scan_unsigned
scan_unsigned-space modulus c s h = rw (scan_magnitude-space c s h, scan_unsigned)

pub scan_int-written :
    (n : Numeral) (rest : List ℕ)
    → IsNumeral n
    → value n < 2 ^ 31
    → Ends rest
    → scan_int (written n rest) ≡ returns (found (pos (value n)) rest)
unfolding scan_int signed
scan_int-written n rest h lt e =
    rw (scan_magnitude-written n rest h e, scan_int) (rw (lt→ltb _ _ lt) refl)

pub scan_int-space : (c : ℕ) (s : List ℕ) → is_space c ≡ true → scan_int (c ∷ s) ≡ scan_int s
unfolding scan_int
scan_int-space c s h = rw (scan_magnitude-space c s h, scan_int)
