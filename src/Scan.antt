-- ===== src/Scan.antt =====
-- What src/os.c and src/loader.c use of the C library: the directives of the `scanf` functions, `fgets`
-- and `strcmp`. A file is the list of its bytes, none of them 0. A number that its type cannot hold
-- is undefined behaviour.
pub mod Numerals
pub mod Words
mod Tests
use Prim.Native.Char.{code}
use Prim.Native.String.{String}
use btl_hdh.Base.{
  ℕ, zero, suc, ◌+◌, ◌-◌, ◌*◌, ◌%◌, ◌^◌, Bool, true, false, ◌&&◌, ◌||◌, Option, none, some, List,
  [], ◌∷◌, ◌==◌, ltb, leb, if◌then◌else◌,
}
use btl_hdh.Base.Int.{ℤ, pos, negsuc}
use btl_hdh.Base.Exit.{Exit, returns, exits, faults}

abbrev pub codes : String → List ℕ
codes String.[] = []
codes (String.◌∷◌ c s) = code c ∷ codes s

-- `isspace`
abbrev pub is_space : ℕ → Bool
is_space c = c == b' ' || (leb b'\t' c && leb c b'\r')

abbrev pub is_digit : ℕ → Bool
is_digit c = leb b'0' c && leb c b'9'

-- White space in a format.
unfoldable pub skip_space : List ℕ → List ℕ
skip_space [] = []
skip_space (c ∷ cs) = if is_space c then skip_space cs else c ∷ cs

-- What a directive finds, or where it stopped.
pub data Item {ℓ} (A : Type ℓ) : Type ℓ where
  found : A → List ℕ → Item A
  missing : List ℕ → Item A

unfoldable pub scan_digits : ℕ → List ℕ → ℕ × List ℕ
scan_digits acc [] = (acc, [])
scan_digits acc (c ∷ cs) =
    if is_digit c then scan_digits (acc * 10 + (c - b'0')) cs else (acc, c ∷ cs)

-- Whether there is a minus, and what follows the sign.
unfoldable pub scan_sign : List ℕ → Bool × List ℕ
scan_sign [] = (false, [])
scan_sign (c ∷ cs) =
    if c == b'-' then (true, cs) else if c == b'+' then (false, cs) else (false, c ∷ cs)

unfoldable pub starts_digit : List ℕ → Bool
starts_digit [] = false
starts_digit (c ∷ cs) = is_digit c

unfoldable pub scan_magnitude : List ℕ → Item (Bool × ℕ)
scan_magnitude s =
    let (minus, t) = scan_sign (skip_space s) in
    let (n, rest) = scan_digits 0 t in if starts_digit t then found (minus, n) rest else missing t

-- `%u`, `%lu` and `%llu`, for a type of `modulus` values; a minus is taken as `strtoul` takes it.
unfoldable pub scan_unsigned : ℕ → List ℕ → Exit (Item ℕ)
scan_unsigned modulus s = elim (scan_magnitude s) [
  | missing rest ↦ returns (missing rest)
  | found (minus, n) rest ↦
      if ltb n modulus
      then returns (found (if minus then (modulus - n) % modulus else n) rest)
      else faults
]

-- The `int` of a sign and a magnitude.
unfoldable pub signed : Bool → ℕ → Exit ℤ
signed false n = if ltb n (2 ^ 31) then returns (pos n) else faults
signed true zero = returns (pos 0)
signed true (suc n) = if ltb n (2 ^ 31) then returns (negsuc n) else faults

-- `%d`
unfoldable pub scan_int : List ℕ → Exit (Item ℤ)
scan_int s = elim (scan_magnitude s) [
  | missing rest ↦ returns (missing rest)
  | found (minus, n) rest ↦ elim (signed minus n) [
    | returns v ↦ returns (found v rest)
    | exits ↦ exits
    | faults ↦ faults
  ]
]

-- A format of `n` directives of one kind: the values that it stores, and what is left. It stops at the first
-- directive that finds nothing.
unfoldable pub scan_all {ℓ} :
    {A : Type ℓ} → (List ℕ → Exit (Item A)) → ℕ → List ℕ → Exit (List A × List ℕ)
scan_all scan zero s = returns ([], s)
scan_all scan (suc n) s = elim (scan s) [
  | exits ↦ exits
  | faults ↦ faults
  | returns (missing rest) ↦ returns ([], rest)
  | returns (found a rest) ↦ elim (scan_all scan n rest) [
    | exits ↦ exits
    | faults ↦ faults
    | returns (as', rest') ↦ returns (a ∷ as', rest')
  ]
]

unfoldable pub take_word : List ℕ → List ℕ
take_word [] = []
take_word (c ∷ cs) = if is_space c then [] else c ∷ take_word cs

unfoldable pub drop_word : List ℕ → List ℕ
drop_word [] = []
drop_word (c ∷ cs) = if is_space c then c ∷ cs else drop_word cs

abbrev word_at : List ℕ → Option (List ℕ × List ℕ)
word_at [] = none
word_at (c ∷ cs) = some (take_word (c ∷ cs), drop_word (c ∷ cs))

-- `%s`
unfoldable pub scan_word : List ℕ → Option (List ℕ × List ℕ)
scan_word s = word_at (skip_space s)

-- The first line, with its end, and what follows it, where at most `n` bytes are read.
unfoldable pub take_line : ℕ → List ℕ → List ℕ
take_line zero s = []
take_line (suc n) [] = []
take_line (suc n) (c ∷ cs) = if c == b'\n' then c ∷ [] else c ∷ take_line n cs

unfoldable pub drop_line : ℕ → List ℕ → List ℕ
drop_line zero s = s
drop_line (suc n) [] = []
drop_line (suc n) (c ∷ cs) = if c == b'\n' then cs else drop_line n cs

-- `fgets`; NULL at the end of the file.
unfoldable pub fgets : ℕ → List ℕ → Option (List ℕ × List ℕ)
fgets size [] = none
fgets size (c ∷ cs) = some (take_line (size - 1) (c ∷ cs), drop_line (size - 1) (c ∷ cs))

-- `strcmp` gives 0.
unfoldable pub same : List ℕ → List ℕ → Bool
same [] [] = true
same (a ∷ as') (b ∷ bs) = a == b && same as' bs
same _ _ = false
