-- ===== src/Base/Lists.antt =====
-- Lists measured and indexed by native numbers, under the library's names.
use Prim.Native.Nat.{ℕ, zero, suc, ◌+◌}
use mathlib.Core.Path.{◌≡◌, refl, ap}
use mathlib.Core.Bool.{Bool, true, false}
use mathlib.Core.List.{List, [], ◌∷◌, ◌++◌}
use native.Mathlib.Omega.{arith}
use btl_hdh.Base.Tests.{◌==◌, if◌then◌else◌}
use btl_hdh.Base.Arrays.{window}

module _ {ℓ} {A : Type ℓ} where
  abbrev pub length : List A → ℕ
  length [] = 0
  length (x ∷ xs) = suc (length xs)

  pub length-append : (xs ys : List A) → length (xs ++ ys) ≡ length xs + length ys
  length-append [] ys = omega arith
  length-append (x ∷ xs) ys = omega (arith, length-append xs ys)

  pub length-window : (f : ℕ → A) (i n : ℕ) → length (window f i n) ≡ n
  unfolding window
  length-window f i zero = refl
  length-window f i (suc n) = ap suc (length-window f (suc i) n)

module _ {ℓ} {A : Type ℓ} where
  -- The first `n` items, and what follows them.
  unfoldable pub take : ℕ → List A → List A
  take zero xs = []
  take (suc n) [] = []
  take (suc n) (x ∷ xs) = x ∷ take n xs

  unfoldable pub drop : ℕ → List A → List A
  drop zero xs = xs
  drop (suc n) [] = []
  drop (suc n) (x ∷ xs) = drop n xs

-- Every item has the property.
abbrev pub All {ℓ κ} : {A : Type ℓ} → (A → Type κ) → List A → Type κ
All P [] = Unit
All P (x ∷ xs) = P x × All P xs

-- The first occurrence of a number goes.
unfoldable pub remove_first : ℕ → List ℕ → List ℕ
remove_first p [] = []
remove_first p (x ∷ xs) = if x == p then xs else x ∷ remove_first p xs

-- How often a number occurs.
unfoldable pub count : ℕ → List ℕ → ℕ
count p [] = 0
count p (x ∷ xs) = if x == p then suc (count p xs) else count p xs

pub count-append : (p : ℕ) (xs ys : List ℕ) → count p (xs ++ ys) ≡ count p xs + count p ys
unfolding count
count-append p [] ys = omega arith
count-append p (x ∷ xs) ys = ground (arith, count-append p xs ys)

unfoldable pub has : ℕ → List ℕ → Bool
has p [] = false
has p (x ∷ xs) = if x == p then true else has p xs

-- A number that occurs is counted once less when its first occurrence goes.
pub count-remove_first :
    (p q : ℕ) (xs : List ℕ)
    → has p xs ≡ true
    → count q (remove_first p xs) + (if p == q then 1 else 0) ≡ count q xs
unfolding count remove_first has
count-remove_first p q [] h = cc
count-remove_first p q (x ∷ xs) h = ground (arith, count-remove_first p q xs)

-- No number occurs twice.
abbrev pub Distinct : List ℕ → Type 0
Distinct [] = Unit
Distinct (x ∷ xs) = (has x xs ≡ false) × Distinct xs
