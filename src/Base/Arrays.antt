-- ===== src/Base/Arrays.antt =====
-- A C array as a function of its index, and the list of the values in a range of indices.
use Prim.Native.Nat.{ℕ, zero, suc, ◌+◌, ◌≤◌, ◌<◌}
use mathlib.Core.Path.{◌≡◌, refl, ap, ap₂, sym, subst, ◌∙◌}
use mathlib.Core.List.{List, [], ◌∷◌, ◌++◌}
use native.Mathlib.Omega.{arith}
use mathlib.Core.Bool.{false}
use mathlib.Core.Logic.{inl, inr}
use btl_hdh.Base.Tests.{◌==◌, if◌then◌else◌, Bool-cases}

-- `a[i] = v`
abbrev pub update {ℓ} : {A : Type ℓ} → (ℕ → A) → ℕ → A → ℕ → A
update f i v j = if i == j then v else f j

-- `a[i], …, a[i + n - 1]`
unfoldable pub window {ℓ} : {A : Type ℓ} → (ℕ → A) → ℕ → ℕ → List A
window f i zero = []
window f i (suc n) = f i ∷ window f (suc i) n

module _ {ℓ} {A : Type ℓ} where
  pub window-zero : (f : ℕ → A) (i : ℕ) → window f i 0 ≡ []
  unfolding window
  window-zero f i = refl

  pub window-suc : (f : ℕ → A) (i n : ℕ) → window f i (suc n) ≡ f i ∷ window f (suc i) n
  unfolding window
  window-suc f i n = refl

  -- Equal values give equal windows.
  pub window_ext :
      (f g : ℕ → A) (i n : ℕ)
      → ((j : ℕ) → i ≤ j → j < i + n → f j ≡ g j)
      → window f i n ≡ window g i n
  unfolding window
  window_ext f g i zero h = refl
  window_ext f g i (suc n) h =
      ap₂ ◌∷◌ (h i (omega arith) (omega arith))
        (window_ext f g (suc i) n (λ j p q. h j (omega arith) (omega arith)))

  -- A write outside a window leaves it alone.
  pub window-update_below :
      (f : ℕ → A) (k i n : ℕ) (v : A) → k < i → window (update f k v) i n ≡ window f i n
  window-update_below f k i n v h = window_ext _ _ i n (λ j p q. ground arith)

  pub window-update_above :
      (f : ℕ → A) (k i n : ℕ) (v : A) → i + n ≤ k → window (update f k v) i n ≡ window f i n
  window-update_above f k i n v h = window_ext _ _ i n (λ j p q. ground arith)

  -- One more value at the end.
  pub window_snoc : (f : ℕ → A) (i n : ℕ) → window f i (suc n) ≡ window f i n ++ f (i + n) ∷ []
  unfolding window
  window_snoc f i zero = ap (λ k. f k ∷ []) (omega arith)
  window_snoc f i (suc n) =
      ap (◌∷◌ (f i))
        (window_snoc f (suc i) n ∙ ap (λ k. window f (suc i) n ++ f k ∷ []) (omega arith))

  pub window-append :
      (f : ℕ → A) (i a b : ℕ) → window f i (a + b) ≡ window f i a ++ window f (i + a) b
  unfolding window
  window-append f i zero b = ap₂ (window f) (omega arith) (omega arith)
  window-append f i (suc a) b =
      ap (λ n. window f i n) {x = suc a + b} {y = suc (a + b)} (omega arith)
      ∙ ap (◌∷◌ (f i))
          (window-append f (suc i) a b ∙ ap (λ k. window f (suc i) a ++ window f k b) (omega arith))

-- A property of every index, for the one that changed and for the others.
pub at_index {ℓ κ} :
    (d : ℕ) (P : ℕ → Type ℓ) (Q : ℕ → Type κ)
    → (P d → Q d)
    → ((x : ℕ) → (d == x) ≡ false → P x → Q x)
    → (x : ℕ) → P x
    → Q x
at_index d P Q here there x k = elim (Bool-cases (d == x)) [
  | inr off ↦ there x off k
  | inl on ↦ let at : d ≡ x = ground arith in subst Q at (here (subst P (sym at) k))
]
