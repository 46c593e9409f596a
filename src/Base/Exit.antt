-- ===== src/Base/Exit.antt =====
-- A part of the program that may call `exit(1)`, or do what C leaves undefined.

pub data Exit {ℓ} (A : Type ℓ) : Type ℓ where
  returns : A → Exit A
  exits : Exit A
  faults : Exit A

infixl 5 ◌>>=◌
abbrev pub ◌>>=◌ {ℓ κ} : {A : Type ℓ} {B : Type κ} → Exit A → (A → Exit B) → Exit B
returns a >>= f = f a
exits >>= f = exits
faults >>= f = faults
