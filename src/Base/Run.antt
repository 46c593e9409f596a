-- ===== src/Base/Run.antt =====
-- A computation in C that may do what the language leaves undefined: read through a wild or NULL
-- pointer, or outside an object.

pub data Run {ℓ} (A : Type ℓ) : Type ℓ where
  done : A → Run A
  fault : Run A

infixl 5 ◌>>=◌
abbrev pub ◌>>=◌ {ℓ κ} : {A : Type ℓ} {B : Type κ} → Run A → (A → Run B) → Run B
done a >>= f = f a
fault >>= f = fault
