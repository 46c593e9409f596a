-- ===== src/Base/Chain.antt =====
-- A singly linked list that is reached through a pointer. Its last pointer is NULL, or was never
-- written after `malloc`: to follow that one is undefined behaviour.
use mathlib.Core.List.{List, [], ◌∷◌}

pub data Chain {ℓ} (A : Type ℓ) : Type ℓ where
  null : Chain A
  wild : Chain A
  node : A → Chain A → Chain A

-- The chain that holds a list and ends in NULL.
abbrev pub of_list {ℓ} : {A : Type ℓ} → List A → Chain A
of_list [] = null
of_list (x ∷ xs) = node x (of_list xs)
