-- ===== src/Timer/Devices.antt =====
-- The list of devices that `attach_event` makes for as many callers.
use btl_hdh.Base.{ℕ, zero, suc, ◌≡◌, ◌∙◌, List, [], ◌∷◌, has, Distinct, ltb, arith}

-- The devices `n - 1, …, 0`, before those that are there.
unfoldable pub devices : ℕ → List ℕ
devices zero = []
devices (suc n) = n ∷ devices n

pub has-devices : (n d : ℕ) → has d (devices n) ≡ ltb d n
unfolding has devices
has-devices zero d = ground arith
has-devices (suc n) d = ground (arith, has-devices n d)

pub devices-Distinct : (n : ℕ) → Distinct (devices n)
unfolding devices
devices-Distinct zero = tt
devices-Distinct (suc n) = (has-devices n n ∙ ground arith, devices-Distinct n)
