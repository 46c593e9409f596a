-- ===== src/Regions/Pages.antt =====
-- The page that `find_victim_page` picks.
use btl_hdh.Base.{ℕ, ◌≡◌, refl, some, none, List, [], ◌∷◌, ◌++◌}
use btl_hdh.Base.Int.{success, failure}
use btl_hdh.Base.Chain.{of_list}
use btl_hdh.Base.Run.{done, fault}
use btl_hdh.Mm.{Mm}
use btl_hdh.Regions.{last_page, find_victim_page}

abbrev pub with_pages : Mm → List ℕ → Mm
with_pages mm pages = record mm { fifo_pgn = of_list pages }

last_page-of_list :
    (pages : List ℕ) (oldest : ℕ)
    → last_page (of_list (pages ++ oldest ∷ [])) ≡ done (oldest, of_list pages)
unfolding last_page
last_page-of_list [] oldest = refl
last_page-of_list (p ∷ []) oldest = refl
last_page-of_list (p ∷ q ∷ pages) oldest = rw (last_page-of_list (q ∷ pages) oldest) refl

-- The pages stand in the list from the newest to the oldest. `find_victim_page` picks the oldest and
-- leaves the others in order, if there are at least two; it returns -1 if there is none; if there is
-- exactly one, it writes through a NULL pointer.
pub find_victim_page-oldest :
    (mm : Mm) (newest oldest : ℕ) (pages : List ℕ)
    → (find_victim_page (with_pages mm (newest ∷ pages ++ oldest ∷ []))
        ≡ done (success, some oldest, with_pages mm (newest ∷ pages)))
      × (find_victim_page (with_pages mm []) ≡ done (failure, none, with_pages mm []))
      × (find_victim_page (with_pages mm (newest ∷ [])) ≡ fault)
unfolding find_victim_page last_page
find_victim_page-oldest mm newest oldest [] = (refl, refl, refl)
find_victim_page-oldest mm newest oldest (p ∷ pages) =
    (rw (last_page-of_list (p ∷ pages) oldest) refl, refl, refl)
