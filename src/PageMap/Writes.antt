-- ===== src/PageMap/Writes.antt =====
-- A sequence of writes of entries, against any page table: what is read afterwards is the last value
-- that was written.
use btl_hdh.Base.{ℕ, ◌^◌, ◌<◌, ◌≡◌, refl, ap, ◌∙◌, List, [], ◌∷◌, All, ◌==◌, if◌then◌else◌}
use btl_hdh.PageMap.{max_pgn, PageMap}

-- A page and the entry that is written for it.
pub record Write : Type 0 where
  pub pgn : ℕ
  pub pte_val : ℕ

-- The pages are in both tables, and the values fit the entries of both.
abbrev pub AreBelow : List Write → Type 0
AreBelow ws = All (λ w. (w.pgn < max_pgn) × (w.pte_val < 2 ^ 32)) ws

-- The value of the last write for a page, or the one before all of them.
unfoldable pub last_written : List Write → ℕ → ℕ → ℕ
last_written [] q before = before
last_written (w ∷ ws) q before = last_written ws q (if w.pgn == q then w.pte_val else before)

module _ {S : Type 0} (map : PageMap S) where
  unfoldable pub set_all : List Write → S → S
  set_all [] s = s
  set_all (w ∷ ws) s = set_all ws (map.set_entry s w.pgn w.pte_val).1

  pub set_all-last_written :
      (ws : List Write) (s : S) (q : ℕ)
      → map.IsSetUp s
      → AreBelow ws
      → q < max_pgn
      → map.get_entry (set_all ws s) q ≡ last_written ws q (map.get_entry s q)
  unfolding set_all last_written
  set_all-last_written [] s q up below lt = refl
  set_all-last_written (w ∷ ws) s q up ((w_lt, fits), below) lt =
      let up' = (map.set_entry-success s w.pgn w.pte_val up w_lt).1 in
      set_all-last_written ws (map.set_entry s w.pgn w.pte_val).1 q up' below lt
      ∙ ap (last_written ws q) (map.get_entry-set_entry s w.pgn q w.pte_val up w_lt lt fits)
