-- ===== src/PageMap/Tables.antt =====
-- The five-level table of src/mm64.c and the flat table of src/mm.c.
use btl_hdh.Base.{
  ℕ, ◌%◌, ◌^◌, ◌<◌, ◌≡◌, refl, ap, ◌∙◌, sym, true, ◌==◌, lt→ltb, if◌then◌else◌, some, List, arith,
}
use btl_hdh.Base.Int.{success}
use btl_hdh.Mm.{Pgd}
use btl_hdh.PageTable.{no_tables}
use btl_hdh.PageTable.Entries.{Written, pte_set_entry-Written}
use btl_hdh.Flat.Entries.{has_table, pte_set_entry-WritesEntry}
use btl_hdh.PageMap.{max_pgn, PageMap}
use btl_hdh.PageMap.Writes.{Write, AreBelow, last_written, set_all, set_all-last_written}

-- Numbers of pages that are in both tables agree in their low 45 bits only if they are equal.
low_bits : (p q : ℕ) → p < max_pgn → q < max_pgn → (p % 2 ^ 45 == q % 2 ^ 45) ≡ (p == q)
low_bits p q h k = ground arith

module _ (mm : btl_hdh.Mm.Mm) (pgn pte_val : ℕ) (pgd : Pgd) (up : mm.pgd ≡ some pgd) where
  five-Written :
      Written (λ pte. pte_val) pgn mm (btl_hdh.PageTable.pte_set_entry (λ n. true) mm pgn pte_val)
  five-Written = pte_set_entry-Written (λ n. true) mm pgn pte_val pgd up (λ n. refl)

  pub five-success :
      let r = btl_hdh.PageTable.pte_set_entry (λ n. true) mm pgn pte_val in
      (r.0 ≡ success) × ((x : Pgd) × (r.1.pgd ≡ some x))
  unfolding Written
  five-success = let (s, t, f, e) = five-Written in (s, t)

  pub five-entry :
      (q : ℕ)
      → pgn < max_pgn
      → q < max_pgn
      → btl_hdh.PageTable.pte_get_entry
          (btl_hdh.PageTable.pte_set_entry (λ n. true) mm pgn pte_val).1
          q
        ≡ (if pgn == q then pte_val else btl_hdh.PageTable.pte_get_entry mm q)
  unfolding Written
  five-entry q lt q_lt =
      let (s, t, f, e) = five-Written in
      e q
      ∙ ap (λ b. if b then pte_val else btl_hdh.PageTable.pte_get_entry mm q)
          (low_bits pgn q lt q_lt)

-- The table of src/mm64.c, where no `malloc` fails.
abbrev pub five_levels : PageMap btl_hdh.Mm.Mm
five_levels = record {
  IsSetUp = λ mm. (pgd : Pgd) × (mm.pgd ≡ some pgd);
  get_entry = btl_hdh.PageTable.pte_get_entry;
  set_entry = btl_hdh.PageTable.pte_set_entry (λ n. true);
  set_entry-success = λ mm pgn pte_val up lt. five-success mm pgn pte_val up.0 up.1;
  get_entry-set_entry =
      λ mm pgn q pte_val up lt q_lt fits. five-entry mm pgn pte_val up.0 up.1 q lt q_lt;
}

pub flat-success :
    (mm : btl_hdh.Flat.Mm) (pgn pte_val : ℕ)
    → has_table mm ≡ true
    → pgn < max_pgn
    → let r = btl_hdh.Flat.pte_set_entry mm pgn pte_val in (r.0 ≡ success) × (has_table r.1 ≡ true)
flat-success mm pgn pte_val up lt =
    let (s, f, t, e) = pte_set_entry-WritesEntry mm pgn pgn pte_val in
    (s ∙ rw (up, lt→ltb pgn max_pgn lt) refl, t ∙ up)

pub flat-entry :
    (mm : btl_hdh.Flat.Mm) (pgn q pte_val : ℕ)
    → has_table mm ≡ true
    → pgn < max_pgn
    → pte_val < 2 ^ 32
    → btl_hdh.Flat.pte_get_entry (btl_hdh.Flat.pte_set_entry mm pgn pte_val).1 q
      ≡ (if pgn == q then pte_val else btl_hdh.Flat.pte_get_entry mm q)
flat-entry mm pgn q pte_val up lt fits =
    let (s, f, t, e) = pte_set_entry-WritesEntry mm pgn q pte_val in
    let same : pte_val % 2 ^ 32 ≡ pte_val = omega (arith, fits) in
    e ∙ rw (up, lt→ltb pgn max_pgn lt, same) refl

-- The table of src/mm.c
abbrev pub flat : PageMap btl_hdh.Flat.Mm
flat = record {
  IsSetUp = λ mm. has_table mm ≡ true;
  get_entry = btl_hdh.Flat.pte_get_entry;
  set_entry = btl_hdh.Flat.pte_set_entry;
  set_entry-success = λ mm pgn pte_val up lt. flat-success mm pgn pte_val up lt;
  get_entry-set_entry = λ mm pgn q pte_val up lt q_lt fits. flat-entry mm pgn q pte_val up lt fits;
}

-- The two page tables cannot be told apart by their entries: after the same writes for pages that both
-- have, of values below 2^32, each page reads the same in both, namely the last value
-- that was written for it, if it read the same before. Both processes have a table, and no `malloc` of
-- the five-level one fails.
pub set_all-five_levels :
    (ws : List Write) (mm : btl_hdh.Mm.Mm) (mm' : btl_hdh.Flat.Mm) (q : ℕ)
    → five_levels.IsSetUp mm
    → flat.IsSetUp mm'
    → AreBelow ws
    → q < max_pgn
    → five_levels.get_entry mm q ≡ flat.get_entry mm' q
    → let entry = five_levels.get_entry (set_all five_levels ws mm) q in
      (entry ≡ flat.get_entry (set_all flat ws mm') q)
      × (entry ≡ last_written ws q (five_levels.get_entry mm q))
set_all-five_levels ws mm mm' q up up' below lt same =
    let five = set_all-last_written five_levels ws mm q up below lt in
    (
      five ∙ ap (last_written ws q) same ∙ sym (set_all-last_written flat ws mm' q up' below lt),
      five,
    )
