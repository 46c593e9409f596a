-- ===== src/Flat/Entries.antt =====
-- What the functions that write an entry of the flat table do to the entries that `pte_get_entry` reads.
use btl_hdh.Base.{
  ℕ, ◌%◌, ◌^◌, ◌≡◌, refl, Bool, true, false, ◌&&◌, ◌==◌, leb, ltb, if◌then◌else◌, some, none,
  Option-cases, Bool-cases, inl, inr, ap, ◌∙◌, sym, arith,
}
use btl_hdh.Base.Int.{ℤ, success, failure}
use btl_hdh.Flat.{
  max_pgn, Mm, set_fpn, set_swap, alter_pte, pte_set_swap, pte_set_fpn, pte_set_entry,
  pte_get_entry,
}

-- Whether the process has a table.
abbrev pub has_table : Mm → Bool
has_table mm = elim mm.pgd [ none ↦ false | some pgd ↦ true ]

-- A write of page `pgn` succeeds exactly if there is a table and the page is within it. Then the entry
-- of the page is changed by `change`, and every other entry is as before; else all are.
abbrev pub WritesEntry : (ℕ → ℕ) → ℕ → ℕ → Mm → ℤ × Mm → Type 0
WritesEntry change pgn q mm r =
    let works = has_table mm && ltb pgn max_pgn in
    (r.0 ≡ (if works then success else failure))
    × (r.1.fifo_pgn ≡ mm.fifo_pgn)
    × (has_table r.1 ≡ has_table mm)
    × (pte_get_entry r.1 q
        ≡ (if works && (pgn == q) then change (pte_get_entry mm q) else pte_get_entry mm q))

pub alter_pte-WritesEntry :
    (mm : Mm) (pgn q : ℕ) (change : ℕ → ℕ) → WritesEntry change pgn q mm (alter_pte mm pgn change)
unfolding alter_pte pte_get_entry
alter_pte-WritesEntry mm pgn q change = elim (Option-cases mm.pgd) [
  | inl e ↦ rw (e, alter_pte, pte_get_entry) (refl, refl, rw e refl, rw e refl)
  | inr (pgd, e) ↦ elim (Bool-cases (leb max_pgn pgn)) [
    | inl out ↦
        let beyond : ltb pgn max_pgn ≡ false = ground arith in
        rw (e, out, beyond, alter_pte, pte_get_entry) (refl, refl, rw e refl, rw e refl)
    | inr on ↦
        let within : ltb pgn max_pgn ≡ true = ground arith in
        elim (Bool-cases (pgn == q)) [
          | inr off ↦ rw (e, on, within, off, alter_pte, pte_get_entry) (refl, refl, refl, refl)
          | inl here ↦
              let same : pgn ≡ q = ground arith in
              let q_on : leb max_pgn q ≡ false = ap (leb max_pgn) (sym same) ∙ on in
              rw (e, on, within, here, q_on, alter_pte, pte_get_entry)
                (refl, refl, refl, ap (λ k. change (pgd k)) same)
        ]
  ]
]

-- `pte_set_fpn`, `pte_set_swap` and `pte_set_entry` of the flat table succeed exactly if there is a
-- table and the page number is below 2^14. Then they write the entry of that page and no other; if
-- they fail, every entry is as before. Neither changes the list of pages.
pub flat_entries :
    (mm : Mm) (pgn q fpn swptyp swpoff pte_val : ℕ)
    → WritesEntry (set_fpn fpn) pgn q mm (pte_set_fpn mm pgn fpn)
      × WritesEntry (set_swap swptyp swpoff) pgn q mm (pte_set_swap mm pgn swptyp swpoff)
      × WritesEntry (λ pte. pte_val % 2 ^ 32) pgn q mm (pte_set_entry mm pgn pte_val)
unfolding pte_set_fpn pte_set_swap pte_set_entry
flat_entries mm pgn q fpn swptyp swpoff pte_val = (
  alter_pte-WritesEntry mm pgn q (set_fpn fpn),
  alter_pte-WritesEntry mm pgn q (set_swap swptyp swpoff),
  alter_pte-WritesEntry mm pgn q (λ pte. pte_val % 2 ^ 32),
)

pub pte_set_entry-WritesEntry :
    (mm : Mm) (pgn q pte_val : ℕ)
    → WritesEntry (λ pte. pte_val % 2 ^ 32) pgn q mm (pte_set_entry mm pgn pte_val)
unfolding pte_set_entry
pte_set_entry-WritesEntry mm pgn q pte_val =
    alter_pte-WritesEntry mm pgn q (λ pte. pte_val % 2 ^ 32)

pub pte_set_fpn-WritesEntry :
    (mm : Mm) (pgn q fpn : ℕ) → WritesEntry (set_fpn fpn) pgn q mm (pte_set_fpn mm pgn fpn)
unfolding pte_set_fpn
pte_set_fpn-WritesEntry mm pgn q fpn = alter_pte-WritesEntry mm pgn q (set_fpn fpn)
