-- ===== src/PageTable/Entries.antt =====
-- What the functions that write an entry do to the entries that `pte_get_entry` reads.
use btl_hdh.Base.{
  ℕ, ◌%◌, ◌^◌, ◌≡◌, ◌<◌, Bool, true, false, ◌&&◌, not, ◌==◌, refl, if◌then◌else◌, some,
  Option-cases, inl, inr, ap, ◌∙◌, ==_refl,
}
use btl_hdh.Base.Int.{ℤ, success, failure, is_negative}
use btl_hdh.Mm.{Mm, Pgd}
use btl_hdh.Pte.{set_fpn, set_swap, present, swapped, fpn_of}
use btl_hdh.Pte.Fields.{set_fpn-fields}
use btl_hdh.PageTable.{
  get_pd_from_pagenum, walk_pgd, alter_pte, pte_set_swap, pte_set_fpn, pte_set_entry, pte_get_entry,
  follow, get_pgd,
}
use btl_hdh.PageTable.Walk.{IsAt, walk_pgd-IsAt, walk_pgd-arrives}
use btl_hdh.PageTable.Index.{same_entry-get_pd_from_pagenum}

-- A write that succeeds changes the entry read for `q` by `change` if `q` agrees with `pgn` in the low
-- 45 bits; every other entry is as before, and so is each of them if the write fails.
abbrev pub Changes : (ℕ → ℕ) → ℕ → ℕ → Mm → ℤ × Mm → Type 0
Changes change pgn q mm r = pte_get_entry r.1 q ≡ (
    if not (is_negative r.0) && (pgn % 2 ^ 45 == q % 2 ^ 45)
    then change (pte_get_entry mm q)
    else pte_get_entry mm q)

arrived-result : (b : Bool) → not (is_negative (if b then success else failure)) ≡ b
arrived-result true = refl
arrived-result false = refl

alter_pte-Changes :
    (malloc : ℕ → Bool) (mm : Mm) (pgn q : ℕ) (change : ℕ → ℕ)
    → Changes change pgn q mm (alter_pte malloc mm pgn change)
unfolding alter_pte pte_get_entry follow IsAt
alter_pte-Changes malloc mm pgn q change = elim (Option-cases mm.pgd) [
  | inl e ↦ simp (e, alter_pte, follow) refl
  | inr (pgd, e) ↦
      let w = walk_pgd malloc (get_pd_from_pagenum pgn) change pgd in
      let h =
        walk_pgd-IsAt malloc (get_pd_from_pagenum pgn) (get_pd_from_pagenum q) change pgd
        ∙ ap
            (λ b.
              if w.arrived && b
              then change (get_pgd (get_pd_from_pagenum q) pgd)
              else get_pgd (get_pd_from_pagenum q) pgd)
            (same_entry-get_pd_from_pagenum pgn q) in
      simp (e, alter_pte, follow, arrived-result w.arrived) h
]

-- The three functions that write the entry of a page write that entry and no other, also where they
-- make tables on the way; if one fails, every entry reads as before. Page numbers have the same
-- entry if they agree in their low 45 bits.
pub pte_get_entry-pte_set :
    (malloc : ℕ → Bool) (mm : Mm) (pgn q fpn swptyp swpoff pte_val : ℕ)
    → Changes (set_fpn fpn) pgn q mm (pte_set_fpn malloc mm pgn fpn)
      × Changes (set_swap swptyp swpoff) pgn q mm (pte_set_swap malloc mm pgn swptyp swpoff)
      × Changes (λ pte. pte_val) pgn q mm (pte_set_entry malloc mm pgn pte_val)
unfolding pte_set_fpn pte_set_swap pte_set_entry
pte_get_entry-pte_set malloc mm pgn q fpn swptyp swpoff pte_val = (
  alter_pte-Changes malloc mm pgn q (set_fpn fpn),
  alter_pte-Changes malloc mm pgn q (set_swap swptyp swpoff),
  alter_pte-Changes malloc mm pgn q (λ pte. pte_val),
)

alter_pte-success :
    (malloc : ℕ → Bool) (mm : Mm) (pgn : ℕ) (change : ℕ → ℕ) (pgd : Pgd)
    → mm.pgd ≡ some pgd
    → ((n : ℕ) → malloc n ≡ true)
    → (alter_pte malloc mm pgn change).0 ≡ success
unfolding alter_pte
alter_pte-success malloc mm pgn change pgd e ok =
    simp (e, alter_pte, walk_pgd-arrives malloc (get_pd_from_pagenum pgn) change ok pgd) refl

-- Where the process has a page table and no `malloc` fails, `pte_set_fpn` succeeds, and the entry of
-- the page is then present, not swapped, and has the frame number, cut to 32 bits.
pte_set_fpn-maps :
    (malloc : ℕ → Bool) (mm : Mm) (pgn fpn : ℕ) (pgd : Pgd)
    → mm.pgd ≡ some pgd
    → ((n : ℕ) → malloc n ≡ true)
    → pte_get_entry mm pgn < 2 ^ 64
    → let r = pte_set_fpn malloc mm pgn fpn in
      let pte = pte_get_entry r.1 pgn in
      (r.0 ≡ success) × (present pte ≡ 1) × (swapped pte ≡ 0) × (fpn_of pte ≡ fpn % 2 ^ 32)
unfolding pte_set_fpn
pte_set_fpn-maps malloc mm pgn fpn pgd e ok word =
    let s = alter_pte-success malloc mm pgn (set_fpn fpn) pgd e ok in
    let h : pte_get_entry (alter_pte malloc mm pgn (set_fpn fpn)).1 pgn
        ≡ set_fpn fpn (pte_get_entry mm pgn) =
      alter_pte-Changes malloc mm pgn pgn (set_fpn fpn) ∙ rw (s, ==_refl (pgn % 2 ^ 45)) refl in
    let (p, w, f, d, u, b) = set_fpn-fields fpn (pte_get_entry mm pgn) word in
    (s, ap present h ∙ p, ap swapped h ∙ w, ap fpn_of h ∙ f)

-- A write to a process with a page table, where no `malloc` fails: it succeeds, the process has a
-- page table again and the same list of pages, and the entry is changed.
unfoldable pub Written : (ℕ → ℕ) → ℕ → Mm → ℤ × Mm → Type 0
Written change pgn mm r =
    (r.0 ≡ success)
    × ((pgd : Pgd) × (r.1.pgd ≡ some pgd))
    × (r.1.fifo_pgn ≡ mm.fifo_pgn)
    × ((q : ℕ)
        → pte_get_entry r.1 q ≡ (
            if pgn % 2 ^ 45 == q % 2 ^ 45 then change (pte_get_entry mm q) else pte_get_entry mm q))

alter_pte-Written :
    (malloc : ℕ → Bool) (mm : Mm) (pgn : ℕ) (change : ℕ → ℕ) (pgd : Pgd)
    → mm.pgd ≡ some pgd
    → ((n : ℕ) → malloc n ≡ true)
    → Written change pgn mm (alter_pte malloc mm pgn change)
unfolding Written alter_pte
alter_pte-Written malloc mm pgn change pgd e ok =
    let s = alter_pte-success malloc mm pgn change pgd e ok in
    (
      s,
      ((walk_pgd malloc (get_pd_from_pagenum pgn) change pgd).table, simp (e, alter_pte) refl),
      simp (e, alter_pte) refl,
      λ q. alter_pte-Changes malloc mm pgn q change ∙ rw s refl,
    )

pub pte_set_entry-Written :
    (malloc : ℕ → Bool) (mm : Mm) (pgn pte_val : ℕ) (pgd : Pgd)
    → mm.pgd ≡ some pgd
    → ((n : ℕ) → malloc n ≡ true)
    → Written (λ pte. pte_val) pgn mm (pte_set_entry malloc mm pgn pte_val)
unfolding pte_set_entry
pte_set_entry-Written malloc mm pgn pte_val = alter_pte-Written malloc mm pgn (λ pte. pte_val)

pub pte_set_fpn-Written :
    (malloc : ℕ → Bool) (mm : Mm) (pgn fpn : ℕ) (pgd : Pgd)
    → mm.pgd ≡ some pgd
    → ((n : ℕ) → malloc n ≡ true)
    → Written (set_fpn fpn) pgn mm (pte_set_fpn malloc mm pgn fpn)
unfolding pte_set_fpn
pte_set_fpn-Written malloc mm pgn fpn = alter_pte-Written malloc mm pgn (set_fpn fpn)
