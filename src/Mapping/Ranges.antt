-- ===== src/Mapping/Ranges.antt =====
-- The entries of a range of pages after `vmap_pgd_memset` and `vmap_page_range`. The range lies below
-- 2^57, the end of what five levels of tables and a page's offset can address.
use btl_hdh.Base.{
  ℕ, zero, suc, ◌+◌, ◌*◌, ◌%◌, ◌^◌, ◌≤◌, ◌<◌, ◌≡◌, refl, ap, ◌∙◌, Bool, true, false, ◌&&◌, Option,
  some, List, [], ◌∷◌, leb, ltb, ◌==◌, if◌then◌else◌, arith, length, take, inl, inr, Bool-cases,
}
use btl_hdh.Base.Int.{ℤ, success}
use btl_hdh.Base.Chain.{Chain, node, of_list}
use btl_hdh.Base.Run.{done}
use btl_hdh.Memphy.{Frame}
use btl_hdh.Mm.{Mm, Pgd, Region, enlist_pgn_node}
use btl_hdh.Pte.{set_fpn}
use btl_hdh.PageTable.{pte_set_entry, pte_set_fpn, pte_get_entry}
use btl_hdh.PageTable.Entries.{Written, pte_set_entry-Written, pte_set_fpn-Written}
use btl_hdh.Mapping.{
  pages_size, page_at, memset_loop, vmap_pgd_memset, map_loop, mapped_region, vmap_page_range,
  vm_map_ram,
}

pages_size-small : (i : ℕ) → i < 2 ^ 19 → pages_size i ≡ i * 4096
unfolding pages_size
pages_size-small i h = ground arith

page_at-aligned : (a i p : ℕ) → p ≡ a + i → p < 2 ^ 45 → i < 2 ^ 19 → page_at (a * 4096) i ≡ p
unfolding page_at
page_at-aligned a i p e h small = rw (pages_size-small i small) (omega arith)

-- Every `malloc` of every round succeeds.
abbrev pub NoFailure : (ℕ → ℕ → Bool) → Type 0
NoFailure malloc = (i n : ℕ) → malloc i n ≡ true

abbrev pub Blank : ℕ → ℕ → Mm → ℤ × Mm → Type 0
Blank p n mm r =
    (r.0 ≡ success)
    × ((q : ℕ)
        → q < 2 ^ 45
        → pte_get_entry r.1 q ≡ (if leb p q && ltb q (p + n) then 0 else pte_get_entry mm q))

one_blank :
    (p n q x old : ℕ)
    → p < 2 ^ 45
    → q < 2 ^ 45
    → x ≡ (if p % 2 ^ 45 == q % 2 ^ 45 then 0 else old)
    → (if leb (suc p) q && ltb q (suc p + n) then 0 else x)
      ≡ (if leb p q && ltb q (p + suc n) then 0 else old)
one_blank p n q x old h k e = ground arith

none_blank : (p q old : ℕ) → old ≡ (if leb p q && ltb q (p + 0) then 0 else old)
none_blank p q old = ground arith

memset_loop-Blank :
    (malloc : ℕ → ℕ → Bool) (mm : Mm) (a i p n : ℕ) (pgd : Pgd)
    → mm.pgd ≡ some pgd
    → NoFailure malloc
    → p ≡ a + i
    → p + n ≤ 2 ^ 45
    → i + n < 2 ^ 19
    → Blank p n mm (memset_loop malloc mm (a * 4096) i n)
unfolding memset_loop Written
memset_loop-Blank malloc mm a i p zero pgd e ok at h few =
    (refl, λ q k. none_blank p q (pte_get_entry mm q))
memset_loop-Blank malloc mm a i p (suc n) pgd e ok at h few =
    let below : p < 2 ^ 45 = omega arith in
    let (s, (pgd', e'), fifo, entries) = pte_set_entry-Written (malloc i) mm p 0 pgd e (ok i) in
    let mm' = (pte_set_entry (malloc i) mm p 0).1 in
    let (s', entries') =
      memset_loop-Blank malloc mm' a (suc i) (suc p) n pgd' e' ok (omega arith) (omega arith)
        (omega arith) in
    simp (page_at-aligned a i p at below (omega arith), s)
      (
        s',
        λ q k.
            entries' q k
            ∙ one_blank p n q (pte_get_entry mm' q) (pte_get_entry mm q) below k (entries q),
      )

-- The entry of page `q` after the pages from `p` on were mapped to frames.
unfoldable pub overlay : ℕ → List Frame → ℕ → ℕ → ℕ
overlay p [] q old = old
overlay p (f ∷ fs) q old = if p == q then set_fpn f.fpn old else overlay (suc p) fs q old

overlay-below : (p : ℕ) (fs : List Frame) (q old : ℕ) → q < p → overlay p fs q old ≡ old
unfolding overlay
overlay-below p [] q old h = refl
overlay-below p (f ∷ fs) q old h =
    let other : (p == q) ≡ false = ground arith in
    rw other (overlay-below (suc p) fs q old (omega arith))

overlay-cons :
    (p : ℕ) (f : Frame) (fs : List Frame) (q x old : ℕ)
    → p < 2 ^ 45
    → q < 2 ^ 45
    → x ≡ (if p % 2 ^ 45 == q % 2 ^ 45 then set_fpn f.fpn old else old)
    → overlay (suc p) fs q x ≡ overlay p (f ∷ fs) q old
unfolding overlay
overlay-cons p f fs q x old h k e = elim (Bool-cases (p == q)) [
  | inl b ↦
      let here : x ≡ set_fpn f.fpn old = ground arith in
      rw b (overlay-below (suc p) fs q x (ground arith) ∙ here)
  | inr b ↦ let there : x ≡ old = ground arith in rw (b, there) refl
]

-- The FIFO list of pages, with those from `p` on enlisted.
unfoldable pub enlisted : ℕ → ℕ → Chain ℕ → Chain ℕ
enlisted p zero fifo = fifo
enlisted p (suc n) fifo = enlisted (suc p) n (node p fifo)

-- What a mapping of frames to the pages from `p` on leaves.
unfoldable pub Mapped : ℕ → List Frame → Mm → Mm → Type 0
Mapped p fs mm mm' =
    (mm'.fifo_pgn ≡ enlisted p (length fs) mm.fifo_pgn)
    × ((q : ℕ) → q < 2 ^ 45 → pte_get_entry mm' q ≡ overlay p fs q (pte_get_entry mm q))

map_loop-Mapped :
    (malloc : ℕ → ℕ → Bool) (mm : Mm) (a i p n : ℕ) (fs : List Frame) (pgd : Pgd)
    → mm.pgd ≡ some pgd
    → NoFailure malloc
    → p ≡ a + i
    → p + n ≤ 2 ^ 45
    → i + n < 2 ^ 19
    → (mm' : Mm) × (map_loop malloc mm (a * 4096) i n (of_list fs) ≡ done (0, mm'))
      × Mapped p (take n fs) mm mm'
unfolding pte_get_entry map_loop take Mapped overlay enlisted Written enlist_pgn_node
map_loop-Mapped malloc mm a i p zero fs pgd e ok at h few = (mm, refl, (refl, λ q k. refl))
map_loop-Mapped malloc mm a i p (suc n) [] pgd e ok at h few = (mm, refl, (refl, λ q k. refl))
map_loop-Mapped malloc mm a i p (suc n) (f ∷ fs) pgd e ok at h few =
    let below : p < 2 ^ 45 = omega arith in
    let (s, (pgd', e'), fifo, entries) = pte_set_fpn-Written (malloc i) mm p f.fpn pgd e (ok i) in
    let r = (pte_set_fpn (malloc i) mm p f.fpn).1 in
    let r' = record r { fifo_pgn = node p r.fifo_pgn } in
    let (mm', run, (pages, entries')) =
      map_loop-Mapped malloc r' a (suc i) (suc p) n fs pgd' e' ok (omega arith) (omega arith)
        (omega arith) in
    (
      mm',
      simp (page_at-aligned a i p at below (omega arith), s) run,
      (
        pages ∙ ap (λ c. enlisted (suc p) (length (take n fs)) (node p c)) fifo,
        λ q k.
            entries' q k
            ∙ overlay-cons p f (take n fs) q (pte_get_entry r' q) (pte_get_entry mm q) below k
                (entries q),
      ),
    )

-- `vmap_pgd_memset` of `n` pages from page `a` on sets their entries to 0 and leaves every other entry
-- as it was, where the process has a page table, no `malloc` fails, the range ends below 2^57 and there
-- are less than 2^19 pages.
pub vmap_pgd_memset-Blank :
    (malloc : ℕ → ℕ → Bool) (mm : Mm) (a n : ℕ) (pgd : Pgd)
    → mm.pgd ≡ some pgd
    → NoFailure malloc
    → a + n ≤ 2 ^ 45
    → n < 2 ^ 19
    → Blank a n mm (vmap_pgd_memset malloc mm (a * 4096) n)
unfolding vmap_pgd_memset
vmap_pgd_memset-Blank malloc mm a n pgd e ok h few =
    memset_loop-Blank malloc mm a 0 a n pgd e ok (omega arith) h (omega arith)

-- `vmap_page_range` of `n` pages from page `a` on maps them to the given frames in order, up to the
-- shorter of the two: page `a + k` to frame `k`, by `pte_set_fpn`. No other entry changes, the pages
-- that are mapped are enlisted in the FIFO list, and the region returned is that of all `n` pages. The
-- process has a page table, no `malloc` fails, the range ends below 2^57, and there are less than 2^19
-- pages, so that the products of `int`s do not overflow.
pub vmap_page_range-Mapped :
    (malloc : ℕ → ℕ → Bool) (mm : Mm) (a n : ℕ) (fs : List Frame) (rg : Region) (pgd : Pgd)
    → mm.pgd ≡ some pgd
    → NoFailure malloc
    → a + n ≤ 2 ^ 45
    → n < 2 ^ 19
    → (mm' : Mm) × (vmap_page_range malloc mm (a * 4096) n (of_list fs) (some rg)
        ≡ done (0, mm', some (record { rg_start = a * 4096; rg_end = (a + n) * 4096 })))
      × Mapped a (take n fs) mm mm'
unfolding vmap_page_range mapped_region
vmap_page_range-Mapped malloc mm a n fs rg pgd e ok h few =
    let (mm', run, m) =
      map_loop-Mapped malloc mm a 0 a n fs pgd e ok (omega arith) h (omega arith) in
    let size = pages_size-small n few in
    let end' : (a * 4096 + n * 4096) % 2 ^ 64 ≡ (a + n) * 4096 = omega arith in
    (mm', rw (run, size, end') refl, m)

-- `vm_map_ram` maps nothing: whatever the range, it returns 0, says that the region is mapped, and
-- leaves the process as it is.
pub vm_map_ram-nothing :
    (malloc : ℕ → ℕ → Bool) (mm : Mm) (astart aend mapstart incpgnum : ℕ) (ret_rg : Option Region)
    → vm_map_ram malloc mm astart aend mapstart incpgnum ret_rg
      ≡ done (0, mm, mapped_region mapstart incpgnum ret_rg)
unfolding vm_map_ram vmap_page_range map_loop
vm_map_ram-nothing malloc mm astart aend mapstart zero ret_rg = refl
vm_map_ram-nothing malloc mm astart aend mapstart (suc n) ret_rg = refl
