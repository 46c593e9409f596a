-- ===== src/Flat/Ranges.antt =====
-- Ranges of pages of the flat table. A range lies below 2^22, the size of the address space.
use btl_hdh.Base.{
  ℕ, zero, suc, ◌+◌, ◌*◌, ◌≤◌, ◌<◌, ◌≡◌, refl, ◌∙◌, true, ◌&&◌, Option, List, [], ◌∷◌, leb, ltb,
  ◌==◌, if◌then◌else◌, arith, length, take, drop, ◌⊎◌, lt→ltb,
}
use btl_hdh.Base.Int.{success}
use btl_hdh.Base.Chain.{Chain, node, of_list}
use btl_hdh.Base.Run.{Run, done}
use btl_hdh.Memphy.{Frame, Memphy}
use btl_hdh.Mm.{Region}
use btl_hdh.Mapping.Frames.{owned}
use btl_hdh.Flat.{
  max_pgn, minus_one, Mm, set_fpn, pte_set_entry, pte_get_entry, page_at, memset_loop,
  vmap_pgd_memset, mapped_region,
}
use btl_hdh.Flat.Entries.{has_table, pte_set_entry-WritesEntry}

page_at-aligned : (a i p : ℕ) → p ≡ a + i → p < max_pgn → page_at (a * 256) i ≡ p
unfolding page_at
page_at-aligned a i p e h = omega arith

one_blank :
    (p n q x old : ℕ)
    → x ≡ (if p == q then 0 else old)
    → (if leb (suc p) q && ltb q (suc p + n) then 0 else x)
      ≡ (if leb p q && ltb q (p + suc n) then 0 else old)
one_blank p n q x old e = ground arith

none_blank : (p q old : ℕ) → old ≡ (if leb p q && ltb q (p + 0) then 0 else old)
none_blank p q old = ground arith

memset_loop-entry :
    (mm : Mm) (a i p n q : ℕ)
    → has_table mm ≡ true
    → p ≡ a + i
    → p + n ≤ max_pgn
    → pte_get_entry (memset_loop mm (a * 256) i n) q
      ≡ (if leb p q && ltb q (p + n) then 0 else pte_get_entry mm q)
unfolding memset_loop
memset_loop-entry mm a i p zero q up at h = none_blank p q (pte_get_entry mm q)
memset_loop-entry mm a i p (suc n) q up at h =
    let within : p < max_pgn = omega arith in
    let (s, f, t, e) = pte_set_entry-WritesEntry mm p q 0 in
    let mm' = (pte_set_entry mm p 0).1 in
    rw (page_at-aligned a i p at within) (
      memset_loop-entry mm' a (suc i) (suc p) n q (t ∙ up) (omega arith) (omega arith)
      ∙ one_blank p n q (pte_get_entry mm' q) (pte_get_entry mm q)
          (e ∙ rw (up, lt→ltb p max_pgn within) refl))

-- The entry of page `q` after the pages from `p` on were mapped to frames.
unfoldable pub overlay : ℕ → List Frame → ℕ → ℕ → ℕ
overlay p [] q old = old
overlay p (f ∷ fs) q old = if p == q then set_fpn f.fpn old else overlay (suc p) fs q old

-- The FIFO list of pages, with those from `p` on enlisted.
unfoldable pub enlisted : ℕ → ℕ → Chain ℕ → Chain ℕ
enlisted p zero fifo = fifo
enlisted p (suc n) fifo = enlisted (suc p) n (node p fifo)

-- What a mapping of frames to the pages from `p` on leaves.
unfoldable pub MapsTo : ℕ → List Frame → Mm → Mm → Type 0
MapsTo p fs mm mm' =
    (mm'.fifo_pgn ≡ enlisted p (length fs) mm.fifo_pgn)
    × ((q : ℕ) → pte_get_entry mm' q ≡ overlay p fs q (pte_get_entry mm q))

-- The device with its list of free frames.
abbrev pub with_free : Memphy → List Frame → Memphy
with_free mp fs = record mp { free_fp_list = of_list fs }

-- What `vm_map_ram` of `n` pages from page `p` on comes to, with the frames `fs` free.
abbrev pub MapsRam :
    ℕ
    → ℕ
    → ℕ
    → Memphy
    → List Frame
    → Mm
    → Option Region
    → Run (ℕ × Memphy × Mm × Option Region)
    → Type 0
MapsRam owner p n mp fs mm ret_rg r =
    ((n ≤ length fs)
      × ((mm' : Mm) × (r
            ≡ done (0, with_free mp (drop n fs), mm', mapped_region (p * 256) n ret_rg))
          × MapsTo p (owned owner (take n fs)) mm mm'))
    ⊎ ((length fs < n) × (r ≡ done (minus_one, with_free mp [], mm, ret_rg)))

-- `vmap_pgd_memset` of `n` pages from page `a` on, in a process with a table, makes their entries 0 and
-- leaves the others.
vmap_pgd_memset-entry :
    (mm : Mm) (a n q : ℕ)
    → has_table mm ≡ true
    → a + n ≤ max_pgn
    → let r = vmap_pgd_memset mm (a * 256) n in
      (r.0 ≡ success)
      × (pte_get_entry r.1 q ≡ (if leb a q && ltb q (a + n) then 0 else pte_get_entry mm q))
unfolding vmap_pgd_memset
vmap_pgd_memset-entry mm a n q up h = (refl, memset_loop-entry mm a 0 a n q up (omega arith) h)
