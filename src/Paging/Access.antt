-- ===== src/Paging/Access.antt =====
-- Reads and writes of bytes on pages that are in memory.
use btl_hdh.Base.{
  ℕ, ◌+◌, ◌*◌, ◌/◌, ◌%◌, ◌^◌, ◌≤◌, ◌<◌, ◌≡◌, refl, sym, ap, ◌∙◌, Bool, true, false, some, ◌==◌, leb,
  if◌then◌else◌, update, arith, Bool-cases, inl, inr, subst,
}
use btl_hdh.Base.Int.{success}
use btl_hdh.Base.Run.{done, ◌>>=◌}
use btl_hdh.Memphy.Cells.{read-random, write-random}
use btl_hdh.Mm.{Mm, Pgd}
use btl_hdh.Pte.{present, fpn_of, set_dirty}
use btl_hdh.PageTable.{pte_get_entry, pte_set_entry}
use btl_hdh.PageTable.Entries.{Written, pte_set_entry-Written}
use btl_hdh.Mapping.{pagesz, data_after}
use btl_hdh.Paging.{Devices, sys_memmap, pg_getpage, phyaddr, pg_getval, pg_setval}

-- The page of the address is in memory, in a frame of the device.
pub record IsMapped (krnl : Devices) (mm : Mm) (addr : ℕ) : Type 0 where
  pub is_present : present (pte_get_entry mm (addr / pagesz)) ≡ 1
  pub word : pte_get_entry mm (addr / pagesz) < 2 ^ 64
  pub within : fpn_of (pte_get_entry mm (addr / pagesz)) * 4096 + 4096 ≤ krnl.mram.maxsz

-- Where the byte of the address stands in memory.
unfoldable pub place : Mm → ℕ → ℕ
place mm addr = fpn_of (pte_get_entry mm (addr / pagesz)) * 4096 + addr % 4096

set_dirty-fields :
    (pte : ℕ)
    → pte < 2 ^ 64
    → (present (set_dirty pte) ≡ present pte)
      × (fpn_of (set_dirty pte) ≡ fpn_of pte)
      × (set_dirty pte < 2 ^ 64)
unfolding set_dirty present fpn_of
set_dirty-fields pte h = omega arith

in_frame :
    (f o size : ℕ)
    → o < 4096
    → f * 4096 + 4096 ≤ size
    → size < 2 ^ 31
    → ((f * 2 ^ 12 + o) % 2 ^ 64 ≡ f * 4096 + o) × (leb size (f * 4096 + o) ≡ false)
in_frame f o size h k small = (omega arith, ground arith)

phyaddr-place :
    (krnl : Devices) (mm : Mm) (addr : ℕ)
    → IsMapped krnl mm addr
    → krnl.mram.maxsz < 2 ^ 31
    → (phyaddr (fpn_of (pte_get_entry mm (addr / pagesz))) addr ≡ place mm addr)
      × (leb krnl.mram.maxsz (place mm addr) ≡ false)
unfolding phyaddr place
phyaddr-place krnl mm addr m small =
    in_frame (fpn_of (pte_get_entry mm (addr / pagesz))) (addr % 4096) krnl.mram.maxsz (omega arith)
      m.within small

pg_getpage-present :
    (raw : ℕ → ℕ) (malloc_out malloc_in : ℕ → Bool) (krnl : Devices) (mm : Mm) (pgn : ℕ)
    → present (pte_get_entry mm pgn) ≡ 1
    → pg_getpage raw malloc_out malloc_in krnl mm pgn
      ≡ done (some (fpn_of (pte_get_entry mm pgn)), krnl, mm)
unfolding pg_getpage
pg_getpage-present raw malloc_out malloc_in krnl mm pgn e = rw e refl

pg_getval-mapped :
    (raw : ℕ → ℕ) (malloc_out malloc_in : ℕ → Bool) (krnl : Devices) (mm : Mm) (addr : ℕ)
    (cells : ℕ → ℕ)
    → IsMapped krnl mm addr
    → krnl.mram.storage ≡ some cells
    → krnl.mram.rdmflg ≡ true
    → krnl.mram.maxsz < 2 ^ 31
    → pg_getval raw malloc_out malloc_in krnl mm addr
      ≡ done (some (cells (place mm addr)), krnl, mm)
unfolding pg_getval sys_memmap data_after
pg_getval-mapped raw malloc_out malloc_in krnl mm addr cells m stands random small =
    let (at, inside) = phyaddr-place krnl mm addr m small in
    simp
      (
        pg_getpage-present raw malloc_out malloc_in krnl mm (addr / pagesz) m.is_present,
        at,
        read-random krnl.mram cells (place mm addr) stands random,
        inside,
      )
      refl

-- The device with another byte.
abbrev with_byte : Devices → (ℕ → ℕ) → ℕ → ℕ → Devices
with_byte krnl cells p v = record krnl {
  mram = record krnl.mram { storage = some (update cells p v) };
}

-- The address space with the dirty bit of the page of an address set.
abbrev with_dirty : (ℕ → Bool) → Mm → ℕ → Mm
with_dirty malloc_dirty mm addr =
    (pte_set_entry malloc_dirty mm (addr / pagesz) (set_dirty (pte_get_entry mm (addr / pagesz)))).1

pg_setval-mapped :
    (raw : ℕ → ℕ) (malloc_out malloc_in malloc_dirty : ℕ → Bool) (krnl : Devices) (mm : Mm)
    (addr v : ℕ) (cells : ℕ → ℕ)
    → IsMapped krnl mm addr
    → krnl.mram.storage ≡ some cells
    → krnl.mram.rdmflg ≡ true
    → krnl.mram.maxsz < 2 ^ 31
    → pg_setval raw malloc_out malloc_in malloc_dirty krnl mm addr v
      ≡ done (success, with_byte krnl cells (place mm addr) v, with_dirty malloc_dirty mm addr)
unfolding pg_setval sys_memmap
pg_setval-mapped raw malloc_out malloc_in malloc_dirty krnl mm addr v cells m stands random small =
    let (at, inside) = phyaddr-place krnl mm addr m small in
    simp
      (
        pg_getpage-present raw malloc_out malloc_in krnl mm (addr / pagesz) m.is_present,
        at,
        write-random krnl.mram cells (place mm addr) v stands random,
        inside,
      )
      refl

-- The dirty bit changes neither where a page is nor whether it is present.
entry_kept :
    (malloc_dirty : ℕ → Bool) (mm : Mm) (pgn q : ℕ) (pgd : Pgd)
    → mm.pgd ≡ some pgd
    → ((n : ℕ) → malloc_dirty n ≡ true)
    → pgn < 2 ^ 45
    → q < 2 ^ 45
    → pte_get_entry mm q < 2 ^ 64
    → let pte =
        pte_get_entry (pte_set_entry malloc_dirty mm pgn (set_dirty (pte_get_entry mm pgn))).1 q in
      (present pte ≡ present (pte_get_entry mm q))
      × (fpn_of pte ≡ fpn_of (pte_get_entry mm q))
      × (pte < 2 ^ 64)
unfolding Written
entry_kept malloc_dirty mm pgn q pgd e ok hp hq word =
    let (s, g, fifo, entries) =
      pte_set_entry-Written malloc_dirty mm pgn (set_dirty (pte_get_entry mm pgn)) pgd e ok in
    elim (Bool-cases (pgn % 2 ^ 45 == q % 2 ^ 45)) [
      | inl b ↦
          let same : pgn ≡ q = ground arith in
          let to : pte_get_entry
                (pte_set_entry malloc_dirty mm pgn (set_dirty (pte_get_entry mm pgn))).1 q
              ≡ set_dirty (pte_get_entry mm q) =
            entries q ∙ rw b (ap (λ k. set_dirty (pte_get_entry mm k)) same) in
          let (p, f, w) = set_dirty-fields (pte_get_entry mm q) word in
          (ap present to ∙ p, ap fpn_of to ∙ f, subst (λ x. x < 2 ^ 64) (sym to) w)
      | inr b ↦
          let to : pte_get_entry
                (pte_set_entry malloc_dirty mm pgn (set_dirty (pte_get_entry mm pgn))).1 q
              ≡ pte_get_entry mm q =
            entries q ∙ rw b refl in
          (ap present to, ap fpn_of to, subst (λ x. x < 2 ^ 64) (sym to) word)
    ]

-- A byte that is written to an address of a page in memory is the one that is read back: where the
-- addresses lie below 2^57 on pages that are present, in frames within a random access memory of less
-- than 2^31 bytes, the process has a page table and no `malloc` fails for the dirty bit, a read after a
-- write gives the byte written if both addresses stand at the same place of memory, and else the byte
-- that stood there before.
pub pg_getval-pg_setval :
    (raw : ℕ → ℕ) (malloc_out malloc_in malloc_dirty : ℕ → Bool) (krnl : Devices) (mm : Mm)
    (a b v : ℕ) (cells : ℕ → ℕ) (pgd : Pgd)
    → mm.pgd ≡ some pgd
    → ((n : ℕ) → malloc_dirty n ≡ true)
    → a < 2 ^ 57
    → b < 2 ^ 57
    → IsMapped krnl mm a
    → IsMapped krnl mm b
    → krnl.mram.storage ≡ some cells
    → krnl.mram.rdmflg ≡ true
    → krnl.mram.maxsz < 2 ^ 31
    → (do
      (ret, krnl', mm') ← pg_setval raw malloc_out malloc_in malloc_dirty krnl mm a v
      (value, krnl'', mm'') ← pg_getval raw malloc_out malloc_in krnl' mm' b
      done value)
      ≡ done (some (if place mm a == place mm b then v else cells (place mm b)))
unfolding place
pg_getval-pg_setval raw malloc_out malloc_in malloc_dirty krnl mm a b v cells pgd e ok ha hb ma mb
      stands random small =
    let krnl' = with_byte krnl cells (place mm a) v in
    let mm' = with_dirty malloc_dirty mm a in
    let (p, f, w) =
      entry_kept malloc_dirty mm (a / pagesz) (b / pagesz) pgd e ok (omega arith) (omega arith)
        mb.word in
    let mapped : IsMapped krnl' mm' b = record {
      is_present = p ∙ mb.is_present;
      word = w;
      within = subst (λ n. n * 4096 + 4096 ≤ krnl.mram.maxsz) (sym f) mb.within;
    } in
    let wrote =
      pg_setval-mapped raw malloc_out malloc_in malloc_dirty krnl mm a v cells ma stands random
        small in
    let got =
      pg_getval-mapped raw malloc_out malloc_in krnl' mm' b (update cells (place mm a) v) mapped
        refl random small in
    ap (λ r. r >>= λ x. pg_getval raw malloc_out malloc_in x.1 x.2 b >>= λ y. done y.0) wrote
    ∙ ap (λ r. r >>= λ y. done y.0) got
    ∙ ap (λ n. done (some (update cells (place mm a) v (n * 4096 + b % 4096)))) f
