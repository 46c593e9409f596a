-- ===== src/Mapping/Copy.antt =====
-- What `__swap_cp_page` copies.
use btl_hdh.Base.{
  ap, ◌∙◌, ℕ, zero, suc, ◌+◌, ◌-◌, ◌*◌, ◌%◌, ◌^◌, ◌≤◌, ◌<◌, ◌≡◌, refl, true, false, ◌&&◌, some,
  ◌==◌, ltb, leb, if◌then◌else◌, update, arith,
}
use btl_hdh.Base.Int.{success}
use btl_hdh.Base.Run.{done}
use btl_hdh.Memphy.{Memphy}
use btl_hdh.Memphy.Cells.{read-random, write-random}
use btl_hdh.Mapping.{pagesz, copy_loop, data_after, swap_cp_page}
use native.Mathlib.Nat.{mod-eq_of_lt}

leb_of_lt : (a b : ℕ) → a < b → leb b a ≡ false
leb_of_lt a b h = ground arith

-- One cell more in front of those copied.
one_more :
    (from : ℕ → ℕ) (old s d i n j : ℕ)
    → (if leb (d * 4096 + suc i) j && ltb j (d * 4096 + suc i + n)
        then from (s * 4096 + (j - d * 4096))
        else (if d * 4096 + i == j then from (s * 4096 + i) else old))
      ≡ (if leb (d * 4096 + i) j && ltb j (d * 4096 + i + suc n)
          then from (s * 4096 + (j - d * 4096))
          else old)
one_more from old s d i n j = ground arith

-- One round.
copy_step :
    (raw : ℕ → ℕ) (s d i n : ℕ) (mpsrc mpdst : Memphy) (from to : ℕ → ℕ)
    → mpsrc.storage ≡ some from
    → mpsrc.rdmflg ≡ true
    → mpdst.storage ≡ some to
    → mpdst.rdmflg ≡ true
    → s * 4096 + i < mpsrc.maxsz
    → d * 4096 + i < mpdst.maxsz
    → mpsrc.maxsz < 2 ^ 31
    → mpdst.maxsz < 2 ^ 31
    → copy_loop raw s d i (suc n) mpsrc mpdst
      ≡ copy_loop raw s d
          (suc i)
          n
          mpsrc
          (record mpdst { storage = some (update to (d * 4096 + i) (from (s * 4096 + i))) })
unfolding copy_loop data_after
copy_step raw s d i n mpsrc mpdst from to src rs dst rd hs hd ms md =
    let es : (s * pagesz + i) % 2 ^ 64 ≡ s * 4096 + i = mod-eq_of_lt (omega arith) in
    let ed : (d * pagesz + i) % 2 ^ 64 ≡ d * 4096 + i = mod-eq_of_lt (omega arith) in
    simp
      (
        es,
        ed,
        read-random mpsrc from (s * 4096 + i) src rs,
        write-random mpdst to (d * 4096 + i) (from (s * 4096 + i)) dst rd,
        leb_of_lt (s * 4096 + i) mpsrc.maxsz hs,
        leb_of_lt (d * 4096 + i) mpdst.maxsz hd,
      )
      refl

-- The loop copies the cells that are left.
copy_loop-cells :
    (raw : ℕ → ℕ) (s d i n : ℕ) (mpsrc mpdst : Memphy) (from to : ℕ → ℕ)
    → mpsrc.storage ≡ some from
    → mpsrc.rdmflg ≡ true
    → mpdst.storage ≡ some to
    → mpdst.rdmflg ≡ true
    → s * 4096 + i + n ≤ mpsrc.maxsz
    → d * 4096 + i + n ≤ mpdst.maxsz
    → mpsrc.maxsz < 2 ^ 31
    → mpdst.maxsz < 2 ^ 31
    → (f : ℕ → ℕ) × (copy_loop raw s d i n mpsrc mpdst
        ≡ done (mpsrc, record mpdst { storage = some f }))
      × ((j : ℕ)
          → f j ≡ (
              if leb (d * 4096 + i) j && ltb j (d * 4096 + i + n)
              then from (s * 4096 + (j - d * 4096))
              else to j))
unfolding copy_loop data_after
copy_loop-cells raw s d i zero mpsrc mpdst from to src rs dst rd hs hd ms md =
    (to, ap (λ x. done (mpsrc, record mpdst { storage = x })) dst, λ j. ground arith)
copy_loop-cells raw s d i (suc n) mpsrc mpdst from to src rs dst rd hs hd ms md =
    let to' = update to (d * 4096 + i) (from (s * 4096 + i)) in
    let mpdst' = record mpdst { storage = some to' } in
    let (f, run, cells) =
      copy_loop-cells raw s d (suc i) n mpsrc mpdst' from to' src rs refl rd (omega arith)
        (omega arith) ms md in
    (
      f,
      copy_step raw s d i n mpsrc mpdst from to src rs dst rd (omega arith) (omega arith) ms md
          ∙ run,
      λ j. cells j ∙ one_more from (to j) s d i n j,
    )

from_zero :
    (d j x y : ℕ)
    → (if leb (d * 4096 + 0) j && ltb j (d * 4096 + 0 + 4096) then x else y)
      ≡ (if leb (d * 4096) j && ltb j (d * 4096 + 4096) then x else y)
from_zero d j x y = ground arith

-- `__swap_cp_page` between frames of two random access devices, each within its device, copies the
-- frame: afterwards each byte of the destination frame is the one at the same offset of the source
-- frame, the other bytes of the destination are as before, and the source is unchanged.
pub swap_cp_page-frames :
    (raw : ℕ → ℕ) (srcfpn dstfpn : ℕ) (mpsrc mpdst : Memphy) (from to : ℕ → ℕ)
    → mpsrc.storage ≡ some from
    → mpsrc.rdmflg ≡ true
    → mpdst.storage ≡ some to
    → mpdst.rdmflg ≡ true
    → srcfpn * 4096 + 4096 ≤ mpsrc.maxsz
    → dstfpn * 4096 + 4096 ≤ mpdst.maxsz
    → mpsrc.maxsz < 2 ^ 31
    → mpdst.maxsz < 2 ^ 31
    → (f : ℕ → ℕ) × (swap_cp_page raw mpsrc srcfpn mpdst dstfpn
        ≡ done (success, mpsrc, record mpdst { storage = some f }))
      × ((j : ℕ)
          → f j ≡ (
              if leb (dstfpn * 4096) j && ltb j (dstfpn * 4096 + 4096)
              then from (srcfpn * 4096 + (j - dstfpn * 4096))
              else to j))
unfolding swap_cp_page
swap_cp_page-frames raw s d mpsrc mpdst from to src rs dst rd hs hd ms md =
    let (f, run, cells) =
      copy_loop-cells raw s d 0 4096 mpsrc mpdst from to src rs dst rd (omega arith) (omega arith)
        ms md in
    (f, rw run refl, λ j. cells j ∙ from_zero d j (from (s * 4096 + (j - d * 4096))) (to j))
