-- ===== src/Memphy/Cursor.antt =====
-- The cursor of a sequential device.
use btl_hdh.Base.{
  ℕ, zero, suc, ◌+◌, ◌%◌, ◌≤◌, ◌<◌, ◌≡◌, ap, sym, ◌∙◌, arith, leb, if◌then◌else◌, inl, inr,
  Bool-cases, ltb, true, false,
}
use native.Mathlib.Nat.{mod-eq_of_lt, mod_self}
use btl_hdh.Memphy.{Memphy, mv_csr_loop, mv_csr}

-- Where the loop leaves the cursor: at `offset`, or at 0 after a full turn.
unfoldable pub rest_at : ℕ → ℕ → ℕ
rest_at offset maxsz = if leb maxsz offset then 0 else offset

mv_csr_loop-rest :
    (fuel offset maxsz step : ℕ)
    → step + fuel ≡ maxsz
    → step ≤ offset
    → 0 < maxsz
    → mv_csr_loop fuel offset maxsz step (step % maxsz) ≡ rest_at offset maxsz
unfolding mv_csr_loop rest_at
mv_csr_loop-rest zero offset maxsz step h le some_bytes =
    let at : step ≡ maxsz = omega arith in
    let full : leb maxsz offset ≡ true = ground arith in rw (full, at) (mod_self maxsz)
mv_csr_loop-rest (suc fuel) offset maxsz step h le some_bytes =
    let here : step % maxsz ≡ step = mod-eq_of_lt {n = step} {m = maxsz} (omega arith) in
    let room : ltb step maxsz ≡ true = ground arith in
    elim (Bool-cases (ltb step offset)) [
      | inl more ↦
          rw (more, room, here)
            (mv_csr_loop-rest fuel offset maxsz (step + 1) (omega arith) (ground arith) some_bytes)
      | inr stop ↦
          let at : step ≡ offset = ground arith in
          let short : leb maxsz offset ≡ false = ground arith in rw (stop, short, here) at
    ]

-- On a device that holds a byte, `MEMPHY_mv_csr` leaves the cursor at the offset, or at 0 if the
-- offset is not within the device; all else stays.
mv_csr_lem :
    (mp : Memphy) (offset : ℕ)
    → 0 < mp.maxsz
    → mv_csr mp offset ≡ record mp { cursor = if leb mp.maxsz offset then 0 else offset }
unfolding mv_csr rest_at
mv_csr_lem mp offset h =
    let start : 0 % mp.maxsz ≡ 0 = mod-eq_of_lt {n = 0} {m = mp.maxsz} h in
    ap (λ (c : ℕ). record mp { cursor = c })
      (ap (λ (c : ℕ). mv_csr_loop mp.maxsz offset mp.maxsz 0 c) (sym start)
        ∙ mv_csr_loop-rest mp.maxsz offset mp.maxsz 0 (omega arith) (omega arith) h)
