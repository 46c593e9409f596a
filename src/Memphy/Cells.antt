-- ===== src/Memphy/Cells.antt =====
-- Reads and writes of a device.
use btl_hdh.Base.{
  ℕ, ◌≡◌, refl, leb, if◌then◌else◌, inl, inr, Bool-cases, true, false, none, some, ◌==◌, update,
  ltb_of_not_leb,
}
use btl_hdh.Base.Int.{success, failure}
use btl_hdh.Base.Run.{done}
use btl_hdh.Memphy.{Memphy, load, store, seq_read, read, seq_write, write}

-- A device whose storage stands.
pub record IsLive (mp : Memphy) : Type 0 where
  pub cells : ℕ → ℕ
  pub storage : mp.storage ≡ some cells

pub read-random :
    (mp : Memphy) (cells : ℕ → ℕ) (b : ℕ)
    → mp.storage ≡ some cells
    → mp.rdmflg ≡ true
    → read mp b
      ≡ done (if leb mp.maxsz b then (failure, none, mp) else (success, some (cells b), mp))
unfolding read load
read-random mp cells b stands random = elim (Bool-cases (leb mp.maxsz b)) [
  | inl out ↦ simp (random, out)
  | inr within ↦ simp (random, within, stands, ltb_of_not_leb mp.maxsz b within, load)
]

pub write-random :
    (mp : Memphy) (cells : ℕ → ℕ) (a v : ℕ)
    → mp.storage ≡ some cells
    → mp.rdmflg ≡ true
    → write mp a v
      ≡ done (
          if leb mp.maxsz a
          then (failure, mp)
          else (success, record mp { storage = some (update cells a v) }))
unfolding write store
write-random mp cells a v stands random = elim (Bool-cases (leb mp.maxsz a)) [
  | inl out ↦ simp (random, out)
  | inr within ↦ simp (random, within, stands, ltb_of_not_leb mp.maxsz a within, store)
]

-- A random access device is never read or written outside its storage: an address behind its end
-- gives -1 and changes nothing. Within it, a read gives the byte, and after a write a read at any
-- address gives the byte written if it is the same address, and the byte before it otherwise.
pub read-write :
    (mp : Memphy) (a b v : ℕ) (live : IsLive mp)
    → mp.rdmflg ≡ true
    → let cells = live.cells in
      let mp' = record mp { storage = some (update cells a v) } in
      (read mp b
        ≡ done (if leb mp.maxsz b then (failure, none, mp) else (success, some (cells b), mp)))
      × (write mp a v ≡ done (if leb mp.maxsz a then (failure, mp) else (success, mp')))
      × (read mp' b
          ≡ done (
              if leb mp.maxsz b
              then (failure, none, mp')
              else (success, some (if a == b then v else cells b), mp')))
read-write mp a b v live random =
    let mp' = record mp { storage = some (update live.cells a v) } in
    (
      read-random mp live.cells b live.storage random,
      write-random mp live.cells a v live.storage random,
      read-random mp' (update live.cells a v) b refl random,
    )

-- A device for sequential access can be neither read nor written: every attempt gives -1 and
-- changes nothing.
read-sequential :
    (mp : Memphy) (a v : ℕ)
    → mp.rdmflg ≡ false
    → (read mp a ≡ done (failure, none, mp)) × (write mp a v ≡ done (failure, mp))
unfolding read write seq_read seq_write
read-sequential mp a v sequential = rw sequential (refl, refl)
