-- ===== src/Mem/Refusals.antt =====
-- What the unfinished memory does: it splits addresses, and refuses every access.
use btl_hdh.Base.{ℕ, ◌+◌, ◌*◌, ◌^◌, ◌<◌, ◌≡◌, refl, lt→ltb, update, arith}
use btl_hdh.Base.Int.{pos, success}
use btl_hdh.Base.Run.{done}
use btl_hdh.Mapping.{data_after}
use btl_hdh.Mem.{
  Mem, Process, get_offset, get_first_lv, get_second_lv, get_trans_table, translate, alloc_mem,
  read_mem, write_mem, get_reg, set_reg, alloc, read, write,
}

-- The parts of an address are in their ranges and give it back.
parts :
    (addr : ℕ)
    → (get_first_lv addr * 2 ^ 15 + get_second_lv addr * 2 ^ 10 + get_offset addr ≡ addr)
      × (get_second_lv addr < 2 ^ 5)
      × (get_offset addr < 2 ^ 10)
unfolding get_first_lv get_second_lv get_offset
parts addr = omega arith

-- No access to memory succeeds: `alloc` returns 1 and allocates nothing, `write` returns 1 and writes
-- nothing, and `read`, which takes the failure of `read_mem` for success, returns 0 and puts what
-- was on the stack into the register.
refusals :
    (raw size source destination offset value : ℕ) (m : Mem) (proc : Process)
    → source < 10
    → destination < 10
    → (alloc proc size destination ≡ done (pos 1, proc))
      × (write m proc value destination offset ≡ done (pos 1, m))
      × (read raw proc source offset destination
          ≡ done (success, record proc { regs = update proc.regs destination raw }))
unfolding alloc alloc_mem write write_mem read read_mem translate get_trans_table get_reg set_reg
    data_after
refusals raw size source destination offset value m proc h k =
    (refl, rw (lt→ltb destination 10 k) refl, rw (lt→ltb source 10 h, lt→ltb destination 10 k) refl)
