-- ===== src/Mem.antt =====
-- src/mem.c, and the instructions of src/cpu.c for the configuration without MM_PAGING: a memory of 2^20
-- bytes in pages of 1024 whose functions were left unfinished. The lock makes each function one step.
-- A process has 10 registers; to read or write behind them is undefined behaviour.
mod Refusals
use btl_hdh.Base.{
  ℕ, zero, suc, ◌+◌, ◌-◌, ◌*◌, ◌/◌, ◌%◌, ◌^◌, Bool, true, false, not, Option, none, some, ◌==◌, ltb,
  if◌then◌else◌, update,
}
use btl_hdh.Base.Int.{ℤ, pos, negsuc, success}
use btl_hdh.Base.Run.{Run, done, fault, ◌>>=◌}
use btl_hdh.Mapping.{data_after}

-- OFFSET_LEN, PAGE_LEN, PAGE_SIZE, NUM_PAGES and RAM_SIZE
abbrev pub offset_len : ℕ
offset_len = 10

abbrev pub page_len : ℕ
page_len = 5

abbrev pub page_size : ℕ
page_size = 1024

abbrev pub num_pages : ℕ
num_pages = 1024

abbrev pub ram_size : ℕ
ram_size = 1048576

-- An element of `_mem_stat`
pub record MemStat : Type 0 where
  pub proc : ℕ
  pub index : ℤ
  pub next : ℤ

-- The static variables of the file.
pub record Mem : Type 0 where
  pub ram : ℕ → ℕ
  pub mem_stat : ℕ → MemStat

unfoldable pub init_mem : Mem → Mem
init_mem m = record {
  ram = λ i. if ltb i ram_size then 0 else m.ram i;
  mem_stat = λ i.
      if ltb i num_pages then record { proc = 0; index = pos 0; next = pos 0 } else m.mem_stat i;
}

-- `struct trans_table_t` and `struct page_table_t`, as far as they are read.
pub record TransTable : Type 0 where
  pub v_index : ℕ → ℕ
  pub size : ℕ

pub record PageTable : Type 0 where
  pub size : ℕ

-- The fields of `struct pcb_t` that are used here.
pub record Process : Type 0 where
  pub regs : ℕ → ℕ
  pub page_table : PageTable
  pub bp : ℕ

unfoldable pub get_offset : ℕ → ℕ
get_offset addr = addr % 2 ^ offset_len

unfoldable pub get_first_lv : ℕ → ℕ
get_first_lv addr = addr / 2 ^ (offset_len + page_len)

unfoldable pub get_second_lv : ℕ → ℕ
get_second_lv addr = addr / 2 ^ offset_len - get_first_lv addr * 2 ^ page_len

-- The loop over the rows has an empty body; the result is NULL.
unfoldable pub get_trans_table : ℕ → PageTable → Option TransTable
get_trans_table index page_table = none

-- The loop over the rows of a table, from row `i` on.
unfoldable pub find_row : TransTable → ℕ → ℕ → ℕ → Bool
find_row table' second_lv i zero = false
find_row table' second_lv i (suc rounds) =
    let rest = find_row table' second_lv (suc i) rounds in
    if table'.v_index i == second_lv then true else rest

-- Whether the function returns 1; it never sets the physical address.
unfoldable pub translate : ℕ → Process → Bool
translate virtual_addr proc = elim (get_trans_table (get_first_lv virtual_addr) proc.page_table) [
  | none ↦ false
  | some trans_table ↦ find_row trans_table (get_second_lv virtual_addr) 0 trans_table.size
]

-- `mem_avail` is 0 at the test. The address and the process.
unfoldable pub alloc_mem : ℕ → Process → ℕ × Process
alloc_mem size proc =
    let pages = if size % page_size == 0 then size / page_size + 1 else size / page_size in
    let mem_avail : ℕ = 0 in
    if mem_avail == 0
    then (0, proc)
    else (proc.bp, record proc { bp = (proc.bp + pages * page_size) % 2 ^ 32 })

unfoldable pub free_mem : ℕ → Process → ℤ
free_mem address proc = success

-- The result and what is stored through `data`. The physical address is used without being set.
unfoldable pub read_mem : ℕ → Process → Run (ℤ × Option ℕ)
read_mem address proc = if translate address proc then fault else done (pos 1, none)

unfoldable pub write_mem : Mem → ℕ → Process → ℕ → Run (ℤ × Mem)
write_mem m address proc data' = if translate address proc then fault else done (pos 1, m)

-- A register, and its change.
unfoldable pub get_reg : Process → ℕ → Run ℕ
get_reg proc i = if ltb i 10 then done (proc.regs i) else fault

unfoldable pub set_reg : Process → ℕ → ℕ → Run Process
set_reg proc i value =
    if ltb i 10 then done (record proc { regs = update proc.regs i value }) else fault

abbrev is_zero : ℤ → Bool
is_zero (pos n) = n == 0
is_zero (negsuc n) = false

-- The functions of src/cpu.c.
unfoldable pub alloc : Process → ℕ → ℕ → Run (ℤ × Process)
alloc proc size reg_index =
    let (addr, proc') = alloc_mem size proc in
    if addr == 0
    then done (pos 1, proc')
    else (do proc'' ← set_reg proc' reg_index addr; done (success, proc''))

unfoldable pub free_data : Process → ℕ → Run ℤ
free_data proc reg_index = do address ← get_reg proc reg_index; done (free_mem address proc)

-- `raw` is what `data` holds on the stack. A result of `read_mem` that is not 0 counts as success.
unfoldable pub read : ℕ → Process → ℕ → ℕ → ℕ → Run (ℤ × Process)
read raw proc source offset destination = do
  base ← get_reg proc source
  (ret, value) ← read_mem ((base + offset) % 2 ^ 64) proc
  let data' = data_after raw value
  (if is_zero ret
      then done (pos 1, proc)
      else (do proc' ← set_reg proc destination data'; done (success, proc')))

unfoldable pub write : Mem → Process → ℕ → ℕ → ℕ → Run (ℤ × Mem)
write m proc data' destination offset = do
  base ← get_reg proc destination
  write_mem m ((base + offset) % 2 ^ 64) proc data'
