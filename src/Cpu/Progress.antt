-- ===== src/Cpu/Progress.antt =====
-- A process goes through its code, one instruction a call of `run`, and `run` refuses it at the end.
use btl_hdh.Base.{
  ◌%◌, ◌^◌, ℕ, zero, suc, ◌+◌, ◌-◌, ◌≤◌, ◌<◌, ◌≡◌, refl, ap, ◌∙◌, true, ◌⊎◌, inl, inr, Bool-cases,
  leb, arith, if◌then◌else◌,
}
use btl_hdh.Base.Int.{ℤ, pos}
use btl_hdh.Base.Run.{Run, done, fault, ◌>>=◌}
use btl_hdh.Cpu.{
  Opcode, calc_op, alloc_op, free_op, read_op, write_op, syscall_op, unlisted, Inst, Proc, Krnl,
  Outside, execute, run,
}

-- The outcome is undefined behaviour, or leaves the code and the priority of the process as they are
-- and its `pc` at `pc`.
pub data Keeps (proc : Proc) (pc : ℕ) : Run (ℤ × Krnl × Proc) → Type 0 where
  faults : Keeps proc pc fault
  keeps :
      {stat : ℤ} {k : Krnl} {proc' : Proc}
      → proc'.code ≡ proc.code
      → proc'.prio ≡ proc.prio
      → proc'.pc ≡ pc
      → Keeps proc pc (done (stat, k, proc'))

-- A last step that only puts a new `mm` into the process.
into_mm :
    {A : Type 0} (proc : Proc) (r : Run A) (f : A → ℤ × Krnl × Proc)
    → ((a : A) → ((f a).2.code ≡ proc.code) × ((f a).2.prio ≡ proc.prio) × ((f a).2.pc ≡ proc.pc))
    → Keeps proc proc.pc (r >>= λ a. done (f a))
into_mm proc (done a) f h = let (c, p, n) = h a in keeps c p n
into_mm proc fault f h = faults

execute-Keeps :
    (o : Outside) (k : Krnl) (proc : Proc) (op : Opcode) (ins : Inst)
    → Keeps proc proc.pc (execute o k proc op ins)
unfolding execute
execute-Keeps o k proc calc_op ins = keeps refl refl refl
execute-Keeps o k proc alloc_op ins = into_mm proc _ _ (λ a. (refl, refl, refl))
execute-Keeps o k proc free_op ins = into_mm proc _ _ (λ a. (refl, refl, refl))
execute-Keeps o k proc read_op ins = into_mm proc _ _ (λ a. (refl, refl, refl))
execute-Keeps o k proc write_op ins = into_mm proc _ _ (λ a. (refl, refl, refl))
execute-Keeps o k proc syscall_op ins = into_mm proc _ _ (λ a. (refl, refl, refl))
execute-Keeps o k proc unlisted ins = keeps refl refl refl

advanced :
    (proc : Proc) (n pc : ℕ) (r : Run (ℤ × Krnl × Proc))
    → Keeps (record proc { pc = n }) pc r
    → Keeps proc pc r
advanced proc n pc _ faults = faults
advanced proc n pc _ (keeps c p e) = keeps c p e

-- Where the process is after a call of `run`.
abbrev pub next_pc : Proc → ℕ
next_pc proc = if leb proc.code.size proc.pc then proc.pc else proc.pc + 1

pub run-Keeps : (o : Outside) (k : Krnl) (proc : Proc) → Keeps proc (next_pc proc) (run o k proc)
unfolding run
run-Keeps o k proc = elim (Bool-cases (leb proc.code.size proc.pc)) [
  | inl e ↦ rw (e, run) (keeps refl refl refl)
  | inr e ↦
      let ins = proc.code.text proc.pc in
      let proc' = record proc { pc = proc.pc + 1 } in
      rw (e, run)
        (advanced proc (proc.pc + 1) (proc.pc + 1) _ (execute-Keeps o k proc' ins.opcode ins))
]

-- Calls of `run`, one after the other; `o n` is for the call with `n` calls to go.
unfoldable pub runs : ℕ → (ℕ → Outside) → Krnl → Proc → Run (Krnl × Proc)
runs zero o k proc = done (k, proc)
runs (suc n) o k proc = do (stat, k', proc') ← run (o n) k proc; runs n o k' proc'

pub data Reaches (proc : Proc) (pc : ℕ) : Run (Krnl × Proc) → Type 0 where
  faulted : Reaches proc pc fault
  reaches :
      {k : Krnl} {proc' : Proc}
      → proc'.code ≡ proc.code
      → proc'.pc ≡ pc
      → Reaches proc pc (done (k, proc'))

Reaches-next :
    (proc proc' : Proc) (pc : ℕ) (r : Run (Krnl × Proc))
    → proc'.code ≡ proc.code
    → Reaches proc' pc r
    → Reaches proc pc r
Reaches-next proc proc' pc _ same faulted = faulted
Reaches-next proc proc' pc _ same (reaches c p) = reaches (c ∙ same) p

-- After a call that did not fault, the rest.
Reaches-bind :
    (proc : Proc) (mid pc : ℕ) (r : Run (ℤ × Krnl × Proc)) (rest : Krnl → Proc → Run (Krnl × Proc))
    → Keeps proc mid r
    → ((k : Krnl) (proc' : Proc)
        → proc'.code ≡ proc.code
        → proc'.pc ≡ mid
        → Reaches proc' pc (rest k proc'))
    → Reaches proc pc (r >>= λ (stat, k, proc'). rest k proc')
Reaches-bind proc mid pc _ rest faults h = faulted
Reaches-bind proc mid pc _ rest (keeps {k = k} {proc' = proc'} c p e) h =
    Reaches-next proc proc' pc _ c (h k proc' c e)

next_pc-before : (proc : Proc) → proc.pc < proc.code.size → next_pc proc ≡ proc.pc + 1
next_pc-before proc h = ground arith

runs-Reaches :
    (n pc : ℕ) (o : ℕ → Outside) (k : Krnl) (proc : Proc)
    → proc.pc + n ≡ pc
    → pc ≤ proc.code.size
    → Reaches proc pc (runs n o k proc)
unfolding runs
runs-Reaches zero pc o k proc at h = reaches refl (omega arith)
runs-Reaches (suc n) pc o k proc at h =
    Reaches-bind proc (next_pc proc) pc (run (o n) k proc) (runs n o) (run-Keeps (o n) k proc)
      (λ k' proc' c e.
        let moved = next_pc-before proc (omega arith) in
        let same : proc'.code.size ≡ proc.code.size = ap (λ x. x.size) c in
        runs-Reaches n pc o k' proc' (omega (arith, e, moved)) (omega (arith, same)))

-- An instruction that does not touch memory.
abbrev pub IsQuiet : Inst → Type 0
IsQuiet ins =
    (ins.opcode ≡ calc_op)
    ⊎ ((ins.opcode ≡ unlisted) ⊎ ((ins.opcode ≡ syscall_op) × (ins.arg_0 % 2 ^ 32 ≡ 0)))

-- A process whose counter is at most the size of its code is at the end after as many calls of `run`
-- as there are instructions left, unless one of them is undefined behaviour, and its code is as before.
-- At the end `run` returns 1 and changes nothing.
pub runs_lem :
    (o : ℕ → Outside) (k : Krnl) (proc : Proc)
    → proc.pc ≤ proc.code.size
    → let size = proc.code.size in
      Reaches proc size (runs (size - proc.pc) o k proc)
      × (run (o 0) k (record proc { pc = size }) ≡ done (pos 1, k, record proc { pc = size }))
unfolding run
runs_lem o k proc h =
    let size = proc.code.size in
    let at : leb size size ≡ true = ground arith in
    (runs-Reaches (size - proc.pc) size o k proc (omega arith) (omega arith), rw at refl)
