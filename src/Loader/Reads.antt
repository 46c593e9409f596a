-- ===== src/Loader/Reads.antt =====
-- `load` reads what a file of the format says.
use btl_hdh.Base.{
  ℕ, ◌%◌, suc, ◌+◌, ◌≤◌, ◌<◌, ◌^◌, ◌≡◌, refl, sym, ap, ap₂, ◌∙◌, subst, true, false, Option, none,
  some, List, [], ◌∷◌, ◌++◌, ◌==◌, ltb, arith, All, length, take, update, window, fun_ext,
  Bool-cases, inl, inr, ==_refl,
}
use btl_hdh.Base.Exit.{Exit, returns, ◌>>=◌}
use btl_hdh.Scan.{codes, skip_space, starts_digit, scan_unsigned, fgets, same}
use btl_hdh.Scan.Numerals.{Numeral, value, IsNumeral, Ends, scan_unsigned-space}
use btl_hdh.Scan.Words.{
  IsWord, Breaks, scan_word-word, fgets-line, spelled, AreBelow, values, scan_all-unsigned,
  scan_all-line, scan_all-first, spelled-line, spelled-append, skip_space_idem,
}
use btl_hdh.Cpu.{
  Opcode, calc_op, alloc_op, free_op, read_op, write_op, syscall_op, unlisted, Inst, CodeSeg,
}
use btl_hdh.Loader.{
  get_opcode, Pcb, Fresh, Reading, set_args, read_args, scan_buf, read_line, read_operands,
  next_opcode, decode, read_inst, read_loop, set_header, read_code, load,
}
use btl_hdh.Loader.Programs.{Line, word, Takes, IsLine, program, file_of, assembled, assembled_from}

Breaks-spelled : (ns : List Numeral) (rest : List ℕ) → Breaks (spelled ns (b'\n' ∷ rest))
Breaks-spelled [] rest = refl
Breaks-spelled (n ∷ ns) rest = refl

-- The words of the opcodes are words, and fit into the array.
word-IsWord :
    (op : Opcode) (args : List Numeral) (rest : List ℕ)
    → Takes op args
    → (c : ℕ) × (w : List ℕ) × (word op ≡ c ∷ w)
      × IsWord (c ∷ w)
      × (ltb (length (c ∷ w)) 10 ≡ true)
      × (skip_space (word op ++ rest) ≡ c ∷ (w ++ rest))
unfolding skip_space
word-IsWord calc_op args rest h =
    (b'c', codes "alc", refl, (refl, (refl, (refl, (refl, tt)))), refl, refl)
word-IsWord alloc_op args rest h =
    (b'a', codes "lloc", refl, (refl, (refl, (refl, (refl, (refl, tt))))), refl, refl)
word-IsWord free_op args rest h =
    (b'f', codes "ree", refl, (refl, (refl, (refl, (refl, tt)))), refl, refl)
word-IsWord read_op args rest h =
    (b'r', codes "ead", refl, (refl, (refl, (refl, (refl, tt)))), refl, refl)
word-IsWord write_op args rest h =
    (b'w', codes "rite", refl, (refl, (refl, (refl, (refl, (refl, tt))))), refl, refl)
word-IsWord syscall_op args rest h = (
  b's',
  codes "yscall",
  refl,
  (refl, (refl, (refl, (refl, (refl, (refl, (refl, tt))))))),
  refl,
  refl,
)
word-IsWord unlisted args rest h = absurd h

-- The word of an instruction is found.
next_opcode-word :
    (op : Opcode) (args : List Numeral) (r : Reading) (rest : List ℕ)
    → Takes op args
    → skip_space r.file ≡ skip_space (word op ++ spelled args (b'\n' ∷ rest))
    → next_opcode r
      ≡ returns (record r { opcode = some (word op); file = spelled args (b'\n' ∷ rest) })
unfolding next_opcode
next_opcode-word op args r rest h e =
    let (c, w, at, is_word, short, start) = word-IsWord op args (spelled args (b'\n' ∷ rest)) h in
    let scanned = scan_word-word r.file c w _ (e ∙ start) is_word (Breaks-spelled args rest) in
    rw (scanned, next_opcode) (rw short (rw at refl))

get_opcode-word :
    (op : Opcode) (args : List Numeral) → Takes op args → get_opcode (word op) ≡ some op
unfolding get_opcode same
get_opcode-word calc_op args h = refl
get_opcode-word alloc_op args h = refl
get_opcode-word free_op args h = refl
get_opcode-word read_op args h = refl
get_opcode-word write_op args h = refl
get_opcode-word syscall_op args h = refl
get_opcode-word unlisted args h = absurd h

update_twice {ℓ} :
    {A : Type ℓ} (f : ℕ → A) (i : ℕ) (a b : A) → update (update f i a) i b ≡ update f i b
update_twice f i a b =
    fun_ext (λ j. elim (Bool-cases (i == j)) [ inl e ↦ rw e refl | inr e ↦ rw e refl ])

length-values : (ns : List Numeral) → length (values ns) ≡ length ns
length-values [] = refl
length-values (n ∷ ns) = ap suc (length-values ns)

abbrev Stored : ℕ → Reading → Line → List ℕ → Exit Reading → Type 0
Stored i r l rest out =
    (r' : Reading) × (out ≡ returns r')
    × (r'.text ≡ update r.text i (assembled l (r.text i)))
    × (skip_space r'.file ≡ skip_space rest)

module _ (i : ℕ) (r : Reading) (rest : List ℕ) where
  -- The state before the operands of an instruction.
  abbrev before : Line → Reading
  before l = record r {
    opcode = some (word l.opcode);
    text = update r.text i (record (r.text i) { opcode = l.opcode });
    file = spelled l.args (b'\n' ∷ rest);
  }

  stored :
      (l : Line)
      → update (before l).text i (set_args ((before l).text i) (values l.args))
        ≡ update r.text i (assembled l (r.text i))
  stored l = rw (==_refl i) (update_twice r.text i _ _)

  read_args-Stored :
      (l : Line)
      → AreBelow (2 ^ 64) l.args
      → Stored i r l rest (read_args (length l.args) i (before l))
  unfolding read_args skip_space
  read_args-Stored l h =
      let end : Ends (b'\n' ∷ rest) = unfold starts_digit in refl in
      let scanned = scan_all-unsigned (2 ^ 64) l.args (b'\n' ∷ rest) h end in
      (
        record (before l) {
          text = update (before l).text i (set_args ((before l).text i) (values l.args));
          file = skip_space rest;
        },
        rw (scanned, read_args) (rw (length-values l.args, ==_refl (length l.args)) refl),
        stored l,
        skip_space_idem rest,
      )

  read_line-Stored :
      (l : Line)
      → AreBelow (2 ^ 64) l.args
      → length l.args ≤ 4
      → length (spelled l.args []) + 1 < 200
      → Stored i r l rest (read_line i (before l))
  unfolding read_line scan_buf
  read_line-Stored l h few short =
      let line = spelled l.args [] ++ b'\n' ∷ [] in
      let got =
        ap (fgets 200) (sym (spelled-append l.args (b'\n' ∷ rest)))
        ∙ fgets-line 200 (spelled l.args []) rest (spelled-line (2 ^ 64) l.args h) short in
      let (left, scanned) = scan_all-line (2 ^ 64) 4 l.args h few in
      (
        record (before l) {
          buf = some line;
          text = update (before l).text i (set_args ((before l).text i) (values l.args));
          file = rest;
        },
        rw (got, read_line)
            (rw (spelled-append l.args (b'\n' ∷ []), scan_buf) (rw (scanned, scan_buf) refl)),
        stored l,
        refl,
      )

  counted :
      (l : Line) (n : ℕ)
      → length l.args ≡ n
      → AreBelow (2 ^ 64) l.args
      → Stored i r l rest (read_args n i (before l))
  counted l n e h =
      subst (λ k. Stored i r l rest (read_args k i (before l))) e (read_args-Stored l h)

  read_operands-Stored :
      (op : Opcode) (args : List Numeral)
      → Takes op args
      → AreBelow (2 ^ 64) args
      → let l : Line = record { opcode = op; args = args } in
        Stored i r l rest (read_operands i (before l) op)
  unfolding read_operands set_args skip_space
  read_operands-Stored calc_op [] t h =
      (before (record { opcode = calc_op; args = [] }), refl, refl, refl)
  read_operands-Stored calc_op (n ∷ ns) t h = absurd (omega arith)
  read_operands-Stored alloc_op args t h = counted (record { opcode = alloc_op; args = args }) 2 t h
  read_operands-Stored free_op args t h = counted (record { opcode = free_op; args = args }) 1 t h
  read_operands-Stored read_op args t h = counted (record { opcode = read_op; args = args }) 3 t h
  read_operands-Stored write_op args t h = counted (record { opcode = write_op; args = args }) 3 t h
  read_operands-Stored syscall_op args t h =
      read_line-Stored (record { opcode = syscall_op; args = args }) h t.0 t.1
  read_operands-Stored unlisted args t h = absurd t

  read_inst-Stored :
      (l : Line)
      → IsLine l
      → skip_space r.file ≡ skip_space (word l.opcode ++ spelled l.args (b'\n' ∷ rest))
      → Stored i r l rest (read_inst i r)
  unfolding read_inst decode
  read_inst-Stored l h e =
      rw (next_opcode-word l.opcode l.args r rest h.0 e, read_inst)
        (rw (get_opcode-word l.opcode l.args h.0, decode)
          (read_operands-Stored l.opcode l.args h.0 h.1))

-- What the loop has done: the instructions before `i` are as they were, and those of the lines are there.
abbrev Done : ℕ → Reading → List Line → Exit Reading → Type 0
Done i r ls out =
    (r' : Reading) × (out ≡ returns r')
    × ((j : ℕ) → j < i → r'.text j ≡ r.text j)
    × (window r'.text i (length ls) ≡ assembled_from ls i r.text)

assembled_from-update :
    (ls : List Line) (i k : ℕ) (ins : Inst) (text : ℕ → Inst)
    → k < i
    → assembled_from ls i (update text k ins) ≡ assembled_from ls i text
assembled_from-update [] i k ins text lt = refl
assembled_from-update (l ∷ ls) i k ins text lt =
    let off : (k == i) ≡ false = ground arith in
    rw (off, assembled_from-update ls (suc i) k ins text (omega arith)) refl

read_loop-Done :
    (ls : List Line) (i : ℕ) (r : Reading)
    → All IsLine ls
    → skip_space r.file ≡ skip_space (program ls)
    → Done i r ls (read_loop i (length ls) r)
unfolding read_loop window
read_loop-Done [] i r h e = (r, refl, λ j lt. refl, refl)
read_loop-Done (l ∷ ls) i r h e =
    let (r', one, text, file) =
      read_inst-Stored i r (program ls) l h.0 (e ∙ unfold program in refl) in
    let (end, more, kept, there) = read_loop-Done ls (suc i) r' h.1 file in
    (
      end,
      rw (one, read_loop) more,
      λ j lt.
          (let off : (i == j) ≡ false = ground arith in
            kept j (omega arith) ∙ rw text (rw off refl)),
      ap₂ ◌∷◌ (kept i (omega arith) ∙ rw text (rw (==_refl i) refl))
          (there ∙ rw text (assembled_from-update ls (suc i) i _ r.text (omega arith))),
    )

read_code-program :
    (fresh : Fresh) (priority size : Numeral) (ls : List Line)
    → IsNumeral priority
    → IsNumeral size
    → value priority < 2 ^ 32
    → length ls < 2 ^ 32
    → value size ≡ length ls
    → All IsLine ls
    → (code : CodeSeg) × (read_code fresh (file_of priority size ls)
        ≡ returns (value priority, code))
      × (code.size ≡ length ls)
      × (window code.text 0 (length ls) ≡ assembled_from ls 0 fresh.text)
unfolding read_code set_header file_of
read_code-program fresh priority size ls hp hs pb sb sized h =
    let end : Ends (b'\n' ∷ program ls) = unfold starts_digit in refl in
    let numbers =
      scan_all-unsigned (2 ^ 32) (priority ∷ size ∷ []) (b'\n' ∷ program ls)
        ((hp, pb), ((hs, omega arith), tt)) end in
    let fits : skip_space (b'\n' ∷ program ls) ≡ skip_space (program ls) =
      unfold skip_space in refl in
    let start : Reading = record {
      opcode = none;
      buf = none;
      text = fresh.text;
      file = b'\n' ∷ program ls;
    } in
    let (r, looped, kept, there) = read_loop-Done ls 0 start h fits in
    (
      record { text = r.text; size = value size },
      rw
          (
            sym (
                  scan_all-first (scan_unsigned (2 ^ 32)) 1 (file_of priority size ls)
                    (scan_unsigned-space (2 ^ 32) b' ' (file_of priority size ls) refl))
                ∙ numbers,
            read_code,
          )
          (rw sized (rw (looped, ◌>>=◌) refl)),
      sized,
      there,
    )

-- `load` of a file of the format, whose numbers fit their types, gives a process with the next number, the
-- priority of the file, and the instructions of its lines in order; of an argument that a line does not have
-- it keeps what `malloc` left.
pub load-program :
    (files : List ℕ → Option (List ℕ)) (fresh : Fresh) (avail_pid : ℕ) (path : List ℕ)
    (priority size : Numeral) (ls : List Line)
    → IsNumeral priority
    → IsNumeral size
    → value priority < 2 ^ 32
    → length ls < 2 ^ 32
    → value size ≡ length ls
    → All IsLine ls
    → files path ≡ some (file_of priority size ls)
    → (p : Pcb) × (load files fresh avail_pid path ≡ returns (p, (avail_pid + 1) % 2 ^ 32))
      × (p.pid ≡ avail_pid)
      × (p.priority ≡ value priority)
      × (p.pc ≡ 0)
      × (p.code.size ≡ length ls)
      × (window p.code.text 0 (length ls) ≡ assembled_from ls 0 fresh.text)
unfolding load
load-program files fresh avail_pid path priority size ls hp hs pb sb sized h at =
    let (code, got, fits, there) = read_code-program fresh priority size ls hp hs pb sb sized h in
    (
      record {
        pid = avail_pid;
        priority = value priority;
        path = take 16 path;
        code = code;
        bp = 2 ^ 10;
        pc = 0;
      },
      rw (at, load) (rw (got, ◌>>=◌) refl),
      refl,
      refl,
      refl,
      fits,
      there,
    )
