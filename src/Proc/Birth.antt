-- ===== src/Proc/Birth.antt =====
-- proc.c: userinit, growproc and fork. The routines of vm.c and of the file layer are arguments.
use osce.Prelude.{
  ℕ, ◌+◌, ◌%◌, ◌^◌, Bool, true, false, Option, none, some, List, [], ◌∷◌, ◌==◌, leb, if◌then◌else◌,
  set, Outcome, done, panic, ◌>>=◌,
}
use osce.Str.{safestrcpy}
use osce.Kalloc.{Kmem, kfree, pg_size}
use osce.Proc.Table.{
  unused, runnable, TrapFrame, Proc, PTable, proc_at, assign, blank_frame, allocproc,
}

-- "initcode", with its 0
abbrev pub initcode_name : List ℕ
initcode_name = b'i' ∷ b'n' ∷ b'i' ∷ b't' ∷ b'c' ∷ b'o' ∷ b'd' ∷ b'e' ∷ 0 ∷ []

-- The user's segments, `(SEG_UCODE << 3) | DPL_USER` and `(SEG_UDATA << 3) | DPL_USER`, and `FL_IF`.
abbrev pub user_frame : TrapFrame
user_frame = record blank_frame {
  cs = 35;
  ds = 43;
  es = 43;
  ss = 43;
  eflags = 512;
  esp = pg_size;
  eip = 0;
}

-- What `userinit` writes to the slot of the first process.
abbrev pub first_of : ℕ → ℕ → Proc → Proc
first_of pgdir cwd p = record p {
  pgdir = pgdir;
  sz = pg_size;
  tf = user_frame;
  name = safestrcpy p.name initcode_name 16;
  cwd = cwd;
  state = runnable;
}

-- What `fork` writes to the child's slot, with the parent `me`, whose entry is `cur`.
abbrev pub child_of : ℕ → Proc → ℕ → List ℕ → Proc → Proc
child_of me cur pgdir files p = record p {
  pgdir = pgdir;
  sz = cur.sz;
  parent = some me;
  tf = record (cur.tf) { eax = 0 };
  ofile = files;
  cwd = cur.cwd;
  name = safestrcpy p.name cur.name 16;
  state = runnable;
}

-- What `fork` leaves in the slot if memory cannot be copied.
abbrev pub no_child : ℕ → Proc → Proc
no_child pgdir p = record p { pgdir = pgdir; kstack = 0; state = unused }

module _ (setupkvm : Kmem → Outcome (ℕ × Kmem)) (inituvm : ℕ → Kmem → Outcome Kmem) {R : Type 0}
    (namei_root : R → Outcome (ℕ × R)) where
  -- The first process. With no slot free the code would go through a NULL pointer: a fault.
  unfoldable pub userinit : PTable → Kmem → R → Outcome (PTable × Kmem × R)
  userinit t k r =
      let (found, t1, k1) = allocproc t k in
      elim found [
        | none ↦ panic
        | some p ↦ (do
          (pgdir, k2) ← setupkvm k1
          if pgdir == 0 then panic else do
            k3 ← inituvm pgdir k2
            (cwd, r') ← namei_root r
            done (record (assign t1 p (first_of pgdir cwd)) { initproc = some p }, k3, r'))
      ]

-- `proc->sz = sz; … return 0;` (`switchuvm` only reloads the processor's registers.)
abbrev set_size : ℕ → ℕ → Kmem → PTable → Bool × PTable × Kmem
set_size me sz k t = (true, assign t me (λ q. record q { sz = sz }), k)

-- The test of the size that vm.c returns.
abbrev pub grown : ℕ → ℕ × Kmem → PTable → Bool × PTable × Kmem
grown me (sz, k) t = if sz == 0 then (false, t, k) else set_size me sz k t

-- `allocuvm` and `deallocuvm`: page directory, old size, new size; 0 is failure.
module _ (allocuvm deallocuvm : ℕ → ℕ → ℕ → Kmem → Outcome (ℕ × Kmem)) where
  -- `n` is the bit pattern of an `int`; `true` stands for the result 0.
  unfoldable pub growproc : ℕ → ℕ → PTable → Kmem → Outcome (Bool × PTable × Kmem)
  growproc me n t k =
      let p = proc_at t me in
      if n == 0
      then done (set_size me p.sz k t)
      else if leb (2 ^ 31) n
      then (do r ← deallocuvm p.pgdir p.sz ((p.sz + n) % 2 ^ 32) k; done (grown me r t))
      else (do r ← allocuvm p.pgdir p.sz ((p.sz + n) % 2 ^ 32) k; done (grown me r t))

module _ {R : Type 0} (filedup : ℕ → R → Outcome R) where
  -- `for (i = 0; i < NOFILE; i++) if (proc->ofile[i]) np->ofile[i] = filedup(proc->ofile[i]);`
  -- over the parent's descriptors; the child's array is filled from descriptor `i` on.
  unfoldable pub dup_files : List ℕ → ℕ → List ℕ → R → Outcome (List ℕ × R)
  dup_files [] i child r = done (child, r)
  dup_files (f ∷ fs) i child r =
      let next = (do r' ← filedup f r; dup_files fs (i + 1) (set child i f) r') in
      let skip = dup_files fs (i + 1) child r in if f == 0 then skip else next

  module _ (kernel_end : ℕ) (copyuvm : ℕ → ℕ → Kmem → Outcome (ℕ × Kmem))
      (idup : ℕ → R → Outcome R) where
    -- `fork` from the directory that `copyuvm` returns.
    unfoldable pub fork_copied :
        ℕ → ℕ → ℕ → PTable → Kmem → R → Outcome (Option ℕ × PTable × Kmem × R)
    unfolding dup_files
    fork_copied me np pgdir t k r =
        let cur = proc_at t me in
        let fail = (do
          k1 ← kfree kernel_end (proc_at t np).kstack k
          done (none, assign t np (no_child pgdir), k1, r)) in
        let go = (do
          (files, r1) ← dup_files cur.ofile 0 (proc_at t np).ofile r
          r2 ← idup cur.cwd r1
          done (some (proc_at t np).pid, assign t np (child_of me cur pgdir files), k, r2)) in
        if pgdir == 0 then fail else go

    -- `fork` after `allocproc` has found the slot `np`.
    unfoldable pub fork_into : ℕ → ℕ → PTable → Kmem → R → Outcome (Option ℕ × PTable × Kmem × R)
    unfolding fork_copied
    fork_into me np t k r = do
      (pgdir, k1) ← copyuvm (proc_at t me).pgdir (proc_at t me).sz k
      fork_copied me np pgdir t k1 r

    unfoldable pub fork_found :
        ℕ → Option ℕ × PTable × Kmem → R → Outcome (Option ℕ × PTable × Kmem × R)
    unfolding fork_into
    fork_found me (none, t1, k1) r = done (none, t1, k1, r)
    fork_found me (some np, t1, k1) r = fork_into me np t1 k1 r

    -- The result is the child's pid, or `none` for -1.
    unfoldable pub fork : ℕ → PTable → Kmem → R → Outcome (Option ℕ × PTable × Kmem × R)
    unfolding fork_found
    fork me t k r = fork_found me (allocproc t k) r
