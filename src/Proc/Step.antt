-- ===== src/Proc/Step.antt =====
-- proc.c, the process table as a state machine.
use osce.Prelude.{ℕ, ◌+◌, ◌<◌, ◌^◌, ◌≡◌, Bool, Option, some, length, Outcome, done, List, set}
use osce.Kalloc.{Kmem}
use osce.Proc.Birth.{first_of, child_of, no_child, growproc}
use osce.Proc.Table.{
  TrapFrame, alloc_stack, embryo, running, Chan, PTable, proc_at, assign, embryo_at, find_unused,
  wakeup, kill,
}
use osce.Proc.Life.{reaped, sleep_start, sleep_end, yield, schedule, exit_tail, wait}

-- One critical section of `ptable.lock`, the writes of `allocproc`, `userinit` and `fork` to the
-- EMBRYO that they fill, or the writes of a process to its own slot: `growproc`, a descriptor
-- (`files`, as in the loop of `exit` and in sysfile.c), the directory (`moves`), and what `exec`
-- replaces.
pub data Step (t : PTable) : PTable → Type 0 where
  allocate :
      (i : ℕ) → find_unused t.procs ≡ some i → t.nextpid + 1 < 2 ^ 32 → Step t (embryo_at i t)
  stacks : (i : ℕ) (k : Kmem) → (proc_at t i).state ≡ embryo → Step t (alloc_stack i t k).1
  boots :
      (i pgdir cwd : ℕ)
      → (proc_at t i).state ≡ embryo
      → Step t (record (assign t i (first_of pgdir cwd)) { initproc = some i })
  abandon : (i pgdir : ℕ) → (proc_at t i).state ≡ embryo → Step t (assign t i (no_child pgdir))
  forks :
      (me i pgdir : ℕ) (files : List ℕ)
      → (proc_at t i).state ≡ embryo
      → Step t (assign t i (child_of me (proc_at t me) pgdir files))
  grows :
      (allocuvm deallocuvm : ℕ → ℕ → ℕ → Kmem → Outcome (ℕ × Kmem)) (me n : ℕ) (k : Kmem)
      (ok : Bool) {u : PTable} {k' : Kmem}
      → growproc allocuvm deallocuvm me n t k ≡ done (ok, u, k')
      → Step t u
  files : (me fd f : ℕ) → Step t (assign t me (λ p. record p { ofile = set p.ofile fd f }))
  moves : (me cwd : ℕ) → Step t (assign t me (λ p. record p { cwd = cwd }))
  replaces :
      (me sz pgdir : ℕ) (tf : TrapFrame) (name : List ℕ)
      → Step t (assign t me (λ p. record p { sz = sz; pgdir = pgdir; tf = tf; name = name }))
  switch : (n i k : ℕ) {u : PTable} → schedule n i t ≡ (some k, u) → Step t u
  yields : (me : ℕ) → (proc_at t me).state ≡ running → Step t (yield me t)
  sleeps :
      (me : ℕ) (c : Chan) (lk : ℕ) {u : PTable}
      → (proc_at t me).state ≡ running
      → sleep_start (some me) c lk t ≡ done u
      → Step t u
  resumes : (me : ℕ) → (proc_at t me).state ≡ running → Step t (sleep_end me t)
  wakes : (c : Chan) → Step t (wakeup c t)
  kills : (pid : ℕ) → Step t (kill pid t).1
  exits :
      (me status : ℕ)
      → me < length t.procs
      → (proc_at t me).state ≡ running
      → Step t (exit_tail me status t)
  reaps :
      (kernel_end : ℕ) (freevm : ℕ → Kmem → Outcome Kmem) (me : ℕ) (want : Bool) (k : Kmem)
      (pid : ℕ) (status : Option ℕ) {u : PTable} {k' : Kmem}
      → wait kernel_end freevm me want t k ≡ done (reaped pid status, u, k')
      → Step t u
