-- ===== src/Proc/Births.antt =====
-- proc.c, `allocproc`, `userinit` and `fork` as runs of the steps of the process table.
use osce.Prelude.{
  ℕ, ◌+◌, ◌<◌, ◌^◌, ◌≡◌, refl, Option, none, some, ◌==◌, arith, Search, Bool-cases,
  find_first-Search, inl, inr, Outcome, done, panic, ◌>>=◌, if◌then◌else◌, Returns, Returns-bind,
}
use osce.Kalloc.{Kmem, kalloc, kfree}
use osce.Proc.Table.{
  embryo, is_unused, PTable, blank, proc_at, assign, find_unused, embryo_at, alloc_stack, allocproc,
}
use osce.Proc.Birth.{first_of, dup_files, userinit, fork_copied, fork_into, fork_found, fork}
use osce.Proc.Wakeup.{proc_at-assign}
use osce.Proc.Step.{Step}
use osce.Proc.Pids.{Reach}

-- A reached table, in which the slot that `allocproc` returns is an EMBRYO.
abbrev Found : Option ℕ × PTable × Kmem → Type 0
Found (none, u, k) = Reach u
Found (some i, u, k) = Reach u × ((proc_at u i).state ≡ embryo)

stack-Found :
    (t : PTable) (i : ℕ) (k : Kmem)
    → Reach t
    → (proc_at t i).state ≡ embryo
    → Found (alloc_stack i t k)
unfolding alloc_stack
stack-Found t i k r e = elim (Bool-cases ((kalloc k).0 == 0)) [
  | inl empty ↦ rw empty (rw empty at next)
  | inr page ↦ rw page (
    rw page at next,
    ground (arith, e, proc_at-assign t i i (λ p. record p { kstack = (kalloc k).0 })),
  )
]
  where
    next : Reach (alloc_stack i t k).1
    next = Reach.next r (Step.stacks i k e)

allocproc-Found : (t : PTable) (k : Kmem) → Reach t → t.nextpid + 1 < 2 ^ 32 → Found (allocproc t k)
unfolding allocproc
allocproc-Found t k r small =
    split (find_unused t.procs) refl (find_first-Search (λ p. is_unused p.state) t.procs blank)
  where
    split :
        (f : Option ℕ)
        → find_unused t.procs ≡ f
        → Search (λ p. is_unused p.state) t.procs blank f
        → Found (elim f [ none ↦ (none, t, k) | some i ↦ alloc_stack i (embryo_at i t) k ])
    split none e miss = r
    split (some i) e first =
        stack-Found (embryo_at i t) i k (Reach.next r (Step.allocate i e small)) (
          ground (
            arith,
            first.inside,
            proc_at-assign t i i (λ p. record p { state = embryo; pid = t.nextpid }),
          ))

module _ {R : Type 0} (setupkvm : Kmem → Outcome (ℕ × Kmem)) (inituvm : ℕ → Kmem → Outcome Kmem)
    (namei_root : R → Outcome (ℕ × R)) where
  abbrev Booted : PTable × Kmem × R → Type 0
  Booted (u, k, r) = Reach u

  -- The table that `userinit` leaves is one that the steps reach.
  pub userinit-Reach :
      (t : PTable) (k : Kmem) (r : R)
      → Reach t
      → t.nextpid + 1 < 2 ^ 32
      → Returns Booted (userinit setupkvm inituvm namei_root t k r)
  unfolding userinit
  userinit-Reach t k r reached small = split (allocproc t k) (allocproc-Found t k reached small)
    where
      split :
          (a : Option ℕ × PTable × Kmem)
          → Found a
          → Returns Booted (elim a.0 [
            | none ↦ panic
            | some p ↦ (do
              (pgdir, k2) ← setupkvm a.2
              if pgdir == 0 then panic else do
                k3 ← inituvm pgdir k2
                (cwd, r') ← namei_root r
                done (record (assign a.1 p (first_of pgdir cwd)) { initproc = some p }, k3, r'))
          ])
      split (none, u, k1) f = tt
      split (some p, u, k1) (reach, e) = Returns-bind Booted (setupkvm k1) _ λ dir.
          elim (Bool-cases (dir.0 == 0)) [
            | inl full ↦ rw full tt
            | inr room ↦ rw room (
                Returns-bind Booted (inituvm dir.0 dir.1) _ λ k3.
                  Returns-bind Booted (namei_root r) _
                    λ cwd. Reach.next reach (Step.boots p dir.0 cwd.0 e))
          ]

module _ {R : Type 0} (filedup idup : ℕ → R → Outcome R) (kernel_end : ℕ)
    (copyuvm : ℕ → ℕ → Kmem → Outcome (ℕ × Kmem)) (me : ℕ) where
  abbrev Reached : Option ℕ × PTable × Kmem × R → Type 0
  Reached (result, u, k, r) = Reach u

  copied-Reach :
      (np pgdir : ℕ) (t : PTable) (k : Kmem) (r : R)
      → Reach t
      → (proc_at t np).state ≡ embryo
      → Returns Reached (fork_copied filedup kernel_end copyuvm idup me np pgdir t k r)
  unfolding fork_copied
  copied-Reach np pgdir t k r reached e = elim (Bool-cases (pgdir == 0)) [
    | inl none_left ↦ rw none_left (
        Returns-bind Reached (kfree kernel_end (proc_at t np).kstack k) _
          λ k1. Reach.next reached (Step.abandon np pgdir e))
    | inr room ↦ rw room (
        Returns-bind Reached (dup_files filedup (proc_at t me).ofile 0 (proc_at t np).ofile r) _
          λ res.
            Returns-bind Reached (idup (proc_at t me).cwd res.1) _
              λ r2. Reach.next reached (Step.forks me np pgdir res.0 e))
  ]

  found-Reach :
      (a : Option ℕ × PTable × Kmem) (r : R)
      → Found a
      → Returns Reached (fork_found filedup kernel_end copyuvm idup me a r)
  unfolding fork_found fork_into
  found-Reach (none, t, k) r reached = reached
  found-Reach (some np, t, k) r (reached, e) =
      Returns-bind Reached (copyuvm (proc_at t me).pgdir (proc_at t me).sz k) _
        λ copy. copied-Reach np copy.0 t copy.1 r reached e

  -- The table that `fork` leaves is one that the steps reach.
  pub fork-Reach :
      (t : PTable) (k : Kmem) (r : R)
      → Reach t
      → t.nextpid + 1 < 2 ^ 32
      → Returns Reached (fork filedup kernel_end copyuvm idup me t k r)
  unfolding fork
  fork-Reach t k r reached small = found-Reach (allocproc t k) r (allocproc-Found t k reached small)
