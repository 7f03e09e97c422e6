-- ===== src/Proc/Forking.antt =====
-- `fork` (proc.c): what the child gets, and what a failure leaves.
use osce.Prelude.{
  ℕ, ◌<◌, ◌≡◌, ◌≢◌, refl, ◌∙◌, ap, true, false, Option, none, some, List, ◌&&◌, ◌==◌, ltb,
  if◌then◌else◌, length, get_or, arith, length-modify, IsFirst, find_first-Search, Outcome, done,
  Bool-cases, inl, inr, Returns, Returns-bind, Returns-done, Returns-seq,
}
use osce.Kalloc.{Kmem, kalloc, kfree}
use osce.Proc.Table.{
  unused, embryo, runnable, is_unused, Proc, PTable, blank, proc_at, assign, find_unused, embryo_at,
  alloc_stack,
}
use osce.Proc.Birth.{dup_files, fork_copied, fork_into, fork_found, fork}
use osce.Proc.Wakeup.{proc_at-assign, allocproc-found}
use osce.Proc.Copying.{Copied, dup_files-Copied, copy_all}

-- What `fork` leaves. With a pid: the first free slot holds a runnable child of the caller under
-- the next pid, with the caller's size, directory, registers (0 in `eax`) and open files, and no
-- other slot has changed. With -1: no slot in use has changed, and the slot that was tried is free.
abbrev pub Child : ℕ → PTable → PTable → ℕ → ℕ → Type 0
Child me t u np pid =
    let c = proc_at u np in
    let p = proc_at t me in
    (c.state ≡ runnable)
    × (c.pid ≡ pid)
    × (c.parent ≡ some me)
    × (c.sz ≡ p.sz)
    × (c.cwd ≡ p.cwd)
    × (c.tf ≡ record (p.tf) { eax = 0 })
    × ((fd : ℕ) → fd < length p.ofile → get_or c.ofile fd 0 ≡ get_or p.ofile fd 0)

abbrev pub Forked : ℕ → PTable → Option ℕ → PTable → Type 0
Forked me t (some pid) u =
    (np : ℕ) × (find_unused t.procs ≡ some np)
    × (pid ≡ t.nextpid)
    × Child me t u np pid
    × ((j : ℕ) → j ≢ np → proc_at u j ≡ proc_at t j)
Forked me t none u =
    (j : ℕ)
    → proc_at u j ≢ proc_at t j
    → (find_unused t.procs ≡ some j) × ((proc_at u j).state ≡ unused)

-- The descriptors of a free slot are closed, and there are as many as the caller has.
abbrev pub IsClosed : PTable → ℕ → ℕ → Type 0
IsClosed t me np =
    (length (proc_at t np).ofile ≡ length (proc_at t me).ofile)
    × ((fd : ℕ) → get_or (proc_at t np).ofile fd 0 ≡ 0)

module _ {R : Type 0} (filedup idup : ℕ → R → Outcome R) (kernel_end : ℕ)
    (copyuvm : ℕ → ℕ → Kmem → Outcome (ℕ × Kmem)) (me np : ℕ) (t : PTable)
    (found : find_unused t.procs ≡ some np) (live : is_unused (proc_at t me).state ≡ false)
    (shut : IsClosed t me np) where
  abbrev e0 : PTable
  e0 = embryo_at np t

  first : IsFirst (λ p. is_unused p.state) t.procs blank np
  first = rw found at (find_first-Search (λ p. is_unused p.state) t.procs blank)

  me-ne-np : me ≢ np
  me-ne-np e = cc (live, first.passes, e)

  -- `t1` is the table with the new process, before the copying.
  record Prepared (t1 : PTable) : Type 0 where
    at_np : ((proc_at t1 np).pid ≡ t.nextpid) × ((proc_at t1 np).ofile ≡ (proc_at t np).ofile)
    rest : (j : ℕ) → j ≢ np → proc_at t1 j ≡ proc_at t j
    size : length t1.procs ≡ length t.procs

  Forks : Option ℕ × PTable × Kmem × R → Type 0
  Forks (result, u, k', r') = Forked me t result u

  failure :
      (t1 : PTable) (f : Proc → Proc)
      → Prepared t1
      → ((p : Proc) → (f p).state ≡ unused)
      → Forked me t none (assign t1 np f)
  failure t1 f h gone j changed = elim (Bool-cases (j == np)) [
    | inl at ↦
        let e : j ≡ np = ground arith in
        (
          rw e found,
          rw e (
              ground
                (arith, proc_at-assign t1 np np f, gone (proc_at t1 np), first.inside, h.size)),
        )
    | inr off ↦ absurd (changed (proc_at-assign t1 np j f ∙ ground (arith, h.rest j)))
  ]

  success :
      (t1 : PTable) (f : Proc → Proc)
      → Prepared t1
      → (let c = f (proc_at t1 np) in
          let p = proc_at t me in
          (c.state ≡ runnable)
          × (c.pid ≡ (proc_at t1 np).pid)
          × (c.parent ≡ some me)
          × (c.sz ≡ p.sz)
          × (c.cwd ≡ p.cwd)
          × (c.tf ≡ record (p.tf) { eax = 0 })
          × ((fd : ℕ) → fd < length p.ofile → get_or c.ofile fd 0 ≡ get_or p.ofile fd 0))
      → Forked me t (some (proc_at t1 np).pid) (assign t1 np f)
  success t1 f h child = (
    np,
    found,
    h.at_np.0,
    rw (proc_at-assign t1 np np f, hit) child,
    λ j ne. proc_at-assign t1 np j f ∙ ground (arith, h.rest j ne),
  )
    where
      hit : (np == np && ltb np (length t1.procs)) ≡ true
      hit = ground (arith, first.inside, h.size)

  fork_copied-Forks :
      (t1 : PTable) (pgdir : ℕ) (k : Kmem) (r : R)
      → Prepared t1
      → Returns Forks (fork_copied filedup kernel_end copyuvm idup me np pgdir t1 k r)
  unfolding fork_copied Forks
  fork_copied-Forks t1 pgdir k r h =
      let cur = proc_at t1 me in
      let same : proc_at t1 me ≡ proc_at t me = h.rest me me-ne-np in
      elim (Bool-cases (pgdir == 0)) [
        | inl none_left ↦ rw none_left (
            Returns-bind Forks (kfree kernel_end (proc_at t1 np).kstack k) _
              λ k1. failure t1 _ h (λ p. refl))
        | inr room ↦ rw room (
            Returns-seq
              (λ (res : List ℕ × R). Copied filedup cur.ofile 0 (proc_at t1 np).ofile res.0) Forks
              (dup_files filedup cur.ofile 0 (proc_at t1 np).ofile r) _
              (dup_files-Copied filedup cur.ofile 0 (proc_at t1 np).ofile r
                (ground (arith, same, h.at_np, shut.0)))
              λ res c. Returns-bind Forks (idup cur.cwd res.1) _ λ r2. success t1 _ h (
                refl,
                refl,
                refl,
                ap (λ (p : Proc). p.sz) same,
                ap (λ (p : Proc). p.cwd) same,
                ap (λ (p : Proc). record (p.tf) { eax = 0 }) same,
                λ fd lt.
                    copy_all filedup cur.ofile (proc_at t1 np).ofile res.0 fd c
                      (ground (arith, h.at_np, shut.1 fd)) (rw same lt)
                    ∙ ap (λ (p : Proc). get_or p.ofile fd 0) same,
              ))
      ]

  fork_into-Forks :
      (t1 : PTable) (k : Kmem) (r : R)
      → Prepared t1
      → Returns Forks (fork_into filedup kernel_end copyuvm idup me np t1 k r)
  unfolding fork_into Forks
  fork_into-Forks t1 k r h =
      Returns-bind Forks (copyuvm (proc_at t1 me).pgdir (proc_at t1 me).sz k) _
        λ copy. fork_copied-Forks t1 copy.0 copy.1 r h

  at_e0 :
      (j : ℕ)
      → proc_at e0 j ≡ (
          if np == j && ltb np (length t.procs)
          then record (proc_at t j) { state = embryo; pid = t.nextpid }
          else proc_at t j)
  at_e0 j = proc_at-assign t np j (λ p. record p { state = embryo; pid = t.nextpid })

  size_e0 : length e0.procs ≡ length t.procs
  size_e0 = length-modify t.procs np (λ p. record p { state = embryo; pid = t.nextpid })

  Prepared-e0 : Prepared e0
  Prepared-e0 = record {
    at_np = ground (arith, at_e0 np, first.inside);
    rest = λ j ne. ground (arith, at_e0 j);
    size = size_e0;
  }

  prepared : (v : ℕ) → Prepared (assign e0 np (λ p. record p { kstack = v }))
  prepared v = record {
    at_np = ground (arith, at_e0 np, at_e1 np, first.inside);
    rest = λ j ne. ground (arith, at_e0 j, at_e1 j);
    size = length-modify (e0.procs) np (λ p. record p { kstack = v }) ∙ size_e0;
  }
    where
      at_e1 :
          (j : ℕ)
          → proc_at (assign e0 np (λ p. record p { kstack = v })) j ≡ (
              if np == j && ltb np (length t.procs)
              then record (proc_at e0 j) { kstack = v }
              else proc_at e0 j)
      at_e1 j = rw (← size_e0) (proc_at-assign e0 np j (λ p. record p { kstack = v }))

  stacked-Forks :
      (k : Kmem) (r : R)
      → Returns Forks (fork_found filedup kernel_end copyuvm idup me (alloc_stack np e0 k) r)
  unfolding fork_found alloc_stack Forks
  stacked-Forks k r = elim (Bool-cases ((kalloc k).0 == 0)) [
    | inl empty ↦ rw empty (
        failure e0 (λ p. record p { kstack = (kalloc k).0; state = unused }) Prepared-e0
          (λ p. refl))
    | inr page ↦ rw page (
        fork_into-Forks (assign e0 np (λ p. record p { kstack = (kalloc k).0 })) (kalloc k).1 r
          (prepared (kalloc k).0))
  ]

  -- The first free slot `np` has all descriptors closed, and as many as the caller. When `fork`
  -- returns a pid, it is the old `nextpid`, slot `np` holds a runnable child of the caller
  -- under it, with the caller's size, directory, open files and registers but 0 in `eax`, and
  -- no other slot has changed. When it returns -1, no slot but `np` has changed, and if `np`
  -- has, it is UNUSED.
  pub fork-Forked :
      (k : Kmem) (r : R) {result : Option ℕ} {u : PTable} {k' : Kmem} {r' : R}
      → fork filedup kernel_end copyuvm idup me t k r ≡ done (result, u, k', r')
      → Forked me t result u
  unfolding fork Forks
  fork-Forked k r {result} {u} {k'} {r'} h =
      Returns-done Forks _ (result, u, k', r')
        (rw (allocproc-found np t k found) (stacked-Forks k r)) h
