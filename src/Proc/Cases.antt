-- ===== src/Proc/Cases.antt =====
-- proc.c: what a step of the process table does to the slots.
use osce.Prelude.{
  ℕ, ◌+◌, ◌<◌, ◌^◌, ◌≡◌, refl, true, some, ◌==◌, arith, IsFirst, inl, inr, ◌⊎◌, Bool-cases,
  find_first-Search, set, Returns-done,
}
use osce.Proc.Birth.{first_of, child_of, no_child}
use osce.Proc.Table.{embryo, is_unused, PTable, blank, proc_at, embryo_at, find_unused}
use osce.Proc.Wakeup.{proc_at-assign}
use osce.Proc.Wait.{wait-Answer}
use osce.Proc.Step.{
  Step, allocate, stacks, boots, abandon, forks, grows, files, moves, replaces, switch, yields,
  sleeps, resumes, wakes, kills, exits, reaps,
}
use osce.Proc.Quiet.{
  Quiet, Quiet-assign, Quiet-exit, Quiet-grow, Quiet-kill, Quiet-reap, Quiet-resume, Quiet-schedule,
  Quiet-sleep, Quiet-stack, Quiet-wakeup, Quiet-yield, legal, legal_refl, same,
}

-- A step either creates a process in the first free slot, or is quiet.
abbrev pub Creates : PTable → PTable → Type 0
Creates t u =
    (i : ℕ) × (find_unused t.procs ≡ some i) × (t.nextpid + 1 < 2 ^ 32) × (u ≡ embryo_at i t)

pub Step-cases : {t u : PTable} → Step t u → Quiet t u ⊎ Creates t u
Step-cases (allocate i found small) = inr (i, found, small, refl)
Step-cases {t} (stacks i k e) = inl (Quiet-stack t i k e)
Step-cases {t} (boots i pgdir cwd e) =
    let q = Quiet-assign t i (first_of pgdir cwd) (ground arith) in
    inl (record { evolves = q.evolves; counter = refl })
Step-cases {t} (abandon i pgdir e) = inl (Quiet-assign t i (no_child pgdir) (ground arith))
Step-cases {t} (forks me i pgdir fs e) =
    inl (Quiet-assign t i (child_of me (proc_at t me) pgdir fs) (ground arith))
Step-cases {t} (grows alloc dealloc me n k ok h) =
    inl (Returns-done _ _ _ (Quiet-grow alloc dealloc me n t k) h)
Step-cases {t} (files me fd f) =
    inl (Quiet-assign t me (λ p. record p { ofile = set p.ofile fd f }) (same _ refl refl))
Step-cases {t} (moves me cwd) =
    inl (Quiet-assign t me (λ p. record p { cwd = cwd }) (same _ refl refl))
Step-cases {t} (replaces me sz pgdir tf name) = inl (
    Quiet-assign t me (λ p. record p { sz = sz; pgdir = pgdir; tf = tf; name = name })
      (same _ refl refl))
Step-cases {t} (switch n i k h) = inl (Quiet-schedule t n i k h)
Step-cases {t} (yields me run) = inl (Quiet-yield t me run)
Step-cases {t} (sleeps me c lk run h) = inl (Quiet-sleep t me c lk run h)
Step-cases {t} (resumes me run) = inl (Quiet-resume t me run)
Step-cases {t} (wakes c) = inl (Quiet-wakeup c t)
Step-cases {t} (kills pid) = inl (Quiet-kill pid t)
Step-cases {t} (exits me status inside run) = inl (Quiet-exit t me status inside run)
Step-cases {t} (reaps e f me want k pid status h) =
    inl (Quiet-reap t me want pid status _ (wait-Answer e f me want t k h))

created :
    (t : PTable) (i j : ℕ)
    → find_unused t.procs ≡ some i
    → legal (proc_at t j).state (proc_at (embryo_at i t) j).state ≡ true
created t i j found =
    let first : IsFirst (λ p. is_unused p.state) t.procs blank i =
      rw found at (find_first-Search (λ p. is_unused p.state) t.procs blank) in
    elim (Bool-cases (i == j)) [
      | inl at ↦
          let e : j ≡ i = ground arith in
          rw e (
            ground (
              arith,
              first.passes,
              first.inside,
              proc_at-assign t i i (λ p. record p { state = embryo; pid = t.nextpid }),
            ))
      | inr off ↦ ground (
        arith,
        legal_refl (proc_at t j).state,
        proc_at-assign t i j (λ p. record p { state = embryo; pid = t.nextpid }),
      )
    ]

-- Every step of proc.c changes the state of every slot only as `legal` says: unused to embryo,
-- embryo to runnable or unused, runnable to running, running to runnable, sleeping or zombie,
-- sleeping to runnable, zombie to unused, or not at all.
Step-legal :
    {t u : PTable} → Step t u → (j : ℕ) → legal (proc_at t j).state (proc_at u j).state ≡ true
Step-legal {t} {u} st j = go (Step-cases st)
  where
    go : Quiet t u ⊎ Creates t u → legal (proc_at t j).state (proc_at u j).state ≡ true
    go (inl q) = (q.evolves j).legally
    go (inr (i, found, small, e)) = rw e (created t i j found)
