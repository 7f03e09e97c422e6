-- ===== src/Proc/Pids.antt =====
-- proc.c, the pids in the process table.
use osce.Prelude.{
  ℕ, zero, suc, ◌+◌, ◌<◌, ◌^◌, ◌≡◌, refl, sym, ◌∙◌, false, none, some, ◌&&◌, ◌==◌, ltb,
  if◌then◌else◌, length, arith, replicate, get_or, inl, inr, ◌⊎◌,
}
use osce.Proc.Table.{embryo, is_unused, PTable, blank, proc_at, embryo_at, find_unused, nproc}
use osce.Proc.Wakeup.{proc_at-assign}
use osce.Proc.Step.{Step}
use osce.Proc.Quiet.{Quiet}
use osce.Proc.Cases.{Creates, Step-cases}

-- The pids of the processes in the table.
pub record IsValid (t : PTable) : Type 0 where
  pub size : t.nextpid < 2 ^ 32
  pub positive : 0 < t.nextpid
  pub range :
      (i : ℕ)
      → is_unused (proc_at t i).state ≡ false
      → (0 < (proc_at t i).pid) × ((proc_at t i).pid < t.nextpid)
  pub unique :
      (i j : ℕ)
      → is_unused (proc_at t i).state ≡ false
      → is_unused (proc_at t j).state ≡ false
      → (proc_at t i).pid ≡ (proc_at t j).pid
      → i ≡ j

Quiet-IsValid : {t u : PTable} → Quiet t u → IsValid t → IsValid u
Quiet-IsValid {t} {u} q v = record {
  size = omega (arith, q.counter, v.size);
  positive = omega (arith, q.counter, v.positive);
  range = λ i live. ground (arith, (q.evolves i).identity live, v.range i, q.counter);
  unique = λ i j a b e.
      v.unique i j ((q.evolves i).identity a).0 ((q.evolves j).identity b).0
        (sym ((q.evolves i).identity a).1 ∙ e ∙ ((q.evolves j).identity b).1);
}

-- The new process has the counter's value, which no other has.
embryo-IsValid :
    (t : PTable) (i : ℕ)
    → find_unused t.procs ≡ some i
    → t.nextpid + 1 < 2 ^ 32
    → IsValid t
    → IsValid (embryo_at i t)
embryo-IsValid t i found small v = record {
  size = omega arith;
  positive = omega arith;
  range = λ j live. ground (arith, at j, v.range j);
  unique = λ a b la lb e. ground (arith, at a, at b, v.range a, v.range b, v.unique a b);
}
  where
    at :
        (j : ℕ)
        → proc_at (embryo_at i t) j ≡ (
            if i == j && ltb i (length t.procs)
            then record (proc_at t j) { state = embryo; pid = t.nextpid }
            else proc_at t j)
    at j = proc_at-assign t i j (λ p. record p { state = embryo; pid = t.nextpid })

-- Every step keeps the pids of live processes positive, below the counter and distinct.
pub Step-IsValid : {t u : PTable} → Step t u → IsValid t → IsValid u
Step-IsValid {t} {u} st v = go (Step-cases st)
  where
    go : Quiet t u ⊎ Creates t u → IsValid u
    go (inl q) = Quiet-IsValid q v
    go (inr (i, found, small, e)) = rw e (embryo-IsValid t i found small v)

-- The table when the kernel starts: all zero, `nextpid` 1.
abbrev pub boot : PTable
boot = record { procs = replicate nproc blank; initproc = none; nextpid = 1 }

pub data Reach : PTable → Type 0 where
  start : Reach boot
  next : {t u : PTable} → Reach t → Step t u → Reach u

boot-blank : (n i : ℕ) → get_or (replicate n blank) i blank ≡ blank
boot-blank zero i = refl
boot-blank (suc n) zero = refl
boot-blank (suc n) (suc i) = boot-blank n i

boot-IsValid : IsValid boot
boot-IsValid = record {
  size = omega arith;
  positive = omega arith;
  range = λ i live. cc (live, boot-blank nproc i);
  unique = λ i j a b e. cc (a, boot-blank nproc i);
}

Reach-IsValid : {t : PTable} → Reach t → IsValid t
Reach-IsValid start = boot-IsValid
Reach-IsValid (next r st) = Step-IsValid st (Reach-IsValid r)

-- In every table that the steps of proc.c reach from boot, as long as `nextpid` does not wrap,
-- two slots in use with the same pid are the same slot. The steps are allocproc's, what userinit,
-- fork, growproc and exec write to a slot, changes of descriptors and directory, the scheduler's,
-- yield, sleep, wakeup, kill, the end of exit, and a reaping wait.
pub pid_unique :
    {t : PTable}
    → Reach t
    → (i j : ℕ) → is_unused (proc_at t i).state ≡ false
    → is_unused (proc_at t j).state ≡ false
    → (proc_at t i).pid ≡ (proc_at t j).pid
    → i ≡ j
pid_unique r = (Reach-IsValid r).unique
