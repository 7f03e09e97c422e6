-- ===== src/Proc/Wakeup.antt =====
-- proc.c, `wakeup` and `kill`, slot by slot.
use osce.Prelude.{
  ℕ, ◌<◌, ◌≡◌, ◌≢◌, refl, sym, ◌∙◌, ap, Bool, true, false, Option, none, some, ◌&&◌, ◌⊎◌, inl, inr,
  ◌==◌, ltb, if◌then◌else◌, modify, length, arith, get_or-modify, get_or-map, done,
  find_first-modify, length-map, length-modify, IsFirst, Search, find_first-Search,
}
use osce.Kalloc.{Kmem, kalloc}
use osce.Proc.Life.{sleep_start}
use osce.Proc.Table.{
  ProcState, unused, embryo, sleeping, runnable, running, zombie, is_unused, Chan, Proc, PTable,
  blank, proc_at, assign, wake, wakeup1, wakeup, find_pid, find_unused, kill_proc, kill,
  alloc_stack, embryo_at, allocproc,
}

-- The slot `j` after an assignment at slot `i`.
pub proc_at-assign :
    (t : PTable) (i j : ℕ) (f : Proc → Proc)
    → proc_at (assign t i f) j
      ≡ (if i == j && ltb i (length t.procs) then f (proc_at t j) else proc_at t j)
proc_at-assign t i j f = get_or-modify t.procs i j f blank

-- `wakeup` makes runnable exactly the processes that sleep on the channel; every other slot, and
-- every other field, stays.
pub proc_at-wakeup : (c : Chan) (t : PTable) (j : ℕ) → proc_at (wakeup c t) j ≡ wake c (proc_at t j)
unfolding wakeup
proc_at-wakeup c t j = get_or-map t.procs (wake c) j blank refl

pub proc_at-wakeup1 :
    (c : Chan) (t : PTable) (j : ℕ) → proc_at (wakeup1 c t) j ≡ wake c (proc_at t j)
unfolding wakeup1
proc_at-wakeup1 c t j = get_or-map t.procs (wake c) j blank refl

pub length-wakeup1 : (c : Chan) (t : PTable) → length (wakeup1 c t).procs ≡ length t.procs
unfolding wakeup1
length-wakeup1 c t = length-map t.procs (wake c)

-- Outside of slot `i` nothing has changed.
pub record OnlyAt (i : ℕ) (t u : PTable) : Type 0 where
  pub others : (j : ℕ) → j ≢ i → proc_at u j ≡ proc_at t j
  pub size : length u.procs ≡ length t.procs
  pub root : u.initproc ≡ t.initproc
  pub counter : u.nextpid ≡ t.nextpid

pub OnlyAt-assign : (t : PTable) (i : ℕ) (f : Proc → Proc) → OnlyAt i t (assign t i f)
OnlyAt-assign t i f = record {
  others = λ j ne. ground (arith, proc_at-assign t i j f);
  size = length-modify t.procs i f;
  root = refl;
  counter = refl;
}

pub proc_at-assigned :
    (t : PTable) (i : ℕ) (f : Proc → Proc)
    → i < length t.procs
    → proc_at (assign t i f) i ≡ f (proc_at t i)
proc_at-assigned t i f inside = ground (arith, proc_at-assign t i i f)

-- The state of a process that has been killed: it no longer sleeps.
abbrev pub awake : ProcState → ProcState
awake unused = unused
awake embryo = embryo
awake sleeping = runnable
awake runnable = runnable
awake running = running
awake zombie = zombie

-- What `kill` comes to: an unknown pid changes nothing; otherwise the first slot with the pid is
-- marked, and made runnable if it slept.
abbrev pub Killed : ℕ → PTable → Bool × PTable → Type 0
Killed pid t (known, u) =
    ((known ≡ false) × (u ≡ t) × ((j : ℕ) → j < length t.procs → (proc_at t j).pid ≢ pid))
    ⊎ ((k : ℕ) × (known ≡ true)
        × IsFirst (λ p. p.pid == pid) t.procs blank k
        × (proc_at u k ≡ record (proc_at t k) { killed = true; state = awake (proc_at t k).state })
        × OnlyAt k t u)

kill_proc-awake : (p : Proc) → kill_proc p ≡ record p { killed = true; state = awake p.state }
kill_proc-awake p = by_state p.state refl
  where
    by_state :
        (s : ProcState)
        → p.state ≡ s
        → kill_proc p ≡ record p { killed = true; state = awake p.state }
    by_state unused e = rw e refl
    by_state embryo e = rw e refl
    by_state sleeping e = rw e refl
    by_state runnable e = rw e refl
    by_state running e = rw e refl
    by_state zombie e = rw e refl

-- `kill` of a pid that no slot has returns -1 and changes nothing; otherwise it returns 0, the
-- first slot with the pid is marked killed, is RUNNABLE if it was SLEEPING and keeps its state if
-- not, and keeps its other fields, and nothing outside of this slot changes.
pub kill-Killed : (pid : ℕ) (t : PTable) → Killed pid t (kill pid t)
unfolding kill
kill-Killed pid t =
    split (find_pid pid t.procs) (find_first-Search (λ p. p.pid == pid) t.procs blank)
  where
    split :
        (r : Option ℕ)
        → Search (λ p. p.pid == pid) t.procs blank r
        → Killed pid t (elim r [ none ↦ (false, t) | some i ↦ (true, assign t i kill_proc) ])
    split none miss = inl (refl, refl, λ j h e. ground (arith, miss j h))
    split (some k) first = inr (
      k,
      refl,
      first,
      proc_at-assigned t k kill_proc first.inside ∙ kill_proc-awake (proc_at t k),
      OnlyAt-assign t k kill_proc,
    )

is_unused-kill_proc : (p : Proc) → is_unused (kill_proc p).state ≡ is_unused p.state
is_unused-kill_proc p = ground arith

alloc_stack-killed :
    (i : ℕ) (t t' : PTable) (k k' : Kmem)
    → alloc_stack i t k ≡ (some i, t', k')
    → (proc_at t' i).killed ≡ (proc_at t i).killed
unfolding alloc_stack
alloc_stack-killed i t t' k k' h =
    ground (arith, get_or-modify t.procs i i (λ p. record p { kstack = (kalloc k).0 }) blank)

kill-found :
    (pid i : ℕ) (t : PTable)
    → find_pid pid t.procs ≡ some i
    → kill pid t ≡ (true, assign t i kill_proc)
unfolding kill
kill-found pid i t h = rw (h, kill) refl

pub allocproc-found :
    (i : ℕ) (t : PTable) (k : Kmem)
    → find_unused t.procs ≡ some i
    → allocproc t k ≡ alloc_stack i (embryo_at i t) k
unfolding allocproc
allocproc-found i t k h = rw (h, allocproc) refl

-- If the first free slot is also the first slot with the pid, `kill` returns 0, and when
-- `allocproc` then allocates that slot, the new process is marked killed.
born_killed :
    (pid i : ℕ) (t t' : PTable) (k k' : Kmem)
    → find_unused t.procs ≡ some i
    → find_pid pid t.procs ≡ some i
    → allocproc (kill pid t).1 k ≡ (some i, t', k')
    → ((kill pid t).0 ≡ true) × ((proc_at t' i).killed ≡ true)
born_killed pid i t t' k k' hu hp ha =
    (ap (λ r. r.0) (kill-found pid i t hp), alloc_stack-killed i _ t' k k' started ∙ marked)
  where
    same : find_unused (assign t i kill_proc).procs ≡ some i
    same = find_first-modify (λ p. is_unused p.state) kill_proc is_unused-kill_proc t.procs i 0 ∙ hu

    first : IsFirst (λ p. is_unused p.state) t.procs blank i
    first = rw hu at (find_first-Search (λ p. is_unused p.state) t.procs blank)

    started : alloc_stack i (embryo_at i (assign t i kill_proc)) k ≡ (some i, t', k')
    started =
        sym (allocproc-found i (assign t i kill_proc) k same)
        ∙ ap (λ r. allocproc r.1 k) (sym (kill-found pid i t hp))
        ∙ ha

    marked : (proc_at (embryo_at i (assign t i kill_proc)) i).killed ≡ true
    marked = ground (
      arith,
      first.inside,
      length-modify t.procs i kill_proc,
      get_or-modify t.procs i i kill_proc blank,
      get_or-modify (modify t.procs i kill_proc) i i
          (λ p. record p { state = embryo; pid = t.nextpid }) blank,
    )

-- `sleep` with a process and a lock puts the process to sleep on the channel.
pub sleep_start-done :
    (me : ℕ) (c : Chan) (lk : ℕ) (t : PTable)
    → lk ≢ 0
    → sleep_start (some me) c lk t
      ≡ done (assign t me (λ p. record p { chan = c; state = sleeping }))
unfolding sleep_start
sleep_start-done me c lk t ne = ground arith
