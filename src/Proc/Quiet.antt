-- ===== src/Proc/Quiet.antt =====
-- proc.c: the legal changes of `p->state`, and what changes a slot without making a process.
use osce.Prelude.{
  ℕ, ◌+◌, ◌<◌, ◌^◌, ◌≡◌, refl, Bool, true, false, Option, some, ◌&&◌, ◌==◌, ltb, length, arith,
  Outcome, done, inl, inr, Bool-cases, ◌%◌, leb, Returns, Returns-bind,
}
use osce.Kalloc.{Kmem, kalloc}
use osce.Proc.Birth.{growproc, grown}
use osce.Proc.Table.{
  alloc_stack, ProcState, unused, embryo, sleeping, runnable, running, zombie, is_unused, Chan,
  Proc, PTable, proc_at, assign, wake, wakeup, kill,
}
use osce.Proc.Life.{reaped, sleep_start, sleep_end, yield, schedule, exit_tail}
use osce.Proc.Wakeup.{proc_at-assign, proc_at-wakeup, kill-Killed, Killed, awake, OnlyAt}
use osce.Proc.Exit.{exit_tail-Exited, Spared}
use osce.Proc.Wait.{Answer}
use osce.Proc.Scheduler.{schedule-Scheduled}

-- The changes of `p->state` that the program makes.
abbrev pub legal : ProcState → ProcState → Bool
legal unused embryo = true
legal unused unused = true
legal embryo runnable = true
legal embryo unused = true
legal embryo embryo = true
legal runnable running = true
legal runnable runnable = true
legal running runnable = true
legal running sleeping = true
legal running zombie = true
legal running running = true
legal sleeping runnable = true
legal sleeping sleeping = true
legal zombie unused = true
legal zombie zombie = true
legal _ _ = false

pub legal_refl : (s : ProcState) → legal s s ≡ true
legal_refl unused = refl
legal_refl embryo = refl
legal_refl sleeping = refl
legal_refl runnable = refl
legal_refl running = refl
legal_refl zombie = refl

-- A slot changes its state legally, and one that is in use afterwards was in use with the same pid.
pub record Evolves (p q : Proc) : Type 0 where
  pub legally : legal p.state q.state ≡ true
  pub identity : is_unused q.state ≡ false → (is_unused p.state ≡ false) × (q.pid ≡ p.pid)

Evolves-assign :
    (t : PTable) (i : ℕ) (f : Proc → Proc) (j : ℕ)
    → Evolves (proc_at t i) (f (proc_at t i))
    → Evolves (proc_at t j) (proc_at (assign t i f) j)
Evolves-assign t i f j h =
    rw (proc_at-assign t i j f) (elim (Bool-cases (i == j && ltb i (length t.procs))) [
      | inl hit ↦ rw hit (let e : i ≡ j = ground arith in rw e at h)
      | inr miss ↦ rw miss (record { legally = legal_refl _; identity = λ u. (u, refl) })
    ])

-- A step that creates no process.
pub record Quiet (t u : PTable) : Type 0 where
  pub evolves : (j : ℕ) → Evolves (proc_at t j) (proc_at u j)
  pub counter : u.nextpid ≡ t.nextpid

-- A write that keeps state and pid.
pub same : {p : Proc} (q : Proc) → q.state ≡ p.state → q.pid ≡ p.pid → Evolves p q
same {p} q state pid = ground (arith, legal_refl p.state)

pub Quiet-assign :
    (t : PTable) (i : ℕ) (f : Proc → Proc)
    → Evolves (proc_at t i) (f (proc_at t i))
    → Quiet t (assign t i f)
Quiet-assign t i f h = record { evolves = λ j. Evolves-assign t i f j h; counter = refl }

Quiet-OnlyAt :
    (t u : PTable) (i : ℕ) → OnlyAt i t u → Evolves (proc_at t i) (proc_at u i) → Quiet t u
Quiet-OnlyAt t u i only h = record { evolves = each; counter = only.counter }
  where
    each : (j : ℕ) → Evolves (proc_at t j) (proc_at u j)
    each j = elim (Bool-cases (j == i)) [
      | inl at ↦ let e : j ≡ i = ground arith in rw e h
      | inr off ↦
          rw (only.others j (ground arith))
            (record { legally = legal_refl _; identity = λ u. (u, refl) })
    ]

Quiet-refl : (t : PTable) → Quiet t t
Quiet-refl t = record {
  evolves = λ j. record { legally = legal_refl _; identity = λ u. (u, refl) };
  counter = refl;
}

Evolves-wake : (c : Chan) (p : Proc) → Evolves p (wake c p)
Evolves-wake c p = ground (arith, legal_refl p.state)

pub Quiet-wakeup : (c : Chan) (t : PTable) → Quiet t (wakeup c t)
unfolding wakeup
Quiet-wakeup c t = record {
  evolves = λ j. rw (proc_at-wakeup c t j) (Evolves-wake c (proc_at t j));
  counter = refl;
}

Evolves-awake : (p : Proc) → Evolves p (record p { killed = true; state = awake p.state })
Evolves-awake p = record { legally = by_state p.state; identity = λ u. (lives p.state u, refl) }
  where
    by_state : (s : ProcState) → legal s (awake s) ≡ true
    by_state unused = refl
    by_state embryo = refl
    by_state sleeping = refl
    by_state runnable = refl
    by_state running = refl
    by_state zombie = refl

    lives : (s : ProcState) → is_unused (awake s) ≡ false → is_unused s ≡ false
    lives unused u = u
    lives embryo u = refl
    lives sleeping u = refl
    lives runnable u = refl
    lives running u = refl
    lives zombie u = refl

pub Quiet-kill : (pid : ℕ) (t : PTable) → Quiet t (kill pid t).1
Quiet-kill pid t = go (kill-Killed pid t)
  where
    go : Killed pid t (kill pid t) → Quiet t (kill pid t).1
    go (inl (_, e, _)) = rw e (Quiet-refl t)
    go (inr (k, _, _, e, only)) = Quiet-OnlyAt t _ k only (rw e (Evolves-awake (proc_at t k)))

pub Quiet-schedule :
    (t : PTable) (n i k : ℕ) {u : PTable} → schedule n i t ≡ (some k, u) → Quiet t u
Quiet-schedule t n i k {u} h =
    let (_, _, run, _, e) = rw h at (schedule-Scheduled n i t) in
    rw e (Quiet-assign t k (λ p. record p { state = running }) (ground arith))

Evolves-Spared : (p q : Proc) → Spared p q → Evolves p q
Evolves-Spared p q s = ground (arith, legal_refl p.state, s.state)

pub Quiet-exit :
    (t : PTable) (me status : ℕ)
    → me < length t.procs
    → (proc_at t me).state ≡ running
    → Quiet t (exit_tail me status t)
Quiet-exit t me status inside run = record {
  evolves = each;
  counter = (exit_tail-Exited me status t inside).counter;
}
  where
    each : (j : ℕ) → Evolves (proc_at t j) (proc_at (exit_tail me status t) j)
    each j = elim (Bool-cases (j == me)) [
      | inl at ↦
          let e : j ≡ me = ground arith in
          rw e (let x = exit_tail-Exited me status t inside in ground (arith, x.dead, x.same_pid))
      | inr off ↦ Evolves-Spared _ _ ((exit_tail-Exited me status t inside).others j (ground arith))
    ]

entered :
    (t : PTable) (me : ℕ) (c : Chan) (lk : ℕ) {u : PTable}
    → sleep_start (some me) c lk t ≡ done u
    → u ≡ assign t me (λ p. record p { chan = c; state = sleeping })
unfolding sleep_start
entered t me c lk h = elim (Bool-cases (lk == 0)) [
  | inl null_lock ↦ cc (rw null_lock at h)
  | inr locked ↦ cc (rw locked at h)
]

pub Quiet-sleep :
    (t : PTable) (me : ℕ) (c : Chan) (lk : ℕ) {u : PTable}
    → (proc_at t me).state ≡ running
    → sleep_start (some me) c lk t ≡ done u
    → Quiet t u
Quiet-sleep t me c lk {u} run h =
    rw (entered t me c lk h)
      (Quiet-assign t me (λ p. record p { chan = c; state = sleeping }) (ground arith))

pub Quiet-reap :
    (t : PTable) (me : ℕ) (want : Bool) (pid : ℕ) (status : Option ℕ) (u : PTable)
    → Answer me want t (reaped pid status) u
    → Quiet t u
Quiet-reap t me want pid status u (z, first, _, _, gone, only) =
    Quiet-OnlyAt t u z only (ground (arith, first.passes, gone.free))

pub Quiet-stack :
    (t : PTable) (i : ℕ) (k : Kmem) → (proc_at t i).state ≡ embryo → Quiet t (alloc_stack i t k).1
unfolding alloc_stack
Quiet-stack t i k e = elim (Bool-cases ((kalloc k).0 == 0)) [
  | inl empty ↦
      rw empty
        (Quiet-assign t i (λ p. record p { kstack = (kalloc k).0; state = unused }) (ground arith))
  | inr page ↦
      rw page (Quiet-assign t i (λ p. record p { kstack = (kalloc k).0 }) (same _ refl refl))
]

abbrev Grown : PTable → Bool × PTable × Kmem → Type 0
Grown t r = Quiet t r.1

pub Quiet-grow :
    (allocuvm deallocuvm : ℕ → ℕ → ℕ → Kmem → Outcome (ℕ × Kmem)) (me n : ℕ) (t : PTable) (k : Kmem)
    → Returns (Grown t) (growproc allocuvm deallocuvm me n t k)
unfolding growproc
Quiet-grow allocuvm deallocuvm me n t k =
    let p = proc_at t me in
    let size = (p.sz + n) % 2 ^ 32 in
    elim (Bool-cases (n == 0)) [
      | inl nothing ↦ rw nothing (resized p.sz)
      | inr some_bytes ↦ elim (Bool-cases (leb (2 ^ 31) n)) [
        | inl less ↦
            rw (some_bytes, less) (Returns-bind (Grown t) (deallocuvm p.pgdir p.sz size k) _ after)
        | inr more ↦
            rw (some_bytes, more) (Returns-bind (Grown t) (allocuvm p.pgdir p.sz size k) _ after)
      ]
    ]
  where
    resized : (sz : ℕ) → Quiet t (assign t me (λ q. record q { sz = sz }))
    resized sz = Quiet-assign t me (λ q. record q { sz = sz }) (same _ refl refl)

    after : (r : ℕ × Kmem) → Returns (Grown t) (done (grown me r t))
    after r = elim (Bool-cases (r.0 == 0)) [
      | inl failed ↦ rw failed (Quiet-refl t)
      | inr fine ↦ rw fine (resized r.0)
    ]

pub Quiet-yield : (t : PTable) (me : ℕ) → (proc_at t me).state ≡ running → Quiet t (yield me t)
unfolding yield
Quiet-yield t me run = Quiet-assign t me (λ p. record p { state = runnable }) (ground arith)

pub Quiet-resume : (t : PTable) (me : ℕ) → (proc_at t me).state ≡ running → Quiet t (sleep_end me t)
unfolding sleep_end
Quiet-resume t me run = Quiet-assign t me (λ p. record p { chan = Chan.null }) (ground arith)
