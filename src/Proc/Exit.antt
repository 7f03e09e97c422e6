-- ===== src/Proc/Exit.antt =====
-- proc.c, the end of `exit`: what becomes of the process and its relatives.
use osce.Prelude.{
  ℕ, zero, suc, ◌+◌, ◌<◌, ◌≡◌, ◌≢◌, refl, ◌∙◌, true, ◌&&◌, ◌⊎◌, inl, ◌==◌, ◌==?◌, ltb, leb,
  if◌then◌else◌, length, arith, get_or_outside, length-modify,
}
use osce.Proc.Table.{
  sleeping, runnable, zombie, Chan, Proc, PTable, blank, proc_at, assign, wake, wakeup1,
}
use osce.Proc.Life.{adopt, chan_of, pass_one, pass_children, exit_tail}
use osce.Proc.Wakeup.{proc_at-assign, proc_at-wakeup1, length-wakeup1}

-- Two slots differ at most in what `exit` changes in others: parent, and sleep to runnable.
pub record Spared (p q : Proc) : Type 0 where
  pub pid : q.pid ≡ p.pid
  pub status : q.status ≡ p.status
  pub killed : q.killed ≡ p.killed
  pub cwd : q.cwd ≡ p.cwd
  pub chan : q.chan ≡ p.chan
  pub state : (q.state ≡ p.state) ⊎ ((p.state ≡ sleeping) × (q.state ≡ runnable))

Spared-refl : (p : Proc) → Spared p p
Spared-refl p = record {
  pid = refl;
  status = refl;
  killed = refl;
  cwd = refl;
  chan = refl;
  state = inl refl;
}

Spared-trans : {p q r : Proc} → Spared p q → Spared q r → Spared p r
Spared-trans a b = ground arith

Spared-wake : (c : Chan) (p : Proc) → Spared p (wake c p)
Spared-wake c p = ground arith

-- One round of the loop that passes the children on.
pass_one-parent :
    (me i : ℕ) (t : PTable) (j : ℕ)
    → (proc_at (pass_one me i t) j).parent
      ≡ (if i == j && (proc_at t j).parent ==? me then t.initproc else (proc_at t j).parent)
unfolding pass_one
pass_one-parent me i t j = ground (
  arith,
  proc_at-assign t i j (adopt t.initproc),
  proc_at-wakeup1 (chan_of t.initproc) (assign t i (adopt t.initproc)) j,
  get_or_outside t.procs i blank,
)

pass_one-Spared :
    (me i : ℕ) (t : PTable) (j : ℕ) → Spared (proc_at t j) (proc_at (pass_one me i t) j)
unfolding pass_one
pass_one-Spared me i t j = ground (
  arith,
  proc_at-assign t i j (adopt t.initproc),
  proc_at-wakeup1 (chan_of t.initproc) (assign t i (adopt t.initproc)) j,
)

pass_one-fixed :
    (me i : ℕ) (t : PTable)
    → ((pass_one me i t).initproc ≡ t.initproc)
      × (length (pass_one me i t).procs ≡ length t.procs)
      × ((pass_one me i t).nextpid ≡ t.nextpid)
unfolding pass_one wakeup1
pass_one-fixed me i t = ground (
  arith,
  length-modify t.procs i (adopt t.initproc),
  length-wakeup1 (chan_of t.initproc) (assign t i (adopt t.initproc)),
)

pass_children-fixed :
    (me n i : ℕ) (t : PTable)
    → ((pass_children me n i t).initproc ≡ t.initproc)
      × (length (pass_children me n i t).procs ≡ length t.procs)
      × ((pass_children me n i t).nextpid ≡ t.nextpid)
unfolding pass_children
pass_children-fixed me zero i t = (refl, refl, refl)
pass_children-fixed me (suc n) i t =
    ground (arith, pass_one-fixed me i t, pass_children-fixed me n (i + 1) (pass_one me i t))

pub pass_children-Spared :
    (me n i : ℕ) (t : PTable) (j : ℕ) → Spared (proc_at t j) (proc_at (pass_children me n i t) j)
unfolding pass_children
pass_children-Spared me zero i t j = Spared-refl _
pass_children-Spared me (suc n) i t j =
    Spared-trans (pass_one-Spared me i t j) (pass_children-Spared me n (i + 1) (pass_one me i t) j)

-- The slots from `i` on, `n` of them, have no parent `me` left.
pass_children-parent :
    (me n i : ℕ) (t : PTable) (j : ℕ)
    → (proc_at (pass_children me n i t) j).parent ≡ (
        if (leb i j && ltb j (i + n)) && (proc_at t j).parent ==? me
        then t.initproc
        else (proc_at t j).parent)
unfolding pass_children
pass_children-parent me zero i t j = ground arith
pass_children-parent me (suc n) i t j = ground (
  arith,
  pass_one-parent me i t j,
  pass_one-fixed me i t,
  pass_children-parent me n (i + 1) (pass_one me i t) j,
)

-- What the tail of `exit` does: the process is a zombie with its status; every child of it, dead or
-- alive, belongs to init and no other parent changes; every other slot keeps its pid, status and
-- channel, and changes its state at most from sleeping to runnable.
pub record Exited (me status : ℕ) (t u : PTable) : Type 0 where
  pub dead : (proc_at u me).state ≡ zombie
  pub reported : (proc_at u me).status ≡ status
  pub left : (proc_at u me).cwd ≡ 0
  pub same_pid : (proc_at u me).pid ≡ (proc_at t me).pid
  pub parents :
      (j : ℕ)
      → (proc_at u j).parent
        ≡ (if (proc_at t j).parent ==? me then t.initproc else (proc_at t j).parent)
  pub others : (j : ℕ) → j ≢ me → Spared (proc_at t j) (proc_at u j)
  pub size : length u.procs ≡ length t.procs
  pub counter : u.nextpid ≡ t.nextpid

module _ (me status : ℕ) (t : PTable) (inside : me < length t.procs) where
  abbrev pub t1 : PTable
  t1 = assign t me (λ p. record p { cwd = 0; status = status })

  abbrev pub t2 : PTable
  t2 = wakeup1 (chan_of (proc_at t1 me).parent) t1

  abbrev pub t3 : PTable
  t3 = pass_children me (length t2.procs) 0 t2

  pub at_t1 :
      (j : ℕ)
      → proc_at t1 j
        ≡ (if j == me then record (proc_at t j) { cwd = 0; status = status } else proc_at t j)
  at_t1 j = ground (arith, proc_at-assign t me j (λ p. record p { cwd = 0; status = status }))

  size3 : length t3.procs ≡ length t.procs
  size3 = ground (
    arith,
    length-modify t.procs me (λ p. record p { cwd = 0; status = status }),
    length-wakeup1 (chan_of (proc_at t1 me).parent) t1,
    pass_children-fixed me (length t2.procs) 0 t2,
  )

  between : (j : ℕ) → Spared (proc_at t1 j) (proc_at t3 j)
  between j =
      Spared-trans (rw (proc_at-wakeup1 (chan_of (proc_at t1 me).parent) t1 j) (Spared-wake _ _))
        (pass_children-Spared me (length t2.procs) 0 t2 j)

  pub at_exit :
      (j : ℕ)
      → proc_at (exit_tail me status t) j
        ≡ (if j == me then record (proc_at t3 j) { state = zombie } else proc_at t3 j)
  unfolding exit_tail
  at_exit j = ground (arith, size3, proc_at-assign t3 me j (λ p. record p { state = zombie }))

  parent2 : (j : ℕ) → (proc_at t2 j).parent ≡ (proc_at t j).parent
  parent2 j = ground (arith, proc_at-wakeup1 (chan_of (proc_at t1 me).parent) t1 j, at_t1 j)

  pub size2 : length t2.procs ≡ length t.procs
  size2 = ground (
    arith,
    length-modify t.procs me (λ p. record p { cwd = 0; status = status }),
    length-wakeup1 (chan_of (proc_at t1 me).parent) t1,
  )

  init2 : t2.initproc ≡ t.initproc
  unfolding wakeup1
  init2 = refl

  -- Outside the table there is no parent, so the bounds of the loop can go.
  outside : (j : ℕ) → (proc_at t j).parent ==? me ≡ true → ltb j (length t.procs) ≡ true
  outside j h = ground (arith, get_or_outside t.procs j blank)

  parent3 :
      (j : ℕ)
      → (proc_at t3 j).parent
        ≡ (if (proc_at t j).parent ==? me then t.initproc else (proc_at t j).parent)
  parent3 j =
      ground (
        arith,
        pass_children-parent me (length t2.procs) 0 t2 j,
        parent2 j,
        size2,
        init2,
        outside j,
      )

  size_exit : length (exit_tail me status t).procs ≡ length t.procs
  unfolding exit_tail
  size_exit = length-modify t3.procs me (λ p. record p { state = zombie }) ∙ size3

  counter_exit : (exit_tail me status t).nextpid ≡ t.nextpid
  unfolding exit_tail wakeup1
  counter_exit = (pass_children-fixed me (length t2.procs) 0 t2).2

  -- For a process in the table the end of `exit` leaves a zombie with the status, no directory
  -- and the same pid; every child of it, dead or alive, belongs to init and no other parent
  -- changes; every other slot keeps pid, status, kill mark, directory and channel, and changes
  -- its state at most from sleeping to runnable; `nextpid` and the size of the table stay.
  pub exit_tail-Exited : Exited me status t (exit_tail me status t)
  exit_tail-Exited = record {
    dead = ground (arith, at_exit me);
    reported = ground (arith, at_exit me, at_t1 me, between me);
    left = ground (arith, at_exit me, at_t1 me, between me);
    same_pid = ground (arith, at_exit me, at_t1 me, between me);
    parents = λ j. ground (arith, at_exit j, parent3 j);
    others = λ j ne. ground (arith, at_exit j, at_t1 j, between j);
    size = size_exit;
    counter = counter_exit;
  }
