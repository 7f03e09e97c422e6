-- ===== src/Proc/Life.antt =====
-- proc.c: a process from fork to wait, and the scheduler's choices.
use osce.Prelude.{
  ℕ, zero, suc, ◌+◌, Bool, true, false, Option, none, some, List, [], ◌∷◌, ◌&&◌, ◌||◌, ◌==◌, ◌==?◌,
  if◌then◌else◌, get_or, set, Outcome, done, panic, ◌>>=◌, not, length,
}
use osce.Kalloc.{Kmem, kfree}
use osce.Proc.Table.{
  ProcState, unused, sleeping, runnable, running, zombie, is_zombie, is_runnable, Chan, null, slot,
  Proc, PTable, proc_at, assign, wakeup1,
}

-- `sleep` up to `sched`, and from its return: `lk` is 0 for NULL. The caller's lock is dropped
-- only after `ptable.lock` is held, and taken again at the end.
unfoldable pub sleep_start : Option ℕ → Chan → ℕ → PTable → Outcome PTable
sleep_start none c lk t = panic
sleep_start (some me) c lk t =
    if lk == 0 then panic else done (assign t me (λ p. record p { chan = c; state = sleeping }))

unfoldable pub sleep_end : ℕ → PTable → PTable
sleep_end me t = assign t me (λ p. record p { chan = null })

unfoldable pub yield : ℕ → PTable → PTable
yield me t = assign t me (λ p. record p { state = runnable })

abbrev is_running : ProcState → Bool
is_running running = true
is_running _ = false

-- The checks of `sched` before it leaves the process.
unfoldable pub sched : (holding : Bool) (ncli : ℕ) (interrupts : Bool) → ℕ → PTable → Outcome PTable
sched holding ncli interrupts me t =
    if not holding
    then panic
    else if not (ncli == 1)
    then panic
    else if is_running (proc_at t me).state
    then panic
    else if interrupts
    then panic
    else done t

-- One pass of `scheduler` over the slots from `i`, `n` of them: the slot that it switches to.
unfoldable pub schedule : ℕ → ℕ → PTable → Option ℕ × PTable
schedule zero i t = (none, t)
schedule (suc n) i t =
    let rest = schedule n (i + 1) t in
    if not (is_runnable (proc_at t i).state)
    then rest
    else (some i, assign t i (λ p. record p { state = running }))

pub data WaitReply : Type 0 where
  reaped : (pid : ℕ) (status : Option ℕ) → WaitReply
  failed : WaitReply
  asleep : WaitReply

-- The loop of `wait` over the table from slot `i`: the first zombie child, and `havekids`.
unfoldable pub find_zombie : ℕ → List Proc → ℕ → Bool → Option ℕ × Bool
find_zombie me [] i kids = (none, kids)
find_zombie me (p ∷ ps) i kids =
    let rest = find_zombie me ps (i + 1) (kids || p.parent ==? me) in
    if p.parent ==? me && is_zombie p.state then (some i, true) else rest

abbrev pub clear_slot : Proc → Proc
clear_slot p = record p {
  kstack = 0;
  state = unused;
  pid = 0;
  parent = none;
  name = set p.name 0 0;
  killed = false;
}

-- A lock's address that is not NULL: `&ptable.lock`.
abbrev pub ptable_lock : ℕ
ptable_lock = 1

-- `freevm`, `copyuvm` and the rest of vm.c enter as arguments.
module _ (kernel_end : ℕ) (freevm : ℕ → Kmem → Outcome Kmem) where
  -- `wait` after its scan. `want` says that `status` is not NULL.
  unfoldable pub wait_scanned :
      ℕ → Bool → PTable → Kmem → Option ℕ → Bool → Outcome (WaitReply × PTable × Kmem)
  unfolding sleep_start
  wait_scanned me want t k (some z) havekids = do
    let p = proc_at t z
    k' ← kfree kernel_end p.kstack k
    k'' ← freevm p.pgdir k'
    done (reaped p.pid (if want then some p.status else none), assign t z clear_slot, k'')
  wait_scanned me want t k none havekids =
      if not havekids || (proc_at t me).killed
      then done (failed, t, k)
      else do t' ← sleep_start (some me) (slot me) ptable_lock t; done (asleep, t', k)

  -- One round of the endless loop of `wait`. After `asleep` the round runs again when the
  -- process is scheduled and `sleep_end` has run.
  unfoldable pub wait : ℕ → Bool → PTable → Kmem → Outcome (WaitReply × PTable × Kmem)
  unfolding find_zombie wait_scanned
  wait me want t k =
      let (found, havekids) = find_zombie me t.procs 0 false in
      wait_scanned me want t k found havekids

abbrev pub chan_of : Option ℕ → Chan
chan_of none = null
chan_of (some i) = slot i

abbrev pub adopt : Option ℕ → Proc → Proc
adopt i p = record p { parent = i }

-- The body of the loop of `exit` that passes children to init, at slot `i`.
unfoldable pub pass_one : ℕ → ℕ → PTable → PTable
pass_one me i t =
    if (proc_at t i).parent ==? me
    then (let t' = assign t i (adopt t.initproc) in
        if is_zombie (proc_at t i).state then wakeup1 (chan_of t.initproc) t' else t')
    else t

unfoldable pub pass_children : ℕ → ℕ → ℕ → PTable → PTable
unfolding pass_one
pass_children me zero i t = t
pass_children me (suc n) i t = pass_children me n (i + 1) (pass_one me i t)

-- `exit` from `proc->cwd = 0` to `sched`.
unfoldable pub exit_tail : ℕ → ℕ → PTable → PTable
unfolding pass_children
exit_tail me status t =
    let t1 = assign t me (λ p. record p { cwd = 0; status = status }) in
    let t2 = wakeup1 (chan_of (proc_at t1 me).parent) t1 in
    let t3 = pass_children me (length t2.procs) 0 t2 in
    assign t3 me (λ p. record p { state = zombie })

-- The file layer, with its state `R`. Its calls may sleep, so others may change the table.
module _ {R : Type 0} (fileclose iput_in_op : ℕ → PTable × R → Outcome (PTable × R)) where
  -- The loop over `ofile`, `n` descriptors from `fd` on.
  pub close_files : ℕ → ℕ → ℕ → PTable × R → Outcome (PTable × R)
  close_files me zero fd (t, r) = done (t, r)
  close_files me (suc n) fd (t, r) =
      let f = get_or (proc_at t me).ofile fd 0 in
      let next = (do
        (t', r') ← fileclose f (t, r)
        close_files me n (fd + 1)
            (assign t' me (λ p. record p { ofile = set p.ofile fd 0 }), r')) in
      let skip = close_files me n (fd + 1) (t, r) in if f == 0 then skip else next

  unfoldable pub exit : ℕ → ℕ → PTable × R → Outcome (PTable × R)
  unfolding close_files
  exit me status (t, r) = if t.initproc ==? me then panic else do
    (t1, r1) ← close_files me 16 0 (t, r)
    (t2, r2) ← iput_in_op (proc_at t1 me).cwd (t1, r1)
    done (exit_tail me status t2, r2)
