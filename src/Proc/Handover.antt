-- ===== src/Proc/Handover.antt =====
-- proc.c, from the `exit` of a child to the `wait` of its parent.
use osce.Prelude.{
  ℕ, ◌<◌, ◌≡◌, ◌≢◌, refl, ◌∙◌, ap, Bool, true, false, Option, some, length, arith, IsFirst, Outcome,
  done,
}
use osce.Kalloc.{Kmem, kfree}
use osce.Proc.Table.{sleeping, runnable, slot, PTable, blank, proc_at, assign}
use osce.Proc.Life.{WaitReply, reaped, failed, asleep, chan_of, exit_tail, wait, clear_slot}
use osce.Proc.Wakeup.{proc_at-wakeup1}
use osce.Proc.Exit.{exit_tail-Exited, at_exit, at_t1, t1, t2, pass_children-Spared}
use osce.Proc.Wait.{is_zombie_child, Answer, wait-Answer, wait-reaps}

module _ (me p status : ℕ) (t : PTable) (inside : me < length t.procs)
    (child : (proc_at t me).parent ≡ some p) (ne : p ≢ me) where
  abbrev after : PTable
  after = exit_tail me status t

  -- A parent that sleeps in `wait` is runnable after the exit of its child.
  exit-wakes :
      (proc_at t p).state ≡ sleeping
      → (proc_at t p).chan ≡ slot p
      → (proc_at after p).state ≡ runnable
  exit-wakes slept on = ground (
    arith,
    at_exit me status t inside p,
    pass_children-Spared me (length (t2 me status t inside).procs) 0 (t2 me status t inside) p,
    proc_at-wakeup1 (chan_of (proc_at (t1 me status t inside) me).parent) (t1 me status t inside) p,
    at_t1 me status t inside p,
    at_t1 me status t inside me,
  )

  is_dead_child : is_zombie_child p (proc_at after me) ≡ true
  is_dead_child =
      let e = exit_tail-Exited me status t inside in ground (arith, e.dead, e.parents me)

  impossible : ¬ ((j : ℕ) → j < length after.procs → is_zombie_child p (proc_at after j) ≡ false)
  impossible miss =
      cc (miss me (omega (arith, (exit_tail-Exited me status t inside).size)), is_dead_child)

  decided :
      (want : Bool) (reply : WaitReply) (u : PTable)
      → Answer p want after reply u
      → (pid : ℕ) × (st : Option ℕ) × (reply ≡ reaped pid st)
  decided want (reaped pid st) u a = (pid, st, refl)
  decided want failed u (_, miss, _) = absurd (impossible miss)
  decided want asleep u (_, miss, _, _) = absurd (impossible miss)

  -- After the exit of a child, a round of the parent's `wait` that returns neither sleeps nor
  -- answers -1: it reaps a child.
  exit-wait-reaped :
      (kernel_end : ℕ) (freevm : ℕ → Kmem → Outcome Kmem) (want : Bool) (k : Kmem)
      {reply : WaitReply} {u : PTable} {k' : Kmem}
      → wait kernel_end freevm p want after k ≡ done (reply, u, k')
      → (pid : ℕ) × (st : Option ℕ) × (reply ≡ reaped pid st)
  exit-wait-reaped kernel_end freevm want k {reply} {u} h =
      decided want reply u (wait-Answer kernel_end freevm p want after k h)

  -- Process `me`, a child of `p`, runs the end of `exit(status)`. If no other dead child of `p`
  -- stands before it in the table, and its stack and memory can be freed, the next round of the
  -- parent's `wait(&status)` returns the pid of `me` with that status, and frees its slot.
  pub exit-wait-status :
      (kernel_end : ℕ) (freevm : ℕ → Kmem → Outcome Kmem) (k : Kmem) {k' k'' : Kmem}
      → ((j : ℕ) → j < me → is_zombie_child p (proc_at after j) ≡ false)
      → kfree kernel_end (proc_at after me).kstack k ≡ done k'
      → freevm (proc_at after me).pgdir k' ≡ done k''
      → wait kernel_end freevm p true after k
        ≡ done (reaped (proc_at t me).pid (some status), assign after me clear_slot, k'')
  exit-wait-status kernel_end freevm k {k'} {k''} first freed gone =
      let e = exit_tail-Exited me status t inside in
      let here : IsFirst (is_zombie_child p) after.procs blank me = record {
        inside = omega (arith, e.size);
        passes = is_dead_child;
        before = first;
      } in
      wait-reaps kernel_end freevm p true after k me here freed gone
      ∙ ap (λ (r : ℕ × ℕ). done (reaped r.0 (some r.1), assign after me clear_slot, k''))
          (ground (arith, e.same_pid, e.reported))
