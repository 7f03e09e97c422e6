-- ===== src/Proc/Tests.antt =====
-- Runs of the process table (proc.c): init, a shell, its child, and a free slot.
use osce.Prelude.{
  ℕ, zero, suc, ◌+◌, ◌<◌, ◌≡◌, ◌==◌, refl, true, false, some, [], ◌∷◌, replicate, get_or, arith,
  find_first, Outcome, done, if◌then◌else◌,
}
use osce.Kalloc.{Kmem, kalloc, kfree, store, fill_junk}
use osce.Kalloc.FreeList.{IsPage, kfree-done}
use osce.Proc.Table.{
  ProcState, sleeping, running, slot, Proc, PTable, blank, proc_at, assign, find_unused, embryo_at,
  alloc_stack, allocproc, kill, wakeup1,
}
use osce.Proc.Life.{reaped, clear_slot, exit_tail, wait}
use osce.Proc.Birth.{
  first_of, child_of, userinit, dup_files, fork_copied, fork_into, fork_found, fork,
}
use osce.Proc.Wakeup.{Killed, kill-Killed}
use osce.Proc.Wait.{is_zombie_child, Answer, wait-Answer}
use osce.Proc.Exit.{Exited, exit_tail-Exited}
use osce.Proc.Handover.{exit-wait-status}
use osce.Proc.Step.{Step}
use osce.Proc.Pids.{Reach, boot, pid_unique}
use osce.Proc.Forking.{Forked, IsClosed, fork-Forked}
use osce.Proc.Births.{userinit-Reach, fork-Reach}

abbrev family : PTable
family = record {
  procs =
      record blank { state = sleeping; pid = 1; chan = slot 0 }
      ∷ record blank { state = sleeping; pid = 2; chan = slot 1; parent = some 0 }
      ∷ record blank { state = running; pid = 3; parent = some 1; kstack = 0x8020_0000; sz = 8192 }
      ∷ blank
      ∷ [];
  initproc = some 0;
  nextpid = 4;
}

abbrev ended : PTable
ended = exit_tail 2 7 family

-- One free page.
abbrev memory : Kmem
memory = record { use_lock = true; freelist = 0x8030_0000; word = λ _. 0 }

abbrev memory_after : Kmem
memory_after = record {
  use_lock = true;
  freelist = 0x8020_0000;
  word = store 0x8020_0000 0x8030_0000 (fill_junk 0x8020_0000 (λ _. 0));
}

abbrev free_nothing : ℕ → Kmem → Outcome Kmem
free_nothing pgdir k = done k

exit_tail-Exited_example : Exited 2 7 family ended
exit_tail-Exited_example = exit_tail-Exited 2 7 family (omega arith)

stack-IsPage : IsPage 0x8010_0000 0x8020_0000
stack-IsPage = record { aligned = refl; above = omega arith; below = omega arith }

stack_freed : kfree 0x8010_0000 (proc_at ended 2).kstack memory ≡ done memory_after
unfolding exit_tail wakeup1
stack_freed = kfree-done 0x8010_0000 0x8020_0000 memory stack-IsPage

no_other : (j : ℕ) → j < 2 → is_zombie_child 1 (proc_at ended j) ≡ false
unfolding exit_tail wakeup1
no_other zero lt = refl
no_other (suc zero) lt = refl
no_other (suc (suc j)) lt = absurd (omega arith)

exit-wait-status_example :
    wait 0x8010_0000 free_nothing 1 true ended memory
    ≡ done (reaped 3 (some 7), assign ended 2 clear_slot, memory_after)
exit-wait-status_example =
    exit-wait-status 2 1 7 family (omega arith) refl (omega arith) 0x8010_0000 free_nothing memory
      no_other stack_freed refl

child_reaped :
    wait 0x8010_0000 free_nothing 1 true ended memory
    ≡ done (reaped 3 (some 7), assign ended 2 clear_slot, memory_after)
child_reaped =
    exit-wait-status 2 1 7 family (omega arith) refl (omega arith) 0x8010_0000 free_nothing memory
      no_other stack_freed refl

wait-Answer_example : Answer 1 true ended (reaped 3 (some 7)) (assign ended 2 clear_slot)
wait-Answer_example = wait-Answer 0x8010_0000 free_nothing 1 true ended memory child_reaped

kill-Killed_example : Killed 2 family (kill 2 family)
kill-Killed_example = kill-Killed 2 family

exited : Step family ended
exited = Step.exits 2 7 (omega arith) refl

-- Two free pages.
abbrev two_pages : Kmem
two_pages = record {
  use_lock = true;
  freelist = 0x8030_0000;
  word = λ a. if a == 0x8030_0000 then 0x8020_0000 else 0;
}

-- A file layer that counts references, and memory that needs no page.
abbrev count_one : ℕ → ℕ → Outcome ℕ
count_one f r = done (r + 1)

abbrev share : ℕ → ℕ → Kmem → Outcome (ℕ × Kmem)
share pgdir sz k = done (77, k)

abbrev kernel_half : Kmem → Outcome (ℕ × Kmem)
kernel_half k = done (76, k)

abbrev no_code : ℕ → Kmem → Outcome Kmem
no_code pgdir k = done k

abbrev find_root : ℕ → Outcome (ℕ × ℕ)
find_root r = done (5, r + 1)

-- The first process, and its child.
abbrev booted : PTable
booted =
    record (assign (assign (embryo_at 0 boot) 0 (λ p. record p { kstack = 0x8030_0000 })) 0
      (first_of 76 5)) { initproc = some 0 }

abbrev parent_and_child : PTable
parent_and_child =
    assign (assign (embryo_at 1 booted) 1 (λ p. record p { kstack = 0x8020_0000 })) 1
      (child_of 0 (proc_at booted 0) 77 blank.ofile)

booted-Reach : Reach booted
unfolding userinit allocproc alloc_stack kalloc find_first
booted-Reach =
    userinit-Reach kernel_half no_code find_root boot two_pages 0 Reach.start (omega arith)

parent_and_child-Reach : Reach parent_and_child
unfolding fork fork_found fork_into fork_copied dup_files allocproc alloc_stack kalloc find_first
parent_and_child-Reach =
    fork-Reach count_one count_one 0x8010_0000 share 0 booted (kalloc two_pages).1 0 booted-Reach
      (omega arith)

pid_unique_example : ◌≡◌ {A = ℕ} 1 1
pid_unique_example = pid_unique parent_and_child-Reach 1 1 refl refl refl

-- Slot 3 is free and has pid 0.
slot_free : find_unused family.procs ≡ some 3
unfolding find_first
slot_free = refl

slot_found : find_first (λ (p : Proc). p.pid == 0) family.procs 0 ≡ some 3
unfolding find_first
slot_found = refl

abbrev no_memory_left : Kmem
no_memory_left = record memory { freelist = 0 }

abbrev allocated : PTable
allocated = record {
  procs =
      record blank { state = sleeping; pid = 1; chan = slot 0 }
      ∷ record blank { state = sleeping; pid = 2; chan = slot 1; parent = some 0 }
      ∷ record blank { state = running; pid = 3; parent = some 1; kstack = 0x8020_0000; sz = 8192 }
      ∷ record blank { state = ProcState.embryo; pid = 4; kstack = 0x8030_0000; killed = true }
      ∷ [];
  initproc = some 0;
  nextpid = 5;
}

slot_allocated : allocproc (kill 0 family).1 memory ≡ (some 3, allocated, no_memory_left)
unfolding allocproc kill alloc_stack kalloc find_first
slot_allocated = refl

abbrev after_fork : PTable
after_fork =
    assign (assign (embryo_at 3 family) 3 (λ p. record p { kstack = 0x8030_0000 })) 3
      (child_of 2 (proc_at family 2) 77 blank.ofile)

forked :
    fork count_one 0x8010_0000 share count_one 2 family memory 0
    ≡ done (some 4, after_fork, (kalloc memory).1, 1)
unfolding fork fork_found fork_into fork_copied dup_files allocproc alloc_stack kalloc find_first
forked = refl

zeros : (n fd : ℕ) → ◌≡◌ {A = ℕ} (get_or (replicate n 0) fd 0) 0
zeros zero fd = refl
zeros (suc n) zero = refl
zeros (suc n) (suc fd) = zeros n fd

family-IsClosed : IsClosed family 2 3
family-IsClosed = (refl, zeros 16)

fork-Forked_example : Forked 2 family (some 4) after_fork
fork-Forked_example =
    fork-Forked count_one count_one 0x8010_0000 share 2 3 family slot_free refl family-IsClosed
      memory 0 forked
