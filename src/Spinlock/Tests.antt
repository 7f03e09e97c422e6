-- ===== src/Spinlock/Tests.antt =====
-- Runs of the spin lock (spinlock.c): processor 1 takes it, and processor 2 spins.
use osce.Prelude.{ℕ, ◌≡◌, refl, true, false}
use osce.Spinlock.{Cpu, set_owner}
use osce.Spinlock.Exclusion.{Phase, Machine, Step, Reach, start, move, spin, mutual_exclusion}

abbrev called : Machine
called = move 2 Phase.spinning start.lock (move 1 Phase.spinning start.lock start)

abbrev contended : Machine
contended = spin 2 (spin 1 called)

abbrev owned : Machine
owned = move 1 Phase.held (set_owner 1 contended.lock) contended

called-Reach : Reach called
called-Reach =
    Reach.next (Reach.next Reach.begin (Step.enters 1 refl refl)) (Step.enters 2 refl refl)

owned-Reach : Reach owned
owned-Reach =
    Reach.next (Reach.next (Reach.next called-Reach (Step.spins 1 refl)) (Step.spins 2 refl))
      (Step.owns 1 refl)

mutual_exclusion_example : ◌≡◌ {A = ℕ} 1 1
mutual_exclusion_example = mutual_exclusion owned-Reach 1 1 refl refl

abbrev cpu0 : Cpu
cpu0 = record { ncli = 0; intena = false; flag = true }
