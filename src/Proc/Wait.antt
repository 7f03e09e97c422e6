-- ===== src/Proc/Wait.antt =====
-- proc.c, `wait` on every branch, against the children in the table.
use osce.Prelude.{
  ℕ, ◌+◌, ◌<◌, ◌≡◌, refl, Bool, true, false, Option, none, some, List, [], ◌∷◌, ◌&&◌, ◌||◌, ◌⊎◌,
  inl, inr, ◌==?◌, is_some, if◌then◌else◌, length, arith, find_first, get_or, set, Bool-cases,
  IsFirst, Search, find_first-Search, find_first-eq, Outcome, done, Returns, Returns-bind,
  Returns-done,
}
use osce.Kalloc.{Kmem, kfree}
use osce.Proc.Table.{unused, sleeping, is_zombie, slot, Proc, PTable, blank, proc_at, assign}
use osce.Proc.Wakeup.{OnlyAt, OnlyAt-assign, proc_at-assigned}
use osce.Proc.Life.{WaitReply, reaped, failed, asleep, find_zombie, clear_slot, wait, wait_scanned}

abbrev pub is_child : ℕ → Proc → Bool
is_child me p = p.parent ==? me

abbrev pub is_zombie_child : ℕ → Proc → Bool
is_zombie_child me p = p.parent ==? me && is_zombie p.state

-- The scan of `wait` finds the first zombie child, and else says whether there is a child at all.
find_zombie-eq :
    (me : ℕ) (ps : List Proc) (i : ℕ) (kids : Bool)
    → find_zombie me ps i kids
      ≡ (find_first (is_zombie_child me) ps i, kids || is_some (find_first (is_child me) ps i))
unfolding find_zombie find_first
find_zombie-eq me [] i kids = ground arith
find_zombie-eq me (p ∷ ps) i kids =
    ground (arith, find_zombie-eq me ps (i + 1) (kids || p.parent ==? me))

-- A slot that `wait` has freed: no pid, parent, stack, name or kill mark is left in it, and the
-- rest is as the zombie left it.
pub record Cleared (p q : Proc) : Type 0 where
  pub free : q.state ≡ unused
  pub no_pid : q.pid ≡ 0
  pub no_parent : q.parent ≡ none
  pub no_stack : q.kstack ≡ 0
  pub no_mark : q.killed ≡ false
  pub no_name : get_or q.name 0 0 ≡ 0
  pub kept :
      (q.sz ≡ p.sz)
      × (q.pgdir ≡ p.pgdir)
      × (q.ofile ≡ p.ofile)
      × (q.cwd ≡ p.cwd)
      × (q.tf ≡ p.tf)
      × (q.chan ≡ p.chan)
      × (q.status ≡ p.status)

Cleared-clear_slot : (p : Proc) → Cleared p (clear_slot p)
Cleared-clear_slot p = record {
  free = refl;
  no_pid = refl;
  no_parent = refl;
  no_stack = refl;
  no_mark = refl;
  no_name = first_gone p.name;
  kept = (refl, refl, refl, refl, refl, refl, refl);
}
  where
    first_gone : (cs : List ℕ) → get_or (set cs 0 0) 0 0 ≡ 0
    first_gone [] = refl
    first_gone (c ∷ cs) = refl

-- What a round of `wait` answers, with the table it leaves.
abbrev pub Answer : ℕ → Bool → PTable → WaitReply → PTable → Type 0
Answer me want t (reaped pid status) t' =
    (z : ℕ) × IsFirst (is_zombie_child me) t.procs blank z
    × (pid ≡ (proc_at t z).pid)
    × (status ≡ (if want then some (proc_at t z).status else none))
    × Cleared (proc_at t z) (proc_at t' z)
    × OnlyAt z t t'
Answer me want t failed t' =
    (t' ≡ t)
    × ((j : ℕ) → j < length t.procs → is_zombie_child me (proc_at t j) ≡ false)
    × (((j : ℕ) → j < length t.procs → is_child me (proc_at t j) ≡ false)
        ⊎ ((proc_at t me).killed ≡ true))
Answer me want t asleep t' =
    (t' ≡ assign t me (λ p. record p { chan = slot me; state = sleeping }))
    × ((j : ℕ) → j < length t.procs → is_zombie_child me (proc_at t j) ≡ false)
    × ((c : ℕ) × IsFirst (is_child me) t.procs blank c)
    × ((proc_at t me).killed ≡ false)

module _ (e : ℕ) (freevm : ℕ → Kmem → Outcome Kmem) (me : ℕ) (want : Bool) (t : PTable)
    (k : Kmem) where
  abbrev Answers : WaitReply × PTable × Kmem → Type 0
  Answers (reply, t', k') = Answer me want t reply t'

  scanned-Answer :
      (found child : Option ℕ)
      → Search (is_zombie_child me) t.procs blank found
      → Search (is_child me) t.procs blank child
      → Returns Answers (wait_scanned e freevm me want t k found (is_some child))
  unfolding wait_scanned
  scanned-Answer (some z) child first kids =
      Returns-bind Answers (kfree e (proc_at t z).kstack k) _ λ k'.
        Returns-bind Answers (freevm (proc_at t z).pgdir k') _ λ k''. (
          z,
          first,
          refl,
          refl,
          rw (proc_at-assigned t z clear_slot first.inside) (Cleared-clear_slot (proc_at t z)),
          OnlyAt-assign t z clear_slot,
        )
  scanned-Answer none none miss kids = (refl, miss, inl kids)
  scanned-Answer none (some c) miss first = elim (Bool-cases (proc_at t me).killed) [
    | inl dead ↦ rw dead (refl, miss, inr dead)
    | inr alive ↦ rw alive (refl, miss, (c, first), alive)
  ]

  -- What a round of `wait` that returns answers is true of the table. A pid is that of the
  -- first zombie child, with its status if that is wanted, and its slot is UNUSED, without pid,
  -- parent, stack, name and killed mark, its other fields as before, and no other slot has
  -- changed; -1 means that no child is a zombie, and that there is no child or the caller is
  -- killed, and changes nothing; it sleeps on its own slot only if it has a child, none is a
  -- zombie, and it is not killed.
  pub wait-Answer :
      {reply : WaitReply} {t' : PTable} {k' : Kmem}
      → wait e freevm me want t k ≡ done (reply, t', k')
      → Answer me want t reply t'
  unfolding wait
  wait-Answer {reply} {t'} {k'} h =
      Returns-done Answers _ (reply, t', k')
        (rw (find_zombie-eq me t.procs 0 false) (
          scanned-Answer _ _ (find_first-Search (is_zombie_child me) t.procs blank)
            (find_first-Search (is_child me) t.procs blank)))
        h

  -- With a zombie child `wait` reaps the first one.
  pub wait-reaps :
      (z : ℕ) {k' k'' : Kmem}
      → IsFirst (is_zombie_child me) t.procs blank z
      → kfree e (proc_at t z).kstack k ≡ done k'
      → freevm (proc_at t z).pgdir k' ≡ done k''
      → wait e freevm me want t k
        ≡ done (
          reaped (proc_at t z).pid (if want then some (proc_at t z).status else none),
          assign t z clear_slot,
          k'',
        )
  unfolding wait wait_scanned
  wait-reaps z first freed gone =
      rw
        (
          find_zombie-eq me t.procs 0 false,
          find_first-eq (is_zombie_child me) t.procs blank z first,
          freed,
          gone,
        )
        refl
