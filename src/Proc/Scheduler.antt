-- ===== src/Proc/Scheduler.antt =====
-- proc.c, which process `scheduler` switches to.
use osce.Prelude.{
  ℕ, zero, suc, ◌+◌, ◌<◌, ◌≤◌, ◌≡◌, ◌==◌, refl, true, false, Option, none, some, arith, Bool-cases,
  inl, inr,
}
use osce.Proc.Table.{running, is_runnable, PTable, proc_at, assign}
use osce.Proc.Life.{schedule}

-- A pass over the slots from `i` to `i + n`: the first runnable one runs, and nothing else changes.
abbrev pub Scheduled : ℕ → ℕ → PTable → Option ℕ × PTable → Type 0
Scheduled n i t (none, u) =
    (u ≡ t) × ((j : ℕ) → i ≤ j → j < i + n → is_runnable (proc_at t j).state ≡ false)
Scheduled n i t (some k, u) =
    (i ≤ k)
    × (k < i + n)
    × (is_runnable (proc_at t k).state ≡ true)
    × ((j : ℕ) → i ≤ j → j < k → is_runnable (proc_at t j).state ≡ false)
    × (u ≡ assign t k (λ p. record p { state = running }))

Scheduled-cons :
    (n i : ℕ) (t : PTable) (r : Option ℕ × PTable)
    → is_runnable (proc_at t i).state ≡ false
    → Scheduled n (i + 1) t r
    → Scheduled (suc n) i t r
Scheduled-cons n i t (none, u) miss (e, rest) = (
  e,
  λ j lo hi. elim (Bool-cases (j == i)) [
    | inl at ↦ let e' : j ≡ i = ground arith in rw e' miss
    | inr off ↦ rest j (ground arith) (ground arith)
  ],
)
Scheduled-cons n i t (some k, u) miss (lo, hi, run, rest, e) = (
  omega arith,
  omega arith,
  run,
  (λ j lo' hi'. elim (Bool-cases (j == i)) [
    | inl at ↦ let e' : j ≡ i = ground arith in rw e' miss
    | inr off ↦ rest j (ground arith) hi'
  ]),
  e,
)

-- A pass of `scheduler` over `n` slots from `i` runs the first runnable one among them and
-- changes nothing else; if it runs none, none is runnable and the table is as before.
pub schedule-Scheduled : (n i : ℕ) (t : PTable) → Scheduled n i t (schedule n i t)
unfolding schedule
schedule-Scheduled zero i t = (refl, λ j lo hi. absurd (omega arith))
schedule-Scheduled (suc n) i t = elim (Bool-cases (is_runnable (proc_at t i).state)) [
  | inl run ↦ rw run (omega arith, omega arith, run, (λ j lo hi. absurd (omega arith)), refl)
  | inr idle ↦
      rw idle (Scheduled-cons n i t (schedule n (i + 1) t) idle (schedule-Scheduled n (i + 1) t))
]
