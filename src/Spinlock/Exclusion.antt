-- ===== src/Spinlock/Exclusion.antt =====
-- spinlock.c, `acquire` and `release` on several processors, instruction by instruction.
use osce.Prelude.{
  ℕ, ◌≡◌, refl, Bool, true, false, ◌==◌, ◌==?◌, if◌then◌else◌, none, arith, Bool-cases, inl, inr,
  done,
}
use osce.Spinlock.{Lock, initlock, holding, xchg_locked, set_owner, release_clear, unlock}

-- Where a processor is: outside; in the loop of `acquire`; behind its `xchg`; behind `lk->cpu =
-- cpu`; or in `release`, behind `lk->cpu = 0`.
pub data Phase : Type 0 where
  outside spinning taken held clearing : Phase

abbrev pub is_inner : Phase → Bool
is_inner outside = false
is_inner spinning = false
is_inner _ = true

abbrev pub is_held : Phase → Bool
is_held held = true
is_held _ = false

pub record Machine : Type 0 where
  pub lock : Lock
  pub phase : ℕ → Phase

abbrev pub move : ℕ → Phase → Lock → Machine → Machine
move i p lk m = record { lock = lk; phase = λ j. if i == j then p else m.phase j }

-- One round of the loop of `acquire`.
abbrev pub spin : ℕ → Machine → Machine
spin i m =
    let (old, lk) = xchg_locked m.lock in if old then record m { lock = lk } else move i taken lk m

pub data Step (m : Machine) : Machine → Type 0 where
  enters :
      (i : ℕ) → m.phase i ≡ outside → holding i m.lock ≡ false → Step m (move i spinning m.lock m)
  spins : (i : ℕ) → m.phase i ≡ spinning → Step m (spin i m)
  owns : (i : ℕ) → m.phase i ≡ taken → Step m (move i held (set_owner i m.lock) m)
  clears :
      (i : ℕ) {lk : Lock}
      → m.phase i ≡ held
      → release_clear i m.lock ≡ done lk
      → Step m (move i clearing lk m)
  unlocks : (i : ℕ) → m.phase i ≡ clearing → Step m (move i outside (unlock m.lock) m)

abbrev pub start : Machine
start = record { lock = initlock; phase = λ _. outside }

pub data Reach : Machine → Type 0 where
  begin : Reach start
  next : {m m' : Machine} → Reach m → Step m m' → Reach m'

record IsSafe (m : Machine) : Type 0 where
  free : m.lock.locked ≡ false → (i : ℕ) → is_inner (m.phase i) ≡ false
  alone : (i j : ℕ) → is_inner (m.phase i) ≡ true → is_inner (m.phase j) ≡ true → i ≡ j
  owner : (i : ℕ) → m.lock.cpu ==? i ≡ is_held (m.phase i)

release_clear-done :
    (i : ℕ) (lk lk' : Lock) → release_clear i lk ≡ done lk' → lk' ≡ record lk { cpu = none }
unfolding release_clear
release_clear-done i lk lk' h = elim (Bool-cases (holding i lk)) [
  | inl own ↦ cc (rw own at h)
  | inr other ↦ cc (rw other at h)
]

Step-IsSafe : {m m' : Machine} → Step m m' → IsSafe m → IsSafe m'
Step-IsSafe {m} (enters i at other) s = record {
  free = λ e j. ground (arith, s.free e j);
  alone = λ j k a b. ground (arith, s.alone j k);
  owner = λ j. ground (arith, s.owner j);
}
Step-IsSafe {m} (spins i at) s = elim (Bool-cases m.lock.locked) [
  | inl busy ↦ rw busy (record { free = λ e j. ground arith; alone = s.alone; owner = s.owner })
  | inr free_lock ↦ rw free_lock (record {
    free = λ e j. ground arith;
    alone = λ j k a b. ground (arith, s.free free_lock j, s.free free_lock k);
    owner = λ j. ground (arith, s.owner j);
  })
]
Step-IsSafe {m} (owns i at) s = record {
  free = λ e j. ground (arith, s.free e i);
  alone = λ j k a b. ground (arith, s.alone j k, s.alone i j, s.alone i k);
  owner = λ j. ground (arith, s.owner j, s.alone i j);
}
Step-IsSafe {m} (clears i {lk} at cleared) s = rw (release_clear-done i m.lock lk cleared) (record {
  free = λ e j. ground (arith, s.free e i);
  alone = λ j k a b. ground (arith, s.alone j k, s.alone i j, s.alone i k);
  owner = λ j. ground (arith, s.owner j, s.alone i j);
})
Step-IsSafe {m} (unlocks i at) s = record {
  free = λ e j. ground (arith, s.alone i j);
  alone = λ j k a b. ground (arith, s.alone j k);
  owner = λ j. ground (arith, s.owner j);
}

Reach-IsSafe : {m : Machine} → Reach m → IsSafe m
Reach-IsSafe begin = record {
  free = λ e i. refl;
  alone = λ i j a b. ground arith;
  owner = λ i. refl;
}
Reach-IsSafe (next r s) = Step-IsSafe s (Reach-IsSafe r)

-- However the processors interleave the instructions of `acquire` and `release`, two processors
-- that are behind the `xchg` of `acquire` and not yet behind the one of `release` are the same.
pub mutual_exclusion :
    {m : Machine}
    → Reach m
    → (i j : ℕ) → is_inner (m.phase i) ≡ true
    → is_inner (m.phase j) ≡ true
    → i ≡ j
mutual_exclusion r = (Reach-IsSafe r).alone

-- However the processors interleave, `holding` is true on exactly the processor that is between
-- the end of its `acquire` and the beginning of its `release`.
holding-is_held : {m : Machine} → Reach m → (i : ℕ) → holding i m.lock ≡ is_held (m.phase i)
holding-is_held {m} r i =
    let s = Reach-IsSafe r in
    elim (Bool-cases m.lock.locked) [
      | inl busy ↦ ground (arith, s.owner i)
      | inr free_lock ↦ let out = s.free free_lock i in ground (arith, s.owner i, out)
    ]
