-- ===== src/Sh/Losses.antt =====
-- sh.c: the lists of processes that `clearZombieProcesses` clears as it means to, and others.
use osce.Prelude.{
  ℕ, ◌<◌, ◌≡◌, refl, ap, Bool, true, false, none, some, List, [], ◌∷◌, ◌++◌, if◌then◌else◌, done,
  panic, length, Bool-cases, inl, inr,
}
use osce.Sh.Jobs.{Store, Process, clear_zombie_processes}
use osce.Sh.Chains.{Node, Chain, AllApart}
use osce.Sh.Unlink.{cons, live_from, left_of}
use osce.Sh.Zombies.{IsCleared, left, clear_zombie_processes-Cleared}

module _ (gone : ℕ → Bool) where
  abbrev pub lives : List Node → List Node
  lives [] = []
  lives (x ∷ xs) = let rest = lives xs in if gone x.1 then rest else x ∷ rest

  -- Behind a process that is gone there are one that is live, and no second one or a live one.
  abbrev pub Gap : List Node → Type 0
  Gap [] = ⊥
  Gap (y ∷ []) = gone y.1 ≡ false
  Gap (y ∷ z ∷ zs) = (gone y.1 ≡ false) × (gone z.1 ≡ false)

  abbrev pub Spaced : List Node → Type 0
  Spaced [] = Unit
  Spaced (x ∷ xs) = (gone x.1 ≡ true → Gap xs) × Spaced xs

  left_of-lives :
      (jumped : Bool) (xs : List Node)
      → Spaced xs
      → (jumped ≡ true → Gap xs)
      → left_of gone jumped xs ≡ some (lives xs)
  left_of-lives false [] spaced gap = refl
  left_of-lives true [] spaced gap = absurd (gap refl)
  left_of-lives true (y ∷ []) spaced gap = rw (gap refl)
  left_of-lives false (x ∷ xs) (first, spaced) gap = elim (Bool-cases (gone x.1)) [
    | inl dead ↦ rw dead (left_of-lives true xs spaced (λ _. first dead))
    | inr alive ↦
        let rest = left_of-lives false xs spaced (λ (q : false ≡ true). cc) in rw (alive, rest)
  ]
  left_of-lives true (y ∷ z ∷ zs) (first, (second, spaced)) gap =
      let (live_y, live_z) = gap refl in
      let rest = left_of-lives false zs spaced (λ (q : false ≡ true). cc) in
      rw (live_y, live_z, rest)

  lives-live_from : (xs : List Node) → lives (live_from gone xs) ≡ lives xs
  lives-live_from [] = refl
  lives-live_from (x ∷ xs) = elim (Bool-cases (gone x.1)) [
    | inl dead ↦ rw dead (lives-live_from xs)
    | inr alive ↦ rw alive (rw alive)
  ]

  left-lives :
      (xs : List Node)
      → Spaced (live_from gone xs)
      → left gone (live_from gone xs) ≡ some (lives xs)
  left-lives [] spaced = refl
  left-lives (x ∷ xs) spaced = elim (Bool-cases (gone x.1)) [
    | inl dead ↦ rw dead (left-lives xs (rw dead at spaced))
    | inr alive ↦
        let (first, rest) : Spaced (x ∷ xs) = rw alive at spaced in
        rw alive (ap (cons x) (left_of-lives false xs rest (λ (q : false ≡ true). cc)))
  ]

  -- A list of processes has different addresses and fewer nodes than there are rounds. If
  -- behind each process that is gone, but for those at the front, comes a live one, and then a
  -- live one or none, `clearZombieProcesses` returns exactly the live ones in order and writes
  -- no other node.
  pub clear_zombie_processes-lives :
      (rounds : ℕ) (h : Store Process) (head : ℕ) (xs : List Node)
      → length xs < rounds
      → AllApart xs
      → Chain h head xs
      → Spaced (live_from gone xs)
      → (r : ℕ × Store Process) × (clear_zombie_processes gone rounds head h ≡ done r)
        × IsCleared h r.1 r.0 xs (lives xs)
  clear_zombie_processes-lives rounds h head xs lt apart c spaced =
      let all = clear_zombie_processes-Cleared gone rounds h head xs lt apart c in
      rw (left-lives xs spaced) at all

  abbrev pub AllLive : List Node → Type 0
  AllLive [] = Unit
  AllLive (x ∷ xs) = (gone x.1 ≡ false) × AllLive xs

  left_of-last :
      (xs : List Node) (d : Node)
      → AllLive xs
      → gone d.1 ≡ true
      → left_of gone false (xs ++ d ∷ []) ≡ none
  left_of-last [] d live dead = rw dead
  left_of-last (x ∷ xs) d (alive, live) dead =
      let rest = left_of-last xs d live dead in rw (alive, rest)

  -- If in a list of processes, with different addresses and fewer nodes than there are rounds,
  -- only the last one is gone and is not the only one, `clearZombieProcesses` reads through
  -- NULL.
  pub clear_zombie_processes-last :
      (rounds : ℕ) (h : Store Process) (head : ℕ) (x : Node) (xs : List Node) (d : Node)
      → length (x ∷ xs ++ d ∷ []) < rounds
      → AllApart (x ∷ xs ++ d ∷ [])
      → Chain h head (x ∷ xs ++ d ∷ [])
      → AllLive (x ∷ xs)
      → gone d.1 ≡ true
      → clear_zombie_processes gone rounds head h ≡ panic
  clear_zombie_processes-last rounds h head x xs d lt apart c (alive, live) dead =
      let all = clear_zombie_processes-Cleared gone rounds h head (x ∷ (xs ++ d ∷ [])) lt apart c in
      let none_left = left_of-last xs d live dead in rw (alive, none_left) at all
