-- ===== src/Log/Recover.antt =====
-- log.c, `initlog` at boot: recovery, and crashes during it.
use osce.Prelude.{
  ℕ, ◌+◌, ◌*◌, ◌-◌, ◌<◌, ◌≤◌, ◌≡◌, refl, sym, ◌∙◌, ap, true, false, List, [], ◌∷◌, ◌==◌, arith, ◌⊎◌,
  inl, inr, Bool-cases,
}
use osce.Log.{
  Block, Io, Log, install_from, install_trans, write_head, read_head, commit, initlog, sectors_of,
}
use osce.Log.Phases.{
  Installed, install_from-Installed, HeadWritten, write_head-HeadWritten, copy_words-at,
}
use osce.Log.Crash.{
  Disk, IsPlaced, Unlogged, Clean, Logged, Recoverable, IsReady, finish, commit-Recoverable,
  commit-Clean,
}

-- The machine restarts: the cache is lost, and `power` more writes reach the disk.
abbrev pub rebooted : Disk → ℕ → Io
rebooted d power = record { image = d; cache = d; power = power }

-- Two logs that list the same transaction at the same place.
record Alike (r l : Log) : Type 0 where
  start : r.start ≡ l.start
  n : r.n ≡ l.n
  sector : (i : ℕ) → i < l.n → r.sector i ≡ l.sector i

Clean-start : (r l : Log) {f d : Disk} → r.start ≡ l.start → Clean r f d → Clean l f d
Clean-start r l {f} {d} e c = record {
  empty = rw (← e) c.empty;
  contents = λ j below. c.contents j (omega arith);
}

Logged-Alike : (r l : Log) {old new d : Disk} → Alike r l → Logged r old new d → Logged l old new d
Logged-Alike r l {old} {new} {d} a g = record {
  header = record {
    count = rw (← a.start) (g.header.count ∙ a.n);
    sectors = λ i lt. rw (← a.start) (g.header.sectors i (omega (arith, a.n)) ∙ a.sector i lt);
  };
  blocks = λ i lt. rw (← a.start) (g.blocks i (omega (arith, a.n)) ∙ ap new (a.sector i lt));
  contents = λ j below miss.
      g.contents j (omega (arith, a.start))
        (λ i lt e. miss i (omega (arith, a.n)) (sym (a.sector i (omega (arith, a.n))) ∙ e));
}

Alike-sym : (r l : Log) → Alike r l → Alike l r
Alike-sym r l a = record {
  start = sym a.start;
  n = sym a.n;
  sector = λ i lt. sym (a.sector i (omega (arith, a.n)));
}

-- With nothing to install the disk keeps its contents.
nothing_to_install :
    (r : Log) (f : Disk) (io : Io)
    → r.n ≡ 0
    → Clean r f io.image
    → Clean r f (write_head (record r { n = 0 }) (install_from r.n 0 r io)).image
nothing_to_install r f io zero_n c = record {
  empty = elim (Bool-cases (io.power == 0)) [
    | inl off ↦
        ap (λ (b : Block). b 0) (head.dark (omega (arith, done.power, ==→eq off)) ∙ kept r.start)
        ∙ c.empty
    | inr on ↦ (head.lit (ground (arith, done.power))).count
  ];
  contents = λ j below. (head.others j (omega arith)).0 ∙ kept j ∙ c.contents j below;
}
  where
    ==→eq : io.power == 0 ≡ true → io.power ≡ 0
    ==→eq h = ground arith

    done : Installed r.n 0 r io (install_from r.n 0 r io)
    done =
        install_from-Installed r (λ i lt. absurd (omega arith)) (λ i j lt. absurd (omega arith)) r.n
          0 io (omega arith)

    kept : (j : ℕ) → (install_from r.n 0 r io).image j ≡ io.image j
    kept j = (done.kept j (λ i lo hi. absurd (omega arith))).0

    head :
        HeadWritten
          (record r { n = 0 })
          (install_from r.n 0 r io)
          (write_head (record r { n = 0 }) (install_from r.n 0 r io))
    head = write_head-HeadWritten (record r { n = 0 }) (install_from r.n 0 r io)

module _ (size nlog : ℕ) where
  -- The disk after a recovery that the power cuts off after `power` writes.
  abbrev pub recovered : Disk → ℕ → Disk
  recovered d power = (initlog size nlog (rebooted d power)).1.image

  -- Reboots that fail one after the other.
  abbrev pub crashes : List ℕ → Disk → Disk
  crashes [] d = d
  crashes (p ∷ ps) d = crashes ps (recovered d p)

  -- A transaction's log, at the place that the superblock gives.
  abbrev pub at_home : Log → Log
  at_home l = record l { start = size - nlog }

  fresh : Log
  fresh = record {
    start = size - nlog;
    size = nlog;
    outstanding = 0;
    committing = false;
    n = 0;
    sector = λ _. 0;
  }

  module _ (l : Log) (old new : Disk) (placed : IsPlaced (at_home l))
      (agree : (j : ℕ) → j < size - nlog → Unlogged (at_home l) j → new j ≡ old j) where
    abbrev read : Disk → ℕ → Log
    read d p = read_head fresh (rebooted d p)

    recovered-eq :
        (d : Disk) (p : ℕ)
        → recovered d p
          ≡ (write_head
              (record (read d p) { n = 0 })
              (install_from (read d p).n 0 (read d p) (rebooted d p))).image
    unfolding initlog install_trans fresh
    recovered-eq d p = refl

    read-start : (d : Disk) (p : ℕ) → (read d p).start ≡ size - nlog
    unfolding read_head fresh
    read-start d p = refl

    read-n : (d : Disk) (p : ℕ) → (read d p).n ≡ d (size - nlog) 0
    unfolding read_head fresh
    read-n d p = refl

    read-sector :
        (d : Disk) (p i : ℕ) → i < d (size - nlog) 0 → (read d p).sector i ≡ d (size - nlog) (i + 1)
    unfolding read_head fresh
    read-sector d p i lt =
        ground
          (arith, copy_words-at (d (size - nlog) 0) 0 (sectors_of (d (size - nlog))) (λ _. 0) i)

    -- Recovery from an empty log changes nothing that counts.
    recover-Clean :
        (f d : Disk) (p : ℕ) → Clean (at_home l) f d → Clean (at_home l) f (recovered d p)
    recover-Clean f d p c = rw (recovered-eq d p) (
        Clean-start (read d p) (at_home l) (read-start d p) (
          nothing_to_install (read d p) f (rebooted d p) (read-n d p ∙ c.empty)
            (Clean-start (at_home l) (read d p) (sym (read-start d p)) c)))

    read-Alike : (d : Disk) (p : ℕ) → Logged (at_home l) old new d → Alike (read d p) (at_home l)
    read-Alike d p g = record {
      start = read-start d p;
      n = read-n d p ∙ g.header.count;
      sector = λ i lt. read-sector d p i (omega (arith, g.header.count)) ∙ g.header.sectors i lt;
    }

    -- Recovery from a committed log installs it, or leaves it for the next time.
    recover-Logged :
        (d : Disk) (p : ℕ)
        → Logged (at_home l) old new d
        → (Logged (at_home l) old new (recovered d p) ⊎ Clean (at_home l) new (recovered d p))
          × (l.n < p → Clean (at_home l) new (recovered d p))
    recover-Logged d p g =
        let finished = finish r old new placed' agree' (rebooted d p) g' g'.blocks in
        rw (recovered-eq d p) (
          back finished.0,
          λ enough. Clean-start r (at_home l) same.start (finished.1 (omega (arith, same.n))),
        )
      where
        r : Log
        r = read d p

        same : Alike r (at_home l)
        same = read-Alike d p g

        g' : Logged r old new d
        g' = Logged-Alike (at_home l) r (Alike-sym r (at_home l) same) g

        placed' : IsPlaced r
        placed' = record {
          home = λ i lt.
              rw (same.start, same.sector i (omega (arith, same.n)))
                (placed.home i (omega (arith, same.n)));
          distinct = λ i j li lj e.
              placed.distinct i j (omega (arith, same.n)) (omega (arith, same.n)) (
                sym (same.sector i (omega (arith, same.n)))
                ∙ e
                ∙ same.sector j (omega (arith, same.n)));
        }

        agree' : (j : ℕ) → j < r.start → Unlogged r j → new j ≡ old j
        agree' j below miss =
            agree j (omega (arith, same.start))
              (λ i lt e. miss i (omega (arith, same.n)) (same.sector i lt ∙ e))

        back :
            Logged r old new
                (write_head (record r { n = 0 }) (install_from r.n 0 r (rebooted d p))).image
              ⊎ Clean r new
                  (write_head (record r { n = 0 }) (install_from r.n 0 r (rebooted d p))).image
            → Logged
                (at_home l)
                old
                new
                (write_head (record r { n = 0 }) (install_from r.n 0 r (rebooted d p))).image
              ⊎ Clean
                  (at_home l)
                  new
                  (write_head (record r { n = 0 }) (install_from r.n 0 r (rebooted d p))).image
        back (inl h) = inl (Logged-Alike r (at_home l) same h)
        back (inr h) = inr (Clean-start r (at_home l) same.start h)

    abbrev IsRecoverable : Disk → Type 0
    IsRecoverable = Recoverable (at_home l) old new

    recover-Recoverable : (d : Disk) (p : ℕ) → IsRecoverable d → IsRecoverable (recovered d p)
    recover-Recoverable d p (inl c) = inl (recover-Clean old d p c)
    recover-Recoverable d p (inr (inr c)) = inr (inr (recover-Clean new d p c))
    recover-Recoverable d p (inr (inl g)) = later (recover-Logged d p g).0
      where
        later :
            Logged (at_home l) old new (recovered d p) ⊎ Clean (at_home l) new (recovered d p)
            → IsRecoverable (recovered d p)
        later (inl h) = inr (inl h)
        later (inr h) = inr (inr h)

    crashes-Recoverable : (ps : List ℕ) (d : Disk) → IsRecoverable d → IsRecoverable (crashes ps d)
    crashes-Recoverable [] d h = h
    crashes-Recoverable (p ∷ ps) d h =
        crashes-Recoverable ps (recovered d p) (recover-Recoverable d p h)

    recover-whole :
        (d : Disk) (p : ℕ)
        → l.n < p
        → IsRecoverable d
        → Clean (at_home l) old (recovered d p) ⊎ Clean (at_home l) new (recovered d p)
    recover-whole d p enough (inl c) = inl (recover-Clean old d p c)
    recover-whole d p enough (inr (inl g)) = inr ((recover-Logged d p g).1 enough)
    recover-whole d p enough (inr (inr c)) = inr (recover-Clean new d p c)

  module _ (l : Log) (io : Io) (ready : IsReady (at_home l) io) where
    -- Crash atomicity. The home sectors of the log are distinct and below it, the disk's log
    -- is empty, and the cache differs from the disk only in logged sectors. The power fails
    -- after any number of the writes of a commit, and again in any number of recoveries that
    -- follow; after one more recovery with power for at least `l.n + 1` writes the header is
    -- empty, and the sectors below the log are all as on the disk before the commit, or all
    -- as in the cache.
    pub crash_atomic :
        (ps : List ℕ) (power : ℕ)
        → l.n < power
        → let d = recovered (crashes ps (commit (at_home l) io).1.image) power in
          (d (size - nlog) 0 ≡ 0)
          × (((j : ℕ) → j < size - nlog → d j ≡ io.image j)
              ⊎ ((j : ℕ) → j < size - nlog → d j ≡ io.cache j))
    crash_atomic ps power enough = both (
        recover-whole l io.image io.cache ready.placed ready.coherent _ power enough (
          crashes-Recoverable l io.image io.cache ready.placed ready.coherent ps _
            (commit-Recoverable (at_home l) io ready)))
      where
        both :
            {d : Disk}
            → Clean (at_home l) io.image d ⊎ Clean (at_home l) io.cache d
            → (d (size - nlog) 0 ≡ 0)
              × (((j : ℕ) → j < size - nlog → d j ≡ io.image j)
                  ⊎ ((j : ℕ) → j < size - nlog → d j ≡ io.cache j))
        both (inl c) = (c.empty, inl c.contents)
        both (inr c) = (c.empty, inr c.contents)

    -- Under the conditions of `crash_atomic`, a commit that has power for its `2 * l.n + 2`
    -- writes is durable: after any number of recoveries, each cut off anywhere, every sector
    -- below the log is as it was in the cache.
    pub commit_durable :
        (ps : List ℕ)
        → 2 * l.n + 2 ≤ io.power
        → (j : ℕ) → j < size - nlog
        → crashes ps (commit (at_home l) io).1.image j ≡ io.cache j
    commit_durable ps enough j below =
        (durable ps _ (commit-Clean (at_home l) io ready enough)).contents j below
      where
        durable :
            (qs : List ℕ) (d : Disk)
            → Clean (at_home l) io.cache d
            → Clean (at_home l) io.cache (crashes qs d)
        durable [] d c = c
        durable (q ∷ qs) d c =
            durable qs (recovered d q)
              (recover-Clean l io.image io.cache ready.placed ready.coherent io.cache d q c)
