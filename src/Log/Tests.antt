-- ===== src/Log/Tests.antt =====
-- Runs of the log (log.c): one sector in a log of 40 that starts at sector 100.
use osce.Prelude.{
  ℕ, ◌<◌, ◌≡◌, ◌≢◌, ◌⊎◌, refl, true, false, [], ◌∷◌, done, panic, arith, ◌==◌, if◌then◌else◌,
}
use osce.Log.{Block, Io, Log, commit, log_write, begin_op}
use osce.Log.Crash.{IsPlaced, IsReady}
use osce.Log.Recover.{recovered, crashes, at_home, crash_atomic, commit_durable}
use osce.Log.Ops.{total, IsReserved, log_write-IsReserved}

-- Sector 5 is to change from 0 to 9.
abbrev pending : Log
pending = record {
  start = 100;
  size = 40;
  outstanding = 1;
  committing = false;
  n = 1;
  sector = λ _. 5;
}

abbrev changed : ℕ → Block
changed s = if s == 5 then (λ _. 9) else (λ _. 0)

abbrev disk : ℕ → Io
disk power = record { image = λ _ _. 0; cache = changed; power = power }

pending-IsPlaced : IsPlaced pending
pending-IsPlaced = record { home = λ i lt. omega arith; distinct = λ i j li lj e. omega arith }

disk-IsReady : (power : ℕ) → IsReady (at_home 140 40 pending) (disk power)
disk-IsReady power = record {
  placed = record { home = λ i lt. omega arith; distinct = λ i j li lj e. omega arith };
  empty = refl;
  coherent = λ j below miss. other j (miss 0 (omega arith));
}
  where
    other : (j : ℕ) → 5 ≢ j → changed j ≡ (λ _. 0)
    other j ne = let off : (j == 5) ≡ false = ground arith in rw off refl

crash_atomic_example :
    let d =
      recovered 140 40
        (crashes 140 40 (1 ∷ 0 ∷ []) (commit (at_home 140 40 pending) (disk 2)).1.image)
        3 in
    (d 100 0 ≡ 0)
    × (((j : ℕ) → j < 100 → d j ≡ (disk 2).image j) ⊎ ((j : ℕ) → j < 100 → d j ≡ (disk 2).cache j))
crash_atomic_example =
    crash_atomic 140 40 pending (disk 2) (disk-IsReady 2) (1 ∷ 0 ∷ []) 3 (omega arith)

commit_durable_example :
    crashes 140 40 (1 ∷ 0 ∷ []) (commit (at_home 140 40 pending) (disk 4)).1.image 5 ≡ changed 5
commit_durable_example =
    commit_durable 140 40 pending (disk 4) (disk-IsReady 4) (1 ∷ 0 ∷ []) (omega arith) 5
      (omega arith)

abbrev longer : Log
longer = record pending { n = 2; sector = λ i. if 1 == i then 6 else 5 }

written : log_write 6 pending ≡ done longer
unfolding log_write
written = refl

pending-IsReserved : IsReserved pending (9 ∷ [])
unfolding total
pending-IsReserved = record {
  count = refl;
  few = omega arith;
  room = omega arith;
  each = omega arith;
}

log_write-IsReserved_example : (l' : Log) × (log_write 6 pending ≡ done l') × IsReserved l' (8 ∷ [])
log_write-IsReserved_example =
    log_write-IsReserved 6 pending (9 ∷ []) 0 pending-IsReserved (omega arith) (omega arith)

admitted : begin_op pending ≡ (true, record pending { outstanding = 2 })
unfolding begin_op
admitted = refl

-- The log of the disks that mkfs makes has 30 blocks. The 30th block of three operations, one of
-- which has a block left.
abbrev full_log : Log
full_log = record pending { size = 30; n = 29; outstanding = 3 }

full_log-IsReserved : IsReserved full_log (1 ∷ 0 ∷ 0 ∷ [])
unfolding total
full_log-IsReserved = record {
  count = refl;
  few = omega arith;
  room = omega arith;
  each = omega arith;
}

last_block : log_write 500 full_log ≡ panic
last_block =
    log_write-IsReserved 500 full_log (1 ∷ 0 ∷ 0 ∷ []) 0 full_log-IsReserved (omega arith)
      (omega arith)
