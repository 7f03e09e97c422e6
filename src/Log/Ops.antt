-- ===== src/Log/Ops.antt =====
-- log.c, `log_write` and `begin_op`: absorption, and the room for each operation.
use osce.Prelude.{
  ℕ, zero, suc, ◌+◌, ◌*◌, ◌-◌, ◌^◌, ◌<◌, ◌≤◌, ◌≡◌, ◌≢◌, refl, true, List, [], ◌∷◌, ◌==◌, ltb, leb,
  ◌||◌, if◌then◌else◌, arith, inl, inr, Bool-cases, done, panic, length, get_or, modify,
  length-modify, Returns, Returns-done,
}
use osce.Log.{Log, update, find_sector, log_write, begin_op, logsize, maxopblocks}
use osce.Log.Crash.{IsPlaced}

-- The index at which `log_write` records sector `b`: where it stands already, or behind the last.
record Slot (rounds i b : ℕ) (sector : ℕ → ℕ) (k : ℕ) : Type 0 where
  from : i ≤ k
  to : k ≤ i + rounds
  hit : k < i + rounds → sector k ≡ b
  miss : (j : ℕ) → i ≤ j → j < k → sector j ≢ b

find_sector-Slot :
    (rounds i b : ℕ) (sector : ℕ → ℕ) → Slot rounds i b sector (find_sector rounds i b sector)
unfolding find_sector
find_sector-Slot zero i b sector = record {
  from = omega arith;
  to = omega arith;
  hit = λ h. absurd (omega arith);
  miss = λ j lo hi. absurd (omega arith);
}
find_sector-Slot (suc rounds) i b sector = elim (Bool-cases (sector i == b)) [
  | inl at ↦ rw at (record {
    from = omega arith;
    to = omega arith;
    hit = λ h. ground arith;
    miss = λ j lo hi. absurd (omega arith);
  })
  | inr off ↦
      let ih = find_sector-Slot rounds (i + 1) b sector in
      rw off (record {
        from = omega (arith, ih.from);
        to = omega (arith, ih.to);
        hit = λ h. ih.hit (omega arith);
        miss = λ j lo hi. elim (Bool-cases (j == i)) [
          | inl here ↦ let e : j ≡ i = ground arith in rw e (ground arith)
          | inr there ↦ ih.miss j (ground arith) hi
        ];
      })
]

-- What `log_write` does to the list of sectors.
pub record Recorded (b : ℕ) (l l' : Log) : Type 0 where
  pub placed : IsPlaced l'
  pub listed : (i : ℕ) × (i < l'.n) × (l'.sector i ≡ b)
  pub earlier : (i : ℕ) → i < l.n → l'.sector i ≡ l.sector i
  pub grows : (l.n ≤ l'.n) × (l'.n ≤ l.n + 1)
  pub same : (l'.start ≡ l.start) × (l'.size ≡ l.size) × (l'.outstanding ≡ l.outstanding)

recorded :
    (b : ℕ) (l : Log) (k : ℕ)
    → Slot l.n 0 b l.sector k
    → IsPlaced l
    → b < l.start
    → Recorded b l
        (record l { sector = update l.sector k b; n = if k == l.n then l.n + 1 else l.n })
recorded b l k s placed below = record {
  placed = record {
    home = λ i lt. ground (arith, placed.home i, s.to, s.hit);
    distinct = λ i j li lj e. ground (
      arith,
      placed.distinct i j,
      s.to,
      s.hit,
      s.miss i,
      s.miss j,
      placed.distinct i k,
      placed.distinct k j,
    );
  };
  listed = (k, ground (arith, s.to), ground arith);
  earlier = λ i lt. ground (arith, s.to, s.hit);
  grows = (ground arith, ground arith);
  same = (refl, refl, refl);
}

-- When `log_write` of a sector below the log returns, the sector is listed, every earlier entry
-- is as before, at most one entry is new, and the listed sectors are still distinct and below the
-- log, as they were.
log_write-Recorded :
    (b : ℕ) (l : Log) {l' : Log}
    → IsPlaced l
    → b < l.start
    → log_write b l ≡ done l'
    → Recorded b l l'
unfolding log_write
log_write-Recorded b l {l'} placed below h = Returns-done (Recorded b l) _ l' returns h
  where
    new : Log
    new = record l {
      sector = update l.sector (find_sector l.n 0 b l.sector) b;
      n = if find_sector l.n 0 b l.sector == l.n then l.n + 1 else l.n;
    }

    good : Recorded b l new
    good =
        recorded b l (find_sector l.n 0 b l.sector) (find_sector-Slot l.n 0 b l.sector) placed below

    returns : Returns (Recorded b l) (log_write b l)
    returns = elim (Bool-cases (leb logsize l.n || leb (l.size - 1) l.n)) [
      | inl full ↦ rw full tt
      | inr room ↦ rw room (elim (Bool-cases (ltb l.outstanding 1 || leb (2 ^ 31) l.outstanding)) [
        | inl outside ↦ rw outside tt
        | inr inside ↦ rw inside good
      ])
    ]

unfoldable pub total : List ℕ → ℕ
total [] = 0
total (b ∷ bs) = b + total bs

-- Each outstanding operation may still log as many blocks as its entry says.
pub record IsReserved (l : Log) (budgets : List ℕ) : Type 0 where
  pub count : l.outstanding ≡ length budgets
  pub few : l.outstanding ≤ 3
  pub room : l.n + total budgets ≤ logsize
  pub each : total budgets ≤ maxopblocks * length budgets

-- If room is reserved for the outstanding operations and `begin_op` lets another in, room is
-- reserved for that one too, with MAXOPBLOCKS blocks.
begin_op-IsReserved :
    (l : Log) (budgets : List ℕ) {l' : Log}
    → IsReserved l budgets
    → begin_op l ≡ (true, l')
    → IsReserved l' (maxopblocks ∷ budgets)
unfolding begin_op total
begin_op-IsReserved l budgets v h = ground (arith, v.each)

total-spend :
    (bs : List ℕ) (i : ℕ) → 0 < get_or bs i 0 → total (modify bs i (λ b. b - 1)) + 1 ≡ total bs
unfolding total
total-spend [] i h = absurd (omega arith)
total-spend (b ∷ bs) zero h = omega arith
total-spend (b ∷ bs) (suc i) h = omega (arith, total-spend bs i h)

-- Room is reserved for the outstanding operations, and one of them has budget left. Then
-- `log_write` returns if the log has more than `n + 1` blocks, and afterwards the room of all
-- operations is still reserved, with one block less for this one. If the log is no larger it
-- panics, although the block was reserved: as the 30th on the disks that mkfs makes, whose log
-- has LOGSIZE blocks.
pub log_write-IsReserved :
    (b : ℕ) (l : Log) (budgets : List ℕ) (i : ℕ)
    → IsReserved l budgets
    → 0 < get_or budgets i 0
    → i < length budgets
    → (if ltb (l.n + 1) l.size
        then ((l' : Log) × (log_write b l ≡ done l')
            × IsReserved l' (modify budgets i (λ x. x - 1)))
        else log_write b l ≡ panic)
unfolding log_write
log_write-IsReserved b l budgets i v left inside = elim (Bool-cases (ltb (l.n + 1) l.size)) [
  | inl room ↦ rw room (
    record l { sector = update l.sector k b; n = if k == l.n then l.n + 1 else l.n },
    ground (arith, total-spend budgets i left, v.room, v.count, v.few),
    record {
      count = omega (arith, v.count, size);
      few = v.few;
      room = ground (arith, total-spend budgets i left, v.room);
      each = omega (arith, total-spend budgets i left, v.each, size);
    },
  )
  | inr full ↦ rw full (ground arith)
]
  where
    k : ℕ
    k = find_sector l.n 0 b l.sector

    size : length (modify budgets i (λ x. x - 1)) ≡ length budgets
    size = length-modify budgets i (λ x. x - 1)
