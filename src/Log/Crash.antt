-- ===== src/Log/Crash.antt =====
-- log.c, `commit` under a power failure: what the disk holds then.
use osce.Prelude.{
  ℕ, zero, suc, ◌+◌, ◌*◌, ◌<◌, ◌≤◌, ◌≡◌, ◌≢◌, refl, sym, ◌∙◌, ap, true, false, ◌==◌, ltb, leb,
  arith, ◌⊎◌, inl, inr, Bool-cases,
}
use osce.Log.{Block, Io, Log, install_from, install_trans, write_log, write_head, commit}
use osce.Log.Phases.{
  LogWritten, write_from-LogWritten, Installed, install_from-Installed, IsHeader, HeadWritten,
  write_head-HeadWritten,
}

abbrev pub Disk : Type 0
Disk = ℕ → Block

-- The sectors of the log's home are below its own and distinct.
pub record IsPlaced (l : Log) : Type 0 where
  pub home : (i : ℕ) → i < l.n → l.sector i < l.start
  pub distinct : (i j : ℕ) → i < l.n → j < l.n → l.sector i ≡ l.sector j → i ≡ j

abbrev pub Unlogged : Log → ℕ → Type 0
Unlogged l j = (i : ℕ) → i < l.n → l.sector i ≢ j

-- An empty header, and below the log the contents `f`.
pub record Clean (l : Log) (f d : Disk) : Type 0 where
  pub empty : d l.start 0 ≡ 0
  pub contents : (j : ℕ) → j < l.start → d j ≡ f j

-- A committed transaction: the header lists it, the log blocks hold the new contents, and the
-- sectors that it does not touch are as before.
pub record Logged (l : Log) (old new d : Disk) : Type 0 where
  pub header : IsHeader l (d l.start)
  pub blocks : (i : ℕ) → i < l.n → d (l.start + i + 1) ≡ new (l.sector i)
  pub contents : (j : ℕ) → j < l.start → Unlogged l j → d j ≡ old j

abbrev pub Recoverable : Log → Disk → Disk → Disk → Type 0
Recoverable l old new d = Clean l old d ⊎ Logged l old new d ⊎ Clean l new d

-- Is a sector among the first `n` of the log?
logged? :
    (n : ℕ) (sector : ℕ → ℕ) (j : ℕ)
    → ((i : ℕ) × (i < n) × (sector i ≡ j)) ⊎ ((i : ℕ) → i < n → sector i ≢ j)
logged? zero sector j = inr (λ i h. elim h [ ])
logged? (suc n) sector j = elim (logged? n sector j) [
  | inl (i, lt, e) ↦ inl (i, omega arith, e)
  | inr miss ↦ elim (Bool-cases (sector n == j)) [
    | inl hit ↦ inl (n, omega arith, ground arith)
    | inr off ↦ inr (λ i h. elim (Bool-cases (i == n)) [
      | inl at ↦ let e : i ≡ n = ground arith in rw e (ground arith)
      | inr below ↦ miss i (ground arith)
    ])
  ]
]

-- Installing from a disk that holds the log, with power for all of it, gives the new contents.
module _ (l : Log) (old new : Disk) (placed : IsPlaced l)
    (agree : (j : ℕ) → j < l.start → Unlogged l j → new j ≡ old j) where
  installed-new :
      (io : Io)
      → ((i : ℕ) → i < l.n → io.cache (l.start + i + 1) ≡ new (l.sector i))
      → ((j : ℕ) → j < l.start → Unlogged l j → io.image j ≡ old j)
      → l.n ≤ io.power
      → (j : ℕ) → j < l.start
      → (install_from l.n 0 l io).image j ≡ new j
  installed-new io blocks rest enough j below =
      let done = install_from-Installed l placed.home placed.distinct l.n 0 io (omega arith) in
      elim (logged? l.n l.sector j) [
        | inl (i, lt, e) ↦ rw (← e) (done.homed enough i (omega arith) (omega arith) ∙ blocks i lt)
        | inr miss ↦
            (done.kept j (λ i lo hi. miss i (omega arith))).0
            ∙ rest j below miss
            ∙ sym (agree j below miss)
      ]

  -- The last two phases, of a commit and of a recovery alike, from a disk that holds the log: for
  -- any power the log is still there, or all of it is installed and the header is empty.
  pub finish :
      (io : Io)
      → Logged l old new io.image
      → ((i : ℕ) → i < l.n → io.cache (l.start + i + 1) ≡ new (l.sector i))
      → let out = (write_head (record l { n = 0 }) (install_from l.n 0 l io)).image in
        (Logged l old new out ⊎ Clean l new out) × (l.n < io.power → Clean l new out)
  finish io logged cached = (either, finished)
    where
      io3 : Io
      io3 = install_from l.n 0 l io

      done : Installed l.n 0 l io io3
      done = install_from-Installed l placed.home placed.distinct l.n 0 io (omega arith)

      out : Io
      out = write_head (record l { n = 0 }) io3

      head : HeadWritten (record l { n = 0 }) io3 out
      head = write_head-HeadWritten (record l { n = 0 }) io3

      high : (j : ℕ) → l.start ≤ j → io3.image j ≡ io.image j
      high j le = (done.kept j (λ i lo hi e. absurd (omega (arith, placed.home i (omega arith))))).0

      finished : l.n < io.power → Clean l new out.image
      finished enough = record {
        empty = (head.lit (omega (arith, done.power))).count;
        contents = λ j below.
            (head.others j (omega arith)).0
            ∙ installed-new io cached logged.contents (omega arith) j below;
      }

      stays : io.power ≤ l.n → Logged l old new out.image
      stays weak =
          let same : out.image l.start ≡ io.image l.start =
            head.dark (omega (arith, done.power)) ∙ high l.start (omega arith) in
          record {
            header = rw same logged.header;
            blocks = λ i lt.
                (head.others (l.start + i + 1) (omega arith)).0
                ∙ high (l.start + i + 1) (omega arith)
                ∙ logged.blocks i lt;
            contents = λ j below miss.
                (head.others j (omega arith)).0
                ∙ (done.kept j (λ i lo hi. miss i (omega arith))).0
                ∙ logged.contents j below miss;
          }

      either : Logged l old new out.image ⊎ Clean l new out.image
      either = elim (Bool-cases (leb io.power l.n)) [
        | inl weak ↦ inl (stays (ground arith))
        | inr strong ↦ inr (finished (ground arith))
      ]

-- Before a commit: the transaction is in the cache, the disk's log is empty, and the cache agrees
-- with the disk on every other sector.
pub record IsReady (l : Log) (io : Io) : Type 0 where
  pub placed : IsPlaced l
  pub empty : io.image l.start 0 ≡ 0
  pub coherent : (j : ℕ) → j < l.start → Unlogged l j → io.cache j ≡ io.image j

module _ (l : Log) (io : Io) (ready : IsReady l io) where
  abbrev io1 : Io
  io1 = write_log l io

  written : LogWritten l.n 0 l io io1
  unfolding write_log
  written = write_from-LogWritten l ready.placed.home l.n 0 io (omega arith)

  abbrev io2 : Io
  io2 = write_head l io1

  headed : HeadWritten l io1 io2
  headed = write_head-HeadWritten l io1

  committed : l.n < io.power → Logged l io.image io.cache io2.image
  committed enough = record {
    header = headed.lit (omega (arith, written.power));
    blocks = λ i lt.
        (headed.others (l.start + i + 1) (omega arith)).0
        ∙ written.stored (omega arith) i (omega arith) (omega arith);
    contents = λ j below miss. (headed.others j (omega arith)).0 ∙ (written.low j (omega arith)).0;
  }

  cached2 : (i : ℕ) → i < l.n → io2.cache (l.start + i + 1) ≡ io.cache (l.sector i)
  cached2 i lt =
      (headed.others (l.start + i + 1) (omega arith)).1
      ∙ written.cached i (omega arith) (omega arith)

  early :
      io.power ≤ l.n
      → Clean l io.image (write_head (record l { n = 0 }) (install_from l.n 0 l io2)).image
  early weak = record {
    empty =
        ap (λ (b : Block). b 0)
          (head.dark (omega (arith, done.power, headed.power, written.power))
            ∙ done.dark (omega (arith, headed.power, written.power)) l.start
            ∙ headed.dark (omega (arith, written.power))
            ∙ (written.low l.start (omega arith)).0)
        ∙ ready.empty;
    contents = λ j below.
        (head.others j (omega arith)).0
        ∙ done.dark (omega (arith, headed.power, written.power)) j
        ∙ (headed.others j (omega arith)).0
        ∙ (written.low j (omega arith)).0;
  }
    where
      done : Installed l.n 0 l io2 (install_from l.n 0 l io2)
      done =
          install_from-Installed l ready.placed.home ready.placed.distinct l.n 0 io2 (omega arith)

      head :
          HeadWritten
            (record l { n = 0 })
            (install_from l.n 0 l io2)
            (write_head (record l { n = 0 }) (install_from l.n 0 l io2))
      head = write_head-HeadWritten (record l { n = 0 }) (install_from l.n 0 l io2)

  abbrev late :
      (Logged l io.image io.cache (write_head (record l { n = 0 }) (install_from l.n 0 l io2)).image
        ⊎ Clean l io.cache (write_head (record l { n = 0 }) (install_from l.n 0 l io2)).image)
      → Recoverable l io.image io.cache
          (write_head (record l { n = 0 }) (install_from l.n 0 l io2)).image
  late (inl h) = inr (inl h)
  late (inr h) = inr (inr h)

  after_commit :
      ltb 0 l.n ≡ true
      → (commit l io).1 ≡ write_head (record l { n = 0 }) (install_from l.n 0 l io2)
  unfolding commit install_trans
  after_commit some_left = rw some_left refl

  no_commit : ltb 0 l.n ≡ false → (commit l io).1 ≡ io
  unfolding commit
  no_commit none_left = rw none_left refl

  -- Wherever the power fails in a commit, the disk is as before, or holds the committed log, or has
  -- all of the transaction.
  pub commit-Recoverable : Recoverable l io.image io.cache (commit l io).1.image
  commit-Recoverable = elim (Bool-cases (ltb 0 l.n)) [
    | inr none_left ↦
        rw (no_commit none_left) (inl (record { empty = ready.empty; contents = λ j below. refl }))
    | inl some_left ↦ rw (after_commit some_left) (elim (Bool-cases (leb io.power l.n)) [
      | inl weak ↦ inl (early (ground arith))
      | inr strong ↦
          late
            (finish l io.image io.cache ready.placed ready.coherent io2 (committed (ground arith))
              cached2).0
    ])
  ]

  -- With power for all its writes a commit puts the whole transaction on the disk and empties the
  -- log.
  pub commit-Clean : 2 * l.n + 2 ≤ io.power → Clean l io.cache (commit l io).1.image
  commit-Clean enough = elim (Bool-cases (ltb 0 l.n)) [
    | inr none_left ↦ rw (no_commit none_left) (record {
      empty = ready.empty;
      contents = λ j below. sym (ready.coherent j below (λ i lt. absurd (ground arith)));
    })
    | inl some_left ↦ rw (after_commit some_left) (
        (finish l io.image io.cache ready.placed ready.coherent io2 (committed (omega arith))
            cached2).1
          (omega (arith, headed.power, written.power)))
  ]
