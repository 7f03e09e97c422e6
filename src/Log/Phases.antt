-- ===== src/Log/Phases.antt =====
-- log.c, the phases of a commit, each for every point at which the power may fail.
use osce.Prelude.{
  ℕ, zero, suc, ◌+◌, ◌-◌, ◌<◌, ◌≤◌, ◌≡◌, ◌≢◌, refl, ◌∙◌, ◌==◌, ◌&&◌, ltb, leb, if◌then◌else◌, arith,
  inl, inr, Bool-cases,
}
use osce.Log.{
  Block, update, Io, put, bwrite, Log, install_from, copy_words, write_from, with_header,
  write_head, sectors_of,
}

-- A change of one buffer, and its write to the disk.
pub bwrite-image :
    (s : ℕ) (b : Block) (io : Io) (j : ℕ)
    → (bwrite s (put s b io)).image j
      ≡ (if io.power == 0 then io.image j else (if s == j then b else io.image j))
unfolding bwrite
bwrite-image s b io j = ground arith

pub bwrite-cache :
    (s : ℕ) (b : Block) (io : Io) (j : ℕ)
    → (bwrite s (put s b io)).cache j ≡ (if s == j then b else io.cache j)
unfolding bwrite
bwrite-cache s b io j = refl

pub bwrite-power : (s : ℕ) (b : Block) (io : Io) → (bwrite s (put s b io)).power ≡ io.power - 1
unfolding bwrite
bwrite-power s b io = refl

-- `write_log` from `tail`: the log blocks from there on get the cached sectors, as far as the power
-- lasts, and nothing up to the header changes.
pub record LogWritten (rounds tail : ℕ) (l : Log) (io out : Io) : Type 0 where
  pub low :
      (j : ℕ) → j < l.start + tail + 1 → (out.image j ≡ io.image j) × (out.cache j ≡ io.cache j)
  pub cached :
      (i : ℕ) → tail ≤ i → i < tail + rounds → out.cache (l.start + i + 1) ≡ io.cache (l.sector i)
  pub stored :
      rounds ≤ io.power
      → (i : ℕ) → tail ≤ i
      → i < tail + rounds
      → out.image (l.start + i + 1) ≡ io.cache (l.sector i)
  pub power : out.power ≡ io.power - rounds

module _ (l : Log) (home : (i : ℕ) → i < l.n → l.sector i < l.start) where
  pub write_from-LogWritten :
      (rounds tail : ℕ) (io : Io)
      → tail + rounds ≤ l.n
      → LogWritten rounds tail l io (write_from rounds tail l io)
  unfolding write_from
  write_from-LogWritten zero tail io h = record {
    low = λ j lt. (refl, refl);
    cached = λ i lo hi. absurd (omega arith);
    stored = λ p i lo hi. absurd (omega arith);
    power = omega arith;
  }
  write_from-LogWritten (suc rounds) tail io h =
      let s = l.start + tail + 1 in
      let b = io.cache (l.sector tail) in
      let io1 = bwrite s (put s b io) in
      let ih = write_from-LogWritten rounds (tail + 1) io1 (omega arith) in
      record {
        low = λ j lt. ground (arith, ih.low j, bwrite-image s b io j, bwrite-cache s b io j);
        cached = λ i lo hi. elim (Bool-cases (i == tail)) [
          | inl at ↦
              let e : i ≡ tail = ground arith in
              rw e (ground (arith, ih.low s, bwrite-cache s b io s))
          | inr off ↦
              ih.cached i (ground arith) (ground arith)
              ∙ ground (arith, bwrite-cache s b io (l.sector i), home i)
        ];
        stored = λ p i lo hi. elim (Bool-cases (i == tail)) [
          | inl at ↦
              let e : i ≡ tail = ground arith in
              rw e (ground (arith, ih.low s, bwrite-image s b io s))
          | inr off ↦
              ih.stored (ground (arith, bwrite-power s b io)) i (ground arith) (ground arith)
              ∙ ground (arith, bwrite-cache s b io (l.sector i), home i)
        ];
        power = ground (arith, ih.power, bwrite-power s b io);
      }

-- `install_trans` from `tail`: the log blocks from there on go to their home sectors, as far as the
-- power lasts, and no other sector changes.
pub record Installed (rounds tail : ℕ) (l : Log) (io out : Io) : Type 0 where
  pub kept :
      (j : ℕ)
      → ((i : ℕ) → tail ≤ i → i < tail + rounds → l.sector i ≢ j)
      → (out.image j ≡ io.image j) × (out.cache j ≡ io.cache j)
  pub homed :
      rounds ≤ io.power
      → (i : ℕ) → tail ≤ i
      → i < tail + rounds
      → out.image (l.sector i) ≡ io.cache (l.start + i + 1)
  pub dark : io.power ≡ 0 → (j : ℕ) → out.image j ≡ io.image j
  pub power : out.power ≡ io.power - rounds

module _ (l : Log) (home : (i : ℕ) → i < l.n → l.sector i < l.start)
    (distinct : (i j : ℕ) → i < l.n → j < l.n → l.sector i ≡ l.sector j → i ≡ j) where
  pub install_from-Installed :
      (rounds tail : ℕ) (io : Io)
      → tail + rounds ≤ l.n
      → Installed rounds tail l io (install_from rounds tail l io)
  unfolding install_from
  install_from-Installed zero tail io h = record {
    kept = λ j out. (refl, refl);
    homed = λ p i lo hi. absurd (omega arith);
    dark = λ none_left j. refl;
    power = omega arith;
  }
  install_from-Installed (suc rounds) tail io h =
      let s = l.sector tail in
      let b = io.cache (l.start + tail + 1) in
      let io1 = bwrite s (put s b io) in
      let ih = install_from-Installed rounds (tail + 1) io1 (omega arith) in
      let other : (i : ℕ) → tail + 1 ≤ i → i < tail + 1 + rounds → l.sector i ≢ s =
        λ i lo hi e. absurd (omega (arith, distinct i tail (omega arith) (omega arith) e)) in
      record {
        kept = λ j out.
            let k = ih.kept j (λ i lo hi. out i (omega arith) (omega arith)) in
            let ne : s ≢ j = out tail (omega arith) (omega arith) in
            ground (arith, k, bwrite-image s b io j, bwrite-cache s b io j);
        homed = λ p i lo hi. elim (Bool-cases (i == tail)) [
          | inl at ↦
              let e : i ≡ tail = ground arith in
              rw e (ground (arith, ih.kept s other, bwrite-image s b io s))
          | inr off ↦
              ih.homed (ground (arith, bwrite-power s b io)) i (ground arith) (ground arith)
              ∙ ground (arith, bwrite-cache s b io (l.start + i + 1), home tail)
        ];
        dark = λ none_left j.
            ground (arith, ih.dark (omega (arith, bwrite-power s b io)) j, bwrite-image s b io j);
        power = ground (arith, ih.power, bwrite-power s b io);
      }

pub copy_words-at :
    (rounds i : ℕ) (from to : ℕ → ℕ) (j : ℕ)
    → copy_words rounds i from to j ≡ (if leb i j && ltb j (i + rounds) then from j else to j)
unfolding copy_words
copy_words-at zero i from to j = ground arith
copy_words-at (suc rounds) i from to j =
    ground (arith, copy_words-at rounds (i + 1) from (update to i (from i)) j)

-- A header block that lists the sectors of `l`.
pub record IsHeader (l : Log) (b : Block) : Type 0 where
  pub count : b 0 ≡ l.n
  pub sectors : (i : ℕ) → i < l.n → b (i + 1) ≡ l.sector i

-- `write_head` changes the header's sector alone, if there is power for one more write.
pub record HeadWritten (l : Log) (io out : Io) : Type 0 where
  pub others : (j : ℕ) → j ≢ l.start → (out.image j ≡ io.image j) × (out.cache j ≡ io.cache j)
  pub dark : io.power ≡ 0 → out.image l.start ≡ io.image l.start
  pub lit : 0 < io.power → IsHeader l (out.image l.start)
  pub power : out.power ≡ io.power - 1

pub write_head-HeadWritten : (l : Log) (io : Io) → HeadWritten l io (write_head l io)
unfolding write_head
write_head-HeadWritten l io = record {
  others = λ j ne. ground (arith, bwrite-image l.start b io j, bwrite-cache l.start b io j);
  dark = λ none_left. ground (arith, bwrite-image l.start b io l.start);
  lit = λ some_left.
      let e : (bwrite l.start (put l.start b io)).image l.start ≡ b =
        ground (arith, bwrite-image l.start b io l.start) in
      rw e header;
  power = bwrite-power l.start b io;
}
  where
    b : Block
    b = with_header l.n (copy_words l.n 0 l.sector (sectors_of (io.cache l.start)))

    header : IsHeader l b
    header = record {
      count = refl;
      sectors =
          λ i lt. ground (arith, copy_words-at l.n 0 l.sector (sectors_of (io.cache l.start)) i);
    }
