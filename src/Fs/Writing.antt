-- ===== src/Fs/Writing.antt =====
-- fs.c, `writei` inside a file whose blocks are allocated, and reading it back.
use osce.Prelude.{
  ℕ, zero, suc, ◌+◌, ◌-◌, ◌*◌, ◌/◌, ◌%◌, ◌^◌, ◌<◌, ◌≤◌, ◌≡◌, ◌≢◌, refl, sym, ◌∙◌, ap, true, false,
  ◌&&◌, ◌||◌, ◌==◌, ltb, if◌then◌else◌, Option, some, Outcome, done, arith, Bool-cases, inl, inr,
  ◌⊎◌,
}
use native.Mathlib.Nat.{zero-add}
use osce.Fs.Store.{Bytes, Store, bsize, word_at}
use osce.Fs.Room.{HasRoom, Wrote, write_logged-Wrote}
use osce.Fs.Inode.{Inode, ndirect, maxfile, t_dev, within}
use osce.Fs.ReadWrite.{blit, chunk, write_blocks, readi, grow, writei}
use osce.Fs.Content.{
  block_of, content, IsMapped, chunk_bounds, bmap-mapped, available, readi-IsRead,
}

-- The blocks of the file are different, also from its indirect block.
pub record IsSeparate (ip : Inode) (st : Store) : Type 0 where
  pub distinct :
      (a b : ℕ)
      → a * bsize < ip.size
      → b * bsize < ip.size
      → block_of ip st a ≡ block_of ip st b
      → a ≡ b
  pub indirect :
      (a : ℕ)
      → a * bsize < ip.size
      → ndirect * bsize < ip.size
      → block_of ip st a ≢ ip.addrs ndirect

-- The file after `n` bytes of `src` from `s` on were written at `off`.
pub record Updated (ip : Inode) (src : Bytes) (s n off k : ℕ) (st st' : Store) : Type 0 where
  pub blocks : (bn : ℕ) → bn * bsize < ip.size → block_of ip st' bn ≡ block_of ip st bn
  pub bytes :
      (j : ℕ)
      → j < ip.size
      → content ip st' j ≡ (if within off n j then src (s + (j - off)) else content ip st j)
  pub others :
      (b : ℕ) → ((bn : ℕ) → bn * bsize < ip.size → block_of ip st bn ≢ b) → st'.buf b ≡ st.buf b
  pub room : HasRoom st'.log k

no_rounds : (left off : ℕ) → (0 < left → off % bsize + left ≤ 0 * bsize) → left ≡ 0
no_rounds left off rounds = elim (Bool-cases (left == 0)) [
  | inl nothing ↦ ground arith
  | inr some_left ↦ let pos : 0 < left = ground arith in absurd (omega (arith, rounds pos))
]

fewer_rounds :
    (left off r m : ℕ)
    → (m ≡ left) ⊎ (off % bsize + m ≡ bsize)
    → off % bsize + left ≤ suc r * bsize
    → 0 < left - m
    → (off + m) % bsize + (left - m) ≤ r * bsize
fewer_rounds left off r m (inl e) h more = absurd (omega arith)
fewer_rounds left off r m (inr e) h more = omega arith

module _ (ip : Inode) (src : Bytes) where
  -- One block.
  Updated-one :
      (st st' : Store) (s m off k : ℕ)
      → IsSeparate ip st
      → off % bsize + m ≤ bsize
      → off < ip.size
      → Wrote
          (block_of ip st (off / bsize))
          (blit (st.buf (block_of ip st (off / bsize))) (off % bsize) src s m)
          k
          st
          st'
      → Updated ip src s m off k st st'
  Updated-one st st' s m off k sep fits inside w = record {
    blocks = blocks;
    bytes = λ j lt. ap (λ b. st'.buf b (j % bsize)) (blocks (j / bsize) (omega arith)) ∙ bytes j lt;
    others = λ b miss. w.others b (λ e. miss (off / bsize) (omega arith) (sym e));
    room = w.room;
  }
    where
      blocks : (bn : ℕ) → bn * bsize < ip.size → block_of ip st' bn ≡ block_of ip st bn
      blocks bn lt = elim (Bool-cases (ltb bn ndirect)) [
        | inl direct ↦ rw direct refl
        | inr far ↦ rw far (
            ap (λ (b : Bytes). word_at b (4 * (bn - ndirect)))
              (w.others (ip.addrs ndirect)
                (λ e. sep.indirect (off / bsize) (omega arith) (ground arith) (sym e))))
      ]

      bytes :
          (j : ℕ)
          → j < ip.size
          → st'.buf (block_of ip st (j / bsize)) (j % bsize)
            ≡ (if within off m j then src (s + (j - off)) else content ip st j)
      bytes j lt = elim (Bool-cases (j / bsize == off / bsize)) [
        | inl at ↦
            let e : j / bsize ≡ off / bsize = ground arith in
            let same : within (off % bsize) m (j % bsize) ≡ within off m j = ground arith in
            ap (λ x. st'.buf (block_of ip st x) (j % bsize)) e
            ∙ ap (λ (b : Bytes). b (j % bsize)) w.at
            ∙ rw same (elim (Bool-cases (within off m j)) [
              | inl hit ↦
                  let d : j % bsize - off % bsize ≡ j - off = ground arith in rw (hit, d) refl
              | inr miss ↦ rw miss (ap (λ x. st.buf (block_of ip st x) (j % bsize)) (sym e))
            ])
        | inr off_block ↦
            let ne : j / bsize ≢ off / bsize = ground arith in
            let miss : within off m j ≡ false = ground arith in
            rw miss (
              ap (λ (b : Bytes). b (j % bsize))
                (w.others (block_of ip st (j / bsize))
                  (λ e. ne (sep.distinct (j / bsize) (off / bsize) (omega arith) (omega arith) e))))
      ]

  -- Two updates in a row.
  Updated-then :
      (st st1 st2 : Store) (s m left off k k' : ℕ)
      → m ≤ left
      → Updated ip src s m off k st st1
      → Updated ip src (s + m) (left - m) (off + m) k' st1 st2
      → Updated ip src s left off k' st st2
  Updated-then st st1 st2 s m left off k k' le a b = record {
    blocks = λ bn lt. b.blocks bn lt ∙ a.blocks bn lt;
    bytes = bytes;
    others = λ blk miss.
        b.others blk (λ bn lt e. miss bn lt (sym (a.blocks bn lt) ∙ e)) ∙ a.others blk miss;
    room = b.room;
  }
    where
      bytes :
          (j : ℕ)
          → j < ip.size
          → content ip st2 j ≡ (if within off left j then src (s + (j - off)) else content ip st j)
      bytes j lt = b.bytes j lt ∙ elim (Bool-cases (within (off + m) (left - m) j)) [
        | inl late ↦
            let all : within off left j ≡ true = ground arith in
            let e : s + m + (j - (off + m)) ≡ s + (j - off) = ground arith in rw (late, all, e) refl
        | inr early ↦
            let same : within off m j ≡ within off left j = ground arith in
            rw early (rw same at (a.bytes j lt))
      ]

  IsMapped-Updated :
      (st st' : Store) (s m off k : ℕ)
      → Updated ip src s m off k st st'
      → IsMapped ip st
      → IsMapped ip st'
  IsMapped-Updated st st' s m off k u mapped = record {
    short = mapped.short;
    blocks = λ bn lt e. mapped.blocks bn lt (sym (u.blocks bn lt) ∙ e);
    indirect = mapped.indirect;
  }

  IsSeparate-Updated :
      (st st' : Store) (s m off k : ℕ)
      → Updated ip src s m off k st st'
      → IsSeparate ip st
      → IsSeparate ip st'
  IsSeparate-Updated st st' s m off k u sep = record {
    distinct = λ a b la lb e. sep.distinct a b la lb (sym (u.blocks a la) ∙ e ∙ u.blocks b lb);
    indirect = λ a la big e. sep.indirect a la big (sym (u.blocks a la) ∙ e);
  }

  Updated-none :
      (st : Store) (left s off k : ℕ)
      → left ≡ 0
      → HasRoom st.log k
      → Updated ip src s left off k st st
  Updated-none st left s off k e room = record {
    blocks = λ bn lt. refl;
    bytes = λ j lt. ground arith;
    others = λ b miss. refl;
    room = room;
  }

  write_blocks-Updated :
      (fuel r left off s k : ℕ) (st : Store)
      → IsMapped ip st
      → IsSeparate ip st
      → left < fuel
      → off + left ≤ ip.size
      → (0 < left → off % bsize + left ≤ r * bsize)
      → HasRoom st.log (r + k)
      → (st' : Store) × (k' : ℕ) × (k ≤ k')
        × (write_blocks fuel left off s ip src st ≡ done (ip, st'))
        × Updated ip src s left off k' st st'
  unfolding write_blocks
  write_blocks-Updated zero r left off s k st mapped sep enough inside rounds room =
      absurd (omega arith)
  write_blocks-Updated (suc fuel) zero left off s k st mapped sep enough inside rounds room =
      let e : left ≡ 0 = no_rounds left off rounds in
      (st, k, omega arith, rw e refl, Updated-none st left s off k e (rw zero-add at room))
  write_blocks-Updated (suc fuel) (suc r) left off s k st mapped sep enough inside rounds room =
      elim (Bool-cases (left == 0)) [
        | inl nothing ↦
            let e : left ≡ 0 = ground arith in
            (
              st,
              suc r + k,
              omega arith,
              rw nothing refl,
              Updated-none st left s off (suc r + k) e room,
            )
        | inr some_left ↦
            let pos : 0 < left = ground arith in
            let (m_pos, m_le, fits, ends) = chunk_bounds left off pos in
            let m = chunk left off in
            let b = block_of ip st (off / bsize) in
            let map_eq = bmap-mapped ip st (off / bsize) mapped (omega arith) in
            let room' : HasRoom st.log (suc (r + k)) =
              let e : suc r + k ≡ suc (r + k) = omega arith in rw e at room in
            let (st1, e1, w) =
              write_logged-Wrote b (blit (st.buf b) (off % bsize) src s m) (r + k) st room' in
            let u = Updated-one st st1 s m off (r + k) sep fits (omega arith) w in
            let (st2, k', le, e2, u2) =
              write_blocks-Updated fuel r (left - m) (off + m) (s + m) k st1
                (IsMapped-Updated st st1 s m off (r + k) u mapped)
                (IsSeparate-Updated st st1 s m off (r + k) u sep) (omega arith) (omega arith)
                (fewer_rounds left off r m ends (rounds pos)) u.room in
            (
              st2,
              k',
              le,
              rw (some_left, map_eq, e1) e2,
              Updated-then st st1 st2 s m left off (r + k) k' m_le u u2,
            )
      ]

-- Under the conditions of `writei-readi`, `writei` returns `n` and keeps the inode; the file's
-- blocks are at the same addresses, the bytes from `off` are those of the source, every other
-- byte of the file and every block that is not of the file is as before.
writei-Updated :
    (dev_write : ℕ → Option (Bytes → ℕ → ℕ → Outcome (Option ℕ))) (ip : Inode) (st : Store)
    (src : Bytes) (s off n : ℕ)
    → IsMapped ip st
    → IsSeparate ip st
    → ip.kind ≢ t_dev
    → off + n ≤ ip.size
    → HasRoom st.log (n / bsize + 2)
    → (st' : Store) × (k : ℕ) × (writei dev_write ip src s off n st ≡ done (some n, ip, st'))
      × Updated ip src s n off k st st'
unfolding writei grow
writei-Updated dev_write ip st src s off n mapped sep file inside room =
    let (st', k, _, e, u) =
      write_blocks-Updated ip src (n + 1) (n / bsize + 2) n off s 0 st mapped sep (omega arith)
        inside (λ h. omega arith)
        (let z : n / bsize + 2 + 0 ≡ n / bsize + 2 = omega arith in rw z room) in
    let t : (ip.kind == t_dev) ≡ false = ground arith in
    let g : (ltb ip.size off || ltb ((off + n) % 2 ^ 32) off) ≡ false =
      ground (arith, mapped.short) in
    let big : ltb (maxfile * bsize) (off + n) ≡ false = ground (arith, mapped.short) in
    let same : (ltb 0 n && ltb ip.size (off + n)) ≡ false = ground arith in
    (st', k, rw (t, g, big, e, same) refl, u)

-- Let all blocks of a file be allocated and different, also from its indirect block. A `writei`
-- of `n` bytes that ends inside the file, with room in the log for the blocks it can touch,
-- writes them all and keeps the inode; a `readi` at the same place then returns `n` and exactly
-- these bytes, and keeps the rest of its buffer.
pub writei-readi :
    (dev_write : ℕ → Option (Bytes → ℕ → ℕ → Outcome (Option ℕ)))
    (dev_read : ℕ → Option (Bytes → ℕ → ℕ → Outcome (Option ℕ × Bytes))) (ip : Inode) (st : Store)
    (src dst : Bytes) (s d off n : ℕ)
    → IsMapped ip st
    → IsSeparate ip st
    → ip.kind ≢ t_dev
    → off + n ≤ ip.size
    → HasRoom st.log (n / bsize + 2)
    → (st' : Store) × (dst' : Bytes) × (writei dev_write ip src s off n st ≡ done (some n, ip, st'))
      × (readi dev_read ip dst d off n st' ≡ done (some n, dst', ip, st'))
      × ((j : ℕ) → dst' j ≡ (if within d n j then src (s + (j - d)) else dst j))
writei-readi dev_write dev_read ip st src dst s d off n mapped sep file inside room =
    let (st', k, e, u) = writei-Updated dev_write ip st src s off n mapped sep file inside room in
    let (dst', e', r) =
      readi-IsRead dev_read ip st' dst d off n (IsMapped-Updated ip src st st' s n off k u mapped)
        file (omega arith) (omega (arith, mapped.short)) in
    let c : available ip off n ≡ n = ground arith in
    (st', dst', e, rw c at e', λ j. rw c at (r j) ∙ back st' k u j)
  where
    back :
        (st' : Store) (k : ℕ)
        → Updated ip src s n off k st st'
        → (j : ℕ)
        → (if within d n j then content ip st' (off + (j - d)) else dst j)
          ≡ (if within d n j then src (s + (j - d)) else dst j)
    back st' k u j = elim (Bool-cases (within d n j)) [
      | inl hit ↦
          let all : within off n (off + (j - d)) ≡ true = ground arith in
          let i : off + (j - d) - off ≡ j - d = omega arith in
          rw hit (u.bytes (off + (j - d)) (ground arith) ∙ rw (all, i) refl)
      | inr miss ↦ rw miss refl
    ]
