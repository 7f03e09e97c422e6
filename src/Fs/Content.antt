-- ===== src/Fs/Content.antt =====
-- fs.c, `readi` and `writei` inside a file whose blocks are allocated.
use osce.Prelude.{
  ℕ, zero, suc, ◌+◌, ◌-◌, ◌*◌, ◌/◌, ◌%◌, ◌^◌, ◌<◌, ◌≤◌, ◌≡◌, ◌≢◌, refl, sym, ◌∙◌, ap, true, false,
  ◌||◌, ◌&&◌, ◌==◌, ltb, leb, if◌then◌else◌, Option, none, some, Outcome, done, arith, Bool-cases,
  inl, inr, ◌⊎◌,
}
use osce.Fs.Store.{Bytes, Store, bsize, word_at}
use osce.Fs.Inode.{Inode, ndirect, nindirect, maxfile, t_dev, within}
use osce.Fs.ReadWrite.{ensure, bmap_indirect, bmap, blit, chunk, read_blocks, readi}

-- The block that holds the `bn`th block of the file, 0 if there is none.
abbrev pub block_of : Inode → Store → ℕ → ℕ
block_of ip st bn =
    if ltb bn ndirect then ip.addrs bn else word_at (st.buf (ip.addrs ndirect)) (4 * (bn - ndirect))

-- The byte of the file at `k`.
abbrev pub content : Inode → Store → ℕ → ℕ
content ip st k = st.buf (block_of ip st (k / bsize)) (k % bsize)

-- Every block of the file is allocated.
pub record IsMapped (ip : Inode) (st : Store) : Type 0 where
  pub short : ip.size ≤ maxfile * bsize
  pub blocks : (bn : ℕ) → bn * bsize < ip.size → block_of ip st bn ≢ 0
  pub indirect : ndirect * bsize < ip.size → ip.addrs ndirect ≢ 0

pub nonzero : (a : ℕ) → a ≢ 0 → (a == 0) ≡ false
nonzero a ne = ground arith

-- A round takes a byte at least, and stays inside one block.
pub chunk_bounds :
    (left off : ℕ)
    → 0 < left
    → (0 < chunk left off)
      × (chunk left off ≤ left)
      × (off % bsize + chunk left off ≤ bsize)
      × ((chunk left off ≡ left) ⊎ (off % bsize + chunk left off ≡ bsize))
chunk_bounds left off h = elim (Bool-cases (leb left (bsize - off % bsize))) [
  | inl short ↦
      let e : chunk left off ≡ left = ground arith in
      (omega arith, omega arith, ground arith, inl e)
  | inr long ↦
      let e : off % bsize + chunk left off ≡ bsize = ground arith in
      (omega arith, omega arith, omega arith, inr e)
]

pub bmap-mapped :
    (ip : Inode) (st : Store) (bn : ℕ)
    → IsMapped ip st
    → bn * bsize < ip.size
    → bmap ip bn st ≡ done (block_of ip st bn, ip, st)
unfolding bmap ensure bmap_indirect
bmap-mapped ip st bn m inside = elim (Bool-cases (ltb bn ndirect)) [
  | inl direct ↦
      let on : (ip.addrs bn == 0) ≡ false = nonzero _ (rw direct at (m.blocks bn inside)) in
      rw (direct, on) refl
  | inr far ↦
      let below : ltb (bn - ndirect) nindirect ≡ true = ground (arith, m.short) in
      let there : (ip.addrs ndirect == 0) ≡ false = ground (arith, m.indirect) in
      let on : (word_at (st.buf (ip.addrs ndirect)) (4 * (bn - ndirect)) == 0) ≡ false =
        nonzero _ (rw far at (m.blocks bn inside)) in
      rw (far, below, there, on) refl
]

-- `dst` after a read of `n` bytes at `off` to `d`.
abbrev pub IsRead : Inode → Store → ℕ → ℕ → ℕ → Bytes → Bytes → Type 0
IsRead ip st n off d dst dst' =
    (j : ℕ) → dst' j ≡ (if within d n j then content ip st (off + (j - d)) else dst j)

module _ (ip : Inode) (st : Store) (mapped : IsMapped ip st) where
  -- One round: `m` bytes of one block, and then the rest.
  IsRead-blit :
      (left off d m : ℕ) (dst dst' : Bytes)
      → m ≤ left
      → off % bsize + m ≤ bsize
      → 0 < m
      → IsRead ip st
          (left - m)
          (off + m)
          (d + m)
          (blit dst d (st.buf (block_of ip st (off / bsize))) (off % bsize) m)
          dst'
      → IsRead ip st left off d dst dst'
  IsRead-blit left off d m dst dst' le fits pos rest j = rest j ∙ elim (Bool-cases (within d m j)) [
    | inl now ↦
        let late : within (d + m) (left - m) j ≡ false = ground arith in
        let all : within d left j ≡ true = ground arith in
        let q : (off + (j - d)) / bsize ≡ off / bsize = ground arith in
        let r : (off + (j - d)) % bsize ≡ off % bsize + (j - d) = ground arith in
        rw (now, late, all)
          (ap (λ x. st.buf (block_of ip st (off / bsize)) x) (sym r)
            ∙ ap (λ x. st.buf (block_of ip st x) ((off + (j - d)) % bsize)) (sym q))
    | inr later ↦
        let same : within (d + m) (left - m) j ≡ within d left j = ground arith in
        elim (Bool-cases (within d left j)) [
          | inl inside ↦
              let e : off + m + (j - (d + m)) ≡ off + (j - d) = ground arith in
              rw (same, inside, e) refl
          | inr outside ↦ rw (same, outside, later) refl
        ]
  ]

  read_blocks-IsRead :
      (fuel left off d : ℕ) (dst : Bytes)
      → left < fuel
      → off + left ≤ ip.size
      → (dst' : Bytes) × (read_blocks fuel left off d ip dst st ≡ done (dst', ip, st))
        × IsRead ip st left off d dst dst'
  unfolding read_blocks
  read_blocks-IsRead zero left off d dst enough inside = absurd (omega arith)
  read_blocks-IsRead (suc fuel) left off d dst enough inside = elim (Bool-cases (left == 0)) [
    | inl nothing ↦ (dst, rw nothing refl, λ j. ground arith)
    | inr some_left ↦
        let pos : 0 < left = ground arith in
        let (m_pos, m_le, fits, _) = chunk_bounds left off pos in
        let m = chunk left off in
        let b = block_of ip st (off / bsize) in
        let map_eq = bmap-mapped ip st (off / bsize) mapped (omega arith) in
        let (dst', e, rest) =
          read_blocks-IsRead fuel (left - m) (off + m) (d + m)
            (blit dst d (st.buf b) (off % bsize) m) (omega arith) (omega arith) in
        (dst', rw (some_left, map_eq) e, IsRead-blit left off d m dst dst' m_le fits m_pos rest)
  ]

-- How many of `n` bytes at `off` the file has.
abbrev pub available : Inode → ℕ → ℕ → ℕ
available ip off n = if ltb ip.size (off + n) then ip.size - off else n

pub readi-IsRead :
    (dev_read : ℕ → Option (Bytes → ℕ → ℕ → Outcome (Option ℕ × Bytes))) (ip : Inode) (st : Store)
    (dst : Bytes) (d off n : ℕ)
    → IsMapped ip st
    → ip.kind ≢ t_dev
    → off ≤ ip.size
    → off + n < 2 ^ 32
    → (dst' : Bytes) × (readi dev_read ip dst d off n st
        ≡ done (some (available ip off n), dst', ip, st))
      × IsRead ip st (available ip off n) off d dst dst'
unfolding readi
readi-IsRead dev_read ip st dst d off n mapped file inside small =
    let c : off + available ip off n ≤ ip.size = ground arith in
    let (dst', e, r) =
      read_blocks-IsRead ip st mapped (available ip off n + 1) (available ip off n) off d dst
        (omega arith) c in
    let k : (ip.kind == t_dev) ≡ false = ground arith in
    let g : (ltb ip.size off || ltb ((off + n) % 2 ^ 32) off) ≡ false = ground arith in
    (dst', rw (k, g, e) refl, r)

-- On a file whose blocks are allocated, not a device, with a size and an `n` below 2 ^ 32: if
-- `off` is not behind the end and `off + n` is below 2 ^ 32, `readi` returns `n`, or as many
-- bytes as the file has from there; these bytes are those of the file, the rest of the buffer is
-- as before, and neither inode nor disk has changed. In every other case, also where the `uint`
-- `off + n` wraps, it returns -1 and changes nothing.
pub readi-Reply :
    (dev_read : ℕ → Option (Bytes → ℕ → ℕ → Outcome (Option ℕ × Bytes))) (ip : Inode) (st : Store)
    (dst : Bytes) (d off n : ℕ)
    → IsMapped ip st
    → ip.kind ≢ t_dev
    → ip.size < 2 ^ 32
    → n < 2 ^ 32
    → (if leb off ip.size && ltb (off + n) (2 ^ 32)
        then ((dst' : Bytes) × (readi dev_read ip dst d off n st
              ≡ done (some (available ip off n), dst', ip, st))
            × IsRead ip st (available ip off n) off d dst dst')
        else readi dev_read ip dst d off n st ≡ done (none, dst, ip, st))
unfolding readi
readi-Reply dev_read ip st dst d off n mapped file small_size small_n =
    elim (Bool-cases (leb off ip.size && ltb (off + n) (2 ^ 32))) [
      | inl inside ↦
          rw inside
            (readi-IsRead dev_read ip st dst d off n mapped file (ground arith) (ground arith))
      | inr outside ↦
          let k : (ip.kind == t_dev) ≡ false = ground arith in
          let g : (ltb ip.size off || ltb ((off + n) % 2 ^ 32) off) ≡ true = ground arith in
          rw (outside, k, g) refl
    ]
