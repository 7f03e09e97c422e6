-- ===== src/Fs/Bitmap.antt =====
-- fs.c, `balloc` on the bitmap of used blocks.
use osce.Prelude.{
  ℕ, zero, suc, ◌+◌, ◌-◌, ◌*◌, ◌/◌, ◌%◌, ◌<◌, ◌≤◌, ◌≡◌, ◌≢◌, refl, sym, ◌∙◌, ap, Bool, true, false,
  Option, none, some, ◌==◌, ltb, if◌then◌else◌, Outcome, done, panic, out_of_fuel, Bool-cases, inl,
  inr, arith,
}
use osce.Fs.Store.{
  Bytes, Store, bpb, ipb, readsb, bzero, bit_at, with_bit, word_at, bblock, find_clear, mark_block,
  balloc_from, balloc,
}
use osce.Fs.Room.{HasRoom, Wrote, write_logged-Wrote}
use osce.Fs.Bits.{bit_at-with_bit}

-- What the inner loop of `balloc` answers.
abbrev Scanned : Bytes → ℕ → ℕ → ℕ → ℕ → Option ℕ → Type 0
Scanned block size b rounds bi none =
    (j : ℕ) → bi ≤ j → j < bi + rounds → b + j < size → bit_at block j ≡ true
Scanned block size b rounds bi (some k) =
    (bi ≤ k)
    × (k < bi + rounds)
    × (b + k < size)
    × (bit_at block k ≡ false)
    × ((j : ℕ) → bi ≤ j → j < k → bit_at block j ≡ true)

Scanned-set :
    (block : Bytes) (size b rounds bi : ℕ) (r : Option ℕ)
    → bit_at block bi ≡ true
    → Scanned block size b rounds (bi + 1) r
    → Scanned block size b (suc rounds) bi r
Scanned-set block size b rounds bi none on rest = λ j lo hi below. elim (Bool-cases (j == bi)) [
  | inl at ↦ let e : j ≡ bi = ground arith in rw e on
  | inr off ↦ rest j (ground arith) (ground arith) below
]
Scanned-set block size b rounds bi (some k) on (lo, hi, below, clear, rest) = (
  omega arith,
  omega arith,
  below,
  clear,
  λ j lo' hi'. elim (Bool-cases (j == bi)) [
    | inl at ↦ let e : j ≡ bi = ground arith in rw e on
    | inr off ↦ rest j (ground arith) hi'
  ],
)

find_clear-Scanned :
    (block : Bytes) (size b rounds bi : ℕ)
    → Scanned block size b rounds bi (find_clear block size b rounds bi)
unfolding find_clear
find_clear-Scanned block size b zero bi = λ j lo hi below. absurd (omega arith)
find_clear-Scanned block size b (suc rounds) bi = elim (Bool-cases (ltb (b + bi) size)) [
  | inl below ↦ rw below (elim (Bool-cases (bit_at block bi)) [
    | inl on ↦
        rw on (
          Scanned-set block size b rounds bi _ on (find_clear-Scanned block size b rounds (bi + 1)))
    | inr off ↦
        rw off (omega arith, omega arith, ground arith, off, λ j lo hi. absurd (omega arith))
  ])
  | inr above ↦ rw above (λ j lo hi below. absurd (ground arith))
]

-- The bit of block `b`.
abbrev pub in_use : Store → ℕ → Bool
in_use st b = bit_at (st.buf (bblock (readsb st) b)) (b % bpb)

-- The blocks from `b` to `b + BPB` share the bitmap block of `b`.
in_use_from :
    (st : Store) (b j : ℕ)
    → b % bpb ≡ 0
    → b ≤ j
    → j < b + bpb
    → in_use st j ≡ bit_at (st.buf (bblock (readsb st) b)) (j - b)
in_use_from st b j al lo hi =
    let q : j / bpb ≡ b / bpb = omega arith in
    let r : j % bpb ≡ j - b = omega arith in
    ap (λ x. bit_at (st.buf (x + (readsb st).ninodes / ipb + 3)) (j % bpb)) q
    ∙ ap (λ x. bit_at (st.buf (bblock (readsb st) b)) x) r

-- The superblock and the bitmap are marked in use.
pub record IsFormatted (st : Store) : Type 0 where
  pub super : in_use st 1 ≡ true
  pub bitmap : (b : ℕ) → b < (readsb st).size → in_use st (bblock (readsb st) b) ≡ true

-- What `balloc` does when it returns `c`.
pub record Allocated (st : Store) (k c : ℕ) (st' : Store) : Type 0 where
  pub inside : c < (readsb st).size
  pub was_free : in_use st c ≡ false
  pub lowest : (j : ℕ) → j < c → in_use st j ≡ true
  pub bits : (j : ℕ) → j < (readsb st).size → in_use st' j ≡ (if c == j then true else in_use st j)
  pub zeroed : st'.buf c ≡ (λ _. 0)
  pub others : (s : ℕ) → s ≢ c → s ≢ bblock (readsb st) c → st'.buf s ≡ st.buf s
  pub room : HasRoom st'.log k

-- The two writes at a free block of a formatted disk.
module _ (st : Store) (formatted : IsFormatted st) (c k : ℕ) (inside : c < (readsb st).size)
    (clear : in_use st c ≡ false) (lowest : (j : ℕ) → j < c → in_use st j ≡ true) (st1 st2 : Store)
    (first : Wrote
      (bblock (readsb st) c)
      (with_bit (st.buf (bblock (readsb st) c)) (c % bpb))
      (suc k)
      st
      st1)
    (second : Wrote c (λ _. 0) k st1 st2) where
  not_bitmap : (j : ℕ) → j < (readsb st).size → bblock (readsb st) j ≢ c
  not_bitmap j lt e = cc (formatted.bitmap j lt, clear, e)

  not_super : 1 ≢ c
  not_super e = cc (formatted.super, clear, e)

  same_super : readsb st2 ≡ readsb st
  same_super =
      ap
        (λ (b : Bytes). record {
          size = word_at b 0;
          nblocks = word_at b 4;
          ninodes = word_at b 8;
          nlog = word_at b 12;
        })
        (second.others 1 not_super ∙ first.others 1 (omega arith))

  at_bitmap :
      (j : ℕ)
      → j < (readsb st).size
      → st2.buf (bblock (readsb st) j) ≡ (
          if j / bpb == c / bpb
          then with_bit (st.buf (bblock (readsb st) c)) (c % bpb)
          else st.buf (bblock (readsb st) j))
  at_bitmap j lt =
      second.others (bblock (readsb st) j) (not_bitmap j lt)
      ∙ elim (Bool-cases (j / bpb == c / bpb)) [
        | inl at ↦
            let e : j / bpb ≡ c / bpb = ground arith in
            rw at (ap (λ q. st1.buf (q + (readsb st).ninodes / ipb + 3)) e ∙ first.at)
        | inr off ↦
            let ne : j / bpb ≢ c / bpb = ground arith in
            rw off (first.others (bblock (readsb st) j) (omega arith))
      ]

  marked : Allocated st k c st2
  marked = record {
    inside = inside;
    was_free = clear;
    lowest = lowest;
    bits = bits;
    zeroed = second.at;
    others = λ s off_block off_bitmap. second.others s off_block ∙ first.others s off_bitmap;
    room = second.room;
  }
    where
      bits : (j : ℕ) → j < (readsb st).size → in_use st2 j ≡ (if c == j then true else in_use st j)
      bits j lt =
          ap (λ sb. bit_at (st2.buf (bblock sb j)) (j % bpb)) same_super
          ∙ ap (λ b. bit_at b (j % bpb)) (at_bitmap j lt)
          ∙ elim (Bool-cases (j / bpb == c / bpb)) [
            | inl at ↦
                let e : j / bpb ≡ c / bpb = ground arith in
                rw at (
                  bit_at-with_bit (st.buf (bblock (readsb st) c)) (c % bpb) (j % bpb)
                  ∙ same_block j e)
            | inr off ↦ rw off (ground arith)
          ]
        where
          same_block :
              (i : ℕ)
              → i / bpb ≡ c / bpb
              → (if c % bpb == i % bpb
                  then true
                  else bit_at (st.buf (bblock (readsb st) c)) (i % bpb))
                ≡ (if c == i then true else in_use st i)
          same_block i e =
              let m : (c % bpb == i % bpb) ≡ (c == i) = ground arith in
              rw m (
                ap
                  (λ q.
                    if c == i
                    then true
                    else bit_at (st.buf (q + (readsb st).ninodes / ipb + 3)) (i % bpb))
                  (sym e))

-- What `balloc` comes to.
abbrev pub Answer : Store → ℕ → Outcome (ℕ × Store) → Type 0
Answer st k (done (c, st')) = Allocated st k c st'
Answer st k panic = (j : ℕ) → j < (readsb st).size → in_use st j ≡ true
Answer st k out_of_fuel = ⊥

module _ (st : Store) (formatted : IsFormatted st) (k : ℕ)
    (room : HasRoom st.log (suc (suc k))) where
  mark_block-Answer :
      (b : ℕ) (r : Option ℕ) (rest : Outcome (ℕ × Store))
      → b % bpb ≡ 0
      → ((j : ℕ) → j < b → in_use st j ≡ true)
      → Scanned (st.buf (bblock (readsb st) b)) (readsb st).size b bpb 0 r
      → (((j : ℕ) → j < b + bpb → j < (readsb st).size → in_use st j ≡ true) → Answer st k rest)
      → Answer st k (mark_block b st r rest)
  unfolding mark_block bzero
  mark_block-Answer b none rest al low scan next = next each
    where
      each : (j : ℕ) → j < b + bpb → j < (readsb st).size → in_use st j ≡ true
      each j lt below = elim (Bool-cases (ltb j b)) [
        | inl under ↦ low j (ground arith)
        | inr over ↦
            let lo : b ≤ j = ground arith in
            in_use_from st b j al lo lt ∙ scan (j - b) (omega arith) (omega arith) (omega arith)
      ]
  mark_block-Answer b (some bi) rest al low (lo, hi, below, clear, before) next =
      let s = bblock (readsb st) b in
      let (st1, e1, w1) = write_logged-Wrote s (with_bit (st.buf s) bi) (suc k) st room in
      let (st2, e2, w2) = write_logged-Wrote (b + bi) (λ _. 0) k st1 w1.room in
      rw (e1, e2)
        (marked st formatted (b + bi) k below
          (in_use_from st b (b + bi) al (omega arith) (omega arith) ∙ here clear) each st1 st2
          (same_first st1 w1) w2)
    where
      here :
          bit_at (st.buf (bblock (readsb st) b)) bi ≡ false
          → bit_at (st.buf (bblock (readsb st) b)) (b + bi - b) ≡ false
      here h = let e : b + bi - b ≡ bi = omega arith in rw e h

      each : (j : ℕ) → j < b + bi → in_use st j ≡ true
      each j lt = elim (Bool-cases (ltb j b)) [
        | inl under ↦ low j (ground arith)
        | inr over ↦
            let lo' : b ≤ j = ground arith in
            in_use_from st b j al lo' (omega arith) ∙ before (j - b) (omega arith) (omega arith)
      ]

      same_first :
          (u : Store)
          → Wrote (bblock (readsb st) b) (with_bit (st.buf (bblock (readsb st) b)) bi) (suc k) st u
          → Wrote
              (bblock (readsb st) (b + bi))
              (with_bit (st.buf (bblock (readsb st) (b + bi))) ((b + bi) % bpb))
              (suc k)
              st
              u
      same_first u w =
          let q : (b + bi) / bpb ≡ b / bpb = omega arith in
          let r : (b + bi) % bpb ≡ bi = omega arith in rw (q, r) w

  if-Answer :
      (test : Bool) (x y : Outcome (ℕ × Store))
      → (test ≡ true → Answer st k x)
      → (test ≡ false → Answer st k y)
      → Answer st k (if test then x else y)
  if-Answer true x y hx hy = hx refl
  if-Answer false x y hx hy = hy refl

  balloc_from-Answer :
      (fuel b : ℕ)
      → (readsb st).size + bpb < b + fuel * bpb
      → b < (readsb st).size + bpb
      → b % bpb ≡ 0
      → ((j : ℕ) → j < b → j < (readsb st).size → in_use st j ≡ true)
      → Answer st k (balloc_from fuel b st)
  unfolding balloc_from
  balloc_from-Answer zero b enough near al low = absurd (omega arith)
  balloc_from-Answer (suc fuel) b enough near al low =
      if-Answer (ltb b (readsb st).size) _ _
        (λ below.
          mark_block-Answer b _ (balloc_from fuel (b + bpb) st) al (λ j lt. low j lt (ground arith))
            (find_clear-Scanned (st.buf (bblock (readsb st) b)) (readsb st).size b bpb 0)
            (λ each.
              balloc_from-Answer fuel (b + bpb) (omega arith) (ground arith) (omega arith) each))
        (λ above j lt. low j (ground arith) lt)

  -- On a disk whose superblock and bitmap blocks are marked in use, with room in the log for `k
  -- + 2` blocks, `balloc` returns. A block it returns is the lowest free one, inside the disk;
  -- afterwards it is marked in use, all other marks are as before, its bytes are 0, and every
  -- block but it and its bitmap block is as before, with room for `k` blocks left. If it
  -- panics, every block of the disk was in use.
  pub balloc-Answer : Answer st k (balloc st)
  unfolding balloc
  balloc-Answer =
      balloc_from-Answer ((readsb st).size / bpb + 2) 0 (omega arith) (omega arith) (omega arith)
        (λ j lt. absurd (omega arith))
