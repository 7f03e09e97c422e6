-- ===== src/Fs/Dinode.antt =====
-- fs.c, `iupdate` and `ilock`: an inode on its way to the disk and back.
use osce.Prelude.{
  ℕ, suc, ◌+◌, ◌-◌, ◌*◌, ◌/◌, ◌%◌, ◌^◌, ◌<◌, ◌≤◌, ◌≡◌, ◌≢◌, refl, sym, ◌∙◌, ap, true, false, ◌==◌,
  ltb, leb, done, arith, Bool-cases, inl, inr,
}
use osce.Fs.Store.{Bytes, Store, word_at, half_at}
use osce.Fs.Room.{HasRoom, Wrote, write_logged-Wrote}
use osce.Fs.Inode.{
  Inode, ndirect, iblock, ioffset, byte_of, within, dinode_byte, with_dinode, iupdate, load_dinode,
}

-- The fields fit their C types.
pub record IsSized (ip : Inode) : Type 0 where
  pub kind : ip.kind < 2 ^ 16
  pub major : ip.major < 2 ^ 16
  pub minor : ip.minor < 2 ^ 16
  pub nlink : ip.nlink < 2 ^ 16
  pub size : ip.size < 2 ^ 32
  pub addrs : (i : ℕ) → i ≤ ndirect → ip.addrs i < 2 ^ 32

-- Two entries with the same file: what is kept on the disk is the same.
pub record SameFile (p q : Inode) : Type 0 where
  pub kind : q.kind ≡ p.kind
  pub major : q.major ≡ p.major
  pub minor : q.minor ≡ p.minor
  pub nlink : q.nlink ≡ p.nlink
  pub size : q.size ≡ p.size
  pub addrs : (i : ℕ) → i ≤ ndirect → q.addrs i ≡ p.addrs i

in_place :
    (ip : Inode) (b : Bytes) (k : ℕ)
    → k < 64
    → with_dinode ip b (ioffset ip.inum + k) ≡ dinode_byte ip k
in_place ip b k lt =
    let hit : within (ioffset ip.inum) 64 (ioffset ip.inum + k) ≡ true = ground arith in
    let e : ioffset ip.inum + k - ioffset ip.inum ≡ k = omega arith in rw (hit, e) refl

half_bytes : (w : ℕ) → w < 2 ^ 16 → byte_of w 0 + 256 * byte_of w 1 ≡ w
half_bytes w h = omega arith

word_bytes :
    (w : ℕ)
    → w < 2 ^ 32
    → byte_of w 0 + 256 * byte_of w 1 + 65536 * byte_of w 2 + 16777216 * byte_of w 3 ≡ w
word_bytes w h = omega arith

module _ (ip : Inode) (b : Bytes) (sized : IsSized ip) where
  abbrev d : Bytes
  d = with_dinode ip b

  abbrev o : ℕ
  o = ioffset ip.inum

  half_field :
      (k w : ℕ)
      → k + 1 < 64
      → w < 2 ^ 16
      → dinode_byte ip k ≡ byte_of w 0
      → dinode_byte ip (k + 1) ≡ byte_of w 1
      → half_at d (o + k) ≡ w
  half_field k w inside small e0 e1 =
      let a1 : o + k + 1 ≡ o + (k + 1) = omega arith in
      let b0 : d (o + k) ≡ byte_of w 0 = in_place ip b k (omega arith) ∙ e0 in
      let b1 : d (o + k + 1) ≡ byte_of w 1 = ap d a1 ∙ in_place ip b (k + 1) inside ∙ e1 in
      omega (arith, b0, b1, half_bytes w small)

  word_field :
      (k w : ℕ)
      → k + 3 < 64
      → w < 2 ^ 32
      → dinode_byte ip k ≡ byte_of w 0
      → dinode_byte ip (k + 1) ≡ byte_of w 1
      → dinode_byte ip (k + 2) ≡ byte_of w 2
      → dinode_byte ip (k + 3) ≡ byte_of w 3
      → word_at d (o + k) ≡ w
  word_field k w inside small e0 e1 e2 e3 =
      let a1 : o + k + 1 ≡ o + (k + 1) = omega arith in
      let a2 : o + k + 2 ≡ o + (k + 2) = omega arith in
      let a3 : o + k + 3 ≡ o + (k + 3) = omega arith in
      let b0 : d (o + k) ≡ byte_of w 0 = in_place ip b k (omega arith) ∙ e0 in
      let b1 : d (o + k + 1) ≡ byte_of w 1 = ap d a1 ∙ in_place ip b (k + 1) (omega arith) ∙ e1 in
      let b2 : d (o + k + 2) ≡ byte_of w 2 = ap d a2 ∙ in_place ip b (k + 2) (omega arith) ∙ e2 in
      let b3 : d (o + k + 3) ≡ byte_of w 3 = ap d a3 ∙ in_place ip b (k + 3) inside ∙ e3 in
      omega (arith, b0, b1, b2, b3, word_bytes w small)

  addr_byte :
      (i c : ℕ) → i ≤ ndirect → c < 4 → dinode_byte ip (12 + 4 * i + c) ≡ byte_of (ip.addrs i) c
  addr_byte i c le lt =
      let q : (12 + 4 * i + c - 12) / 4 ≡ i = omega arith in
      let r : (12 + 4 * i + c - 12) % 4 ≡ c = omega arith in
      let t2 : ltb (12 + 4 * i + c) 2 ≡ false = ground arith in
      let t4 : ltb (12 + 4 * i + c) 4 ≡ false = ground arith in
      let t6 : ltb (12 + 4 * i + c) 6 ≡ false = ground arith in
      let t8 : ltb (12 + 4 * i + c) 8 ≡ false = ground arith in
      let t12 : ltb (12 + 4 * i + c) 12 ≡ false = ground arith in
      rw (t2, t4, t6, t8, t12, q, r) refl

  kind_field : half_at d o ≡ ip.kind
  kind_field =
      let e : o + 0 ≡ o = omega arith in
      ap (half_at d) (sym e) ∙ half_field 0 ip.kind (omega arith) sized.kind refl refl

  size_field : word_at d (o + 8) ≡ ip.size
  size_field = word_field 8 ip.size (omega arith) sized.size refl refl refl refl

  addr_field : (i : ℕ) → i ≤ ndirect → word_at d (o + 12 + 4 * i) ≡ ip.addrs i
  addr_field i le =
      let e : o + 12 + 4 * i ≡ o + (12 + 4 * i) = omega arith in
      let e0 : 12 + 4 * i + 0 ≡ 12 + 4 * i = omega arith in
      ap (word_at d) e
      ∙ word_field (12 + 4 * i) (ip.addrs i) (omega arith) (sized.addrs i le)
          (ap (dinode_byte ip) (sym e0) ∙ addr_byte i 0 le (omega arith))
          (addr_byte i 1 le (omega arith)) (addr_byte i 2 le (omega arith))
          (addr_byte i 3 le (omega arith))

  stored :
      (q : Inode) (st : Store)
      → q.inum ≡ ip.inum
      → st.buf (iblock ip.inum) ≡ d
      → SameFile ip (load_dinode q st)
  unfolding load_dinode
  stored q st same at =
      rw (same, at)
        (record {
          kind = kind_field;
          major = half_field 2 ip.major (omega arith) sized.major refl refl;
          minor = half_field 4 ip.minor (omega arith) sized.minor refl refl;
          nlink = half_field 6 ip.nlink (omega arith) sized.nlink refl refl;
          size = size_field;
          addrs = λ i le. let t : leb i ndirect ≡ true = ground arith in rw t (addr_field i le);
        })

-- Another inode's place in the block stays.
module _ (b b' : Bytes) (o : ℕ) (agree : (k : ℕ) → k < 64 → b' (o + k) ≡ b (o + k)) where
  half_agree : (k : ℕ) → k + 1 < 64 → half_at b' (o + k) ≡ half_at b (o + k)
  half_agree k lt =
      let a1 : o + k + 1 ≡ o + (k + 1) = omega arith in
      let e1 : b' (o + k + 1) ≡ b (o + k + 1) = ap b' a1 ∙ agree (k + 1) lt ∙ ap b (sym a1) in
      omega (arith, agree k (omega arith), e1)

  word_agree : (k : ℕ) → k + 3 < 64 → word_at b' (o + k) ≡ word_at b (o + k)
  word_agree k lt =
      let a1 : o + k + 1 ≡ o + (k + 1) = omega arith in
      let a2 : o + k + 2 ≡ o + (k + 2) = omega arith in
      let a3 : o + k + 3 ≡ o + (k + 3) = omega arith in
      let e1 : b' (o + k + 1) ≡ b (o + k + 1) =
        ap b' a1 ∙ agree (k + 1) (omega arith) ∙ ap b (sym a1) in
      let e2 : b' (o + k + 2) ≡ b (o + k + 2) =
        ap b' a2 ∙ agree (k + 2) (omega arith) ∙ ap b (sym a2) in
      let e3 : b' (o + k + 3) ≡ b (o + k + 3) = ap b' a3 ∙ agree (k + 3) lt ∙ ap b (sym a3) in
      omega (arith, agree k (omega arith), e1, e2, e3)

-- What is kept of `q` on a disk that differs elsewhere.
kept :
    (q : Inode) (st st' : Store)
    → ((k : ℕ)
        → k < 64
        → st'.buf (iblock q.inum) (ioffset q.inum + k)
          ≡ st.buf (iblock q.inum) (ioffset q.inum + k))
    → SameFile (load_dinode q st) (load_dinode q st')
unfolding load_dinode
kept q st st' agree =
    let b = st.buf (iblock q.inum) in
    let b' = st'.buf (iblock q.inum) in
    let o = ioffset q.inum in
    let e : o ≡ o + 0 = omega arith in
    record {
      kind = ap (half_at b') e ∙ half_agree b b' o agree 0 (omega arith) ∙ ap (half_at b) (sym e);
      major = half_agree b b' o agree 2 (omega arith);
      minor = half_agree b b' o agree 4 (omega arith);
      nlink = half_agree b b' o agree 6 (omega arith);
      size = word_agree b b' o agree 8 (omega arith);
      addrs = λ i le.
          let t : leb i ndirect ≡ true = ground arith in
          let a : o + 12 + 4 * i ≡ o + (12 + 4 * i) = omega arith in
          rw t (
            ap (word_at b') a
            ∙ word_agree b b' o agree (12 + 4 * i) (omega arith)
            ∙ ap (word_at b) (sym a));
    }

-- For an inode whose fields fit their C types, with room in the log, `iupdate` succeeds; what
-- `ilock` then reads from the disk for that inode number is the inode's type, numbers, links,
-- size and addresses, and for every other number it is what it was before.
pub iupdate-load_dinode :
    (ip : Inode) (st : Store) (k : ℕ)
    → IsSized ip
    → HasRoom st.log (suc k)
    → (st' : Store) × (iupdate ip st ≡ done st')
      × HasRoom st'.log k
      × ((q : Inode) → q.inum ≡ ip.inum → SameFile ip (load_dinode q st'))
      × ((q : Inode) → q.inum ≢ ip.inum → SameFile (load_dinode q st) (load_dinode q st'))
unfolding iupdate
iupdate-load_dinode ip st k sized room =
    let s = iblock ip.inum in
    let (st', e, w) = write_logged-Wrote s (with_dinode ip (st.buf s)) k st room in
    (
      st',
      e,
      w.room,
      λ q same. stored ip (st.buf s) sized q st' same w.at,
      λ q other. kept q st st' (elsewhere st' w q other),
    )
  where
    elsewhere :
        (st' : Store)
        → Wrote (iblock ip.inum) (with_dinode ip (st.buf (iblock ip.inum))) k st st'
        → (q : Inode) → q.inum ≢ ip.inum
        → (j : ℕ) → j < 64
        → st'.buf (iblock q.inum) (ioffset q.inum + j) ≡ st.buf (iblock q.inum) (ioffset q.inum + j)
    elsewhere st' w q other j lt = elim (Bool-cases (iblock q.inum == iblock ip.inum)) [
      | inl at ↦
          let e : iblock q.inum ≡ iblock ip.inum = ground arith in
          let miss : within (ioffset ip.inum) 64 (ioffset q.inum + j) ≡ false = ground arith in
          let old : with_dinode ip (st.buf (iblock ip.inum)) (ioffset q.inum + j)
              ≡ st.buf (iblock ip.inum) (ioffset q.inum + j) =
            rw miss refl in
          ap (λ n. st'.buf n (ioffset q.inum + j)) e
          ∙ ap (λ (b : Bytes). b (ioffset q.inum + j)) w.at
          ∙ old
          ∙ ap (λ n. st.buf n (ioffset q.inum + j)) (sym e)
      | inr off ↦
          ap (λ (b : Bytes). b (ioffset q.inum + j)) (w.others (iblock q.inum) (ground arith))
    ]
