-- ===== src/Fs/Inode.antt =====
-- fs.c, inodes in memory and on the disk: `ialloc`, `iupdate`, and
-- the copy of `ilock`.
use osce.Prelude.{
  ℕ, zero, suc, ◌+◌, ◌-◌, ◌*◌, ◌/◌, ◌%◌, Bool, ◌&&◌, ◌==◌, ltb, leb, if◌then◌else◌, Outcome, done,
  panic, ◌>>=◌,
}
use osce.Fs.Store.{Bytes, Store, ipb, readsb, word_at, half_at, write_logged}

abbrev pub ndirect : ℕ
ndirect = 12

abbrev pub nindirect : ℕ
nindirect = 128

abbrev pub maxfile : ℕ
maxfile = ndirect + nindirect

-- `struct inode`. The two flags are apart; the `short` fields are bit patterns.
pub record Inode : Type 0 where
  pub dev : ℕ
  pub inum : ℕ
  pub ref : ℕ
  pub busy : Bool
  pub valid : Bool
  pub kind : ℕ
  pub major : ℕ
  pub minor : ℕ
  pub nlink : ℕ
  pub size : ℕ
  pub addrs : ℕ → ℕ

-- `T_DIR` and `T_DEV`
abbrev pub t_dir : ℕ
t_dir = 1

abbrev pub t_dev : ℕ
t_dev = 3

abbrev pub iblock : ℕ → ℕ
iblock i = i / ipb + 2

-- The byte at which inode `i` starts in its block.
abbrev pub ioffset : ℕ → ℕ
ioffset i = i % ipb * 64

-- Byte `k` of a number, the lowest first.
abbrev pub byte_of : ℕ → ℕ → ℕ
byte_of w zero = w % 256
byte_of w (suc k) = byte_of (w / 256) k

-- The `n` bytes from `d` on.
abbrev pub within : ℕ → ℕ → ℕ → Bool
within d n j = leb d j && ltb j (d + n)

-- Byte `k` of the `struct dinode` with the fields of an inode.
abbrev pub dinode_byte : Inode → ℕ → ℕ
dinode_byte ip k =
    if ltb k 2
    then byte_of ip.kind k
    else if ltb k 4
    then byte_of ip.major (k - 2)
    else if ltb k 6
    then byte_of ip.minor (k - 4)
    else if ltb k 8
    then byte_of ip.nlink (k - 6)
    else if ltb k 12
    then byte_of ip.size (k - 8)
    else byte_of (ip.addrs ((k - 12) / 4)) ((k - 12) % 4)

-- The block with the dinode of `ip` in its place.
abbrev pub with_dinode : Inode → Bytes → Bytes
with_dinode ip b j =
    if within (ioffset ip.inum) 64 j then dinode_byte ip (j - ioffset ip.inum) else b j

unfoldable pub iupdate : Inode → Store → Outcome Store
iupdate ip st = write_logged (iblock ip.inum) (with_dinode ip (st.buf (iblock ip.inum))) st

-- What `ilock` copies from the disk.
unfoldable pub load_dinode : Inode → Store → Inode
load_dinode ip st =
    let b = st.buf (iblock ip.inum) in
    let o = ioffset ip.inum in
    record ip {
      kind = half_at b o;
      major = half_at b (o + 2);
      minor = half_at b (o + 4);
      nlink = half_at b (o + 6);
      size = word_at b (o + 8);
      addrs = λ i. if leb i ndirect then word_at b (o + 12 + 4 * i) else ip.addrs i;
    }

-- The loop of `ialloc` from `inum`, `rounds` inodes before the last; the inode's number.
unfoldable pub ialloc_from : ℕ → ℕ → ℕ → Store → Outcome (ℕ × Store)
ialloc_from zero kind inum st = panic
ialloc_from (suc rounds) kind inum st =
    let b = st.buf (iblock inum) in
    let o = ioffset inum in
    let rest = ialloc_from rounds kind (inum + 1) st in
    let take = (do
      st' ←
          write_logged (iblock inum)
            (λ j.
              if within o 64 j then (if ltb (j - o) 2 then byte_of kind (j - o) else 0) else b j)
            st
      done (inum, st')) in
    if half_at b o == 0 then take else rest

unfoldable pub ialloc_inum : ℕ → Store → Outcome (ℕ × Store)
unfolding ialloc_from
ialloc_inum kind st = ialloc_from ((readsb st).ninodes - 1) kind 1 st
