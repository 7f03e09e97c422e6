-- ===== src/Fs/ReadWrite.antt =====
-- fs.c, the blocks and the bytes of an inode whose lock the caller holds: `bmap`, `itrunc`, `stati`,
-- `readi` and `writei`. They work on the entry of the inode cache and give it back changed.
use osce.Prelude.{
  ℕ, zero, suc, ◌+◌, ◌-◌, ◌*◌, ◌/◌, ◌%◌, ◌^◌, ◌&&◌, ◌||◌, Option, none, some, ◌==◌, ltb, leb,
  if◌then◌else◌, Outcome, done, panic, out_of_fuel, ◌>>=◌,
}
use Prim.Native.Nat.{min}
use osce.Fs.Store.{Bytes, Store, bsize, word_at, write_logged, balloc, bfree}
use osce.Fs.Inode.{Inode, ndirect, nindirect, maxfile, t_dev, byte_of, within, iupdate}

abbrev pub set_addr : ℕ → ℕ → Inode → Inode
set_addr i a ip = record ip { addrs = λ j. if i == j then a else ip.addrs j }

-- `if((addr = ip->addrs[i]) == 0) ip->addrs[i] = addr = balloc(ip->dev);`
unfoldable pub ensure : ℕ → Inode → Store → Outcome (ℕ × Inode × Store)
ensure i ip st =
    let fresh = (do (a, st') ← balloc st; done (a, set_addr i a ip, st')) in
    if ip.addrs i == 0 then fresh else done (ip.addrs i, ip, st)

abbrev pub with_word : ℕ → ℕ → Bytes → Bytes
with_word o w b j = if within o 4 j then byte_of w (j - o) else b j

-- The part of `bmap` on the indirect block `ia`, at its word `i`.
unfoldable pub bmap_indirect : ℕ → ℕ → Store → Outcome (ℕ × Store)
bmap_indirect ia i st =
    let fresh = (do
      (a, st1) ← balloc st
      st2 ← write_logged ia (with_word (4 * i) a (st1.buf ia)) st1
      done (a, st2)) in
    if word_at (st.buf ia) (4 * i) == 0 then fresh else done (word_at (st.buf ia) (4 * i), st)

unfoldable pub bmap : Inode → ℕ → Store → Outcome (ℕ × Inode × Store)
unfolding ensure bmap_indirect
bmap ip bn st =
    let indirect = (do
      (ia, ip1, st1) ← ensure ndirect ip st
      (a, st2) ← bmap_indirect ia (bn - ndirect) st1
      done (a, ip1, st2)) in
    if ltb bn ndirect
    then ensure bn ip st
    else if ltb (bn - ndirect) nindirect
    then indirect
    else panic

-- `if(a) bfree(dev, a)`
unfoldable pub free_if : ℕ → Store → Outcome Store
free_if a st = if a == 0 then done st else bfree a st

-- The first loop of `itrunc` from `i`, `rounds` addresses before NDIRECT.
unfoldable pub trunc_direct : ℕ → ℕ → Inode → Store → Outcome (Inode × Store)
unfolding free_if
trunc_direct zero i ip st = done (ip, st)
trunc_direct (suc rounds) i ip st = do
  st' ← free_if (ip.addrs i) st
  trunc_direct rounds (i + 1) (set_addr i 0 ip) st'

-- The second loop, over the words of the indirect block.
unfoldable pub trunc_indirect : ℕ → ℕ → ℕ → Store → Outcome Store
unfolding free_if
trunc_indirect zero ia j st = done st
trunc_indirect (suc rounds) ia j st = do
  st' ← free_if (word_at (st.buf ia) (4 * j)) st
  trunc_indirect rounds ia (j + 1) st'

unfoldable pub trunc_rest : Inode → Store → Outcome (Inode × Store)
unfolding trunc_indirect
trunc_rest ip st =
    let ia = ip.addrs ndirect in
    let free = (do
      st1 ← trunc_indirect nindirect ia 0 st
      st2 ← bfree ia st1
      done (set_addr ndirect 0 ip, st2)) in
    if ia == 0 then done (ip, st) else free

unfoldable pub itrunc : Inode → Store → Outcome (Inode × Store)
unfolding trunc_direct trunc_rest iupdate
itrunc ip st = do
  (ip1, st1) ← trunc_direct ndirect 0 ip st
  (ip2, st2) ← trunc_rest ip1 st1
  let ip3 = record ip2 { size = 0 }
  st3 ← iupdate ip3 st2
  done (ip3, st3)

-- `struct stat`
pub record Stat : Type 0 where
  pub dev : ℕ
  pub ino : ℕ
  pub kind : ℕ
  pub nlink : ℕ
  pub size : ℕ

abbrev pub stati : Inode → Stat
stati ip = record { dev = ip.dev; ino = ip.inum; kind = ip.kind; nlink = ip.nlink; size = ip.size }

-- `memmove(dst + d, src + s, m)` between a block and a buffer, which do not overlap
abbrev pub blit : Bytes → ℕ → Bytes → ℕ → ℕ → Bytes
blit dst d src s m j = if within d m j then src (s + (j - d)) else dst j

-- `min(n - tot, BSIZE - off%BSIZE)`
abbrev pub chunk : ℕ → ℕ → ℕ
chunk left off = min left (bsize - off % bsize)

-- The loop of `readi`, with `left` for `n - tot`. A round takes at least one byte.
unfoldable pub read_blocks : ℕ → ℕ → ℕ → ℕ → Inode → Bytes → Store → Outcome (Bytes × Inode × Store)
unfolding bmap
read_blocks zero left off d ip dst st = out_of_fuel
read_blocks (suc fuel) left off d ip dst st =
    let more = (do
      (a, ip', st') ← bmap ip (off / bsize) st
      let m = chunk left off
      read_blocks fuel (left - m) (off + m) (d + m) ip' (blit dst d (st'.buf a) (off % bsize) m)
          st') in
    if left == 0 then done (dst, ip, st) else more

-- The loop of `writei`.
unfoldable pub write_blocks : ℕ → ℕ → ℕ → ℕ → Inode → Bytes → Store → Outcome (Inode × Store)
unfolding bmap write_logged
write_blocks zero left off s ip src st = out_of_fuel
write_blocks (suc fuel) left off s ip src st =
    let more = (do
      (a, ip', st1) ← bmap ip (off / bsize) st
      let m = chunk left off
      st2 ← write_logged a (blit (st1.buf a) (off % bsize) src s m) st1
      write_blocks fuel (left - m) (off + m) (s + m) ip' src st2) in
    if left == 0 then done (ip, st) else more

-- `readi` and `writei` of a device are entries of `devsw`.
abbrev pub ndev : ℕ
ndev = 10

module _ (dev_read : ℕ → Option (Bytes → ℕ → ℕ → Outcome (Option ℕ × Bytes))) where
  abbrev pub read_device :
      Option (Bytes → ℕ → ℕ → Outcome (Option ℕ × Bytes))
      → Inode
      → Bytes
      → ℕ
      → ℕ
      → Store
      → Outcome (Option ℕ × Bytes × Inode × Store)
  read_device none ip dst d n st = done (none, dst, ip, st)
  read_device (some read) ip dst d n st = do (r, dst') ← read dst d n; done (r, dst', ip, st)

  -- The count, or `none` for -1; `dst` from `d` on is the buffer.
  unfoldable pub readi :
      Inode → Bytes → ℕ → ℕ → ℕ → Store → Outcome (Option ℕ × Bytes × Inode × Store)
  unfolding read_blocks
  readi ip dst d off n st =
      let n' = if ltb ip.size (off + n) then ip.size - off else n in
      let file = (do
        (dst', ip', st') ← read_blocks (n' + 1) n' off d ip dst st
        done (some n', dst', ip', st')) in
      let device =
        if leb ndev ip.major
        then done (none, dst, ip, st)
        else read_device (dev_read ip.major) ip dst d n st in
      if ip.kind == t_dev
      then device
      else if ltb ip.size off || ltb ((off + n) % 2 ^ 32) off
      then done (none, dst, ip, st)
      else file

module _ (dev_write : ℕ → Option (Bytes → ℕ → ℕ → Outcome (Option ℕ))) where
  abbrev pub write_device :
      Option (Bytes → ℕ → ℕ → Outcome (Option ℕ))
      → Inode
      → Bytes
      → ℕ
      → ℕ
      → Store
      → Outcome (Option ℕ × Inode × Store)
  write_device none ip src s n st = done (none, ip, st)
  write_device (some write) ip src s n st = do r ← write src s n; done (r, ip, st)

  -- The end of `writei`, with `off` behind the last byte.
  unfoldable pub grow : ℕ → ℕ → Inode → Store → Outcome (Option ℕ × Inode × Store)
  unfolding iupdate
  grow n off ip st =
      let ip' = record ip { size = off } in
      let update = (do st' ← iupdate ip' st; done (some n, ip', st')) in
      if ltb 0 n && ltb ip.size off then update else done (some n, ip, st)

  unfoldable pub writei : Inode → Bytes → ℕ → ℕ → ℕ → Store → Outcome (Option ℕ × Inode × Store)
  unfolding write_blocks grow
  writei ip src s off n st =
      let file = (do
        (ip', st') ← write_blocks (n + 1) n off s ip src st
        grow n (off + n) ip' st') in
      let device =
        if leb ndev ip.major
        then done (none, ip, st)
        else write_device (dev_write ip.major) ip src s n st in
      if ip.kind == t_dev
      then device
      else if ltb ip.size off || ltb ((off + n) % 2 ^ 32) off
      then done (none, ip, st)
      else if ltb (maxfile * bsize) (off + n)
      then done (none, ip, st)
      else file
