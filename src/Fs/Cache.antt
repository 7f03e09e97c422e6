-- ===== src/Fs/Cache.antt =====
-- fs.c, the inode cache: `iget`, `idup`, `ilock`, `iunlock`, `iput` and `iunlockput`. Each runs under
-- `icache.lock`; what `iput` does without it concerns an inode that nobody else can reach.
use osce.Prelude.{
  ℕ, ◌+◌, ◌-◌, ◌%◌, ◌^◌, Bool, true, false, not, ◌&&◌, ◌||◌, Option, none, some, is_some, List, [],
  ◌∷◌, ◌==◌, if◌then◌else◌, get_or, modify, Outcome, done, panic, ◌>>=◌,
}
use osce.Proc.Table.{PTable, Chan, object, wakeup}
use osce.Proc.Life.{sleep_start}
use osce.File.{below_one}
use osce.Fs.Store.{Store}
use osce.Fs.Inode.{Inode, iupdate, load_dinode, ialloc_inum}
use osce.Fs.ReadWrite.{itrunc}

-- The blocks, `icache.inode`, and the process table.
pub record Fs : Type 0 where
  pub volume : Store
  pub inodes : List Inode
  pub procs : PTable

abbrev pub ninode : ℕ
ninode = 50

abbrev pub no_inode : Inode
no_inode = record {
  dev = 0;
  inum = 0;
  ref = 0;
  busy = false;
  valid = false;
  kind = 0;
  major = 0;
  minor = 0;
  nlink = 0;
  size = 0;
  addrs = λ _. 0;
}

abbrev pub inode_at : Fs → ℕ → Inode
inode_at fs i = get_or fs.inodes i no_inode

abbrev pub change : ℕ → (Inode → Inode) → Fs → Fs
change i f fs = record fs { inodes = modify fs.inodes i f }

-- The address of an entry, and of the lock, apart from those of other objects that are slept on.
abbrev pub inode_chan : ℕ → Chan
inode_chan i = object (2 + i)

abbrev pub icache_lock : ℕ
icache_lock = 2

-- What the loop of `iget` finds: the entry of the inode, or the first free one.
pub data Slot : Type 0 where
  cached : ℕ → Slot
  recycle : Option ℕ → Slot

abbrev pub is_entry : ℕ → ℕ → Inode → Bool
is_entry dev inum ip = not (below_one ip.ref) && ip.dev == dev && ip.inum == inum

abbrev pub is_free : Inode → Bool
is_free ip = ip.ref == 0

-- The loop of `iget` from entry `i`.
unfoldable pub iget_scan : ℕ → ℕ → List Inode → ℕ → Option ℕ → Slot
iget_scan dev inum [] i empty = recycle empty
iget_scan dev inum (ip ∷ ips) i empty =
    let rest =
      iget_scan dev inum ips (i + 1)
        (if not (is_some empty) && is_free ip then some i else empty) in
    if is_entry dev inum ip then cached i else rest

abbrev pub add_ref : Inode → Inode
add_ref ip = record ip { ref = (ip.ref + 1) % 2 ^ 32 }

abbrev pub sub_ref : Inode → Inode
sub_ref ip = record ip { ref = (ip.ref + 2 ^ 32 - 1) % 2 ^ 32 }

abbrev pub fresh_entry : ℕ → ℕ → Inode → Inode
fresh_entry dev inum ip = record ip { dev = dev; inum = inum; ref = 1; busy = false; valid = false }

unfoldable pub iget_slot : ℕ → ℕ → Slot → Fs → Outcome (ℕ × Fs)
iget_slot dev inum (cached i) fs = done (i, change i add_ref fs)
iget_slot dev inum (recycle none) fs = panic
iget_slot dev inum (recycle (some i)) fs = done (i, change i (fresh_entry dev inum) fs)

unfoldable pub iget : ℕ → ℕ → Fs → Outcome (ℕ × Fs)
unfolding iget_scan iget_slot
iget dev inum fs = iget_slot dev inum (iget_scan dev inum fs.inodes 0 none) fs

unfoldable pub idup : ℕ → Fs → ℕ × Fs
idup i fs = (i, change i add_ref fs)

unfoldable pub ialloc : ℕ → ℕ → Fs → Outcome (ℕ × Fs)
unfolding ialloc_inum iget
ialloc dev kind fs = do
  (inum, st) ← ialloc_inum kind fs.volume
  iget dev inum (record fs { volume = st })

pub data LockReply : Type 0 where
  locked : LockReply
  waiting : LockReply

-- The end of `ilock`, with the lock taken.
unfoldable pub read_inode : ℕ → Fs → Outcome Fs
unfolding load_dinode
read_inode i fs =
    let ip = inode_at fs i in
    let ip' = record (load_dinode ip fs.volume) { valid = true } in
    if ip.valid then done fs else if ip'.kind == 0 then panic else done (change i (λ _. ip') fs)

-- A round of `ilock`: a process that has to wait runs it again. `none` is NULL.
unfoldable pub ilock : ℕ → Option ℕ → Fs → Outcome (LockReply × Fs)
unfolding read_inode
ilock me none fs = panic
ilock me (some i) fs =
    let ip = inode_at fs i in
    let wait = (do
      t ← sleep_start (some me) (inode_chan i) icache_lock fs.procs
      done (waiting, record fs { procs = t })) in
    let take = (do
      fs' ← read_inode i (change i (λ p. record p { busy = true }) fs)
      done (locked, fs')) in
    if below_one ip.ref then panic else if ip.busy then wait else take

unfoldable pub iunlock : Option ℕ → Fs → Outcome Fs
iunlock none fs = panic
iunlock (some i) fs =
    let ip = inode_at fs i in
    if not ip.busy || below_one ip.ref
    then panic
    else done (record (change i (λ p. record p { busy = false }) fs) {
      procs = wakeup (inode_chan i) fs.procs;
    })

-- The branch of `iput` for an inode without links: truncate and free it.
unfoldable pub free_inode : ℕ → Fs → Outcome Fs
unfolding itrunc iupdate
free_inode i fs =
    let ip = inode_at fs i in
    let go = (do
      (ip1, st1) ← itrunc (record ip { busy = true }) fs.volume
      let ip2 = record ip1 { kind = 0 }
      st2 ← iupdate ip2 st1
      done (record fs {
        volume = st2;
        inodes = modify fs.inodes i (λ _. record ip2 { busy = false; valid = false });
        procs = wakeup (inode_chan i) fs.procs;
      })) in
    if ip.busy then panic else go

unfoldable pub iput : ℕ → Fs → Outcome Fs
unfolding free_inode
iput i fs =
    let ip = inode_at fs i in
    let last = (do fs' ← free_inode i fs; done (change i sub_ref fs')) in
    if ip.ref == 1 && ip.valid && ip.nlink == 0 then last else done (change i sub_ref fs)

unfoldable pub iunlockput : ℕ → Fs → Outcome Fs
unfolding iunlock iput
iunlockput i fs = do fs' ← iunlock (some i) fs; iput i fs'
