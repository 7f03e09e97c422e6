-- ===== src/Fs/Walks.antt =====
-- fs.c: freeing an inode, searching a directory and walking along a path come to an end.
use osce.Prelude.{
  ℕ, zero, suc, ◌+◌, ◌*◌, ◌/◌, ◌<◌, ◌≡◌, Bool, true, not, ◌&&◌, ◌||◌, Option, none, some, List,
  get_or-modify, ◌==◌, ltb, Outcome, arith, Ends, Any, Ends-done, Ends-panic, Ends-bind, Ends-if,
}
use osce.Proc.Table.{PTable, Chan}
use osce.Proc.Life.{sleep_start}
use osce.File.{below_one}
use osce.Fs.Store.{Bytes, Store, word_at}
use osce.Fs.Inode.{Inode, ndirect, nindirect, t_dir, load_dinode}
use osce.Fs.ReadWrite.{free_if, set_addr, trunc_direct, trunc_indirect, trunc_rest, itrunc}
use osce.Fs.Cache.{
  Fs, no_inode, inode_at, change, inode_chan, icache_lock, Slot, cached, recycle, iget_slot, iget,
  read_inode, ilock, iunlock, free_inode, iput, iunlockput,
}
use osce.Fs.Directory.{
  dirent_size, whole, de_inum, is_entry_of, read_entry, scan_entries, dirlookup,
}
use osce.Fs.Ends.{bfree-Ends, iupdate-Ends, SameSizeRead, readi-Ends}

free_if-Ends : (a : ℕ) (st : Store) → Ends Any (free_if a st)
unfolding free_if
free_if-Ends a st = Ends-if Any (a == 0) _ _ (λ _. Ends-done Any _ tt) (λ _. bfree-Ends a st)

trunc_direct-Ends :
    (rounds i : ℕ) (ip : Inode) (st : Store) → Ends Any (trunc_direct rounds i ip st)
unfolding trunc_direct
trunc_direct-Ends zero i ip st = Ends-done Any _ tt
trunc_direct-Ends (suc rounds) i ip st =
    Ends-bind Any Any _ _ (free_if-Ends (ip.addrs i) st)
      (λ st' _. trunc_direct-Ends rounds (i + 1) (set_addr i 0 ip) st')

trunc_indirect-Ends : (rounds ia j : ℕ) (st : Store) → Ends Any (trunc_indirect rounds ia j st)
unfolding trunc_indirect
trunc_indirect-Ends zero ia j st = Ends-done Any _ tt
trunc_indirect-Ends (suc rounds) ia j st =
    Ends-bind Any Any _ _ (free_if-Ends (word_at (st.buf ia) (4 * j)) st)
      (λ st' _. trunc_indirect-Ends rounds ia (j + 1) st')

trunc_rest-Ends : (ip : Inode) (st : Store) → Ends Any (trunc_rest ip st)
unfolding trunc_rest
trunc_rest-Ends ip st =
    Ends-if Any (ip.addrs ndirect == 0) _ _ (λ _. Ends-done Any _ tt)
      (λ _. Ends-bind Any Any _ _ (trunc_indirect-Ends nindirect (ip.addrs ndirect) 0 st) (λ st1 _.
        Ends-bind Any Any _ _ (bfree-Ends (ip.addrs ndirect) st1) (λ st2 _. Ends-done Any _ tt)))

itrunc-Ends : (ip : Inode) (st : Store) → Ends Any (itrunc ip st)
unfolding itrunc
itrunc-Ends ip st = Ends-bind Any Any _ _ (trunc_direct-Ends ndirect 0 ip st) (λ (ip1, st1) _.
    Ends-bind Any Any _ _ (trunc_rest-Ends ip1 st1) (λ (ip2, st2) _.
      Ends-bind Any Any _ _ (iupdate-Ends (record ip2 { size = 0 }) st2)
        (λ st3 _. Ends-done Any _ tt)))

free_inode-Ends : (i : ℕ) (fs : Fs) → Ends Any (free_inode i fs)
unfolding free_inode
free_inode-Ends i fs =
    Ends-if Any (inode_at fs i).busy _ _ (λ _. Ends-panic Any)
      (λ _.
        Ends-bind Any Any _ _ (itrunc-Ends (record (inode_at fs i) { busy = true }) fs.volume)
          (λ (ip1, st1) _.
            Ends-bind Any Any _ _ (iupdate-Ends (record ip1 { kind = 0 }) st1)
              (λ st2 _. Ends-done Any _ tt)))

pub iput-Ends : (i : ℕ) (fs : Fs) → Ends Any (iput i fs)
unfolding iput
iput-Ends i fs =
    Ends-if Any ((inode_at fs i).ref == 1 && (inode_at fs i).valid && (inode_at fs i).nlink == 0) _
      _ (λ _. Ends-bind Any Any _ _ (free_inode-Ends i fs) (λ fs' _. Ends-done Any _ tt))
      (λ _. Ends-done Any _ tt)

pub iunlock-Ends : (i : ℕ) (fs : Fs) → Ends Any (iunlock (some i) fs)
unfolding iunlock
iunlock-Ends i fs =
    Ends-if Any (not (inode_at fs i).busy || below_one (inode_at fs i).ref) _ _
      (λ _. Ends-panic Any) (λ _. Ends-done Any _ tt)

pub iunlockput-Ends : (i : ℕ) (fs : Fs) → Ends Any (iunlockput i fs)
unfolding iunlockput
iunlockput-Ends i fs = Ends-bind Any Any _ _ (iunlock-Ends i fs) (λ fs' _. iput-Ends i fs')

iget_slot-Ends : (dev inum : ℕ) (s : Slot) (fs : Fs) → Ends Any (iget_slot dev inum s fs)
unfolding iget_slot
iget_slot-Ends dev inum (cached i) fs = Ends-done Any _ tt
iget_slot-Ends dev inum (recycle none) fs = Ends-panic Any
iget_slot-Ends dev inum (recycle (some i)) fs = Ends-done Any _ tt

pub iget-Ends : (dev inum : ℕ) (fs : Fs) → Ends Any (iget dev inum fs)
unfolding iget
iget-Ends dev inum fs = iget_slot-Ends dev inum _ fs

read_inode-Ends : (i : ℕ) (fs : Fs) → Ends Any (read_inode i fs)
unfolding read_inode
read_inode-Ends i fs =
    Ends-if Any (inode_at fs i).valid _ _ (λ _. Ends-done Any _ tt)
      (λ _.
        Ends-if Any ((load_dinode (inode_at fs i) fs.volume).kind == 0) _ _ (λ _. Ends-panic Any)
          (λ _. Ends-done Any _ tt))

sleep_start-Ends :
    (me : ℕ) (c : Chan) (lk : ℕ) (t : PTable) → Ends Any (sleep_start (some me) c lk t)
unfolding sleep_start
sleep_start-Ends me c lk t =
    Ends-if Any (lk == 0) _ _ (λ _. Ends-panic Any) (λ _. Ends-done Any _ tt)

pub ilock-Ends : (me i : ℕ) (fs : Fs) → Ends Any (ilock me (some i) fs)
unfolding ilock
ilock-Ends me i fs =
    Ends-if Any (below_one (inode_at fs i).ref) _ _ (λ _. Ends-panic Any)
      (λ _.
        Ends-if Any (inode_at fs i).busy _ _
          (λ _.
            Ends-bind Any Any _ _ (sleep_start-Ends me (inode_chan i) icache_lock fs.procs)
              (λ t _. Ends-done Any _ tt))
          (λ _.
            Ends-bind Any Any _ _ (read_inode-Ends i (change i (λ p. record p { busy = true }) fs))
              (λ fs' _. Ends-done Any _ tt)))

-- The size of directory `dp` stays.
abbrev SameDir : ℕ → Fs → Bytes × Fs → Type 0
SameDir dp fs (de, fs') = (inode_at fs' dp).size ≡ (inode_at fs dp).size

same_size :
    (dp : ℕ) (ip : Inode) (fs : Fs) (st : Store)
    → ip.size ≡ (inode_at fs dp).size
    → (inode_at (change dp (λ _. ip) (record fs { volume = st })) dp).size ≡ (inode_at fs dp).size
same_size dp ip fs st e = ground (arith, get_or-modify fs.inodes dp dp (λ _. ip) no_inode)

module _ (dev_read : ℕ → Option (Bytes → ℕ → ℕ → Outcome (Option ℕ × Bytes)))
    (returns : (i : ℕ) (read : Bytes → ℕ → ℕ → Outcome (Option ℕ × Bytes)) (b : Bytes) (d n : ℕ)
      → dev_read i ≡ some read
      → Ends Any (read b d n)) where
  read_entry-Ends :
      (dp off : ℕ) (de : Bytes) (fs : Fs) → Ends (SameDir dp fs) (read_entry dev_read dp off de fs)
  unfolding read_entry
  read_entry-Ends dp off de fs =
      Ends-bind (SameSizeRead (inode_at fs dp)) (SameDir dp fs) _ _
        (readi-Ends dev_read returns (inode_at fs dp) de 0 off dirent_size fs.volume)
        (λ (r, de', ip, st) kept.
          Ends-if (SameDir dp fs) (whole r) _ _
            (λ _.
              Ends-done (SameDir dp fs) (de', change dp (λ _. ip) (record fs { volume = st }))
                (same_size dp ip fs st kept))
            (λ _. Ends-panic (SameDir dp fs)))

  scan_entries-Ends :
      (test : Bytes → Bool) (fuel dp off : ℕ) (de : Bytes) (fs : Fs)
      → (inode_at fs dp).size + dirent_size < off + fuel * dirent_size
      → off < (inode_at fs dp).size + dirent_size
      → Ends Any (scan_entries dev_read test fuel dp off de fs)
  unfolding scan_entries
  scan_entries-Ends test zero dp off de fs enough near = absurd (omega arith)
  scan_entries-Ends test (suc fuel) dp off de fs enough near =
      Ends-if Any (ltb off (inode_at fs dp).size) _ _
        (λ below.
          Ends-bind (SameDir dp fs) Any _ _ (read_entry-Ends dp off de fs) (λ (de', fs') same.
            Ends-if Any (test de') _ _ (λ _. Ends-done Any _ tt)
              (λ _.
                scan_entries-Ends test fuel dp (off + dirent_size) de' fs' (omega arith)
                  (ground arith))))
        (λ _. Ends-done Any _ tt)

  pub dirlookup-Ends :
      (dp : ℕ) (name : List ℕ) (de : Bytes) (fs : Fs) → Ends Any (dirlookup dev_read dp name de fs)
  unfolding dirlookup
  dirlookup-Ends dp name de fs =
      Ends-if Any ((inode_at fs dp).kind == t_dir) _ _
        (λ _.
          Ends-bind Any Any _ _
            (scan_entries-Ends (is_entry_of name) ((inode_at fs dp).size / dirent_size + 2) dp 0 de
              fs (omega arith) (omega arith))
            (λ (hit, off, de', fs1) _.
              Ends-if Any hit _ _
                (λ _.
                  Ends-bind Any Any _ _ (iget-Ends (inode_at fs1 dp).dev (de_inum de') fs1)
                    (λ r _. Ends-done Any _ tt))
                (λ _. Ends-done Any _ tt)))
        (λ _. Ends-panic Any)
