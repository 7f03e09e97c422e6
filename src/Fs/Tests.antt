-- ===== src/Fs/Tests.antt =====
-- Runs of fs.c: a disk of 16 blocks, the first 7 of them in use, with a log of 40 at sector 100.
use osce.Prelude.{
  ℕ, zero, suc, ◌+◌, ◌-◌, ◌*◌, ◌/◌, ◌^◌, ◌<◌, ◌≡◌, ◌≢◌, refl, true, false, none, some, [], ◌∷◌,
  ◌==◌, if◌then◌else◌, done, arith,
}
use osce.Log.{Log}
use osce.File.Counts.{count, remove}
use osce.Fs.Store.{Bytes, Store, bsize, bpb, readsb, bblock, test_bit, balloc}
use osce.Fs.Room.{HasRoom}
use osce.Fs.Bitmap.{in_use, IsFormatted, Answer, balloc-Answer}
use osce.Fs.Inode.{Inode, within, iupdate, load_dinode}
use osce.Fs.ReadWrite.{readi, writei}
use osce.Fs.Dinode.{IsSized, SameFile, iupdate-load_dinode}
use osce.Fs.Content.{block_of, IsMapped, IsRead, readi-Reply}
use osce.Fs.Writing.{IsSeparate, writei-readi}
use osce.Fs.Cache.{Fs, no_inode, inode_at, iget, iput}
use osce.Fs.Entries.{IsCached, Got, iget-Got, iput-IsCached}
use osce.Fs.Path.{skipelem, NoNul, Skipped, skipelem-Skipped}

abbrev empty_log : Log
empty_log = record {
  start = 100;
  size = 40;
  outstanding = 1;
  committing = false;
  n = 0;
  sector = λ _. 0;
}

abbrev super_block : Bytes
super_block a = if a == 0 then 16 else if a == 8 then 8 else 0

abbrev bitmap : Bytes
bitmap a = if a == 0 then 127 else 0

abbrev disk : Store
disk = record {
  buf = λ s. if s == 1 then super_block else if s == 4 then bitmap else λ _. 0;
  log = empty_log;
}

room : HasRoom empty_log 3
room = record { blocks = omega arith; sectors = omega arith; open_ = (omega arith, omega arith) }

two : HasRoom empty_log 2
two = record { blocks = omega arith; sectors = omega arith; open_ = (omega arith, omega arith) }

bitmap_at : (b : ℕ) → b < 16 → in_use disk (bblock (readsb disk) b) ≡ true
unfolding test_bit
bitmap_at b lt = let e : b / bpb ≡ 0 = omega arith in rw e refl

formatted : IsFormatted disk
unfolding test_bit
formatted = record { super = refl; bitmap = bitmap_at }

balloc-Answer_example : Answer disk 1 (balloc disk)
balloc-Answer_example = balloc-Answer disk formatted 1 room

-- A file of 1000 bytes in blocks 5 and 6.
abbrev file : Inode
file = record {
  dev = 1;
  inum = 3;
  ref = 2;
  busy = true;
  valid = true;
  kind = 2;
  major = 0;
  minor = 0;
  nlink = 1;
  size = 1000;
  addrs = λ i. if i == 0 then 5 else if i == 1 then 6 else 0;
}

addr_small : (i : ℕ) → file.addrs i < 2 ^ 32
addr_small i = ground arith

file-IsSized : IsSized file
file-IsSized = record {
  kind = omega arith;
  major = omega arith;
  minor = omega arith;
  nlink = omega arith;
  size = omega arith;
  addrs = λ i _. addr_small i;
}

iupdate-load_dinode_example :
    (st' : Store) × (iupdate file disk ≡ done st')
    × HasRoom st'.log 2
    × ((q : Inode) → q.inum ≡ 3 → SameFile file (load_dinode q st'))
    × ((q : Inode) → q.inum ≢ 3 → SameFile (load_dinode q disk) (load_dinode q st'))
iupdate-load_dinode_example = iupdate-load_dinode file disk 2 file-IsSized room

two_blocks : (bn : ℕ) → bn * bsize < 1000 → block_of file disk bn ≡ 5 + bn
two_blocks zero lt = refl
two_blocks (suc zero) lt = refl
two_blocks (suc (suc bn)) lt = absurd (omega arith)

file-IsMapped : IsMapped file disk
file-IsMapped = record {
  short = omega arith;
  blocks = λ bn lt e. omega (arith, two_blocks bn lt, e);
  indirect = λ lt. absurd (omega arith);
}

file-IsSeparate : IsSeparate file disk
file-IsSeparate = record {
  distinct = λ a b la lb e. omega (arith, two_blocks a la, two_blocks b lb, e);
  indirect = λ a la lt. absurd (omega arith);
}

readi-Reply_example :
    (dst' : Bytes) × (readi (λ _. none) file (λ _. 0) 0 900 200 disk
      ≡ done (some 100, dst', file, disk))
    × IsRead file disk 100 900 0 (λ _. 0) dst'
readi-Reply_example =
    readi-Reply (λ _. none) file disk (λ _. 0) 0 900 200 file-IsMapped (omega arith) (omega arith)
      (omega arith)

writei-readi_example :
    (st' : Store) × (dst' : Bytes) × (writei (λ _. none) file (λ j. j) 0 500 100 disk
      ≡ done (some 100, file, st'))
    × (readi (λ _. none) file (λ _. 0) 0 500 100 st' ≡ done (some 100, dst', file, st'))
    × ((j : ℕ) → dst' j ≡ (if within 0 100 j then 0 + (j - 0) else 0))
writei-readi_example =
    writei-readi (λ _. none) (λ _. none) file disk (λ j. j) (λ _. 0) 0 0 500 100 file-IsMapped
      file-IsSeparate (omega arith) (omega arith) two

skipelem-Skipped_example :
    Skipped (47 ∷ 97 ∷ 47 ∷ 47 ∷ 98 ∷ []) [] (skipelem (47 ∷ 97 ∷ 47 ∷ 47 ∷ 98 ∷ []) [])
unfolding NoNul
skipelem-Skipped_example =
    skipelem-Skipped (47 ∷ 97 ∷ 47 ∷ 47 ∷ 98 ∷ []) [] (refl, (refl, (refl, (refl, (refl, tt)))))

-- Three entries: the file with two handles, and two free ones.
abbrev cache : Fs
cache = record {
  volume = disk;
  inodes = file ∷ no_inode ∷ no_inode ∷ [];
  procs = record { procs = []; initproc = none; nextpid = 1 };
}

cache-counts : (i : ℕ) → (inode_at cache i).ref ≡ count i (0 ∷ 0 ∷ [])
unfolding count
cache-counts zero = refl
cache-counts (suc zero) = refl
cache-counts (suc (suc zero)) = refl
cache-counts (suc (suc (suc i))) = ground arith

cache-IsCached : IsCached cache (0 ∷ 0 ∷ [])
unfolding count
cache-IsCached = record {
  counts = cache-counts;
  few = omega arith;
  unique = λ i j pi pj _ _. ground (arith, cache-counts i, cache-counts j);
}

iget-Got_example : Got 1 9 cache (0 ∷ 0 ∷ []) (iget 1 9 cache)
iget-Got_example = iget-Got 1 9 cache (0 ∷ 0 ∷ []) cache-IsCached (omega arith)

iput-IsCached_example :
    (fs' : Fs) × (iput 0 cache ≡ done fs')
    × IsCached fs' (remove 0 (0 ∷ 0 ∷ []))
    × (fs'.volume ≡ cache.volume)
unfolding count
iput-IsCached_example = iput-IsCached 0 cache (0 ∷ 0 ∷ []) cache-IsCached (omega arith) refl
