-- ===== src/Fs/Directory/Tests.antt =====
-- Runs of the directories of fs.c: a directory of two entries in block 5.
use osce.Prelude.{
  ℕ, zero, suc, ◌*◌, ◌<◌, ◌≢◌, refl, true, false, none, List, [], ◌∷◌, ◌==◌, if◌then◌else◌, arith,
  get_or, Ends, Any,
}
use osce.Fs.Store.{Bytes, bsize}
use osce.Fs.Inode.{Inode}
use osce.Fs.Content.{block_of, IsMapped}
use osce.Fs.Cache.{Fs, no_inode}
use osce.Fs.Directory.{dirlookup, namex}
use osce.Fs.Lookup.{Found, dirlookup-Found}
use osce.Fs.Namex.{namex-Ends}

-- "a" is inode 7, "b" is inode 9.
abbrev two_entries : Bytes
two_entries j =
    get_or (7 ∷ 0 ∷ 97 ∷ 0 ∷ 0 ∷ 0 ∷ 0 ∷ 0 ∷ 0 ∷ 0 ∷ 0 ∷ 0 ∷ 0 ∷ 0 ∷ 0 ∷ 0 ∷ 9 ∷ 0 ∷ 98 ∷ []) j 0

abbrev directory : Inode
directory = record no_inode {
  dev = 1;
  inum = 1;
  ref = 1;
  valid = true;
  kind = 1;
  nlink = 1;
  size = 32;
  addrs = λ i. if i == 0 then 5 else 0;
}

abbrev disk : Fs
disk = record {
  volume = record {
    buf = λ s. if s == 5 then two_entries else λ _. 0;
    log = record {
      start = 100;
      size = 40;
      outstanding = 1;
      committing = false;
      n = 0;
      sector = λ _. 0;
    };
  };
  inodes = directory ∷ no_inode ∷ no_inode ∷ [];
  procs = record { procs = []; initproc = none; nextpid = 1 };
}

directory-IsMapped : IsMapped directory disk.volume
directory-IsMapped = record {
  short = omega arith;
  blocks = only;
  indirect = λ lt. absurd (omega arith);
}
  where
    only : (bn : ℕ) → bn * bsize < 32 → block_of directory disk.volume bn ≢ 0
    only zero lt = λ e. omega (arith, e)
    only (suc bn) lt = absurd (omega arith)

-- The name "b" in an array of 14 bytes.
abbrev b_name : List ℕ
b_name = 98 ∷ 0 ∷ 0 ∷ 0 ∷ 0 ∷ 0 ∷ 0 ∷ 0 ∷ 0 ∷ 0 ∷ 0 ∷ 0 ∷ 0 ∷ 0 ∷ []

dirlookup-Found_example :
    Found
      (λ _. none)
      0
      disk
      directory-IsMapped
      (omega arith)
      b_name
      (dirlookup (λ _. none) 0 b_name (λ _. 0) disk)
dirlookup-Found_example =
    dirlookup-Found (λ _. none) 0 disk directory-IsMapped (omega arith) b_name (λ _. 0) refl refl
      (omega arith)

-- The path "/a/b".
abbrev a_b : List ℕ
a_b = 47 ∷ 97 ∷ 47 ∷ 98 ∷ []

namex-Ends_example : Ends Any (namex (λ _. none) 0 0 false a_b b_name (λ _. 0) disk)
namex-Ends_example =
    namex-Ends (λ _. none) (λ i read b d n e. ground (arith, e)) 0 0 false a_b b_name (λ _. 0) disk
