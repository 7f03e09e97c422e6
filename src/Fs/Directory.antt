-- ===== src/Fs/Directory.antt =====
-- fs.c, directories and path names: `dirlookup`, `dirlink`, `namex` and its two callers. A directory
-- entry is 16 bytes: the `ushort` of the inode number, and the name. Sizes stay below `2 ^ 32 - 16`.
mod Tests
use osce.Prelude.{
  ℕ, zero, suc, ◌+◌, ◌-◌, ◌*◌, ◌/◌, ◌%◌, ◌^◌, Bool, true, false, not, ◌&&◌, Option, none, some,
  List, [], ◌∷◌, length, get_or, modify, ◌==◌, ltb, if◌then◌else◌, Outcome, done, panic,
  out_of_fuel, ◌>>=◌,
}
use osce.Str.{strncmp, strncpy}
use osce.Fs.Store.{Bytes, half_at}
use osce.Fs.Inode.{Inode, t_dir, byte_of}
use osce.Fs.ReadWrite.{readi, writei}
use osce.Fs.Cache.{
  Fs, inode_at, change, LockReply, locked, waiting, iget, idup, ilock, iunlock, iput, iunlockput,
}
use osce.Fs.Path.{dirsiz, slash, skipelem}

-- `namecmp(s, t) == 0`
abbrev pub namecmp : List ℕ → List ℕ → Bool
namecmp s t = (strncmp s t dirsiz).0 == (strncmp s t dirsiz).1

-- `sizeof(struct dirent)`
abbrev pub dirent_size : ℕ
dirent_size = 16

-- The `n` bytes of `b` from `a` on, as an array.
unfoldable pub bytes_from : ℕ → Bytes → ℕ → List ℕ
bytes_from zero b a = []
bytes_from (suc n) b a = b a ∷ bytes_from n b (a + 1)

-- The fields of `struct dirent`.
abbrev pub de_inum : Bytes → ℕ
de_inum de = half_at de 0

unfoldable pub de_name : Bytes → List ℕ
unfolding bytes_from
de_name de = bytes_from dirsiz de 2

-- `de` with both fields assigned.
abbrev pub filled : List ℕ → ℕ → Bytes → Bytes
filled name inum de j = if ltb j 2 then byte_of inum j else get_or name (j - 2) (de j)

-- `de.inum != 0 && namecmp(name, de.name) == 0`
unfoldable pub is_entry_of : List ℕ → Bytes → Bool
unfolding de_name
is_entry_of name de = not (de_inum de == 0) && namecmp name (de_name de)

-- The test for a whole entry after `readi` and `writei`.
abbrev pub whole : Option ℕ → Bool
whole none = false
whole (some n) = n == dirent_size

-- What a walk comes to: an inode or 0, and `name`; or it sleeps for the lock of an inode, with the
-- path behind the element that is in `name`.
pub data Walk : Type 0 where
  walked : Option ℕ → List ℕ → Walk
  asleep : ℕ → List ℕ → List ℕ → Walk

-- The end of a round: up to the inode that was found.
abbrev pub onward :
    (ℕ → List ℕ → List ℕ → Fs → Outcome (Walk × Fs))
    → List ℕ
    → List ℕ
    → Option (ℕ × ℕ)
    → Fs
    → Outcome (Walk × Fs)
onward walk path name none fs = done (walked none name, fs)
onward walk path name (some (next, off)) fs = walk next path name fs

-- `ROOTDEV` and `ROOTINO`
abbrev pub rootdev : ℕ
rootdev = 1

abbrev pub rootino : ℕ
rootino = 1

abbrev pub starts_at_root : List ℕ → Bool
starts_at_root [] = false
starts_at_root (c ∷ path) = c == slash

module _ (dev_read : ℕ → Option (Bytes → ℕ → ℕ → Outcome (Option ℕ × Bytes))) where
  -- `if(readi(dp, (char*)&de, off, sizeof(de)) != sizeof(de)) panic`
  unfoldable pub read_entry : ℕ → ℕ → Bytes → Fs → Outcome (Bytes × Fs)
  unfolding readi
  read_entry dp off de fs = do
    (r, de', ip, st) ← readi dev_read (inode_at fs dp) de 0 off dirent_size fs.volume
    let fs' = change dp (λ _. ip) (record fs { volume = st })
    if whole r then done (de', fs') else panic

  -- The loops of `dirlookup` and `dirlink` from `off`: the first entry that passes `test`, and its
  -- offset; otherwise the offset behind the last one. A round passes 16 bytes.
  unfoldable pub scan_entries :
      (Bytes → Bool) → ℕ → ℕ → ℕ → Bytes → Fs → Outcome (Bool × ℕ × Bytes × Fs)
  unfolding read_entry
  scan_entries test zero dp off de fs = out_of_fuel
  scan_entries test (suc fuel) dp off de fs =
      let more = (do
        (de', fs') ← read_entry dp off de fs
        let rest = scan_entries test fuel dp (off + dirent_size) de' fs'
        if test de' then done (true, off, de', fs') else rest) in
      if ltb off (inode_at fs dp).size then more else done (false, off, de, fs)

  -- The entry of the inode cache, with `*poff`. `de` is what the stack holds.
  unfoldable pub dirlookup : ℕ → List ℕ → Bytes → Fs → Outcome (Option (ℕ × ℕ) × Fs)
  unfolding scan_entries is_entry_of iget
  dirlookup dp name de fs =
      let ip = inode_at fs dp in
      let search = (do
        (hit, off, de', fs1) ←
            scan_entries (is_entry_of name) (ip.size / dirent_size + 2) dp 0 de fs
        let get = (do
          (i, fs2) ← iget (inode_at fs1 dp).dev (de_inum de') fs1
          done (some (i, off), fs2))
        if hit then get else done (none, fs1)) in
      if ip.kind == t_dir then search else panic

  module _ (dev_write : ℕ → Option (Bytes → ℕ → ℕ → Outcome (Option ℕ))) where
    -- `if(writei(dp, (char*)&de, off, sizeof(de)) != sizeof(de)) panic`
    unfoldable pub write_entry : ℕ → ℕ → Bytes → Fs → Outcome Fs
    unfolding writei
    write_entry dp off de fs = do
      (r, ip, st) ← writei dev_write (inode_at fs dp) de 0 off dirent_size fs.volume
      if whole r then done (change dp (λ _. ip) (record fs { volume = st })) else panic

    -- `dirlink` after its `dirlookup`; `true` for 0, `false` for -1.
    unfoldable pub link_new : Option (ℕ × ℕ) → ℕ → List ℕ → ℕ → Bytes → Fs → Outcome (Bool × Fs)
    unfolding write_entry scan_entries iput
    link_new (some (i, off)) dp name inum de fs = do fs' ← iput i fs; done (false, fs')
    link_new none dp name inum de fs = do
      (_, off, de', fs1) ←
          scan_entries (λ e. de_inum e == 0) ((inode_at fs dp).size / dirent_size + 2) dp 0 de fs
      fs2 ← write_entry dp off (filled (strncpy (bytes_from dirsiz de' 2) name dirsiz) inum de') fs1
      done (true, fs2)

    unfoldable pub dirlink : ℕ → List ℕ → ℕ → Bytes → Fs → Outcome (Bool × Fs)
    unfolding link_new dirlookup
    dirlink dp name inum de fs = do
      (found, fs1) ← dirlookup dp name de fs
      link_new found dp name inum de fs1

  -- A round of the loop of `namex` with the lock of `ip` held; `walk` is the rounds that follow.
  unfoldable pub walk_locked :
      (ℕ → List ℕ → List ℕ → Fs → Outcome (Walk × Fs))
      → Bool
      → ℕ
      → List ℕ
      → List ℕ
      → Bytes
      → Fs
      → Outcome (Walk × Fs)
  unfolding iunlock iunlockput dirlookup
  walk_locked walk parent ip path name de fs =
      let leave = (do fs' ← iunlockput ip fs; done (walked none name, fs')) in
      let stop = (do fs' ← iunlock (some ip) fs; done (walked (some ip) name, fs')) in
      let down = (do
        (found, fs1) ← dirlookup ip name de fs
        fs2 ← iunlockput ip fs1
        onward walk path name found fs2) in
      if not ((inode_at fs ip).kind == t_dir)
      then leave
      else if parent && length path == 0
      then stop
      else down

  unfoldable pub walk_reply :
      (ℕ → List ℕ → List ℕ → Fs → Outcome (Walk × Fs))
      → Bool
      → ℕ
      → List ℕ
      → List ℕ
      → Bytes
      → LockReply
      → Fs
      → Outcome (Walk × Fs)
  unfolding walk_locked
  walk_reply walk parent ip path name de locked fs = walk_locked walk parent ip path name de fs
  walk_reply walk parent ip path name de waiting fs = done (asleep ip path name, fs)

  -- A round of that loop, behind `skipelem`.
  unfoldable pub walk_round :
      (ℕ → List ℕ → List ℕ → Fs → Outcome (Walk × Fs))
      → ℕ
      → Bool
      → Bytes
      → ℕ
      → List ℕ
      → Fs
      → Option (List ℕ × List ℕ)
      → Outcome (Walk × Fs)
  unfolding walk_reply ilock iput
  walk_round walk me parent de ip name fs none =
      let leave = (do fs' ← iput ip fs; done (walked none name, fs')) in
      if parent then leave else done (walked (some ip) name, fs)
  walk_round walk me parent de ip name fs (some (path', name')) = do
    (reply, fs') ← ilock me (some ip) fs
    walk_reply walk parent ip path' name' de reply fs'

  -- The loop of `namex` from `ip`, for process `me`. Each round takes an element off the path.
  unfoldable pub walk : ℕ → ℕ → Bool → Bytes → ℕ → List ℕ → List ℕ → Fs → Outcome (Walk × Fs)
  unfolding walk_round skipelem
  walk zero me parent de ip path name fs = out_of_fuel
  walk (suc fuel) me parent de ip path name fs =
      walk_round (walk fuel me parent de) me parent de ip name fs (skipelem path name)

  -- `namex` in process `me`, whose directory is the entry `cwd`.
  unfoldable pub namex : ℕ → ℕ → Bool → List ℕ → List ℕ → Bytes → Fs → Outcome (Walk × Fs)
  unfolding walk iget idup
  namex me cwd parent path name de fs = do
    (ip, fs') ← if starts_at_root path then iget rootdev rootino fs else done (idup cwd fs)
    walk (length path + 1) me parent de ip path name fs'

  -- `name` is on the stack of `namei`.
  unfoldable pub namei : ℕ → ℕ → List ℕ → List ℕ → Bytes → Fs → Outcome (Walk × Fs)
  unfolding namex
  namei me cwd path name de fs = namex me cwd false path name de fs

  unfoldable pub nameiparent : ℕ → ℕ → List ℕ → List ℕ → Bytes → Fs → Outcome (Walk × Fs)
  unfolding namex
  nameiparent me cwd path name de fs = namex me cwd true path name de fs
