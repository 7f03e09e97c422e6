-- ===== src/Fs/Namex.antt =====
-- fs.c, `namex`: a walk along a path ends, as every round takes an element off the path.
use osce.Prelude.{
  ℕ, zero, suc, ◌+◌, ◌<◌, ◌≤◌, ◌≡◌, Bool, not, ◌&&◌, Option, none, some, List, [], ◌∷◌, length,
  ◌==◌, Outcome, arith, Ends, Any, Ends-done, Ends-bind, Ends-if,
}
use osce.Fs.Store.{Bytes}
use osce.Fs.Inode.{t_dir}
use osce.Fs.Cache.{Fs, inode_at, LockReply, locked, waiting}
use osce.Fs.Path.{skip_slashes, span_elem, next_elem, skipelem, IsSkipped, skip-IsSkipped}
use osce.Fs.Directory.{
  onward, Walk, walk_locked, walk_reply, walk_round, walk, starts_at_root, rootdev, rootino, namex,
}
use osce.Fs.Walks.{iunlock-Ends, iput-Ends, iunlockput-Ends, iget-Ends, ilock-Ends, dirlookup-Ends}

length-skip : (path : List ℕ) → length (skip_slashes path) ≤ length path
unfolding skip_slashes
length-skip [] = omega arith
length-skip (c ∷ path) = ground (arith, length-skip path)

length-span : (path : List ℕ) → length (span_elem path).1 ≤ length path
unfolding span_elem
length-span [] = omega arith
length-span (c ∷ path) = ground (arith, length-span path)

-- What `skipelem` leaves is shorter.
Shorter : ℕ → Option (List ℕ × List ℕ) → Type 0
Shorter n none = Unit
Shorter n (some (rest, name)) = length rest < n

next_elem-Shorter :
    (path name : List ℕ) (n : ℕ)
    → IsSkipped path
    → length path ≤ n
    → Shorter n (next_elem path name)
unfolding span_elem IsSkipped Shorter
next_elem-Shorter [] name n off le = tt
next_elem-Shorter (c ∷ path) name n off le =
    rw off (omega (arith, length-skip (span_elem path).1, length-span path))

skipelem-Shorter : (path name : List ℕ) (n : ℕ) → length path ≤ n → Shorter n (skipelem path name)
unfolding skipelem
skipelem-Shorter path name n le =
    next_elem-Shorter (skip_slashes path) name n (skip-IsSkipped path)
      (omega (arith, length-skip path))

module _ (dev_read : ℕ → Option (Bytes → ℕ → ℕ → Outcome (Option ℕ × Bytes)))
    (returns : (i : ℕ) (read : Bytes → ℕ → ℕ → Outcome (Option ℕ × Bytes)) (b : Bytes) (d n : ℕ)
      → dev_read i ≡ some read
      → Ends Any (read b d n)) where
  module _ (next : ℕ → List ℕ → List ℕ → Fs → Outcome (Walk × Fs)) (m : ℕ)
      (later : (ip : ℕ) (path name : List ℕ) (fs : Fs)
        → length path < m
        → Ends Any (next ip path name fs)) where
    onward-Ends :
        (path name : List ℕ) (found : Option (ℕ × ℕ)) (fs : Fs)
        → length path < m
        → Ends Any (onward next path name found fs)
    onward-Ends path name none fs lt = Ends-done Any _ tt
    onward-Ends path name (some (ip, off)) fs lt = later ip path name fs lt

    walk_locked-Ends :
        (parent : Bool) (ip : ℕ) (path name : List ℕ) (de : Bytes) (fs : Fs)
        → length path < m
        → Ends Any (walk_locked dev_read next parent ip path name de fs)
    unfolding walk_locked
    walk_locked-Ends parent ip path name de fs lt =
        Ends-if Any (not ((inode_at fs ip).kind == t_dir)) _ _
          (λ _. Ends-bind Any Any _ _ (iunlockput-Ends ip fs) (λ fs' _. Ends-done Any _ tt))
          (λ _.
            Ends-if Any (parent && length path == 0) _ _
              (λ _. Ends-bind Any Any _ _ (iunlock-Ends ip fs) (λ fs' _. Ends-done Any _ tt))
              (λ _.
                Ends-bind Any Any _ _ (dirlookup-Ends dev_read returns ip name de fs)
                  (λ (found, fs1) _.
                    Ends-bind Any Any _ _ (iunlockput-Ends ip fs1)
                      (λ fs2 _. onward-Ends path name found fs2 lt))))

    walk_reply-Ends :
        (parent : Bool) (ip : ℕ) (path name : List ℕ) (de : Bytes) (r : LockReply) (fs : Fs)
        → length path < m
        → Ends Any (walk_reply dev_read next parent ip path name de r fs)
    unfolding walk_reply
    walk_reply-Ends parent ip path name de locked fs lt =
        walk_locked-Ends parent ip path name de fs lt
    walk_reply-Ends parent ip path name de waiting fs lt = Ends-done Any _ tt

    walk_round-Ends :
        (me : ℕ) (parent : Bool) (de : Bytes) (ip : ℕ) (name : List ℕ) (fs : Fs)
        (r : Option (List ℕ × List ℕ))
        → Shorter m r
        → Ends Any (walk_round dev_read next me parent de ip name fs r)
    unfolding walk_round Shorter
    walk_round-Ends me parent de ip name fs none s =
        Ends-if Any parent _ _
          (λ _. Ends-bind Any Any _ _ (iput-Ends ip fs) (λ fs' _. Ends-done Any _ tt))
          (λ _. Ends-done Any _ tt)
    walk_round-Ends me parent de ip name fs (some (path', name')) s =
        Ends-bind Any Any _ _ (ilock-Ends me ip fs)
          (λ (reply, fs') _. walk_reply-Ends parent ip path' name' de reply fs' s)

  walk-Ends :
      (fuel me : ℕ) (parent : Bool) (de : Bytes) (ip : ℕ) (path name : List ℕ) (fs : Fs)
      → length path < fuel
      → Ends Any (walk dev_read fuel me parent de ip path name fs)
  unfolding walk
  walk-Ends zero me parent de ip path name fs enough = absurd (omega arith)
  walk-Ends (suc fuel) me parent de ip path name fs enough =
      walk_round-Ends (walk dev_read fuel me parent de) fuel
        (λ ip' path' name' fs' lt. walk-Ends fuel me parent de ip' path' name' fs' lt) me parent de
        ip name fs (skipelem path name) (skipelem-Shorter path name fuel (omega arith))

  -- `namex` terminates on every path, disk and inode cache, if the read routines of devices do:
  -- the rounds given to its loops, and to those of `skipelem`, `dirlookup`, `readi`, `balloc`
  -- and `itrunc` behind it, are enough, so it returns, sleeps for a lock, or panics.
  pub namex-Ends :
      (me cwd : ℕ) (parent : Bool) (path name : List ℕ) (de : Bytes) (fs : Fs)
      → Ends Any (namex dev_read me cwd parent path name de fs)
  unfolding namex
  namex-Ends me cwd parent path name de fs =
      Ends-bind Any Any _ _
        (Ends-if Any (starts_at_root path) _ _ (λ _. iget-Ends rootdev rootino fs)
          (λ _. Ends-done Any _ tt))
        (λ (ip, fs') _. walk-Ends (length path + 1) me parent de ip path name fs' (omega arith))
