-- ===== src/Fs/Entries.antt =====
-- fs.c, the entries of the inode cache, and the references to them.
use osce.Prelude.{
  ℕ, ◌+◌, ◌^◌, ◌<◌, ◌≡◌, ◌≢◌, refl, false, ◌&&◌, Option, none, some, List, [], ◌∷◌, ◌==◌, ltb,
  if◌then◌else◌, length, get_or-modify, get_or_outside, find_first, Search, find_first-Search,
  Outcome, done, panic, out_of_fuel, arith, Bool-cases, inl, inr,
}
use osce.File.Counts.{count, remove, count-remove, count-le, length-remove}
use osce.Fs.Inode.{Inode}
use osce.Fs.Cache.{
  Fs, no_inode, inode_at, change, Slot, cached, recycle, is_entry, is_free, iget_scan, add_ref,
  sub_ref, fresh_entry, iget_slot, iget, idup, iput,
}

-- The reference counts are those of the handles, and no two entries in use have the same inode.
pub record IsCached (fs : Fs) (hs : List ℕ) : Type 0 where
  pub counts : (i : ℕ) → (inode_at fs i).ref ≡ count i hs
  pub few : length hs < 2 ^ 31
  pub unique :
      (i j : ℕ)
      → 0 < (inode_at fs i).ref
      → 0 < (inode_at fs j).ref
      → (inode_at fs i).dev ≡ (inode_at fs j).dev
      → (inode_at fs i).inum ≡ (inode_at fs j).inum
      → i ≡ j

abbrev or_else : Option ℕ → Option ℕ → Option ℕ
or_else none b = b
or_else (some a) b = some a

abbrev slot_of : Option ℕ → Option ℕ → Slot
slot_of (some i) empty = cached i
slot_of none empty = recycle empty

iget_scan-eq :
    (dev inum : ℕ) (ips : List Inode) (i : ℕ) (empty : Option ℕ)
    → iget_scan dev inum ips i empty
      ≡ slot_of (find_first (is_entry dev inum) ips i) (or_else empty (find_first is_free ips i))
unfolding iget_scan find_first
iget_scan-eq dev inum [] i none = refl
iget_scan-eq dev inum [] i (some e) = refl
iget_scan-eq dev inum (ip ∷ ips) i none = elim (Bool-cases (is_entry dev inum ip)) [
  | inl hit ↦ rw hit refl
  | inr miss ↦ elim (Bool-cases (is_free ip)) [
    | inl free_ ↦ rw (miss, free_) (iget_scan-eq dev inum ips (i + 1) (some i))
    | inr used ↦ rw (miss, used) (iget_scan-eq dev inum ips (i + 1) none)
  ]
]
iget_scan-eq dev inum (ip ∷ ips) i (some e) = elim (Bool-cases (is_entry dev inum ip)) [
  | inl hit ↦ rw hit refl
  | inr miss ↦ rw miss (iget_scan-eq dev inum ips (i + 1) (some e))
]

at :
    (fs : Fs) (i : ℕ) (f : Inode → Inode) (j : ℕ)
    → inode_at (change i f fs) j
      ≡ (if i == j && ltb i (length fs.inodes) then f (inode_at fs j) else inode_at fs j)
at fs i f j = get_or-modify fs.inodes i j f no_inode

inside : (fs : Fs) (i : ℕ) → 0 < (inode_at fs i).ref → i < length fs.inodes
inside fs i h = ground (arith, get_or_outside fs.inodes i no_inode)

-- What `iget` comes to.
abbrev pub Got : ℕ → ℕ → Fs → List ℕ → Outcome (ℕ × Fs) → Type 0
Got dev inum fs hs (done (i, fs')) =
    IsCached fs' (i ∷ hs)
    × ((inode_at fs' i).dev ≡ dev)
    × ((inode_at fs' i).inum ≡ inum)
    × ((j : ℕ) → j ≢ i → inode_at fs' j ≡ inode_at fs j)
    × (fs'.volume ≡ fs.volume)
Got dev inum fs hs panic = (j : ℕ) → j < length fs.inodes → 0 < count j hs
Got dev inum fs hs out_of_fuel = ⊥

module _ (dev inum : ℕ) (fs : Fs) (hs : List ℕ) (v : IsCached fs hs)
    (small : length hs + 1 < 2 ^ 31) where
  slot-Got :
      (hit empty : Option ℕ)
      → Search (is_entry dev inum) fs.inodes no_inode hit
      → Search is_free fs.inodes no_inode empty
      → Got dev inum fs hs (iget_slot dev inum (slot_of hit empty) fs)
  unfolding iget_slot count
  slot-Got (some i) empty first free_ = (
    record {
      counts =
          λ j. ground (arith, at fs i add_ref j, v.counts j, count-le j hs, v.few, first.inside);
      few = omega arith;
      unique = λ a b pa pb e1 e2.
          ground
            (arith, at fs i add_ref a, at fs i add_ref b, first.passes, v.unique a b, first.inside);
    },
    ground (arith, at fs i add_ref i, first.passes),
    ground (arith, at fs i add_ref i, first.passes),
    λ j ne. ground (arith, at fs i add_ref j),
    refl,
  )
  slot-Got none (some i) miss first = (
    record {
      counts = λ j.
          ground (arith, at fs i (fresh_entry dev inum) j, v.counts j, first.passes, first.inside);
      few = omega arith;
      unique = λ a b pa pb e1 e2. ground (
        arith,
        at fs i (fresh_entry dev inum) a,
        at fs i (fresh_entry dev inum) b,
        first.passes,
        v.unique a b,
        first.inside,
        miss a,
        miss b,
        inside fs a,
        inside fs b,
        v.counts a,
        v.counts b,
        count-le a hs,
        count-le b hs,
        v.few,
      );
    },
    ground (arith, at fs i (fresh_entry dev inum) i, first.inside),
    ground (arith, at fs i (fresh_entry dev inum) i, first.inside),
    λ j ne. ground (arith, at fs i (fresh_entry dev inum) j),
    refl,
  )
  slot-Got none none miss full = λ j lt. ground (arith, full j lt, v.counts j)

  -- The reference count of each entry of the inode cache is the number of handles on it, and no
  -- two entries in use have the same inode. After `iget`, which returns or panics, this holds
  -- with one handle more, on the returned entry; that entry has the device and number asked
  -- for, no other entry and no block has changed. If it panics, every entry has a handle.
  pub iget-Got : Got dev inum fs hs (iget dev inum fs)
  unfolding iget
  iget-Got = rw (iget_scan-eq dev inum fs.inodes 0 none) (
      slot-Got _ _ (find_first-Search (is_entry dev inum) fs.inodes no_inode)
        (find_first-Search is_free fs.inodes no_inode))

-- Idup.
pub idup-IsCached :
    (i : ℕ) (fs : Fs) (hs : List ℕ)
    → IsCached fs hs
    → 0 < count i hs
    → length hs + 1 < 2 ^ 31
    → ((idup i fs).0 ≡ i) × IsCached (idup i fs).1 (i ∷ hs)
unfolding idup count
idup-IsCached i fs hs v held small = (
  refl,
  record {
    counts = λ j.
        ground
          (arith, at fs i add_ref j, v.counts j, v.counts i, count-le j hs, v.few, inside fs i);
    few = omega arith;
    unique = λ a b pa pb e1 e2.
        ground (arith, at fs i add_ref a, at fs i add_ref b, v.unique a b, v.counts i);
  },
)

-- Counts and entries fit the handles as for `iget`, and entry `i` has one. If it is not the last
-- one of a valid inode without links, `iput` succeeds, changes no block, and the counts then fit
-- the handles without one on `i`.
pub iput-IsCached :
    (i : ℕ) (fs : Fs) (hs : List ℕ)
    → IsCached fs hs
    → 0 < count i hs
    → ((inode_at fs i).ref == 1 && (inode_at fs i).valid && (inode_at fs i).nlink == 0) ≡ false
    → (fs' : Fs) × (iput i fs ≡ done fs') × IsCached fs' (remove i hs) × (fs'.volume ≡ fs.volume)
unfolding iput
iput-IsCached i fs hs v held kept = (
  change i sub_ref fs,
  rw kept refl,
  record {
    counts = λ j. ground (
      arith,
      at fs i sub_ref j,
      v.counts j,
      v.counts i,
      count-remove i j hs,
      count-le i hs,
      v.few,
      inside fs i,
    );
    few = omega (arith, v.few, length-remove i hs held);
    unique = λ a b pa pb e1 e2.
        ground (arith, at fs i sub_ref a, at fs i sub_ref b, v.unique a b, v.counts i);
  },
  refl,
)
