-- ===== src/Fs/Lookup.antt =====
-- fs.c, `dirlookup`: the first entry of a directory with a name.
use osce.Prelude.{
  ℕ, zero, suc, ◌+◌, ◌-◌, ◌*◌, ◌/◌, ◌%◌, ◌<◌, ◌≤◌, ◌≡◌, ◌≢◌, refl, sym, ◌∙◌, ap, Bool, true, false,
  not, ◌&&◌, Option, none, some, List, [], ◌∷◌, length, take, get_or, modify, ◌==◌, ltb,
  if◌then◌else◌, Outcome, done, ◌>>=◌, Bool-cases, inl, inr, ◌⊎◌, ◌↔◌, arith,
}
use osce.Str.{cstr, strncmp}
use osce.Str.Copy.{strncmp-eq}
use osce.Fs.Store.{Bytes, Store}
use osce.Fs.Inode.{Inode, t_dir, t_dev, within}
use osce.Fs.ReadWrite.{readi}
use osce.Fs.Cache.{Fs, no_inode, inode_at, change, iget}
use osce.Fs.Content.{content, IsMapped, available, readi-IsRead}
use osce.Fs.Path.{dirsiz}
use osce.Fs.Directory.{
  dirent_size, bytes_from, de_inum, de_name, is_entry_of, read_entry, scan_entries, dirlookup,
}

-- The entry of a directory at `off`.
abbrev pub entry : Inode → Store → ℕ → Bytes
entry ip st off j = content ip st (off + j)

-- The entry at `off` is used, and its name agrees with `name` on 14 bytes.
abbrev pub IsNamed : Inode → Store → List ℕ → ℕ → Type 0
IsNamed ip st name off =
    (de_inum (entry ip st off) ≢ 0)
    × (take dirsiz (cstr name) ≡ take dirsiz (cstr (de_name (entry ip st off))))

modify-same : (xs : List Inode) (i : ℕ) → modify xs i (λ _. get_or xs i no_inode) ≡ xs
modify-same [] i = refl
modify-same (x ∷ xs) zero = refl
modify-same (x ∷ xs) (suc i) = ap (◌∷◌ x) (modify-same xs i)

change-same : (dp : ℕ) (fs : Fs) → change dp (λ _. inode_at fs dp) fs ≡ fs
change-same dp fs = ap (λ xs. record fs { inodes = xs }) (modify-same fs.inodes dp)

-- Two buffers with the same entry.
abbrev SameEntry : Bytes → Bytes → Type 0
SameEntry d e = (j : ℕ) → j < dirent_size → d j ≡ e j

bytes_from-same :
    (n a : ℕ) (d e : Bytes)
    → ((j : ℕ) → j < a + n → d j ≡ e j)
    → bytes_from n d a ≡ bytes_from n e a
unfolding bytes_from
bytes_from-same zero a d e same = refl
bytes_from-same (suc n) a d e same =
    rw (same a (omega arith), bytes_from-same n (a + 1) d e (λ j lt. same j (omega arith))) refl

is_entry_of-same :
    (name : List ℕ) (d e : Bytes) → SameEntry d e → is_entry_of name d ≡ is_entry_of name e
unfolding is_entry_of de_name
is_entry_of-same name d e same =
    rw
      (
        same 0 (omega arith),
        same (0 + 1) (omega arith),
        bytes_from-same dirsiz 2 d e (λ j lt. same j (omega arith)),
      )
      refl

same_inum : (d e : Bytes) → SameEntry d e → de_inum d ≡ de_inum e
same_inum d e same = rw (same 0 (omega arith), same (0 + 1) (omega arith)) refl

length-bytes_from : (n : ℕ) (d : Bytes) (a : ℕ) → length (bytes_from n d a) ≡ n
unfolding bytes_from
length-bytes_from zero d a = refl
length-bytes_from (suc n) d a = ap suc (length-bytes_from n d (a + 1))

both_hold : (a b c : ℕ) → ((not (a == 0) && b == c) ≡ true) ↔ ((a ≢ 0) × (b ≡ c))
both_hold a b c = (λ h. (ground arith, ground arith), λ (h, k). ground arith)

-- The test of `dirlookup` is the one of `IsNamed`.
is_entry_of-IsNamed :
    (ip : Inode) (st : Store) (name : List ℕ) (off : ℕ)
    → dirsiz ≤ length name
    → (is_entry_of name (entry ip st off) ≡ true) ↔ IsNamed ip st name off
unfolding is_entry_of de_name
is_entry_of-IsNamed ip st name off long =
    let b = bytes_from dirsiz (entry ip st off) 2 in
    let (there, back) =
      strncmp-eq name b dirsiz long (omega (arith, length-bytes_from dirsiz (entry ip st off) 2)) in
    let (out, back_in) =
      both_hold (de_inum (entry ip st off)) (strncmp name b dirsiz).0 (strncmp name b dirsiz).1 in
    (λ t. ((out t).0, there (out t).1), λ (used, same). back_in (used, back same))

module _ (dev_read : ℕ → Option (Bytes → ℕ → ℕ → Outcome (Option ℕ × Bytes))) (dp : ℕ) (fs : Fs)
    (mapped : IsMapped (inode_at fs dp) fs.volume) (file : (inode_at fs dp).kind ≢ t_dev) where
  whole_entry :
      (off : ℕ) (de : Bytes)
      → off + dirent_size ≤ (inode_at fs dp).size
      → (de' : Bytes) × (readi dev_read (inode_at fs dp) de 0 off dirent_size fs.volume
          ≡ done (some dirent_size, de', inode_at fs dp, fs.volume))
        × SameEntry de' (entry (inode_at fs dp) fs.volume off)
  whole_entry off de le =
      let ip = inode_at fs dp in
      let (de', e, r) =
        readi-IsRead dev_read ip fs.volume de 0 off dirent_size mapped file (omega arith)
          (omega (arith, mapped.short)) in
      let c : available ip off dirent_size ≡ dirent_size = ground arith in
      (
        de',
        e ∙ ap (λ n. done (some n, de', ip, fs.volume)) c,
        λ j lt.
            let h : within 0 (available ip off dirent_size) j ≡ true = ground arith in
            let z : j - 0 ≡ j = omega arith in rw (h, z) at (r j),
      )

  read_entry-entry :
      (off : ℕ) (de : Bytes)
      → off + dirent_size ≤ (inode_at fs dp).size
      → (de' : Bytes) × (read_entry dev_read dp off de fs ≡ done (de', fs))
        × SameEntry de' (entry (inode_at fs dp) fs.volume off)
  unfolding read_entry
  read_entry-entry off de le =
      let (de', e, same) = whole_entry off de le in
      (de', rw e (ap (λ f. done (de', f)) (change-same dp fs)), same)

  -- What the loop finds from `off`: the first entry that passes the test, or none.
  abbrev Scanned : (Bytes → Bool) → ℕ → Bool × ℕ × Bytes × Fs → Type 0
  Scanned test off (hit, at, de, fs') =
      (fs' ≡ fs)
      × ((k : ℕ)
          → off ≤ k
          → k < at
          → k % dirent_size ≡ 0
          → test (entry (inode_at fs dp) fs.volume k) ≡ false)
      × (at % dirent_size ≡ 0)
      × (if hit
          then (at < (inode_at fs dp).size)
            × SameEntry de (entry (inode_at fs dp) fs.volume at)
            × (test (entry (inode_at fs dp) fs.volume at) ≡ true)
          else at ≡ (inode_at fs dp).size)

  module _ (test : Bytes → Bool) (local : (d e : Bytes) → SameEntry d e → test d ≡ test e)
      (aligned : (inode_at fs dp).size % dirent_size ≡ 0) where
    first :
        (off at : ℕ)
        → test (entry (inode_at fs dp) fs.volume off) ≡ false
        → ((k : ℕ)
            → off + dirent_size ≤ k
            → k < at
            → k % dirent_size ≡ 0
            → test (entry (inode_at fs dp) fs.volume k) ≡ false)
        → (k : ℕ) → off ≤ k
        → k < at
        → off % dirent_size ≡ 0
        → k % dirent_size ≡ 0
        → test (entry (inode_at fs dp) fs.volume k) ≡ false
    first off at no_ later k lo hi al al' = elim (Bool-cases (off == k)) [
      | inl here ↦
          let e : off ≡ k = ground arith in
          ap (λ o. test (entry (inode_at fs dp) fs.volume o)) (sym e) ∙ no_
      | inr there ↦ later k (ground arith) hi al'
    ]

    scan_entries-Scanned :
        (fuel off : ℕ) (de : Bytes)
        → off % dirent_size ≡ 0
        → off ≤ (inode_at fs dp).size
        → (inode_at fs dp).size < off + fuel * dirent_size
        → (r : Bool × ℕ × Bytes × Fs) × (scan_entries dev_read test fuel dp off de fs ≡ done r)
          × Scanned test off r
    unfolding scan_entries
    scan_entries-Scanned zero off de al le enough = absurd (omega arith)
    scan_entries-Scanned (suc fuel) off de al le enough =
        elim (Bool-cases (ltb off (inode_at fs dp).size)) [
          | inl more ↦
              let (de', e, same) = read_entry-entry off de (ground arith) in
              elim (Bool-cases (test de')) [
                | inl yes_ ↦ (
                  (true, off, de', fs),
                  rw (more, e, yes_) refl,
                  (
                    refl,
                    λ k lo hi _. absurd (omega arith),
                    al,
                    (ground arith, same, sym (local de' _ same) ∙ yes_),
                  ),
                )
                | inr no_ ↦
                    let ((hit, at, de2, fs'), e2, (kept, before, al2, found)) =
                      scan_entries-Scanned fuel (off + dirent_size) de' (omega arith) (ground arith)
                        (omega arith) in
                    (
                      (hit, at, de2, fs'),
                      rw (more, e, no_) e2,
                      (
                        kept,
                        λ k lo hi al'.
                            first off at (sym (local de' _ same) ∙ no_) before k lo hi al al',
                        al2,
                        found,
                      ),
                    )
              ]
          | inr over ↦ (
            (false, off, de, fs),
            rw over refl,
            (refl, λ k lo hi _. absurd (omega arith), al, ground arith),
          )
        ]

  -- What `dirlookup` comes to: the inode of the first entry with the name, and its offset; or none.
  abbrev pub Found : List ℕ → Outcome (Option (ℕ × ℕ) × Fs) → Type 0
  Found name r =
      ((off : ℕ) × (off < (inode_at fs dp).size)
        × (off % dirent_size ≡ 0)
        × IsNamed (inode_at fs dp) fs.volume name off
        × ((k : ℕ) → k < off → k % dirent_size ≡ 0 → ¬ IsNamed (inode_at fs dp) fs.volume name k)
        × (r ≡ (
            iget (inode_at fs dp).dev (de_inum (entry (inode_at fs dp) fs.volume off)) fs
            >>= λ (i, fs'). done (some (i, off), fs'))))
      ⊎ (((k : ℕ)
            → k < (inode_at fs dp).size
            → k % dirent_size ≡ 0
            → ¬ IsNamed (inode_at fs dp) fs.volume name k)
          × (r ≡ done (none, fs)))

  not-IsNamed :
      (name : List ℕ)
      → dirsiz ≤ length name
      → (k : ℕ) → is_entry_of name (entry (inode_at fs dp) fs.volume k) ≡ false
      → ¬ IsNamed (inode_at fs dp) fs.volume name k
  not-IsNamed name long k miss named =
      let t = (is_entry_of-IsNamed (inode_at fs dp) fs.volume name k long).1 named in cc (t, miss)

  -- The end of `dirlookup`, for what its loop found.
  answer :
      (name : List ℕ) (r : Outcome (Option (ℕ × ℕ) × Fs))
      → dirsiz ≤ length name
      → (hit : Bool) (at : ℕ) (de : Bytes) (fs' : Fs)
      → Scanned (is_entry_of name) 0 (hit, at, de, fs')
      → r ≡ (
          if hit
          then iget (inode_at fs' dp).dev (de_inum de) fs'
            >>= (λ (i, fs2). done (some (i, at), fs2))
          else done (none, fs'))
      → Found name r
  answer name r long true at de fs' (kept, before, al, (inside, same, named)) e = inl (
    at,
    inside,
    al,
    (is_entry_of-IsNamed (inode_at fs dp) fs.volume name at long).0 named,
    (λ k lt al'. not-IsNamed name long k (before k (omega arith) lt al')),
    e
        ∙ ap
            (λ f.
              iget (inode_at f dp).dev (de_inum de) f >>= (λ (i, fs2). done (some (i, at), fs2)))
            kept
        ∙ ap (λ n. iget (inode_at fs dp).dev n fs >>= (λ (i, fs2). done (some (i, at), fs2)))
            (same_inum de (entry (inode_at fs dp) fs.volume at) same),
  )
  answer name r long false at de fs' (kept, before, al, end) e = inr (
    (λ k lt al'. not-IsNamed name long k (before k (omega arith) (omega arith) al')),
    e ∙ ap (λ f. done (none, f)) kept,
  )

  -- In a directory whose blocks are allocated and whose size is a multiple of 16, for a `name`
  -- of 14 bytes, `dirlookup` takes the first entry that is used and whose name agrees with
  -- `name` on 14 bytes as C strings, and comes to what `iget` makes of its inode number, with
  -- the offset of the entry; if there is none it returns 0 and changes nothing.
  pub dirlookup-Found :
      (name : List ℕ) (de : Bytes)
      → (inode_at fs dp).kind ≡ t_dir
      → (inode_at fs dp).size % dirent_size ≡ 0
      → dirsiz ≤ length name
      → Found name (dirlookup dev_read dp name de fs)
  unfolding dirlookup
  dirlookup-Found name de dir aligned long =
      let ((hit, at, de2, fs'), e, (kept, before, al, end)) =
        scan_entries-Scanned (is_entry_of name) (is_entry_of-same name) aligned
          ((inode_at fs dp).size / dirent_size + 2) 0 de (omega arith) (omega arith)
          (omega arith) in
      let d : ((inode_at fs dp).kind == t_dir) ≡ true = ground arith in
      answer name _ long hit at de2 fs' (kept, before, al, end) (rw (d, e) refl)
