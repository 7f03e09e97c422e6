-- ===== src/File/Counts.antt =====
-- file.c, reference counts and the handles on each file.
use osce.Prelude.{
  ℕ, suc, ◌+◌, ◌-◌, ◌%◌, ◌^◌, ◌<◌, ◌≤◌, ◌≡◌, refl, false, ◌&&◌, Option, none, some, List, [], ◌∷◌,
  ◌==◌, ltb, if◌then◌else◌, length, modify, get_or-modify, get_or_outside, find_first, Search,
  find_first-Search, arith, Bool, Outcome, done, ◌>>=◌, Bool-cases, inl, inr,
}
use osce.File.{
  FileType, fd_none, fd_pipe, fd_inode, File, no_file, file_at, filealloc, filedup, drop_ref,
  below_one, after_drop, fileclose_last, fileclose,
}

-- How many of the handles are on `f`, and the handles without one of these.
unfoldable pub count : ℕ → List ℕ → ℕ
count f [] = 0
count f (h ∷ hs) = if f == h then suc (count f hs) else count f hs

unfoldable pub remove : ℕ → List ℕ → List ℕ
remove f [] = []
remove f (h ∷ hs) = if f == h then hs else h ∷ remove f hs

pub count-remove :
    (f g : ℕ) (hs : List ℕ)
    → 0 < count f hs
    → count g (remove f hs) ≡ (if f == g then count g hs - 1 else count g hs)
unfolding count remove
count-remove f g [] h = absurd (omega arith)
count-remove f g (x ∷ hs) h = ground (arith, count-remove f g hs)

pub count-le : (f : ℕ) (hs : List ℕ) → count f hs ≤ length hs
unfolding count
count-le f [] = omega arith
count-le f (h ∷ hs) = ground (arith, count-le f hs)

pub length-remove : (f : ℕ) (hs : List ℕ) → 0 < count f hs → length (remove f hs) + 1 ≡ length hs
unfolding count remove
length-remove f [] h = absurd (omega arith)
length-remove f (x ∷ hs) h = ground (arith, length-remove f hs)

pub record IsCounted (t : List File) (hs : List ℕ) : Type 0 where
  pub counts : (f : ℕ) → (file_at t f).ref ≡ count f hs
  pub few : length hs < 2 ^ 31

at :
    (t : List File) (f : ℕ) (h : File → File) (g : ℕ)
    → file_at (modify t f h) g
      ≡ (if f == g && ltb f (length t) then h (file_at t g) else file_at t g)
at t f h g = get_or-modify t f g h no_file

inside : (t : List File) (f : ℕ) → 0 < (file_at t f).ref → f < length t
inside t f h = ground (arith, get_or_outside t f no_file)

-- What `filealloc` answers.
abbrev pub Allocated : List File → List ℕ → Option ℕ × List File → Type 0
Allocated t hs (none, t') = (t' ≡ t) × ((f : ℕ) → f < length t → 0 < count f hs)
Allocated t hs (some f, t') = (count f hs ≡ 0) × (f < length t) × IsCounted t' (f ∷ hs)

-- When the counts fit the handles, fewer than 2 ^ 31 with one more, `filealloc` returns a file of
-- the table without a handle, and the counts then fit with one handle on it; or it returns 0 and
-- changes nothing, and every file of the table has a handle.
filealloc-Allocated :
    (t : List File) (hs : List ℕ)
    → IsCounted t hs
    → length hs + 1 < 2 ^ 31
    → Allocated t hs (filealloc t)
unfolding filealloc count
filealloc-Allocated t hs v small =
    split (find_first (λ f. f.ref == 0) t 0) (find_first-Search (λ f. f.ref == 0) t no_file)
  where
    split :
        (r : Option ℕ)
        → Search (λ (f : File). f.ref == 0) t no_file r
        → Allocated t hs (elim r [
          | none ↦ (none, t)
          | some f ↦ (some f, modify t f (λ x. record x { ref = 1 }))
        ])
    split none miss = (refl, λ f lt. ground (arith, miss f lt, v.counts f))
    split (some f) first = (
      ground (arith, first.passes, v.counts f),
      first.inside,
      record {
        counts = λ g.
            ground
              (arith, at t f (λ x. record x { ref = 1 }) g, first.passes, first.inside, v.counts g);
        few = omega arith;
      },
    )

-- When the counts fit the handles and `f` has one, `filedup` of `f` does not panic, and the
-- counts fit the handles with one more on `f`. With it there are fewer than 2 ^ 31.
filedup-IsCounted :
    (f : ℕ) (t : List File) (hs : List ℕ)
    → IsCounted t hs
    → 0 < count f hs
    → length hs + 1 < 2 ^ 31
    → (t' : List File) × (filedup f t ≡ done t') × IsCounted t' (f ∷ hs)
unfolding filedup count
filedup-IsCounted f t hs v held small = (
  modify t f (λ x. record x { ref = (x.ref + 1) % 2 ^ 32 }),
  ground (arith, v.counts f, count-le f hs, v.few),
  record {
    counts = λ g. ground (
      arith,
      at t f (λ x. record x { ref = (x.ref + 1) % 2 ^ 32 }) g,
      v.counts g,
      v.counts f,
      count-le g hs,
      v.few,
      inside t f,
    );
    few = omega arith;
  },
)

-- `fileclose` up to the release, of a file with a handle: it does not panic, the counts fit the
-- handles without one on `f`, and the copy `ff` is made exactly if that was the last one.
drop_ref-IsCounted :
    (f : ℕ) (t : List File) (hs : List ℕ)
    → IsCounted t hs
    → 0 < count f hs
    → (t' : List File) × (drop_ref f t
        ≡ done (if count f hs == 1 then some (record (file_at t f) { ref = 0 }) else none, t'))
      × IsCounted t' (remove f hs)
unfolding drop_ref
drop_ref-IsCounted f t hs v held = elim (Bool-cases (count f hs == 1)) [
  | inl last ↦ rw last (
    modify t f (λ x. record x { ref = 0; kind = fd_none }),
    (let one : (file_at t f).ref ≡ 1 = ground (arith, v.counts f) in rw (one, drop_ref) refl),
    record {
      counts = λ g. ground (
        arith,
        at t f (λ x. record x { ref = 0; kind = fd_none }) g,
        v.counts g,
        v.counts f,
        count-remove f g hs,
        inside t f,
      );
      few = omega (arith, v.few, length-remove f hs held);
    },
  )
  | inr more ↦ rw more (
    modify t f (λ x. record x { ref = ((file_at t f).ref + 2 ^ 32 - 1) % 2 ^ 32 }),
    rw (positive more, several more, drop_ref) refl,
    record {
      counts = λ g. ground (
        arith,
        at t f (λ x. record x { ref = ((file_at t f).ref + 2 ^ 32 - 1) % 2 ^ 32 }) g,
        v.counts g,
        v.counts f,
        count-remove f g hs,
        count-le f hs,
        v.few,
        inside t f,
      );
      few = omega (arith, v.few, length-remove f hs held);
    },
  )
]
  where
    positive : (count f hs == 1) ≡ false → below_one (file_at t f).ref ≡ false
    positive more = ground (arith, v.counts f, count-le f hs, v.few)

    several :
        (count f hs == 1) ≡ false → below_one (((file_at t f).ref + 2 ^ 32 - 1) % 2 ^ 32) ≡ false
    several more = ground (arith, v.counts f, count-le f hs, v.few)

module _ {S : Type 0} (pipeclose : ℕ → Bool → S → Outcome S) (iput_in_op : ℕ → S → Outcome S) where
  -- What the close `r` of the last handle on `ff` comes to, where `t'` is the table it leaves.
  abbrev pub Closing : FileType → File → List File → S → Outcome (List File × S) → Type 0
  Closing fd_none ff t' s r = r ≡ done (t', s)
  Closing fd_pipe ff t' s r = r ≡ (do s' ← pipeclose ff.pipe ff.writable s; done (t', s'))
  Closing fd_inode ff t' s r = r ≡ (do s' ← iput_in_op ff.ip s; done (t', s'))

  by_kind :
      (kind : FileType) (ff : File) (t' : List File) (s : S)
      → ff.kind ≡ kind
      → Closing kind ff t' s (after_drop pipeclose iput_in_op (some (record ff { ref = 0 }), t') s)
  unfolding after_drop fileclose_last
  by_kind fd_none ff t' s e = rw e refl
  by_kind fd_pipe ff t' s e = rw e refl
  by_kind fd_inode ff t' s e = rw e refl

  -- The reference count of each file is the number of handles on it, fewer than 2 ^ 31 in all,
  -- and `f` has one. Then `fileclose` of `f` leaves a table whose counts fit the handles
  -- without one on `f`. If that was the last, it comes to what `pipeclose` of the file's pipe
  -- and writable flag, or `iput` of its inode, comes to, by the kind the file had, and for the
  -- kind FD_NONE it returns; otherwise it returns and closes nothing.
  pub fileclose-IsCounted :
      (f : ℕ) (t : List File) (hs : List ℕ) (s : S)
      → IsCounted t hs
      → 0 < count f hs
      → (t' : List File) × IsCounted t' (remove f hs)
        × (if count f hs == 1
            then Closing
                (file_at t f).kind
                (file_at t f)
                t'
                s
                (fileclose pipeclose iput_in_op f t s)
            else fileclose pipeclose iput_in_op f t s ≡ done (t', s))
  unfolding fileclose after_drop
  fileclose-IsCounted f t hs s v held =
      let (t', e, v') = drop_ref-IsCounted f t hs v held in
      (
        t',
        v',
        elim (Bool-cases (count f hs == 1)) [
          | inl last ↦ rw (last, e, last) (by_kind (file_at t f).kind (file_at t f) t' s refl)
          | inr more ↦ rw (more, e, more) refl
        ],
      )
