-- ===== src/Proc/Copying.antt =====
-- The loop of `fork` that shares the parent's open files (proc.c).
use osce.Prelude.{
  ℕ, zero, suc, ◌+◌, ◌<◌, ◌≤◌, ◌≡◌, refl, List, [], ◌∷◌, ◌==◌, if◌then◌else◌, length, get_or, set,
  arith, get_or-set, length-set, Outcome, Bool-cases, inl, inr, Returns, Returns-bind, Returns-mono,
}
use osce.Proc.Birth.{dup_files}

module _ {R : Type 0} (filedup : ℕ → R → Outcome R) where
  -- The descriptors from `i` on are the parent's where those are open, and the rest stay.
  pub record Copied (fs : List ℕ) (i : ℕ) (old new : List ℕ) : Type 0 where
    below : (j : ℕ) → j < i → get_or new j 0 ≡ get_or old j 0
    copied :
        (m : ℕ)
        → m < length fs
        → get_or new (i + m) 0
          ≡ (if get_or fs m 0 == 0 then get_or old (i + m) 0 else get_or fs m 0)
    size : length new ≡ length old

  Copied-cons :
      (f : ℕ) (fs : List ℕ) (i : ℕ) (old new : List ℕ)
      → i < length old
      → Copied fs (i + 1) (if f == 0 then old else set old i f) new
      → Copied (f ∷ fs) i old new
  Copied-cons f fs i old new inside c = record {
    below = λ j h. ground (arith, c.below j, get_or-set old i j f 0);
    copied = each;
    size = ground (arith, c.size, length-set old i f);
  }
    where
      each :
          (m : ℕ)
          → m < length (f ∷ fs)
          → get_or new (i + m) 0
            ≡ (if get_or (f ∷ fs) m 0 == 0 then get_or old (i + m) 0 else get_or (f ∷ fs) m 0)
      each zero h =
          let e : i + 0 ≡ i = omega arith in
          rw e (ground (arith, c.below i, get_or-set old i i f 0))
      each (suc m) h =
          let e : i + suc m ≡ i + 1 + m = omega arith in
          rw e (ground (arith, c.copied m, get_or-set old i (i + 1 + m) f 0))

  pub dup_files-Copied :
      (fs : List ℕ) (i : ℕ) (old : List ℕ) (r : R)
      → i + length fs ≤ length old
      → Returns (λ (res : List ℕ × R). Copied fs i old res.0) (dup_files filedup fs i old r)
  unfolding dup_files
  dup_files-Copied [] i old r h = record {
    below = λ j h. refl;
    copied = λ m h. elim h [ ];
    size = refl;
  }
  dup_files-Copied (f ∷ fs) i old r h = elim (Bool-cases (f == 0)) [
    | inl shut ↦ rw shut (
        Returns-mono (λ (res : List ℕ × R). Copied fs (i + 1) old res.0) _ _
          (λ res c. Copied-cons f fs i old res.0 (omega arith) (rw shut c))
          (dup_files-Copied fs (i + 1) old r (omega arith)))
    | inr open_ ↦ rw open_ (
        Returns-bind _ (filedup f r) _ λ r'.
          Returns-mono (λ (res : List ℕ × R). Copied fs (i + 1) (set old i f) res.0) _ _
            (λ res c. Copied-cons f fs i old res.0 (omega arith) (rw open_ c))
            (dup_files-Copied fs (i + 1) (set old i f) r' (omega (arith, length-set old i f))))
  ]

  pub copy_all :
      (fs old new : List ℕ) (fd : ℕ)
      → Copied fs 0 old new
      → get_or old fd 0 ≡ 0
      → fd < length fs
      → get_or new fd 0 ≡ get_or fs fd 0
  copy_all fs old new fd c shut h =
      let e : 0 + fd ≡ fd = omega arith in ground (arith, rw e at (c.copied fd h))
