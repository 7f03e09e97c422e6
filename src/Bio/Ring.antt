-- ===== src/Bio/Ring.antt =====
-- bio.c: the ring as the list of its buffers, the most recently used one first.
use osce.Prelude.{
  ℕ, ◌≡◌, ◌≢◌, refl, sym, ◌∙◌, ap, Bool, true, false, ◌||◌, List, [], ◌∷◌, ◌++◌, ◌==◌, arith,
}
use osce.Bio.{Links, ring_head, push_front, unlink}

unfoldable pub has : ℕ → List ℕ → Bool
has i [] = false
has i (x ∷ xs) = i == x || has i xs

-- From `a` along `next` through `xs` to `b`, and back along `prev`.
unfoldable pub Linked : Links → ℕ → List ℕ → ℕ → Type 0
Linked l a [] b = (l.next a ≡ b) × (l.prev b ≡ a)
Linked l a (x ∷ xs) b = (l.next a ≡ x) × (l.prev x ≡ a) × Linked l x xs b

unfoldable pub Distinct : List ℕ → Type 0
unfolding has
Distinct [] = Unit
Distinct (x ∷ xs) = (has x xs ≡ false) × Distinct xs

-- The ring through `head` and the buffers of `order`.
pub record IsRing (l : Links) (order : List ℕ) : Type 0 where
  pub linked : Linked l ring_head order ring_head
  pub distinct : Distinct (ring_head ∷ order)

abbrev pub last : ℕ → List ℕ → ℕ
last a [] = a
last a (x ∷ xs) = last x xs

abbrev pub first : List ℕ → ℕ → ℕ
first [] b = b
first (x ∷ xs) b = x

Linked-frame :
    (l l' : Links) (a : ℕ) (xs : List ℕ) (b : ℕ)
    → ((i : ℕ) → has i (a ∷ xs) ≡ true → l'.next i ≡ l.next i)
    → ((i : ℕ) → has i (xs ++ b ∷ []) ≡ true → l'.prev i ≡ l.prev i)
    → Linked l a xs b
    → Linked l' a xs b
unfolding Linked has
Linked-frame l l' a [] b nexts prevs (n, p) =
    (nexts a (ground arith) ∙ n, prevs b (ground arith) ∙ p)
Linked-frame l l' a (x ∷ xs) b nexts prevs (n, p, rest) = (
  nexts a (ground arith) ∙ n,
  prevs x (ground arith) ∙ p,
  Linked-frame l l' x xs b (λ i h. nexts i (ground (arith, h))) (λ i h. prevs i (ground (arith, h)))
      rest,
)

has-++ : (i : ℕ) (xs ys : List ℕ) → has i (xs ++ ys) ≡ (has i xs || has i ys)
unfolding has
has-++ i [] ys = refl
has-++ i (x ∷ xs) ys = ground (arith, has-++ i xs ys)

not_both : (i j : ℕ) (xs : List ℕ) → has i xs ≡ true → has j xs ≡ false → i ≢ j
not_both i j xs hi hj e = cc (hi, hj, e)

has-last : (a : ℕ) (xs ys : List ℕ) → has (last a xs) (a ∷ (xs ++ ys)) ≡ true
unfolding has
has-last a [] ys = ground arith
has-last a (x ∷ xs) ys = ground (arith, has-last x xs ys)

has-first : (xs : List ℕ) (b : ℕ) → has (first xs b) (xs ++ b ∷ []) ≡ true
unfolding has
has-first [] b = ground arith
has-first (x ∷ xs) b = ground arith

has-behind :
    (i : ℕ) (xs : List ℕ) (b : ℕ) (ys : List ℕ) (c : ℕ)
    → has i (ys ++ c ∷ []) ≡ true
    → has i ((xs ++ b ∷ ys) ++ c ∷ []) ≡ true
unfolding has
has-behind i [] b ys c h = ground (arith, h)
has-behind i (x ∷ xs) b ys c h = ground (arith, has-behind i xs b ys c h)

prev-last :
    (l : Links) (a : ℕ) (xs : List ℕ) (b : ℕ) (ys : List ℕ) (c : ℕ)
    → Linked l a (xs ++ b ∷ ys) c
    → l.prev b ≡ last a xs
unfolding Linked
prev-last l a [] b ys c (_, p, _) = p
prev-last l a (x ∷ xs) b ys c (_, _, rest) = prev-last l x xs b ys c rest

next-first :
    (l : Links) (a : ℕ) (xs : List ℕ) (b : ℕ) (ys : List ℕ) (c : ℕ)
    → Linked l a (xs ++ b ∷ ys) c
    → l.next b ≡ first ys c
unfolding Linked
next-first l a [] b [] c (_, _, (n, _)) = n
next-first l a [] b (y ∷ ys) c (_, _, (n, _, _)) = n
next-first l a (x ∷ xs) b ys c (_, _, rest) = next-first l x xs b ys c rest

-- `l'` is `l` with `b` left out: only the two links around it have changed.
record IsCut (l l' : Links) (b : ℕ) : Type 0 where
  next_at : l'.next (l.prev b) ≡ l.next b
  prev_at : l'.prev (l.next b) ≡ l.prev b
  nexts : (i : ℕ) → i ≢ l.prev b → l'.next i ≡ l.next i
  prevs : (i : ℕ) → i ≢ l.next b → l'.prev i ≡ l.prev i

unlink-IsCut : (b : ℕ) (l : Links) → IsCut l (unlink b l) b
unfolding unlink
unlink-IsCut b l = record {
  next_at = ground arith;
  prev_at = ground arith;
  nexts = λ i ne. ground arith;
  prevs = λ i ne. ground arith;
}

Linked-cut :
    (l l' : Links) (a : ℕ) (xs : List ℕ) (b : ℕ) (ys : List ℕ) (c : ℕ)
    → IsCut l l' b
    → Linked l a (xs ++ b ∷ ys) c
    → Distinct (a ∷ (xs ++ b ∷ ys))
    → Distinct ((xs ++ b ∷ ys) ++ c ∷ [])
    → Linked l' a (xs ++ ys) c
unfolding Linked Distinct has
Linked-cut l l' a [] b [] c cut (n, p, (n2, p2)) d e =
    (ap (l'.next) (sym p) ∙ cut.next_at ∙ n2, ap (l'.prev) (sym n2) ∙ cut.prev_at ∙ p)
Linked-cut l l' a [] b (y ∷ ys) c cut (n, p, (n2, p2, rest)) d e = (
  ap (l'.next) (sym p) ∙ cut.next_at ∙ n2,
  ap (l'.prev) (sym n2) ∙ cut.prev_at ∙ p,
  Linked-frame l l' y ys c (λ i h. cut.nexts i (ground (arith, p, h, d.0, not_both i a (y ∷ ys) h)))
      (λ i h. cut.prevs i (ground (arith, n2, h, e.1.0, not_both i y (ys ++ c ∷ []) h))) rest,
)
Linked-cut l l' a (x ∷ xs) b ys c cut (n, p, rest) d e = (
  cut.nexts a (λ e'.
        not_both (l.prev b) a (x ∷ (xs ++ b ∷ ys))
          (ap (λ i. has i (x ∷ (xs ++ b ∷ ys))) (prev-last l x xs b ys c rest)
            ∙ has-last x xs (b ∷ ys))
          d.0 (sym e'))
      ∙ n,
  cut.prevs x (λ e'.
        not_both (l.next b) x ((xs ++ b ∷ ys) ++ c ∷ [])
          (ap (λ i. has i ((xs ++ b ∷ ys) ++ c ∷ [])) (next-first l x xs b ys c rest)
            ∙ has-behind (first ys c) xs b ys c (has-first ys c))
          e.0 (sym e'))
      ∙ p,
  Linked-cut l l' x xs b ys c cut rest d.1 e.1,
)

Distinct-rotate : (c : ℕ) (xs : List ℕ) → has c xs ≡ false → Distinct xs → Distinct (xs ++ c ∷ [])
unfolding Distinct has
Distinct-rotate c [] off d = (refl, tt)
Distinct-rotate c (x ∷ xs) off (fresh, d) =
    (ground (arith, has-++ x xs (c ∷ []), fresh, off), Distinct-rotate c xs (ground (arith, off)) d)

Distinct-middle :
    (xs : List ℕ) (b : ℕ) (ys : List ℕ)
    → Distinct (xs ++ b ∷ ys)
    → (has b (xs ++ ys) ≡ false) × Distinct (xs ++ ys)
unfolding Distinct has
Distinct-middle [] b ys d = d
Distinct-middle (x ∷ xs) b ys (fresh, d) =
    let (off, rest) = Distinct-middle xs b ys d in
    (
      ground (arith, off, fresh, has-++ x xs (b ∷ ys)),
      (ground (arith, fresh, has-++ x xs (b ∷ ys), has-++ x xs ys), rest),
    )

has_not-end :
    (i : ℕ) (xs : List ℕ) (c : ℕ) → has i xs ≡ false → i ≢ c → has i (xs ++ c ∷ []) ≡ false
unfolding has
has_not-end i [] c off ne = ground (arith, ne)
has_not-end i (x ∷ xs) c off ne = ground (arith, off, has_not-end i xs c (ground (arith, off)) ne)

-- `b` in front of the other buffers.
Linked-front :
    (l : Links) (b : ℕ) (zs : List ℕ)
    → b ≢ ring_head
    → has b zs ≡ false
    → Distinct (ring_head ∷ zs)
    → Linked l ring_head zs ring_head
    → Linked (push_front b l) ring_head (b ∷ zs) ring_head
unfolding Linked Distinct has push_front
Linked-front l b [] ne off d (n, p) =
    (ground arith, ground (arith, n), (ground (arith, n), ground (arith, n)))
Linked-front l b (z ∷ zs) ne off d (n, p, rest) =
    let away : z ≢ b = ground (arith, off) in
    let apart : z ≢ ring_head = ground (arith, d.0) in
    (
      ground arith,
      ground (arith, n, away),
      (
        ground (arith, n),
        ground (arith, n),
        Linked-frame l (push_front b l) z zs ring_head
            (λ i h.
              let i_b = not_both i b (z ∷ zs) h off in
              let i_head = not_both i ring_head (z ∷ zs) h d.0 in ground (arith, i_b, i_head))
            (λ i h.
              let i_z =
                not_both i z (zs ++ ring_head ∷ []) h (has_not-end z zs ring_head d.1.0 apart) in
              let i_b =
                not_both i b (zs ++ ring_head ∷ []) h
                  (has_not-end b zs ring_head (ground (arith, off)) ne) in
              ground (arith, i_z, i_b, n))
            rest,
      ),
    )

-- Buffer `b`, moved to the front as in `brelse`.
pub move-IsRing :
    (l : Links) (xs : List ℕ) (b : ℕ) (ys : List ℕ)
    → IsRing l (xs ++ b ∷ ys)
    → IsRing (push_front b (unlink b l)) (b ∷ (xs ++ ys))
unfolding Distinct has
move-IsRing l xs b ys ring =
    let (off_head, d) = ring.distinct in
    let (off, d') = Distinct-middle xs b ys d in
    let ne : b ≢ ring_head = ground (arith, off_head, has-++ ring_head xs (b ∷ ys)) in
    let off' : has ring_head (xs ++ ys) ≡ false =
      ground (arith, off_head, has-++ ring_head xs (b ∷ ys), has-++ ring_head xs ys) in
    record {
      linked =
          Linked-front (unlink b l) b (xs ++ ys) ne off (off', d')
            (Linked-cut l (unlink b l) ring_head xs b ys ring_head (unlink-IsCut b l) ring.linked
              ring.distinct (Distinct-rotate ring_head (xs ++ b ∷ ys) off_head d));
      distinct = (ground (arith, ne, off'), (off, d'));
    }

pub front-IsRing :
    (l : Links) (b : ℕ) (zs : List ℕ)
    → b ≢ ring_head
    → has b zs ≡ false
    → IsRing l zs
    → IsRing (push_front b l) (b ∷ zs)
unfolding Distinct has
front-IsRing l b zs ne off ring = record {
  linked = Linked-front l b zs ne off ring.distinct ring.linked;
  distinct = (ground (arith, ne, ring.distinct.0), (off, ring.distinct.1));
}
