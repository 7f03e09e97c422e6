-- ===== src/Kalloc/FreeList.antt =====
-- The free list of kalloc.c: what `kfree`, `kalloc` and `freerange` do to the set of free pages.
use osce.Prelude.{
  ℕ, zero, suc, ◌+◌, ◌-◌, ◌*◌, ◌/◌, ◌%◌, ◌^◌, ◌≤◌, ◌<◌, ◌≡◌, refl, ◌≢◌, true, false, List, [], ◌∷◌,
  ◌↔◌, not, ◌||◌, ltb, ◌==◌, length, arith, leb, done, panic, Bool-cases, inl, inr,
}
use osce.Kalloc.{
  Kmem, pg_size, kernbase, phystop, v2p, fill_junk, store, kfree, kalloc, free_from, freerange,
  pg_round_up,
}

-- From `p` the `next` words lead through `pages` to NULL.
pub data Chain (w : ℕ → ℕ) : ℕ → List ℕ → Type 0 where
  nil : Chain w 0 []
  cons : {p : ℕ} {ps : List ℕ} → p ≢ 0 → Chain w (w p) ps → Chain w p (p ∷ ps)

abbrev pub Absent : ℕ → List ℕ → Type 0
Absent v [] = Unit
Absent v (p ∷ ps) = (p ≢ v) × Absent v ps

-- What `kfree` takes: the start of a page between the kernel's end and the top of memory.
pub record IsPage (kernel_end v : ℕ) : Type 0 where
  pub aligned : v % pg_size ≡ 0
  pub above : kernel_end ≤ v
  pub below : v2p v < phystop

abbrev pub ArePages : ℕ → List ℕ → Type 0
ArePages e [] = Unit
ArePages e (p ∷ ps) = IsPage e p × Absent p ps × ArePages e ps

-- The list holds exactly `pages`, all distinct.
pub record Holds (kernel_end : ℕ) (k : Kmem) (pages : List ℕ) : Type 0 where
  pub chain : Chain k.word k.freelist pages
  pub legal : ArePages kernel_end pages

-- Freeing the page `v` leaves the links of the other pages alone.
Chain-store :
    (e v x : ℕ) (w : ℕ → ℕ) {p : ℕ} {ps : List ℕ}
    → v % pg_size ≡ 0
    → ArePages e ps
    → Absent v ps
    → Chain w p ps
    → Chain (store v x (fill_junk v w)) p ps
Chain-store e v x w al pages out nil = nil
Chain-store e v x w al pages out (cons {p} {ps} ne c) =
    cons ne (same (Chain-store e v x w al pages.2 out.1 c))
  where
    kept : store v x (fill_junk v w) p ≡ w p
    kept = let pal : p % pg_size ≡ 0 = pages.0.aligned in ground arith

    same :
        Chain (store v x (fill_junk v w)) (w p) ps
        → Chain (store v x (fill_junk v w)) (store v x (fill_junk v w) p) ps
    same c' = rw kept c'

module _ (e : ℕ) where
  -- On a page `kfree` returns, with the page in front of the list.
  pub kfree-done :
      (v : ℕ) (k : Kmem)
      → IsPage e v
      → kfree e v k
        ≡ done (record k { freelist = v; word = store v k.freelist (fill_junk v k.word) })
  unfolding kfree
  kfree-done v k page = ground (arith, page.aligned, page.above, page.below)

  kfree-IsPage : (v : ℕ) (k : Kmem) {k' : Kmem} → kfree e v k ≡ done k' → IsPage e v
  unfolding kfree
  kfree-IsPage v k h = ground arith

  -- Freeing a page that is not NULL and not on the list of distinct pages returns, and the list
  -- then holds that page in front of the others.
  kfree-Holds :
      (v : ℕ) (k : Kmem) {pages : List ℕ}
      → Holds e k pages
      → IsPage e v
      → Absent v pages
      → v ≢ 0
      → (k' : Kmem) × (kfree e v k ≡ done k') × Holds e k' (v ∷ pages)
  kfree-Holds v k {pages} h page out ne = (
    _,
    kfree-done v k page,
    record { chain = Chain.cons ne linked; legal = (page, out, h.legal) },
  )
    where
      old : Chain (store v k.freelist (fill_junk v k.word)) k.freelist pages
      old = Chain-store e v k.freelist k.word page.aligned h.legal out h.chain

      own : store v k.freelist (fill_junk v k.word) v ≡ k.freelist
      own = ground arith

      linked :
          Chain
            (store v k.freelist (fill_junk v k.word))
            (store v k.freelist (fill_junk v k.word) v)
            pages
      linked = rw own old

  -- `kfree` panics exactly on an address that is not the start of a page between the kernel's
  -- end and the top of memory.
  kfree-panic : (v : ℕ) (k : Kmem) → (kfree e v k ≡ panic) ↔ (¬ IsPage e v)
  unfolding kfree
  kfree-panic v k = (
    λ h page. cc (h, kfree-done v k page),
    λ no. elim (Bool-cases (not (v % pg_size == 0) || ltb v e || leb phystop (v2p v))) [
      | inl bad ↦ rw bad
      | inr good ↦
          absurd
            (no (record { aligned = ground arith; above = ground arith; below = ground arith }))
    ],
  )

  -- What `kalloc` hands out: the first page of the list, or 0 if there is none.
  abbrev pub Takes : Kmem → List ℕ → ℕ × Kmem → Type 0
  Takes k [] r = r ≡ (0, k)
  Takes k (p ∷ ps) r = (r.0 ≡ p) × (p ≢ 0) × IsPage e p × Absent p ps × Holds e r.1 ps

  kalloc-Chain :
      (k : Kmem) {p : ℕ} {pages : List ℕ}
      → k.freelist ≡ p
      → Chain k.word p pages
      → ArePages e pages
      → Takes k pages (kalloc k)
  unfolding kalloc
  kalloc-Chain k at nil legal = ground arith
  kalloc-Chain k at (cons {p} {ps} ne c) legal =
      rw (at, test) (refl, ne, legal.0, legal.1, record { chain = c; legal = legal.2 })
    where
      test : (p == 0) ≡ false
      test = ground arith

  -- With a list of distinct pages `kalloc` hands out the first one, which is a page, not NULL
  -- and not on the list of the others that it leaves; with no page it returns 0 and changes
  -- nothing.
  pub kalloc-Takes : (k : Kmem) {pages : List ℕ} → Holds e k pages → Takes k pages (kalloc k)
  kalloc-Takes k h = kalloc-Chain k refl h.chain h.legal

  -- After `kfree` of an address other than 0 has returned, `kalloc` returns that address and
  -- leaves the list starting where it started before.
  kalloc-kfree :
      (v : ℕ) (k : Kmem) {k' : Kmem}
      → v ≢ 0
      → kfree e v k ≡ done k'
      → ((kalloc k').0 ≡ v) × ((kalloc k').1.freelist ≡ k.freelist)
  unfolding kfree kalloc
  kalloc-kfree v k ne h = ground arith

abbrev pub Below : ℕ → List ℕ → Type 0
Below v [] = Unit
Below v (p ∷ ps) = (p < v) × Below v ps

Below-Absent : (v : ℕ) (ps : List ℕ) → Below v ps → Absent v ps
Below-Absent v [] h = tt
Below-Absent v (p ∷ ps) h = (omega arith, Below-Absent v ps h.1)

Below-mono : (v u : ℕ) (ps : List ℕ) → v ≤ u → Below v ps → Below u ps
Below-mono v u [] le h = tt
Below-mono v u (p ∷ ps) le h = (omega arith, Below-mono v u ps le h.1)

-- The `n` pages from `p` on, the last one in front.
abbrev pub freed : ℕ → ℕ → List ℕ → List ℕ
freed p zero ps = ps
freed p (suc n) ps = freed (p + pg_size) n (p ∷ ps)

pub length-freed : (p n : ℕ) (ps : List ℕ) → length (freed p n ps) ≡ n + length ps
length-freed p zero ps = omega arith
length-freed p (suc n) ps = omega (arith, length-freed (p + pg_size) n (p ∷ ps))

module _ (e vend : ℕ) (pos : 0 < e) (top : vend ≤ kernbase + phystop) where
  free_from-Holds :
      (fuel n p : ℕ) (k : Kmem) (pages : List ℕ)
      → n < fuel
      → p % pg_size ≡ 0
      → e ≤ p
      → kernbase ≤ p
      → p + n * pg_size ≤ vend
      → vend < p + n * pg_size + pg_size
      → Holds e k pages
      → Below p pages
      → (k' : Kmem) × (free_from e fuel p vend k ≡ done k') × Holds e k' (freed p n pages)
  unfolding free_from
  free_from-Holds zero n p k pages f al ab kb lo hi h b = absurd (omega arith)
  free_from-Holds (suc fuel) zero p k pages f al ab kb lo hi h b = (k, ground arith, h)
  free_from-Holds (suc fuel) (suc n) p k pages f al ab kb lo hi h b =
      let (k', eq, h') =
        kfree-Holds e p k h (record { aligned = al; above = ab; below = omega arith })
          (Below-Absent p pages b) (omega arith) in
      let (k'', eq', h'') =
        free_from-Holds fuel n (p + pg_size) k' (p ∷ pages) (omega arith) (omega arith)
          (omega arith) (omega arith) (omega arith) (omega arith) h'
          (omega arith, Below-mono p (p + pg_size) pages (omega arith) b) in
      (k'', rw (more, eq, wrap, eq'), h'')
    where
      more : leb ((p + pg_size) % 2 ^ 32) vend ≡ true
      more = ground arith

      wrap : (p + pg_size) % 2 ^ 32 ≡ p + pg_size
      wrap = omega arith

  -- `freerange` returns, and the free list then holds exactly the whole pages between its
  -- bounds before what it held. The bounds lie above the kernel and below the top of memory, at
  -- least the rounding of the lower one is below the upper one, and the list held distinct
  -- pages, all lower.
  pub freerange-Holds :
      (vstart : ℕ) (k : Kmem) (pages : List ℕ)
      → e ≤ vstart
      → kernbase ≤ vstart
      → pg_round_up vstart ≤ vend
      → vstart < 2 ^ 32 - pg_size
      → Holds e k pages
      → Below (pg_round_up vstart) pages
      → (k' : Kmem) × (freerange e vstart vend k ≡ done k')
        × Holds e k' (freed (pg_round_up vstart) ((vend - pg_round_up vstart) / pg_size) pages)
  unfolding freerange
  freerange-Holds vstart k pages ab kb le small h b =
      free_from-Holds (vend / pg_size + 1) ((vend - pg_round_up vstart) / pg_size)
        (pg_round_up vstart) k pages (omega arith) (omega arith) (omega arith) (omega arith)
        (omega arith) (omega arith) h b
