-- ===== src/Bio/Lookup.antt =====
-- bio.c, `bget` and `brelse` on the list of buffers that the ring stands for.
use osce.Prelude.{
  ℕ, zero, suc, ◌+◌, ◌-◌, ◌^◌, ◌<◌, ◌≤◌, ◌≡◌, ◌≢◌, refl, ◌∙◌, ap, Bool, true, false, ◌||◌, Option,
  none, some, List, [], ◌∷◌, ◌++◌, length, ◌==◌, if◌then◌else◌, Outcome, done, panic, out_of_fuel,
  arith, Bool-cases, inl, inr,
}
use osce.Proc.Table.{wakeup}
use osce.Proc.Life.{sleep_start}
use osce.Bio.{
  Links, Bcache, nbuf, ring_head, push_front, unlink, find_buf, is_block, is_clean, buf_chan,
  assign_buf, set_next, set_prev, link_all, binit, Got, got, busy_, recycle_buf, bget_found, bget,
  brelse,
}
use osce.Bio.Ring.{has, Linked, Distinct, IsRing, move-IsRing, front-IsRing}

-- The first element that passes a test, and a list in the other direction.
find_in : (ℕ → Bool) → List ℕ → Option ℕ
find_in test [] = none
find_in test (x ∷ xs) = if test x then some x else find_in test xs

rev_onto : List ℕ → List ℕ → List ℕ
rev_onto [] acc = acc
rev_onto (x ∷ xs) acc = rev_onto xs (x ∷ acc)

abbrev flip : Links → Links
flip l = record { next = l.prev; prev = l.next }

Linked-flip :
    (l : Links) (a : ℕ) (xs : List ℕ) (b : ℕ) (acc : List ℕ) (c : ℕ)
    → Linked l a xs b
    → Linked (flip l) a acc c
    → Linked (flip l) b (rev_onto xs (a ∷ acc)) c
unfolding Linked rev_onto
Linked-flip l a [] b acc c (n, p) back = (p, n, back)
Linked-flip l a (x ∷ xs) b acc c (n, p, rest) back =
    Linked-flip l x xs b (a ∷ acc) c rest (p, n, back)

ring-flip :
    (l : Links) (order : List ℕ)
    → Linked l ring_head order ring_head
    → Linked (flip l) ring_head (rev_onto order []) ring_head
unfolding Linked rev_onto
ring-flip l [] (n, p) = (p, n)
ring-flip l (x ∷ xs) (n, p, rest) = Linked-flip l x xs ring_head [] ring_head rest (p, n)

has-rev_onto : (i : ℕ) (xs acc : List ℕ) → has i (rev_onto xs acc) ≡ (has i xs || has i acc)
unfolding has rev_onto
has-rev_onto i [] acc = refl
has-rev_onto i (x ∷ xs) acc = ground (arith, has-rev_onto i xs (x ∷ acc))

length-rev_onto : (xs acc : List ℕ) → length (rev_onto xs acc) ≡ length xs + length acc
unfolding rev_onto
length-rev_onto [] acc = omega arith
length-rev_onto (x ∷ xs) acc = omega (arith, length-rev_onto xs (x ∷ acc))

-- A loop along the ring is a search of the list.
find_buf-find_in :
    (l : Links) (test : ℕ → Bool) (a : ℕ) (xs : List ℕ) (fuel : ℕ)
    → Linked l a xs ring_head
    → has ring_head xs ≡ false
    → length xs < fuel
    → find_buf l.next test fuel (l.next a) ≡ done (find_in test xs)
unfolding find_buf find_in Linked has
find_buf-find_in l test a [] (suc fuel) (n, p) off lt = rw n refl
find_buf-find_in l test a (x ∷ xs) (suc fuel) (n, p, rest) off lt =
    let ne : (x == ring_head) ≡ false = ground (arith, off) in
    let later = find_buf-find_in l test x xs fuel rest (ground (arith, off)) (omega arith) in
    rw (n, ne) (elim (Bool-cases (test x)) [ inl hit ↦ rw hit refl | inr miss ↦ rw miss later ])
find_buf-find_in l test a xs zero linked off lt = absurd (omega arith)

abbrev Hit : (ℕ → Bool) → List ℕ → Option ℕ → Type 0
Hit test xs (some b) = (has b xs ≡ true) × (test b ≡ true)
Hit test xs none = (b : ℕ) → has b xs ≡ true → test b ≡ false

Hit-cons :
    (test : ℕ → Bool) (x : ℕ) (xs : List ℕ) (r : Option ℕ)
    → test x ≡ false
    → Hit test xs r
    → Hit test (x ∷ xs) r
unfolding has
Hit-cons test x xs (some b) miss (there, hit) = (ground (arith, there), hit)
Hit-cons test x xs none miss all = λ b h. elim (Bool-cases (b == x)) [
  | inl here ↦ let e : b ≡ x = ground arith in ap test e ∙ miss
  | inr there ↦ all b (ground (arith, h))
]

find_in-Hit : (test : ℕ → Bool) (xs : List ℕ) → Hit test xs (find_in test xs)
unfolding find_in has
find_in-Hit test [] = λ b h. absurd (ground (arith, h))
find_in-Hit test (x ∷ xs) = elim (Bool-cases (test x)) [
  | inl hit ↦ rw hit (ground arith, hit)
  | inr miss ↦ rw miss (Hit-cons test x xs (find_in test xs) miss (find_in-Hit test xs))
]

Hit-rev :
    (test : ℕ → Bool) (xs : List ℕ) (r : Option ℕ) → Hit test (rev_onto xs []) r → Hit test xs r
unfolding has
Hit-rev test xs (some b) (there, hit) = (ground (arith, there, has-rev_onto b xs []), hit)
Hit-rev test xs none all = λ b h. all b (ground (arith, h, has-rev_onto b xs []))

-- No two buffers hold the same block; `dev` is -1 in a buffer that was never used.
unfoldable pub IsUnique : Bcache → List ℕ → Type 0
IsUnique bc order =
    (b c : ℕ)
    → has b order ≡ true
    → has c order ≡ true
    → (bc.bufs b).dev ≢ 2 ^ 32 - 1
    → (bc.bufs b).dev ≡ (bc.bufs c).dev
    → (bc.bufs b).sector ≡ (bc.bufs c).sector
    → b ≡ c

-- What `bget` comes to.
abbrev pub Answer : ℕ → ℕ → Bcache → List ℕ → Outcome (Got × Bcache) → Type 0
Answer dev sector bc order (done (got b, bc')) =
    (has b order ≡ true)
    × ((bc.bufs b).busy ≡ false)
    × ((bc'.bufs b).busy ≡ true)
    × (is_block dev sector (bc'.bufs b) ≡ true)
    × ((bc'.bufs b).valid ≡ true
        → (is_block dev sector (bc.bufs b) ≡ true) × ((bc'.bufs b).bytes ≡ (bc.bufs b).bytes))
    × ((is_block dev sector (bc.bufs b) ≡ false) → (bc.bufs b).dirty ≡ false)
    × ((c : ℕ) → c ≢ b → bc'.bufs c ≡ bc.bufs c)
    × (bc'.links ≡ bc.links)
    × IsUnique bc' order
Answer dev sector bc order (done (busy_ b, bc')) =
    (has b order ≡ true)
    × ((bc.bufs b).busy ≡ true)
    × (is_block dev sector (bc.bufs b) ≡ true)
    × (bc'.bufs ≡ bc.bufs)
    × (bc'.links ≡ bc.links)
Answer dev sector bc order panic =
    (b : ℕ)
    → has b order ≡ true
    → (is_block dev sector (bc.bufs b) ≡ false) × (is_clean (bc.bufs b) ≡ false)
Answer dev sector bc order out_of_fuel = ⊥

module _ (me dev sector : ℕ) (bc : Bcache) (order : List ℕ) (used : dev ≢ 2 ^ 32 - 1)
    (unique : IsUnique bc order) where
  recycle_buf-Answer :
      (r : Option ℕ)
      → ((b : ℕ) → has b order ≡ true → is_block dev sector (bc.bufs b) ≡ false)
      → Hit (λ b. is_clean (bc.bufs b)) order r
      → Answer dev sector bc order (recycle_buf dev sector bc r)
  unfolding recycle_buf IsUnique
  recycle_buf-Answer none miss all = λ b h. (miss b h, all b h)
  recycle_buf-Answer (some b) miss (here, clean) = (
    here,
    ground (arith, clean),
    ground arith,
    ground arith,
    λ v. absurd (ground (arith, v)),
    λ _. ground (arith, clean),
    λ c ne. ground arith,
    refl,
    λ c d hc hd ne e1 e2. ground (arith, unique c d hc hd, miss c hc, miss d hd, ne, e1, e2),
  )

  found-Answer :
      (b : ℕ)
      → (has b order ≡ true) × (is_block dev sector (bc.bufs b) ≡ true)
      → Answer dev sector bc order (bget_found me dev sector bc (some b))
  unfolding bget_found sleep_start IsUnique
  found-Answer b (here, hit) = elim (Bool-cases (bc.bufs b).busy) [
    | inl taken ↦ rw taken (here, taken, hit, refl, refl)
    | inr free_ ↦ rw free_ (
      here,
      free_,
      ground arith,
      ground (arith, hit),
      λ _. (hit, ground arith),
      λ miss. absurd (cc (hit, miss)),
      λ c ne. ground arith,
      refl,
      λ c d hc hd ne e1 e2. ground (arith, unique c d hc hd, ne, e1, e2),
    )
  ]

  off_rev : IsRing bc.links order → has ring_head (rev_onto order []) ≡ false
  unfolding Distinct has
  off_rev ring = ground (arith, has-rev_onto ring_head order [], ring.distinct.0)

  bget_found-Answer :
      IsRing bc.links order
      → length order ≤ nbuf
      → (r : Option ℕ) → Hit (λ b. is_block dev sector (bc.bufs b)) order r
      → Answer dev sector bc order (bget_found me dev sector bc r)
  unfolding bget_found
  bget_found-Answer ring short (some b) hit = found-Answer b hit
  bget_found-Answer ring short none miss =
      let e =
        find_buf-find_in (flip bc.links) (λ b. is_clean (bc.bufs b)) ring_head (rev_onto order [])
          (nbuf + 1) (ring-flip bc.links order ring.linked) (off_rev ring)
          (omega (arith, length-rev_onto order [], short)) in
      rw e (
        recycle_buf-Answer _ miss (
          Hit-rev (λ b. is_clean (bc.bufs b)) order _
            (find_in-Hit (λ b. is_clean (bc.bufs b)) (rev_onto order []))))

  -- In a ring of at most NBUF buffers of which no two hold the same block, a round of `bget`
  -- for a device that is not -1 returns a buffer that was not busy, now is, and holds the block
  -- asked for, with its old bytes if it is marked valid; it never takes over a dirty buffer of
  -- another block, changes no other buffer, and again no two hold the same block. Or it sleeps
  -- on the busy buffer that holds the block; or it panics, and then no buffer holds it and none
  -- is clean and free.
  pub bget-Answer :
      IsRing bc.links order
      → length order ≤ nbuf
      → Answer dev sector bc order (bget me dev sector bc)
  unfolding bget Distinct
  bget-Answer ring short =
      let e =
        find_buf-find_in bc.links (λ b. is_block dev sector (bc.bufs b)) ring_head order (nbuf + 1)
          ring.linked (ring.distinct.0) (omega (arith, short)) in
      rw e
        (bget_found-Answer ring short _ (find_in-Hit (λ b. is_block dev sector (bc.bufs b)) order))

-- The links of the buffers form a ring that stands for a list of them. `brelse` of a busy buffer
-- anywhere in it moves that buffer to the front of the list, keeps the order of the others, makes
-- it not busy and changes no other buffer; of a buffer that is not busy it panics.
pub brelse-Moved :
    (bc : Bcache) (xs : List ℕ) (b : ℕ) (ys : List ℕ)
    → IsRing bc.links (xs ++ b ∷ ys)
    → (((bc.bufs b).busy ≡ false) → brelse b bc ≡ panic)
      × (((bc.bufs b).busy ≡ true)
          → (bc' : Bcache) × (brelse b bc ≡ done bc')
            × IsRing bc'.links (b ∷ (xs ++ ys))
            × (bc'.bufs b ≡ record (bc.bufs b) { busy = false })
            × ((c : ℕ) → c ≢ b → bc'.bufs c ≡ bc.bufs c))
unfolding brelse
brelse-Moved bc xs b ys ring = (
  λ free_. rw free_ refl,
  λ taken. (
    record (assign_buf b (record (bc.bufs b) { busy = false }) bc) {
      links = push_front b (unlink b bc.links);
      procs = wakeup (buf_chan b) bc.procs;
    },
    rw taken refl,
    move-IsRing bc.links xs b ys ring,
    ground arith,
    λ c ne. ground arith,
  ),
)

-- The buffers from `b` on, each in front of those before it.
stacked : ℕ → ℕ → List ℕ → List ℕ
stacked zero b order = order
stacked (suc rounds) b order = stacked rounds (b + 1) (b ∷ order)

link_all-IsRing :
    (rounds b : ℕ) (bc : Bcache) (order : List ℕ)
    → b + rounds ≤ ring_head
    → ((i : ℕ) → b ≤ i → has i order ≡ false)
    → IsRing bc.links order
    → IsRing (link_all rounds b bc).links (stacked rounds b order)
unfolding link_all stacked has
link_all-IsRing zero b bc order le off ring = ring
link_all-IsRing (suc rounds) b bc order le off ring =
    link_all-IsRing rounds (b + 1) _ (b ∷ order) (omega arith)
      (λ i lt. ground (arith, off i (omega arith)))
      (front-IsRing bc.links b order (omega arith) (off b (omega arith)) ring)

-- The ring after `binit`.
binit-IsRing : (bc : Bcache) → IsRing (binit bc).links (stacked nbuf 0 [])
unfolding binit Linked Distinct has
binit-IsRing bc =
    link_all-IsRing nbuf 0
      (record bc { links = set_next ring_head ring_head (set_prev ring_head ring_head bc.links) })
      [] (omega arith) (λ i _. refl)
      (record { linked = (ground arith, ground arith); distinct = (refl, tt) })
