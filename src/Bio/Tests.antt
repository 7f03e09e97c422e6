-- ===== src/Bio/Tests.antt =====
-- Runs of the buffer cache (bio.c): a ring of two buffers, 1 before 0.
use osce.Prelude.{
  ℕ, ◌≡◌, ◌≢◌, refl, true, false, none, [], ◌∷◌, ◌++◌, ◌==◌, if◌then◌else◌, done, panic, arith,
}
use osce.Bio.{Bcache, bget, brelse}
use osce.Bio.Ring.{Linked, Distinct, has, IsRing}
use osce.Bio.Lookup.{IsUnique, Answer, bget-Answer, brelse-Moved}

-- Buffer 0 holds block 7 and is in use, buffer 1 holds block 8.
abbrev cache : Bcache
cache = record {
  bufs = λ b. record {
    dev = 1;
    sector = if b == 0 then 7 else 8;
    busy = b == 0;
    valid = true;
    dirty = false;
    bytes = λ _. 0;
  };
  links = record {
    next = λ b. if b == 30 then 1 else if b == 1 then 0 else 30;
    prev = λ b. if b == 30 then 0 else if b == 1 then 30 else 1;
  };
  procs = record { procs = []; initproc = none; nextpid = 1 };
}

cache-IsRing : IsRing cache.links (1 ∷ 0 ∷ [])
unfolding Linked Distinct has
cache-IsRing = record {
  linked = (refl, refl, (refl, refl, (refl, refl)));
  distinct = (refl, (refl, (refl, tt)));
}

cache-IsUnique : IsUnique cache (1 ∷ 0 ∷ [])
unfolding IsUnique has
cache-IsUnique = λ b c hb hc used e1 e2. ground (arith, hb, hc, e2)

bget-Answer_example : Answer 1 9 cache (1 ∷ 0 ∷ []) (bget 5 1 9 cache)
bget-Answer_example =
    bget-Answer 5 1 9 cache (1 ∷ 0 ∷ []) (omega arith) cache-IsUnique cache-IsRing (omega arith)

brelse-Moved_example :
    (((cache.bufs 0).busy ≡ false) → brelse 0 cache ≡ panic)
    × (((cache.bufs 0).busy ≡ true)
        → (bc' : Bcache) × (brelse 0 cache ≡ done bc')
          × IsRing bc'.links (0 ∷ ((1 ∷ []) ++ []))
          × (bc'.bufs 0 ≡ record (cache.bufs 0) { busy = false })
          × ((c : ℕ) → c ≢ 0 → bc'.bufs c ≡ cache.bufs c))
brelse-Moved_example = brelse-Moved cache (1 ∷ []) 0 [] cache-IsRing
