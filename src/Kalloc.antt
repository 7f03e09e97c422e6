-- ===== src/Kalloc.antt =====
-- kalloc.c: the allocator of physical pages. Its free list runs through the free pages themselves:
-- the first word of a free page is `r->next`.
pub mod FreeList
mod Tests
use osce.Prelude.{
  ℕ, zero, suc, ◌+◌, ◌-◌, ◌*◌, ◌/◌, ◌%◌, ◌^◌, Bool, true, false, ◌||◌, not, ltb, leb, ◌==◌,
  if◌then◌else◌, Outcome, done, panic, out_of_fuel, ◌>>=◌,
}

abbrev pub pg_size : ℕ
pg_size = 4096

abbrev pub kernbase : ℕ
kernbase = 0x8000_0000

abbrev pub phystop : ℕ
phystop = 0xe00_0000

-- `uint` arithmetic wraps.
abbrev pub v2p : ℕ → ℕ
v2p a = (a + 2 ^ 32 - kernbase) % 2 ^ 32

-- `kmem`, with the memory that its list runs through: `word a` is the `uint` at address `a`.
-- The lock is held from the first access to the last, so each routine is one step.
pub record Kmem : Type 0 where
  pub use_lock : Bool
  pub freelist : ℕ
  pub word : ℕ → ℕ

-- `memset(v, 1, PGSIZE)`: both are multiples of 4, so `memset` stores words of four bytes 1.
abbrev pub fill_junk : ℕ → (ℕ → ℕ) → ℕ → ℕ
fill_junk v w a = if leb v a then (if ltb a (v + pg_size) then 0x0101_0101 else w a) else w a

abbrev pub store : ℕ → ℕ → (ℕ → ℕ) → ℕ → ℕ
store v x w a = if a == v then x else w a

abbrev pub pg_round_up : ℕ → ℕ
pg_round_up a = (a + pg_size - 1) % 2 ^ 32 / pg_size * pg_size

-- `end`, the first address after the kernel, is set by the linker.
module _ (kernel_end : ℕ) where
  pub kfree : ℕ → Kmem → Outcome Kmem
  kfree v k =
      if not (v % pg_size == 0) || ltb v kernel_end || leb phystop (v2p v)
      then panic
      else done (record k { freelist = v; word = store v k.freelist (fill_junk v k.word) })

  -- the `for` of `freerange`, from `p`
  pub free_from : ℕ → ℕ → ℕ → Kmem → Outcome Kmem
  free_from zero p vend k = out_of_fuel
  free_from (suc fuel) p vend k =
      let rest = (do k' ← kfree p k; free_from fuel ((p + pg_size) % 2 ^ 32) vend k') in
      if leb ((p + pg_size) % 2 ^ 32) vend then rest else done k

  -- No address is above 2 ^ 32, so `vend / PGSIZE + 1` rounds are enough.
  pub freerange : ℕ → ℕ → Kmem → Outcome Kmem
  unfolding free_from
  freerange vstart vend k = free_from (vend / pg_size + 1) (pg_round_up vstart) vend k

  pub kinit1 : ℕ → ℕ → Kmem → Outcome Kmem
  kinit1 vstart vend k = freerange vstart vend (record k { use_lock = false })

  pub kinit2 : ℕ → ℕ → Kmem → Outcome Kmem
  kinit2 vstart vend k = do k' ← freerange vstart vend k; done (record k' { use_lock = true })

-- The page, or 0, and the list that is left.
unfoldable pub kalloc : Kmem → ℕ × Kmem
kalloc k =
    if k.freelist == 0 then (0, k) else (k.freelist, record k { freelist = k.word k.freelist })
