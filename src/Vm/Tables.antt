-- ===== src/Vm/Tables.antt =====
-- vm.c: what a page directory maps, and the pages that it consists of.
use osce.Prelude.{
  ℕ, ◌+◌, ◌*◌, ◌/◌, ◌%◌, ◌<◌, ◌≡◌, ◌≢◌, true, Option, none, some, List, ◌∷◌, if◌then◌else◌, arith,
}
use osce.Kalloc.{Kmem, pg_size}
use osce.Kalloc.FreeList.{Chain, nil, cons, Absent, ArePages, Holds}
use osce.Vm.{p2v, is_present, pte_addr, pde_place, pte_place}

-- The entry for `va`, if the table and the entry are present.
abbrev pub mapped : (ℕ → ℕ) → ℕ → ℕ → Option ℕ
mapped w pgdir va =
    let pde = w (pde_place pgdir va) in
    let pte = w (pte_place pde va) in
    if is_present pde then (if is_present pte then some pte else none) else none

-- The directory entry with index `i`.
abbrev pub entry : (ℕ → ℕ) → ℕ → ℕ → ℕ
entry w pgdir i = w (pgdir + 4 * i)

abbrev pub table : ℕ → ℕ
table pde = p2v (pte_addr pde)

-- `pgdir` is a page of entries, and its tables are pages, all different, that the free list does
-- not have.
pub record IsDir (w : ℕ → ℕ) (pgdir : ℕ) (free : List ℕ) : Type 0 where
  pub aligned : pgdir % 4096 ≡ 0
  pub absent : Absent pgdir free
  pub tables :
      (i : ℕ)
      → is_present (entry w pgdir i) ≡ true
      → i < 1024
      → Absent (table (entry w pgdir i)) free
  pub nonnull :
      (i : ℕ) → is_present (entry w pgdir i) ≡ true → i < 1024 → table (entry w pgdir i) ≢ 0
  pub apart :
      (i : ℕ) → is_present (entry w pgdir i) ≡ true → i < 1024 → table (entry w pgdir i) ≢ pgdir
  pub distinct :
      (i j : ℕ)
      → is_present (entry w pgdir i) ≡ true
      → is_present (entry w pgdir j) ≡ true
      → i < 1024
      → j < 1024
      → i ≢ j
      → table (entry w pgdir i) ≢ table (entry w pgdir j)

-- Nothing is written outside the page `t`.
abbrev pub Only : ℕ → (ℕ → ℕ) → (ℕ → ℕ) → Type 0
Only t w w' = (a : ℕ) → a / 4096 ≢ t / 4096 → w' a ≡ w a

-- The list of free pages runs through no other page.
pub Chain-Only :
    (e t : ℕ) (w w' : ℕ → ℕ) {p : ℕ} {ps : List ℕ}
    → t % 4096 ≡ 0
    → Only t w w'
    → Absent t ps
    → ArePages e ps
    → Chain w p ps
    → Chain w' p ps
Chain-Only e t w w' al only out pages nil = nil
Chain-Only e t w w' al only out pages (cons {p} {ps} ne c) =
    let pal : p % pg_size ≡ 0 = pages.0.aligned in
    let apart = out.0 in
    let same : w' p ≡ w p = only p (omega arith) in
    cons ne (rw same (Chain-Only e t w w' al only out.1 pages.2 c))

pub Holds-Only :
    (e t : ℕ) (k : Kmem) (w' : ℕ → ℕ) (ps : List ℕ)
    → t % 4096 ≡ 0
    → Only t k.word w'
    → Absent t ps
    → Holds e k ps
    → Holds e (record k { word = w' }) ps
Holds-Only e t k w' ps al only out h = record {
  chain = Chain-Only e t k.word w' al only out h.legal h.chain;
  legal = h.legal;
}

pub Absent-tail : (v p : ℕ) (ps : List ℕ) → Absent v (p ∷ ps) → Absent v ps
Absent-tail v p ps h = h.1

-- A write to a table is not seen in the directory.
pub entry-Only :
    (w w' : ℕ → ℕ) (pgdir t i : ℕ)
    → pgdir % 4096 ≡ 0
    → t % 4096 ≡ 0
    → t ≢ pgdir
    → i < 1024
    → Only t w w'
    → entry w' pgdir i ≡ entry w pgdir i
entry-Only w w' pgdir t i al tal ne lt only = only (pgdir + 4 * i) (omega arith)
