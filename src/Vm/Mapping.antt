-- ===== src/Vm/Mapping.antt =====
-- vm.c: what is mapped when `mappages` has mapped some pages.
use Prim.Native.Nat.{bit_or}
use osce.Prelude.{
  ℕ, suc, ◌+◌, ◌-◌, ◌*◌, ◌/◌, ◌%◌, ◌^◌, ◌≤◌, ◌<◌, ◌≡◌, ◌≢◌, refl, ap, ◌∙◌, Bool, true, false,
  Option, some, List, [], ltb, leb, ◌==◌, ◌&&◌, if◌then◌else◌, arith, Bool-cases, ==_iff, inl, inr,
  ◌⊎◌,
}
use osce.Kalloc.{Kmem}
use osce.Vm.{pdx, is_present, pde_place, pte_place, write}
use osce.Vm.Bits.{bit_or-aligned, bit_or-one}
use osce.Vm.Tables.{mapped, table, Holds-Only}
use osce.Vm.Entries.{pdx-lt, the_entry, store-Only, written-IsDir, mapped-written, place-page}
use osce.Vm.Walk.{IsVm}

-- The entry for a physical page with these bits, and PTE_P.
abbrev pub entry_for : ℕ → ℕ → ℕ
entry_for pa perm = (pa + perm) / 2 * 2 + 1

pub entry_for-bits :
    (pa perm : ℕ) → pa % 4096 ≡ 0 → perm < 4096 → bit_or (bit_or pa perm) 1 ≡ entry_for pa perm
entry_for-bits pa perm al lt =
    ap (λ x. bit_or x 1) (bit_or-aligned pa perm al lt) ∙ bit_or-one (pa + perm)

entry_for-present : (pa perm : ℕ) → the_entry (entry_for pa perm) ≡ some (entry_for pa perm)
entry_for-present pa perm =
    let p : is_present (entry_for pa perm) ≡ true = ground arith in rw p refl

pub write-IsVm :
    (e pgdir va x : ℕ) (k : Kmem) (free : List ℕ)
    → IsVm e k pgdir free
    → is_present (k.word (pde_place pgdir va)) ≡ true
    → IsVm e (write (pte_place (k.word (pde_place pgdir va)) va) x k) pgdir free
write-IsVm e pgdir va x k free vm there =
    let pde = k.word (pde_place pgdir va) in
    record {
      holds =
          Holds-Only e (table pde) k _ free (omega arith)
            (store-Only (pte_place pde va) x k.word (table pde) (place-page pde va))
            (vm.dir.tables (pdx va) there (pdx-lt va)) vm.holds;
      small = vm.small;
      dir = written-IsDir k.word pgdir free vm.dir va x there;
    }

-- What is mapped at `u` once the `n` pages from `a` on are mapped to those from `pa` on.
abbrev pub now_mapped : ℕ → ℕ → ℕ → ℕ → ℕ → Option ℕ → Option ℕ
now_mapped a n pa perm u before =
    if leb a u && ltb u (a + n * 4096)
    then some (entry_for (pa + (u / 4096 - a / 4096) * 4096) perm)
    else before

now_mapped-inside :
    (a n pa perm u q : ℕ) (before : Option ℕ)
    → a ≤ u
    → u < a + n * 4096
    → q ≡ pa + (u / 4096 - a / 4096) * 4096
    → some (entry_for q perm) ≡ now_mapped a n pa perm u before
now_mapped-inside a n pa perm u q before lo hi e =
    let test : (leb a u && ltb u (a + n * 4096)) ≡ true = ground arith in
    rw test (ap (λ x. some (entry_for x perm)) e)

pub now_mapped-outside :
    (a n pa perm u : ℕ) (before : Option ℕ)
    → (u < a) ⊎ (a + n * 4096 ≤ u)
    → before ≡ now_mapped a n pa perm u before
now_mapped-outside a n pa perm u before out =
    let test : (leb a u && ltb u (a + n * 4096)) ≡ false = ground arith in rw test refl

-- The first `count` of `n` pages are mapped, all of them unless there is no page left for a table.
pub record IsMapped (e pgdir a n pa perm : ℕ) (k : Kmem) (r : Bool × Kmem) : Type 0 where
  pub free : List ℕ
  pub vm : IsVm e r.1 pgdir free
  pub count : ℕ
  pub reached : r.0 ≡ true → count ≡ n
  pub part : r.0 ≡ false → (count < n) × (free ≡ [])
  pub maps :
      (u : ℕ)
      → u < 2 ^ 32
      → mapped r.1.word pgdir u ≡ now_mapped a count pa perm u (mapped k.word pgdir u)

-- One page is mapped.
pub one_mapped :
    (e pgdir a pa perm : ℕ) (k : Kmem) (free : List ℕ)
    → IsVm e k pgdir free
    → is_present (k.word (pde_place pgdir a)) ≡ true
    → a % 4096 ≡ 0
    → a < 2 ^ 32
    → (u : ℕ) → u < 2 ^ 32
    → mapped (write (pte_place (k.word (pde_place pgdir a)) a) (entry_for pa perm) k).word pgdir u
      ≡ now_mapped a 1 pa perm u (mapped k.word pgdir u)
one_mapped e pgdir a pa perm k free vm there al la u lu =
    mapped-written k.word pgdir free vm.dir a (entry_for pa perm) there u lu la
    ∙ elim (Bool-cases (u / 4096 == a / 4096)) [
      | inl same ↦
          let page : u / 4096 ≡ a / 4096 = (==_iff (u / 4096) (a / 4096)).0 same in
          rw same (
            entry_for-present pa perm
            ∙ now_mapped-inside a 1 pa perm u pa _ (omega arith) (omega arith) (omega arith))
      | inr other ↦
          let page : u / 4096 ≢ a / 4096 = λ q. absurd (ground arith) in
          rw other (
            now_mapped-outside a 1 pa perm u _ (elim (Bool-cases (ltb u a)) [
              | inl lt ↦ inl (ground arith)
              | inr ge ↦ inr (ground arith)
            ]))
    ]

-- The page at `a`, and then the `n` behind it.
pub now_mapped-suc :
    (a n pa perm u : ℕ) (before : Option ℕ)
    → a % 4096 ≡ 0
    → now_mapped (a + 4096) n (pa + 4096) perm u (now_mapped a 1 pa perm u before)
      ≡ now_mapped a (suc n) pa perm u before
now_mapped-suc a n pa perm u before al =
    elim (Bool-cases (leb (a + 4096) u && ltb u (a + 4096 + n * 4096))) [
      | inl behind ↦
          let lo : a + 4096 ≤ u = ground arith in
          let hi : u < a + 4096 + n * 4096 = ground arith in
          rw behind (
            now_mapped-inside a (suc n) pa perm u _ before (omega arith) (omega arith)
              (omega arith))
      | inr other ↦ rw other (elim (Bool-cases (leb a u && ltb u (a + 1 * 4096))) [
        | inl here ↦
            let lo : a ≤ u = ground arith in
            let hi : u < a + 4096 = ground arith in
            rw here (now_mapped-inside a (suc n) pa perm u _ before lo (omega arith) refl)
        | inr out ↦ rw out (
            now_mapped-outside a (suc n) pa perm u before (elim (Bool-cases (ltb u a)) [
              | inl lt ↦ inl (ground arith)
              | inr ge ↦ inr (ground arith)
            ]))
      ])
    ]
