-- ===== src/Vm/Walk.antt =====
-- vm.c: `walkpgdir`, which may make a page table.
use Prim.Native.Nat.{bit_or}
use osce.Prelude.{
  ℕ, ◌+◌, ◌*◌, ◌%◌, ◌^◌, ◌≡◌, ◌≢◌, refl, sym, ap, ◌∙◌, true, false, List, [], ◌∷◌, ◌==◌, arith,
  Bool-cases, inl, inr, ◌⊎◌,
}
use osce.Kalloc.{Kmem, v2p, kalloc}
use osce.Kalloc.FreeList.{Absent, Below, Holds, IsPage, kalloc-Takes}
use osce.Vm.{pdx, ptx, is_present, pde_place, pte_place, zero_page, new_table, walkpgdir}
use osce.Vm.Bits.{bit_or-one, bit_or-two, bit_or-four}
use osce.Vm.Tables.{mapped, IsDir, Holds-Only}
use osce.Vm.Entries.{pdx-lt, store-Only}
use osce.Vm.Fresh.{table-new, new-present, added-IsDir, mapped-added, entry-here, zero_page-other}

-- A directory in the memory of an allocator with the free pages `free`.
pub record IsVm (e : ℕ) (k : Kmem) (pgdir : ℕ) (free : List ℕ) : Type 0 where
  pub holds : Holds e k free
  pub small : Below (2 ^ 32) free
  pub dir : IsDir k.word pgdir free

-- With a page left `kalloc` moves the head of the list only.
pub kalloc-IsPage :
    (e p : ℕ) (k : Kmem) (ps : List ℕ)
    → Holds e k (p ∷ ps)
    → (n : ℕ) × (kalloc k ≡ (p, record k { freelist = n }))
      × (p ≢ 0)
      × IsPage e p
      × Absent p ps
      × Holds e (record k { freelist = n }) ps
unfolding kalloc
kalloc-IsPage e p k ps h =
    let (at, nz, page, out, rest) = kalloc-Takes e k h in
    elim (Bool-cases (k.freelist == 0)) [
      | inl zero_ ↦ absurd (nz (sym (rw zero_ at at)))
      | inr more ↦
          let first : k.freelist ≡ p = rw more at at in
          (
            k.word k.freelist,
            rw more (ap (λ (q : ℕ). (q, record k { freelist = k.word k.freelist })) first),
            nz,
            page,
            out,
            rw more at rest,
          )
    ]

pub kalloc-none : (e : ℕ) (k : Kmem) → Holds e k [] → kalloc k ≡ (0, k)
kalloc-none e k h = kalloc-Takes e k h

new_bits : (p : ℕ) → p % 4096 ≡ 0 → bit_or (bit_or (bit_or (v2p p) 1) 2) 4 ≡ v2p p + 7
new_bits p al =
    let one : bit_or (v2p p) 1 ≡ v2p p + 1 = omega (arith, bit_or-one (v2p p)) in
    let two : bit_or (v2p p + 1) 2 ≡ v2p p + 3 = omega (arith, bit_or-two (v2p p + 1)) in
    let four : bit_or (v2p p + 3) 4 ≡ v2p p + 7 = omega (arith, bit_or-four (v2p p + 3)) in
    ap (λ x. bit_or (bit_or x 2) 4) one ∙ ap (λ x. bit_or x 4) two ∙ four

-- What `walkpgdir` returns for `va` when it may allocate: 0 and the memory as it was, if there is no
-- page left, or the place of the entry in a table that is present.
pub record IsFound (e pgdir va : ℕ) (k : Kmem) (r : ℕ × Kmem) : Type 0 where
  pub free : List ℕ
  pub vm : IsVm e r.1 pgdir free
  pub same : (u : ℕ) → mapped r.1.word pgdir u ≡ mapped k.word pgdir u
  pub present : is_present (r.1.word (pde_place pgdir va)) ≡ true
  pub nonnull : r.0 ≢ 0
  pub at : r.0 ≡ pte_place (r.1.word (pde_place pgdir va)) va

abbrev pub Walked : ℕ → ℕ → ℕ → Kmem → List ℕ → ℕ × Kmem → Type 0
Walked e pgdir va k free r = ((r.0 ≡ 0) × (r.1 ≡ k) × (free ≡ [])) ⊎ IsFound e pgdir va k r

new_table-IsFound :
    (e pgdir va p : ℕ) (k : Kmem) (ps : List ℕ)
    → IsVm e k pgdir (p ∷ ps)
    → is_present (k.word (pde_place pgdir va)) ≡ false
    → IsFound e pgdir va k (new_table (pde_place pgdir va) va k)
unfolding new_table
new_table-IsFound e pgdir va p k ps vm gone =
    let (n, got, nz, page, out, holds) = kalloc-IsPage e p k ps vm.holds in
    let test : (p == 0) ≡ false = ground arith in
    let al : p % 4096 ≡ 0 = page.aligned in
    let d = vm.dir in
    let small = vm.small.0 in
    let there = new-present p al in
    let tp = table-new p al small in
    let bits = new_bits p al in
    let here = entry-here k.word pgdir va p ps d gone al nz out (v2p p + 7) tp there in
    rw (got, test, bits)
      (record {
        free = ps;
        vm = record {
          holds =
              Holds-Only e pgdir (record k { freelist = n; word = zero_page p k.word }) _ ps
                d.aligned
                (store-Only (pde_place pgdir va) (v2p p + 7) (zero_page p k.word) pgdir
                  (let pal = d.aligned in omega arith))
                d.absent.1
                (Holds-Only e p (record k { freelist = n }) _ ps al
                  (λ a ne. zero_page-other p k.word a al ne) out holds);
          small = vm.small.1;
          dir = added-IsDir k.word pgdir va p ps d gone al nz out (v2p p + 7) tp there;
        };
        same = mapped-added k.word pgdir va p ps d gone al nz out (v2p p + 7) tp there;
        present = ap is_present here ∙ there;
        nonnull = omega arith;
        at = ap (λ t. t + 4 * ptx va) (sym tp) ∙ ap (λ x. pte_place x va) (sym here);
      })

new_table-none :
    (e pgdir va : ℕ) (k : Kmem)
    → IsVm e k pgdir []
    → ((new_table (pde_place pgdir va) va k).0 ≡ 0)
      × ((new_table (pde_place pgdir va) va k).1 ≡ k)
      × (◌≡◌ {A = List ℕ} [] [])
unfolding new_table
new_table-none e pgdir va k vm = rw (kalloc-none e k vm.holds) (refl, refl, refl)

pub walkpgdir-Walked :
    (e pgdir va : ℕ) (k : Kmem) (free : List ℕ)
    → IsVm e k pgdir free
    → Walked e pgdir va k free (walkpgdir pgdir va true k)
unfolding walkpgdir
walkpgdir-Walked e pgdir va k free vm =
    elim (Bool-cases (is_present (k.word (pde_place pgdir va)))) [
      | inl there ↦
          let pde = k.word (pde_place pgdir va) in
          let nz = vm.dir.nonnull (pdx va) there (pdx-lt va) in
          rw there (
            inr (record {
              free = free;
              vm = vm;
              same = λ u. refl;
              present = there;
              nonnull = omega arith;
              at = refl;
            }))
      | inr gone ↦ rw gone (fresh free vm gone)
    ]
  where
    fresh :
        (free : List ℕ)
        → IsVm e k pgdir free
        → is_present (k.word (pde_place pgdir va)) ≡ false
        → Walked e pgdir va k free (new_table (pde_place pgdir va) va k)
    fresh [] vm gone = inl (new_table-none e pgdir va k vm)
    fresh (p ∷ ps) vm gone = inr (new_table-IsFound e pgdir va p k ps vm gone)
