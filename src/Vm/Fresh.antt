-- ===== src/Vm/Fresh.antt =====
-- vm.c: a new page table in a directory.
use osce.Prelude.{
  ℕ, ◌+◌, ◌*◌, ◌/◌, ◌%◌, ◌^◌, ◌<◌, ◌≡◌, ◌≢◌, sym, ap, ◌∙◌, true, false, List, ◌∷◌, ◌==◌, arith,
  Bool-cases, ==_iff, inl, inr, ◌⊎◌,
}
use mathlib.Core.Path.{subst}
use osce.Kalloc.{store, v2p}
use osce.Kalloc.FreeList.{Absent}
use osce.Vm.{pdx, ptx, is_present, pde_place, pte_place, zero_page}
use osce.Vm.Tables.{mapped, entry, table, IsDir}
use osce.Vm.Entries.{pdx-lt, mapped-present, mapped-absent, mapped-same, store-same, store-other}

pub zero_page-other :
    (v : ℕ) (w : ℕ → ℕ) (a : ℕ) → v % 4096 ≡ 0 → a / 4096 ≢ v / 4096 → zero_page v w a ≡ w a
zero_page-other v w a al ne = ground arith

zero_page-inside :
    (v : ℕ) (w : ℕ → ℕ) (a : ℕ) → v % 4096 ≡ 0 → a / 4096 ≡ v / 4096 → zero_page v w a ≡ 0
zero_page-inside v w a al e = ground arith

-- The entry for the table at `p`.
pub table-new : (p : ℕ) → p % 4096 ≡ 0 → p < 2 ^ 32 → table (v2p p + 7) ≡ p
table-new p al lt = omega arith

pub new-present : (p : ℕ) → p % 4096 ≡ 0 → is_present (v2p p + 7) ≡ true
new-present p al = ground arith

module _ (w : ℕ → ℕ) (pgdir va p : ℕ) (ps : List ℕ) (d : IsDir w pgdir (p ∷ ps))
    (gone : is_present (w (pde_place pgdir va)) ≡ false) (al : p % 4096 ≡ 0) (nz : p ≢ 0)
    (out : Absent p ps) (pde : ℕ) (tp : table pde ≡ p) (there : is_present pde ≡ true) where
  abbrev pub added : ℕ → ℕ
  added = store (pde_place pgdir va) pde (zero_page p w)

  pub entry-here : entry added pgdir (pdx va) ≡ pde
  entry-here = store-same (pde_place pgdir va) pde (zero_page p w)

  entry-other : (i : ℕ) → i < 1024 → i ≢ pdx va → entry added pgdir i ≡ entry w pgdir i
  entry-other i lt ne =
      let pal = d.aligned in
      let apart = d.absent.0 in
      store-other (pde_place pgdir va) (pgdir + 4 * i) pde (zero_page p w) (omega arith)
      ∙ zero_page-other p w (pgdir + 4 * i) al (omega arith)

  entry-cases :
      (i : ℕ)
      → i < 1024
      → ((i ≡ pdx va) × (entry added pgdir i ≡ pde))
        ⊎ ((i ≢ pdx va) × (entry added pgdir i ≡ entry w pgdir i))
  entry-cases i lt = elim (Bool-cases (i == pdx va)) [
    | inl same ↦
        let e : i ≡ pdx va = (==_iff i (pdx va)).0 same in
        inl (e, ap (λ i. entry added pgdir i) e ∙ entry-here)
    | inr other ↦ let ne : i ≢ pdx va = λ q. absurd (ground arith) in inr (ne, entry-other i lt ne)
  ]

  -- The words of the other tables are the same.
  table-words :
      (i j : ℕ)
      → i < 1024
      → j < 1024
      → is_present (entry w pgdir i) ≡ true
      → added (table (entry w pgdir i) + 4 * j) ≡ w (table (entry w pgdir i) + 4 * j)
  table-words i j li lj here =
      let apart = (d.tables i here li).0 in
      let off = d.apart i here li in
      let pal = d.aligned in
      store-other (pde_place pgdir va) (table (entry w pgdir i) + 4 * j) pde (zero_page p w)
        (omega arith)
      ∙ zero_page-other p w (table (entry w pgdir i) + 4 * j) al (omega arith)

  -- What holds of the new table and of the old ones holds of each.
  each :
      (P : ℕ → Type 0)
      → P p
      → ((i : ℕ) → is_present (entry w pgdir i) ≡ true → i < 1024 → P (table (entry w pgdir i)))
      → (i : ℕ) → is_present (entry added pgdir i) ≡ true
      → i < 1024
      → P (table (entry added pgdir i))
  each P new old i here lt = elim (entry-cases i lt) [
    | inl (same, e) ↦ subst P (sym (ap table e ∙ tp)) new
    | inr (ne, e) ↦ subst (λ t. P (table t)) (sym e) (old i (sym (ap is_present e) ∙ here) lt)
  ]

  new-distinct :
      (i j : ℕ)
      → is_present (entry added pgdir i) ≡ true
      → is_present (entry added pgdir j) ≡ true
      → i < 1024
      → j < 1024
      → i ≢ j
      → table (entry added pgdir i) ≢ table (entry added pgdir j)
  new-distinct i j hi hj li lj ne q = elim (entry-cases i li) [
    | inl (same, e) ↦ elim (entry-cases j lj) [
      | inl (same', e') ↦ ne (same ∙ sym same')
      | inr (ne', e') ↦
          (d.tables j (sym (ap is_present e') ∙ hj) lj).0
            (sym tp ∙ sym (ap table e) ∙ q ∙ ap table e')
    ]
    | inr (other, e) ↦ elim (entry-cases j lj) [
      | inl (same', e') ↦
          (d.tables i (sym (ap is_present e) ∙ hi) li).0
            (sym tp ∙ sym (ap table e') ∙ sym q ∙ ap table e)
      | inr (ne', e') ↦
          d.distinct i j (sym (ap is_present e) ∙ hi) (sym (ap is_present e') ∙ hj) li lj ne
            (sym (ap table e) ∙ q ∙ ap table e')
    ]
  ]

  pub added-IsDir : IsDir added pgdir ps
  added-IsDir = record {
    aligned = d.aligned;
    absent = d.absent.1;
    tables = each (λ t. Absent t ps) out (λ i h lt. (d.tables i h lt).1);
    nonnull = each (λ t. t ≢ 0) nz d.nonnull;
    apart = each (λ t. t ≢ pgdir) d.absent.0 d.apart;
    distinct = new-distinct;
  }

  new_word : (u : ℕ) → added (pte_place pde u) ≡ 0
  new_word u =
      let apart = d.absent.0 in
      let pal = d.aligned in
      store-other (pde_place pgdir va) (pte_place pde u) pde (zero_page p w) (omega (arith, tp))
      ∙ zero_page-inside p w (pte_place pde u) al (omega (arith, tp))

  -- Nothing more is mapped.
  pub mapped-added : (u : ℕ) → mapped added pgdir u ≡ mapped w pgdir u
  mapped-added u = elim (Bool-cases (pdx u == pdx va)) [
    | inl same ↦
        let e : pdx u ≡ pdx va = (==_iff (pdx u) (pdx va)).0 same in
        mapped-present added pgdir u pde 0 (ap (λ i. entry added pgdir i) e ∙ entry-here) there
          (new_word u)
        ∙ sym (mapped-absent w pgdir u (ap (λ i. is_present (entry w pgdir i)) e ∙ gone))
    | inr other ↦
        let ne : pdx u ≢ pdx va = λ q. absurd (ground arith) in
        mapped-same added w pgdir u (entry-other (pdx u) (pdx-lt u) ne)
          (λ h. table-words (pdx u) (ptx u) (pdx-lt u) (omega arith) h)
  ]
