-- ===== src/Vm/Entries.antt =====
-- vm.c: writes of an entry of a page table.
use osce.Prelude.{
  ℕ, ◌+◌, ◌*◌, ◌/◌, ◌^◌, ◌<◌, ◌≡◌, ◌≢◌, refl, sym, ap, ◌∙◌, true, false, Option, none, some, List,
  ◌==◌, if◌then◌else◌, arith, Bool-cases, ==_iff, inl, inr,
}
use osce.Kalloc.{store}
use osce.Vm.{pdx, ptx, is_present, pde_place, pte_place}
use osce.Vm.Tables.{mapped, entry, table, IsDir, Only, entry-Only}

abbrev pub the_entry : ℕ → Option ℕ
the_entry x = if is_present x then some x else none

-- The same directory, seen in a memory with the same entries.
pub IsDir-entries :
    (w w' : ℕ → ℕ) (pgdir : ℕ) (free : List ℕ)
    → ((i : ℕ) → i < 1024 → entry w' pgdir i ≡ entry w pgdir i)
    → IsDir w pgdir free
    → IsDir w' pgdir free
IsDir-entries w w' pgdir free same d = record {
  aligned = d.aligned;
  absent = d.absent;
  tables = λ i p lt. rw (same i lt) (d.tables i (rw (same i lt) at p) lt);
  nonnull = λ i p lt. rw (same i lt) (d.nonnull i (rw (same i lt) at p) lt);
  apart = λ i p lt. rw (same i lt) (d.apart i (rw (same i lt) at p) lt);
  distinct = λ i j p q lt lt' ne.
      rw (same i lt, same j lt')
        (d.distinct i j (rw (same i lt) at p) (rw (same j lt') at q) lt lt' ne);
}

pub store-Only : (p x : ℕ) (w : ℕ → ℕ) (t : ℕ) → p / 4096 ≡ t / 4096 → Only t w (store p x w)
store-Only p x w t e a ne = ground arith

pub place-page : (pde va : ℕ) → pte_place pde va / 4096 ≡ table pde / 4096
place-page pde va = omega arith

pub pdx-lt : (va : ℕ) → pdx va < 1024
pdx-lt va = omega arith

page_of :
    (s t u v : ℕ)
    → u < 2 ^ 32
    → v < 2 ^ 32
    → pdx u ≡ pdx v
    → table s ≡ table t
    → pte_place s u ≡ pte_place t v
    → u / 4096 ≡ v / 4096
page_of s t u v lu lv index tables e = let low : ptx u ≡ ptx v = omega arith in omega arith

apart_places : (s t u v : ℕ) → table s ≢ table t → pte_place s u ≢ pte_place t v
apart_places s t u v ne = omega arith

pub store-same : (p x : ℕ) (w : ℕ → ℕ) → store p x w p ≡ x
store-same p x w = ground arith

pub store-other : (p q x : ℕ) (w : ℕ → ℕ) → p ≢ q → store p x w q ≡ w q
store-other p q x w ne = ground arith

pub mapped-present :
    (w : ℕ → ℕ) (pgdir u pde x : ℕ)
    → w (pde_place pgdir u) ≡ pde
    → is_present pde ≡ true
    → w (pte_place pde u) ≡ x
    → mapped w pgdir u ≡ the_entry x
mapped-present w pgdir u pde x e p here = rw (e, p, here) refl

pub mapped-absent :
    (w : ℕ → ℕ) (pgdir u : ℕ) → is_present (w (pde_place pgdir u)) ≡ false → mapped w pgdir u ≡ none
mapped-absent w pgdir u p = rw p refl

-- The same entries, and the same words of the tables that are present.
pub mapped-same :
    (w' w : ℕ → ℕ) (pgdir u : ℕ)
    → w' (pde_place pgdir u) ≡ w (pde_place pgdir u)
    → (is_present (w (pde_place pgdir u)) ≡ true
        → w' (pte_place (w (pde_place pgdir u)) u) ≡ w (pte_place (w (pde_place pgdir u)) u))
    → mapped w' pgdir u ≡ mapped w pgdir u
mapped-same w' w pgdir u e same = elim (Bool-cases (is_present (w (pde_place pgdir u)))) [
  | inl p ↦
      mapped-present w' pgdir u _ _ e p (same p) ∙ sym (mapped-present w pgdir u _ _ refl p refl)
  | inr a ↦ mapped-absent w' pgdir u (ap is_present e ∙ a) ∙ sym (mapped-absent w pgdir u a)
]

module _ (w : ℕ → ℕ) (pgdir : ℕ) (free : List ℕ) (d : IsDir w pgdir free) (va x : ℕ)
    (there : is_present (w (pde_place pgdir va)) ≡ true) where
  abbrev place : ℕ
  place = pte_place (w (pde_place pgdir va)) va

  abbrev written : ℕ → ℕ
  written = store place x w

  same_entry : (i : ℕ) → i < 1024 → entry written pgdir i ≡ entry w pgdir i
  same_entry i lt =
      let pde = w (pde_place pgdir va) in
      entry-Only w written pgdir (table pde) i d.aligned (omega arith)
        (d.apart (pdx va) there (pdx-lt va)) lt
        (store-Only place x w (table pde) (place-page pde va))

  pub written-IsDir : IsDir written pgdir free
  written-IsDir = IsDir-entries w written pgdir free same_entry d

  -- Two addresses whose tables are present have the same entry only if they are in one page.
  place-same :
      (u : ℕ)
      → u < 2 ^ 32
      → va < 2 ^ 32
      → is_present (w (pde_place pgdir u)) ≡ true
      → pte_place (w (pde_place pgdir u)) u ≡ place
      → u / 4096 ≡ va / 4096
  place-same u lu lv pu e = elim (Bool-cases (pdx u == pdx va)) [
    | inl same ↦
        let index : pdx u ≡ pdx va = (==_iff (pdx u) (pdx va)).0 same in
        let tables : table (w (pde_place pgdir u)) ≡ table (w (pde_place pgdir va)) =
          ap (λ i. table (w (pgdir + 4 * i))) index in
        page_of _ _ u va lu lv index tables e
    | inr other ↦
        let index : pdx u ≢ pdx va = λ q. absurd (ground arith) in
        absurd (
          apart_places _ _ u va (d.distinct (pdx u) (pdx va) pu there (pdx-lt u) (pdx-lt va) index)
            e)
  ]

  -- A write of the entry changes what is mapped at its page only.
  pub mapped-written :
      (u : ℕ)
      → u < 2 ^ 32
      → va < 2 ^ 32
      → mapped written pgdir u ≡ (if u / 4096 == va / 4096 then the_entry x else mapped w pgdir u)
  mapped-written u lu lv = elim (Bool-cases (u / 4096 == va / 4096)) [
    | inl same ↦
        let page : u / 4096 ≡ va / 4096 = (==_iff (u / 4096) (va / 4096)).0 same in
        let index : pdx u ≡ pdx va = omega arith in
        let low : ptx u ≡ ptx va = omega arith in
        let pde : written (pde_place pgdir u) ≡ w (pde_place pgdir va) =
          same_entry (pdx u) (pdx-lt u) ∙ ap (λ i. w (pgdir + 4 * i)) index in
        let here : written (pte_place (w (pde_place pgdir va)) u) ≡ x =
          ap (λ i. written (table (w (pde_place pgdir va)) + 4 * i)) low ∙ store-same place x w in
        rw same (mapped-present written pgdir u _ x pde there here)
    | inr other ↦
        let page : u / 4096 ≢ va / 4096 = λ q. absurd (ground arith) in
        rw other (
          mapped-same written w pgdir u (same_entry (pdx u) (pdx-lt u)) (λ pu.
            store-other place (pte_place (w (pde_place pgdir u)) u) x w
              (λ q. page (place-same u lu lv pu (sym q)))))
  ]
