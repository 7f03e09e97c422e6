-- ===== src/Vm/Maps.antt =====
-- vm.c: `mappages`, `uva2ka`, and an `allocuvm` that maps less than it says.
use Prim.Native.Nat.{bit_or}
use osce.Prelude.{
  ℕ, suc, ◌+◌, ◌-◌, ◌*◌, ◌/◌, ◌%◌, ◌^◌, ◌≤◌, ◌<◌, ◌≡◌, ◌≢◌, refl, ap, ◌∙◌, Bool, true, false,
  Option, none, some, List, [], ◌∷◌, ltb, leb, ◌==◌, not, if◌then◌else◌, arith, Bool-cases, inl,
  inr, done, panic,
}
use osce.Kalloc.{Kmem, kalloc, kernbase, v2p}
use osce.Kalloc.FreeList.{Holds}
use osce.Vm.{
  p2v, pdx, is_present, is_user, pte_addr, pde_place, pte_place, pte_w, pte_u, clear_page,
  walkpgdir, map_from, mappages,
}
use osce.Vm.Tables.{mapped, Holds-Only}
use osce.Vm.Entries.{pdx-lt, mapped-absent, the_entry}
use osce.Vm.Fresh.{zero_page-other}
use osce.Vm.Walk.{IsVm, kalloc-IsPage, kalloc-none}
use osce.Vm.Mapping.{IsMapped}
use osce.Vm.Loop.{map_from-IsMapped, map_from-round, round_of}
use osce.Vm.Spaces.{uva2ka, allocuvm, add_pages}

mappages_eq :
    (pgdir va pa perm m : ℕ) (k : Kmem)
    → va % 4096 ≡ 0
    → va + (m + 1) * 4096 ≤ 2 ^ 32
    → mappages pgdir va ((m + 1) * 4096) pa perm k
      ≡ map_from (m + 1) pgdir va (va + m * 4096) pa perm k
unfolding mappages
mappages_eq pgdir va pa perm m k al top =
    let first : va / 4096 * 4096 ≡ va = omega arith in
    let last : (va + (m + 1) * 4096 + 2 ^ 32 - 1) % 2 ^ 32 / 4096 * 4096 ≡ va + m * 4096 =
      omega arith in
    let rounds : (va + m * 4096 + 2 ^ 32 - va) % 2 ^ 32 / 4096 ≡ m = omega arith in
    rw (last, first, rounds) refl

-- A page directory and its present tables are different pages, none of them on the list of free
-- pages, which are addresses of 32 bits. For page-aligned addresses and `m + 1` pages that end
-- inside the address space and are not mapped, `mappages` returns and does not panic. The
-- directory and the list are as described again; the first pages of the range are mapped one by
-- one to those from `pa` on, with the bits of `perm` and PTE_P, and every other address is mapped
-- as before. These are all of the pages, unless `mappages` returns -1, and then no page is free.
pub mappages-IsMapped :
    (e pgdir va pa perm m : ℕ) (k : Kmem) (free : List ℕ)
    → perm < 4096
    → va % 4096 ≡ 0
    → pa % 4096 ≡ 0
    → va + (m + 1) * 4096 ≤ 2 ^ 32
    → pa + (m + 1) * 4096 ≤ 2 ^ 32
    → IsVm e k pgdir free
    → ((u : ℕ) → va ≤ u → u < va + (m + 1) * 4096 → mapped k.word pgdir u ≡ none)
    → (r : Bool × Kmem) × (mappages pgdir va ((m + 1) * 4096) pa perm k ≡ done r)
      × IsMapped e pgdir va (suc m) pa perm k r
mappages-IsMapped e pgdir va pa perm m k free few al alp top topp vm clear =
    let (r, run, ok) =
      map_from-IsMapped e pgdir perm few (m + 1) m va pa (va + m * 4096) k free (omega arith) vm
        (record {
          ends = refl;
          aligned = al;
          aligned_pa = alp;
          top = omega arith;
          top_pa = omega arith;
          unmapped = λ u lo hi. clear u lo (omega arith);
        }) in
    (r, mappages_eq pgdir va pa perm m k al top ∙ run, ok)

-- The kernel's address of the page of an entry that the user may use, or 0.
abbrev pub user_page : Option ℕ → ℕ
user_page none = 0
user_page (some pte) = if is_user pte then p2v (pte_addr pte) else 0

user_page-entry :
    (pte : ℕ)
    → (if not (is_present pte) then 0 else if not (is_user pte) then 0 else p2v (pte_addr pte))
      ≡ user_page (the_entry pte)
user_page-entry pte = elim (Bool-cases (is_present pte)) [
  | inl there ↦ rw there (elim (Bool-cases (is_user pte)) [ inl u ↦ rw u refl | inr s ↦ rw s refl ])
  | inr gone ↦ rw gone refl
]

-- In such a directory `uva2ka` returns the kernel's address of the page that is mapped at the
-- address with PTE_U, and 0 if there is none, if the page table for the address is present; if it
-- is not, `uva2ka` reads through NULL.
pub uva2ka_lem :
    (e pgdir uva : ℕ) (k : Kmem) (free : List ℕ)
    → IsVm e k pgdir free
    → uva2ka pgdir uva k ≡ (
        if is_present (k.word (pde_place pgdir uva))
        then done (user_page (mapped k.word pgdir uva))
        else panic)
unfolding uva2ka walkpgdir
uva2ka_lem e pgdir uva k free vm = elim (Bool-cases (is_present (k.word (pde_place pgdir uva)))) [
  | inl there ↦
      let pde = k.word (pde_place pgdir uva) in
      let at = vm.dir.nonnull (pdx uva) there (pdx-lt uva) in
      let nz : pte_place pde uva ≢ 0 = omega arith in
      let test : (pte_place pde uva == 0) ≡ false = ground arith in
      rw (there, test) (ap done (user_page-entry (k.word (pte_place pde uva))))
  | inr gone ↦ rw gone refl
]

no_table :
    (e pgdir a : ℕ) (k : Kmem)
    → Holds e k []
    → is_present (k.word (pde_place pgdir a)) ≡ false
    → walkpgdir pgdir a true k ≡ (0, k)
unfolding walkpgdir
no_table e pgdir a k none_left gone = rw (gone, kalloc-none e k none_left) refl

-- The loop of `allocuvm` goes on behind a page that could not be mapped.
two_rounds :
    (e pgdir a newsz p fuel : ℕ) (k k1 : Kmem)
    → a < newsz
    → newsz ≤ a + 4096
    → a + 4096 < 2 ^ 32
    → p ≢ 0
    → kalloc k ≡ (p, record k { freelist = k1.freelist })
    → ((pa perm : ℕ)
        → mappages pgdir a 4096 pa perm (clear_page p (record k { freelist = k1.freelist }))
          ≡ done (false, k1))
    → add_pages e (suc (suc fuel)) pgdir a a newsz k ≡ done (newsz, k1)
unfolding add_pages
two_rounds e pgdir a newsz p fuel k k1 lo hi top nz got fails =
    let first : ltb a newsz ≡ true = ground arith in
    let test : (p == 0) ≡ false = ground arith in
    let next : (a + 4096) % 2 ^ 32 ≡ a + 4096 = omega arith in
    let end : ltb (a + 4096) newsz ≡ false = ground arith in
    rw (first, got, test, fails (v2p p) (bit_or pte_w pte_u), next, end) refl

-- With no table for the page and none to be had, `mappages` fails.
mappages-no_table :
    (e pgdir a pa perm : ℕ) (k : Kmem)
    → a % 4096 ≡ 0
    → a + 4096 ≤ 2 ^ 32
    → Holds e k []
    → is_present (k.word (pde_place pgdir a)) ≡ false
    → mappages pgdir a 4096 pa perm k ≡ done (false, k)
mappages-no_table e pgdir a pa perm k al top none_left gone =
    mappages_eq pgdir a pa perm 0 k al (omega arith)
    ∙ map_from-round 0 pgdir a (a + 0 * 4096) pa perm k
    ∙ ap (round_of 0 pgdir a (a + 0 * 4096) pa perm) walked
  where
    walked : walkpgdir pgdir a true k ≡ (0, k)
    walked = no_table e pgdir a k none_left gone

-- If one page is free and the page table for the page-aligned size `oldsz` is not present,
-- `allocuvm` to a size in the next page below KERNBASE returns the new size, with nothing mapped
-- at `oldsz`.
pub allocuvm-unmapped :
    (e pgdir oldsz newsz p : ℕ) (k : Kmem)
    → IsVm e k pgdir (p ∷ [])
    → oldsz % 4096 ≡ 0
    → oldsz < newsz
    → newsz ≤ oldsz + 4096
    → newsz < kernbase
    → is_present (k.word (pde_place pgdir oldsz)) ≡ false
    → (k' : Kmem) × (allocuvm e pgdir oldsz newsz k ≡ done (newsz, k'))
      × (mapped k'.word pgdir oldsz ≡ none)
unfolding allocuvm
allocuvm-unmapped e pgdir oldsz newsz p k vm al lo hi top gone =
    let (n, got, nz, page, out, holds) = kalloc-IsPage e p k [] vm.holds in
    let k1 = clear_page p (record k { freelist = n }) in
    let pal = page.aligned in
    let dal = vm.dir.aligned in
    let apart = vm.dir.absent.0 in
    let same : k1.word (pde_place pgdir oldsz) ≡ k.word (pde_place pgdir oldsz) =
      zero_page-other p k.word (pde_place pgdir oldsz) pal (omega arith) in
    let gone1 = ap is_present same ∙ gone in
    let holds1 =
      Holds-Only e p (record k { freelist = n }) _ [] pal
        (λ a ne. zero_page-other p k.word a pal ne) out holds in
    let low : leb kernbase newsz ≡ false = ground arith in
    let grows : ltb newsz oldsz ≡ false = ground arith in
    let start : (oldsz + 4096 - 1) % 2 ^ 32 / 4096 * 4096 ≡ oldsz = omega arith in
    let rounds : newsz / 4096 + 2 ≡ suc (suc (newsz / 4096)) = omega arith in
    (
      k1,
      rw (low, grows, start, rounds)
          (two_rounds e pgdir oldsz newsz p (newsz / 4096) k k1 lo hi (omega arith) nz got
            (λ pa perm. mappages-no_table e pgdir oldsz pa perm k1 al (omega arith) holds1 gone1)),
      mapped-absent k1.word pgdir oldsz gone1,
    )
