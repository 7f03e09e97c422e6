-- ===== src/Vm/Spaces.antt =====
-- vm.c: the user part of an address space. The `kfree` of kalloc.c takes the end of the kernel.
use Prim.Native.Nat.{bit_or}
use osce.Prelude.{
  ℕ, zero, suc, ◌+◌, ◌-◌, ◌*◌, ◌/◌, ◌%◌, ◌^◌, Bool, false, not, ltb, leb, ◌==◌, if◌then◌else◌,
  Outcome, done, panic, out_of_fuel, ◌>>=◌,
}
use osce.Kalloc.{Kmem, pg_size, kernbase, v2p, pg_round_up, kfree, kalloc}
use osce.Vm.{
  p2v, pte_w, pte_u, is_present, is_user, pte_addr, pte_flags, copy_page, write, clear_page,
  walkpgdir, mappages, setupkvm,
}

-- A read of `*pte`; the entry is `panic` where `walkpgdir` returned NULL.
abbrev pub read_pte : ℕ → Kmem → Outcome ℕ
read_pte pte k = if pte == 0 then panic else done (k.word pte)

-- The kernel's address of the page, or 0.
unfoldable pub uva2ka : ℕ → ℕ → Kmem → Outcome ℕ
unfolding walkpgdir
uva2ka pgdir uva k = do
  pte ← read_pte (walkpgdir pgdir uva false k).0 k
  done (if not (is_present pte) then 0 else if not (is_user pte) then 0 else p2v (pte_addr pte))

-- `*pte &= ~PTE_U`
unfoldable pub clearpteu : ℕ → ℕ → Kmem → Outcome Kmem
unfolding walkpgdir
clearpteu pgdir uva k =
    let pte = (walkpgdir pgdir uva false k).0 in
    let x = k.word pte in
    if pte == 0 then panic else done (write pte (if is_user x then x - pte_u else x) k)

module _ (kernel_end : ℕ) where
  -- A round of `deallocuvm` at the entry `pte`, which is not NULL.
  unfoldable pub free_page : ℕ → Kmem → Outcome Kmem
  free_page pte k =
      let pa = pte_addr (k.word pte) in
      let freed = (do k1 ← kfree kernel_end (p2v pa) k; done (write pte 0 k1)) in
      if not (is_present (k.word pte)) then done k else if pa == 0 then panic else freed

  -- The loop of `deallocuvm` from `a`. A missing table is passed over.
  unfoldable pub free_pages : ℕ → ℕ → ℕ → ℕ → Kmem → Outcome Kmem
  unfolding walkpgdir free_page
  free_pages zero pgdir a oldsz k = out_of_fuel
  free_pages (suc fuel) pgdir a oldsz k =
      let pte = (walkpgdir pgdir a false k).0 in
      let passed = free_pages fuel pgdir ((a + 1023 * pg_size + pg_size) % 2 ^ 32) oldsz k in
      let freed = (do
        k1 ← free_page pte k
        free_pages fuel pgdir ((a + pg_size) % 2 ^ 32) oldsz k1) in
      if not (ltb a oldsz) then done k else if pte == 0 then passed else freed

  unfoldable pub deallocuvm : ℕ → ℕ → ℕ → Kmem → Outcome (ℕ × Kmem)
  unfolding free_pages
  deallocuvm pgdir oldsz newsz k =
      let shrunk = (do
        k1 ← free_pages (oldsz / pg_size + 2) pgdir (pg_round_up newsz) oldsz k
        done (newsz, k1)) in
      if leb oldsz newsz then done (oldsz, k) else shrunk

  -- The loop of `allocuvm` from `a`. What `mappages` returns is not looked at.
  unfoldable pub add_pages : ℕ → ℕ → ℕ → ℕ → ℕ → Kmem → Outcome (ℕ × Kmem)
  add_pages zero pgdir a oldsz newsz k = out_of_fuel
  add_pages (suc fuel) pgdir a oldsz newsz k =
      let (mem, k1) = kalloc k in
      let undone = (do (sz, k2) ← deallocuvm pgdir newsz oldsz k1; done (0, k2)) in
      let added = (do
        (ok, k2) ← mappages pgdir a pg_size (v2p mem) (bit_or pte_w pte_u) (clear_page mem k1)
        add_pages fuel pgdir ((a + pg_size) % 2 ^ 32) oldsz newsz k2) in
      if not (ltb a newsz) then done (newsz, k) else if mem == 0 then undone else added

  unfoldable pub allocuvm : ℕ → ℕ → ℕ → Kmem → Outcome (ℕ × Kmem)
  unfolding add_pages
  allocuvm pgdir oldsz newsz k =
      if leb kernbase newsz
      then done (0, k)
      else if ltb newsz oldsz
      then done (oldsz, k)
      else add_pages (newsz / pg_size + 2) pgdir (pg_round_up oldsz) oldsz newsz k

  -- The loop of `freevm` over the directory: `n` entries from `i` on.
  unfoldable pub free_tables : ℕ → ℕ → ℕ → Kmem → Outcome Kmem
  free_tables pgdir i zero k = done k
  free_tables pgdir i (suc n) k =
      let pde = k.word (pgdir + 4 * i) in
      let freed = (do
        k1 ← kfree kernel_end (p2v (pte_addr pde)) k
        free_tables pgdir (i + 1) n k1) in
      let rest = free_tables pgdir (i + 1) n k in if is_present pde then freed else rest

  unfoldable pub freevm : ℕ → Kmem → Outcome Kmem
  unfolding deallocuvm free_tables
  freevm pgdir k =
      let freed = (do
        (sz, k1) ← deallocuvm pgdir kernbase 0 k
        k2 ← free_tables pgdir 0 1024 k1
        kfree kernel_end pgdir k2) in
      if pgdir == 0 then panic else freed

  -- `bad:` of `copyuvm`.
  unfoldable pub copy_failed : ℕ → Kmem → Outcome (ℕ × Kmem)
  unfolding freevm
  copy_failed d k = do k1 ← freevm d k; done (0, k1)

  -- The page at `i`, whose entry is `pte`: whether the copy is mapped.
  unfoldable pub copy_one : ℕ → ℕ → ℕ → Kmem → Outcome (Bool × Kmem)
  unfolding mappages
  copy_one d i pte k =
      let pa = pte_addr pte in
      let (mem, k1) = kalloc k in
      let copied = record k1 { word = copy_page mem (p2v pa) k1.word } in
      if mem == 0 then done (false, k1) else mappages d i pg_size (v2p mem) (pte_flags pte) copied

  -- The loop of `copyuvm` from `i`.
  unfoldable pub copy_pages : ℕ → ℕ → ℕ → ℕ → ℕ → Kmem → Outcome (ℕ × Kmem)
  unfolding walkpgdir copy_one copy_failed
  copy_pages zero pgdir d i sz k = out_of_fuel
  copy_pages (suc fuel) pgdir d i sz k =
      let copied = (do
        pte ← read_pte (walkpgdir pgdir i false k).0 k
        let copy = (do
          (ok, k1) ← copy_one d i pte k
          let rest = copy_pages fuel pgdir d ((i + pg_size) % 2 ^ 32) sz k1
          if ok then rest else copy_failed d k1)
        if is_present pte then copy else panic) in
      if not (ltb i sz) then done (d, k) else copied

  -- `text_end` is the address of `data`.
  unfoldable pub copyuvm : ℕ → ℕ → ℕ → Kmem → Outcome (ℕ × Kmem)
  unfolding copy_pages setupkvm
  copyuvm text_end pgdir sz k = do
    (d, k1) ← setupkvm text_end k
    let rest = copy_pages (sz / pg_size + 2) pgdir d 0 sz k1
    if d == 0 then done (0, k1) else rest
