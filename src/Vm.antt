-- ===== src/Vm.antt =====
-- vm.c: page directories and page tables, in the memory of kalloc.c. A page table is a page of
-- words; a test or a mask of the low bits of an entry is written as a quotient or a remainder.
pub mod Bits
pub mod Tables
pub mod Entries
pub mod Fresh
pub mod Walk
pub mod Mapping
pub mod Loop
pub mod Spaces
pub mod Maps
mod Tests
use Prim.Native.Nat.{bit_or}
use osce.Prelude.{
  ℕ, zero, suc, ◌+◌, ◌-◌, ◌*◌, ◌/◌, ◌%◌, ◌^◌, Bool, true, false, not, ◌&&◌, ◌||◌, List, [], ◌∷◌,
  ltb, leb, ◌==◌, if◌then◌else◌, Outcome, done, panic, out_of_fuel, ◌>>=◌,
}
use osce.Kalloc.{Kmem, pg_size, kernbase, phystop, v2p, store, pg_round_up, kfree, kalloc}

abbrev pub p2v : ℕ → ℕ
p2v a = (a + kernbase) % 2 ^ 32

abbrev pub pdx : ℕ → ℕ
pdx va = va / 4194304 % 1024

abbrev pub ptx : ℕ → ℕ
ptx va = va / 4096 % 1024

abbrev pub pg_round_down : ℕ → ℕ
pg_round_down a = a / pg_size * pg_size

-- `PTE_P`, `PTE_W` and `PTE_U`
abbrev pub pte_p : ℕ
pte_p = 1

abbrev pub pte_w : ℕ
pte_w = 2

abbrev pub pte_u : ℕ
pte_u = 4

-- `*pte & PTE_P`, and `*pte & PTE_U`
abbrev pub is_present : ℕ → Bool
is_present pte = pte % 2 == 1

abbrev pub is_user : ℕ → Bool
is_user pte = pte / 4 % 2 == 1

abbrev pub pte_addr : ℕ → ℕ
pte_addr pte = pte / 4096 * 4096

abbrev pub pte_flags : ℕ → ℕ
pte_flags pte = pte % 4096

-- `memset(v, 0, PGSIZE)`, word by word.
abbrev pub zero_page : ℕ → (ℕ → ℕ) → ℕ → ℕ
zero_page v w a = if leb v a then (if ltb a (v + pg_size) then 0 else w a) else w a

-- `memmove(dst, src, PGSIZE)` of two pages.
abbrev pub copy_page : ℕ → ℕ → (ℕ → ℕ) → ℕ → ℕ
copy_page dst src w a =
    if leb dst a then (if ltb a (dst + pg_size) then w (src + (a - dst)) else w a) else w a

-- `*p = x`
abbrev pub write : ℕ → ℕ → Kmem → Kmem
write p x k = record k { word = store p x k.word }

abbrev pub clear_page : ℕ → Kmem → Kmem
clear_page v k = record k { word = zero_page v k.word }

-- `&pgdir[PDX(va)]`, and `&pgtab[PTX(va)]` for the table of the directory entry `pde`.
abbrev pub pde_place : ℕ → ℕ → ℕ
pde_place pgdir va = pgdir + 4 * pdx va

abbrev pub pte_place : ℕ → ℕ → ℕ
pte_place pde va = p2v (pte_addr pde) + 4 * ptx va

-- A new page table, for the directory entry at `place`.
unfoldable pub new_table : ℕ → ℕ → Kmem → ℕ × Kmem
new_table place va k =
    let (pgtab, k1) = kalloc k in
    let pde = bit_or (bit_or (bit_or (v2p pgtab) pte_p) pte_w) pte_u in
    if pgtab == 0 then (0, k1) else (pgtab + 4 * ptx va, write place pde (clear_page pgtab k1))

unfoldable pub walkpgdir : ℕ → ℕ → Bool → Kmem → ℕ × Kmem
unfolding new_table
walkpgdir pgdir va alloc k =
    let place = pde_place pgdir va in
    if is_present (k.word place)
    then (pte_place (k.word place) va, k)
    else if not alloc
    then (0, k)
    else new_table place va k

-- The loop of `mappages` from `a`: whether it reaches `last`, which is when 0 is returned.
unfoldable pub map_from : ℕ → ℕ → ℕ → ℕ → ℕ → ℕ → Kmem → Outcome (Bool × Kmem)
unfolding walkpgdir
map_from zero pgdir a last pa perm k = out_of_fuel
map_from (suc fuel) pgdir a last pa perm k =
    let (pte, k1) = walkpgdir pgdir a true k in
    let k2 = write pte (bit_or (bit_or pa perm) pte_p) k1 in
    let rest =
      map_from fuel pgdir ((a + pg_size) % 2 ^ 32) last ((pa + pg_size) % 2 ^ 32) perm k2 in
    if pte == 0
    then done (false, k1)
    else if is_present (k1.word pte)
    then panic
    else if a == last
    then done (true, k2)
    else rest

-- The pages from the first to the last.
unfoldable pub mappages : ℕ → ℕ → ℕ → ℕ → ℕ → Kmem → Outcome (Bool × Kmem)
unfolding map_from
mappages pgdir va size pa perm k =
    let a = pg_round_down va in
    let last = pg_round_down ((va + size + 2 ^ 32 - 1) % 2 ^ 32) in
    map_from ((last + 2 ^ 32 - a) % 2 ^ 32 / pg_size + 1) pgdir a last pa perm k

abbrev pub extmem : ℕ
extmem = 0x10_0000

abbrev pub kernlink : ℕ
kernlink = 0x8010_0000

abbrev pub devspace : ℕ
devspace = 0xfe00_0000

pub record Kmap : Type 0 where
  pub virt : ℕ
  pub phys_start : ℕ
  pub phys_end : ℕ
  pub perm : ℕ

-- `text_end` is the address of `data`, which the linker sets.
abbrev pub kmap : ℕ → List Kmap
kmap text_end =
    record { virt = kernbase; phys_start = 0; phys_end = extmem; perm = pte_w }
    ∷ record { virt = kernlink; phys_start = v2p kernlink; phys_end = v2p text_end; perm = 0 }
    ∷ record { virt = text_end; phys_start = v2p text_end; phys_end = phystop; perm = pte_w }
    ∷ record { virt = devspace; phys_start = devspace; phys_end = 0; perm = pte_w }
    ∷ []

-- The loop of `setupkvm`.
unfoldable pub map_kernel : ℕ → List Kmap → Kmem → Outcome (ℕ × Kmem)
unfolding mappages
map_kernel pgdir [] k = done (pgdir, k)
map_kernel pgdir (m ∷ ms) k = do
  let size = (m.phys_end + 2 ^ 32 - m.phys_start) % 2 ^ 32
  (ok, k1) ← mappages pgdir m.virt size m.phys_start m.perm k
  let rest = map_kernel pgdir ms k1
  if ok then rest else done (0, k1)

unfoldable pub setupkvm : ℕ → Kmem → Outcome (ℕ × Kmem)
unfolding map_kernel
setupkvm text_end k =
    let (pgdir, k1) = kalloc k in
    let rest = map_kernel pgdir (kmap text_end) (clear_page pgdir k1) in
    if pgdir == 0 then done (0, k1) else if ltb devspace (p2v phystop) then panic else rest
