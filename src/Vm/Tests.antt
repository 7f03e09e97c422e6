-- ===== src/Vm/Tests.antt =====
-- Runs of vm.c: a directory at 0x80300000 with no table, and one with a table at 0x80400000.
use osce.Prelude.{
  ℕ, zero, suc, ◌<◌, ◌≡◌, refl, sym, ap, ◌∙◌, Bool, true, false, none, List, [], ◌∷◌, ◌==◌,
  if◌then◌else◌, arith, done,
}
use osce.Kalloc.{Kmem}
use osce.Kalloc.FreeList.{Chain}
use osce.Vm.{is_present, mappages}
use osce.Vm.Tables.{mapped, entry, table, IsDir}
use osce.Vm.Walk.{IsVm}
use osce.Vm.Mapping.{IsMapped}
use osce.Vm.Spaces.{uva2ka, allocuvm}
use osce.Vm.Maps.{mappages-IsMapped, uva2ka_lem, allocuvm-unmapped}

abbrev kernel_end : ℕ
kernel_end = 0x8010_0000

abbrev pgdir : ℕ
pgdir = 0x8030_0000

-- One page is free.
abbrev blank : Kmem
blank = record { use_lock = true; freelist = 0x8020_0000; word = λ a. 0 }

abbrev blank_free : List ℕ
blank_free = 0x8020_0000 ∷ []

blank-IsDir : IsDir blank.word pgdir blank_free
blank-IsDir = record {
  aligned = refl;
  absent = (omega arith, tt);
  tables = λ i (h : false ≡ true) lt. cc;
  nonnull = λ i (h : false ≡ true) lt. cc;
  apart = λ i (h : false ≡ true) lt. cc;
  distinct = λ i j (h : false ≡ true) h' lt lt' ne. cc;
}

blank-IsVm : IsVm kernel_end blank pgdir blank_free
blank-IsVm = record {
  holds = record {
    chain = Chain.cons (omega arith) Chain.nil;
    legal = (record { aligned = refl; above = omega arith; below = omega arith }, tt, tt);
  };
  small = (omega arith, tt);
  dir = blank-IsDir;
}

-- Two pages at 4096, to 0x500000 and 0x501000, for the user.
mappages-IsMapped_example :
    (r : Bool × Kmem) × (mappages pgdir 4096 8192 0x50_0000 6 blank ≡ done r)
    × IsMapped kernel_end pgdir 4096 2 0x50_0000 6 blank r
mappages-IsMapped_example =
    mappages-IsMapped kernel_end pgdir 4096 0x50_0000 6 1 blank blank_free (omega arith) refl refl
      (omega arith) (omega arith) blank-IsVm (λ u lo hi. refl)

allocuvm-unmapped_example :
    (k' : Kmem) × (allocuvm kernel_end pgdir 0 4096 blank ≡ done (4096, k'))
    × (mapped k'.word pgdir 0 ≡ none)
allocuvm-unmapped_example =
    allocuvm-unmapped kernel_end pgdir 0 4096 0x8020_0000 blank blank-IsVm refl (omega arith)
      (omega arith) (omega arith) refl

-- The page at 0 is the user's, at 0x500000.
abbrev full : Kmem
full = record {
  use_lock = true;
  freelist = 0;
  word = λ a. if a == 0x8030_0000 then 0x40_0007 else if a == 0x8040_0000 then 0x50_0007 else 0;
}

full-entry : (i : ℕ) → i < 1024 → is_present (entry full.word pgdir i) ≡ true → i ≡ 0
full-entry zero lt h = refl
full-entry (suc i) lt h = absurd (ground arith)

full-table : (i : ℕ) → i ≡ 0 → table (entry full.word pgdir i) ≡ 0x8040_0000
full-table i e = ap (λ i. table (entry full.word pgdir i)) e

full-IsDir : IsDir full.word pgdir []
full-IsDir = record {
  aligned = refl;
  absent = tt;
  tables = λ i h lt. tt;
  nonnull = λ i h lt q. absurd (omega (arith, full-table i (full-entry i lt h), q));
  apart = λ i h lt q. absurd (omega (arith, full-table i (full-entry i lt h), q));
  distinct = λ i j h h' lt lt' ne. absurd (ne (full-entry i lt h ∙ sym (full-entry j lt' h')));
}

full-IsVm : IsVm kernel_end full pgdir []
full-IsVm = record {
  holds = record { chain = Chain.nil; legal = tt };
  small = tt;
  dir = full-IsDir;
}

uva2ka_lem_example : uva2ka pgdir 0 full ≡ done 0x8050_0000
uva2ka_lem_example = uva2ka_lem kernel_end pgdir 0 full [] full-IsVm
