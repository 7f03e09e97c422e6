-- ===== src/Kalloc/Tests.antt =====
-- Runs of the page allocator (kalloc.c) on a small memory.
use osce.Prelude.{true, ◌≡◌, refl, [], ◌∷◌, arith, done}
use osce.Kalloc.{Kmem, freerange}
use osce.Kalloc.FreeList.{Chain, IsPage, Holds, freed, freerange-Holds}

abbrev no_memory : Kmem
no_memory = record { use_lock = true; freelist = 0; word = λ _. 0 }

abbrev one_page : Kmem
one_page = record { use_lock = true; freelist = 0x8020_0000; word = λ _. 0 }

page1-IsPage : IsPage 0x8010_0000 0x8020_0000
page1-IsPage = record { aligned = refl; above = omega arith; below = omega arith }

page2-IsPage : IsPage 0x8010_0000 0x8020_1000
page2-IsPage = record { aligned = refl; above = omega arith; below = omega arith }

no_memory-Holds : Holds 0x8000_0800 no_memory []
no_memory-Holds = record { chain = Chain.nil; legal = tt }

one_page-Holds : Holds 0x8010_0000 one_page (0x8020_0000 ∷ [])
one_page-Holds = record {
  chain = Chain.cons (omega arith) Chain.nil;
  legal = (page1-IsPage, tt, tt);
}

freerange-Holds_example :
    (k' : Kmem) × (freerange 0x8000_0800 0x8000_0801 0x8000_4321 no_memory ≡ done k')
    × Holds 0x8000_0800 k' (freed 0x8000_1000 3 [])
freerange-Holds_example =
    freerange-Holds 0x8000_0800 0x8000_4321 (omega arith) (omega arith) 0x8000_0801 no_memory []
      (omega arith) (omega arith) (omega arith) (omega arith) no_memory-Holds tt
