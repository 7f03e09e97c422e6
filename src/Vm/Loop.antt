-- ===== src/Vm/Loop.antt =====
-- vm.c: the loop of `mappages`.
use Prim.Native.Nat.{bit_or}
use osce.Prelude.{
  ℕ, zero, suc, ◌+◌, ◌*◌, ◌%◌, ◌^◌, ◌≤◌, ◌<◌, ◌≡◌, refl, sym, ap, ◌∙◌, Bool, true, false, none,
  List, [], ltb, ◌==◌, if◌then◌else◌, arith, Bool-cases, inl, inr, Outcome, done, panic,
}
use mathlib.Core.Path.{subst}
use osce.Kalloc.{Kmem, store, pg_size}
use osce.Vm.{is_present, pde_place, pte_place, pte_p, write, walkpgdir, map_from}
use osce.Vm.Tables.{mapped}
use osce.Vm.Entries.{mapped-present, the_entry}
use osce.Vm.Walk.{IsVm, IsFound, Walked, walkpgdir-Walked}
use osce.Vm.Mapping.{
  entry_for, entry_for-bits, write-IsVm, now_mapped, now_mapped-outside, now_mapped-suc, IsMapped,
  one_mapped,
}

-- A round of the loop behind `walkpgdir`.
abbrev pub round_of : ℕ → ℕ → ℕ → ℕ → ℕ → ℕ → ℕ × Kmem → Outcome (Bool × Kmem)
round_of fuel pgdir a last pa perm (pte, k1) =
    if pte == 0
    then done (false, k1)
    else if is_present (k1.word pte)
    then panic
    else if a == last
    then done (true, write pte (bit_or (bit_or pa perm) pte_p) k1)
    else map_from fuel pgdir ((a + pg_size) % 2 ^ 32) last ((pa + pg_size) % 2 ^ 32) perm
        (write pte (bit_or (bit_or pa perm) pte_p) k1)

pub map_from-round :
    (fuel pgdir a last pa perm : ℕ) (k : Kmem)
    → map_from (suc fuel) pgdir a last pa perm k
      ≡ round_of fuel pgdir a last pa perm (walkpgdir pgdir a true k)
unfolding map_from
map_from-round fuel pgdir a last pa perm k = refl

abbrev pub Maps : ℕ → ℕ → ℕ → ℕ → ℕ → ℕ → Kmem → Outcome (Bool × Kmem) → Type 0
Maps e pgdir a n pa perm k m = (r : Bool × Kmem) × (m ≡ done r) × IsMapped e pgdir a n pa perm k r

-- Nothing is mapped at the entry that `walkpgdir` finds for an address that is not mapped.
not-present :
    (e pgdir a : ℕ) (k : Kmem) (r : ℕ × Kmem)
    → IsFound e pgdir a k r
    → mapped k.word pgdir a ≡ none
    → is_present (r.1.word r.0) ≡ false
not-present e pgdir a k r f free_ =
    let pte = r.1.word (pte_place (r.1.word (pde_place pgdir a)) a) in
    let now : the_entry pte ≡ none =
      sym (mapped-present r.1.word pgdir a _ pte refl f.present refl) ∙ f.same a ∙ free_ in
    ap (λ p. is_present (r.1.word p)) f.at ∙ absent pte now
  where
    absent : (pte : ℕ) → the_entry pte ≡ none → is_present pte ≡ false
    absent pte e = ground arith

-- The pages from `a` on, `suc m` of them, are not mapped and end inside the address space.
module _ (e pgdir perm : ℕ) (few : perm < 4096) where
  -- One page, behind a `walkpgdir` that found the entry.
  page-IsVm :
      (a x : ℕ) (k : Kmem) (r : ℕ × Kmem) (f : IsFound e pgdir a k r)
      → IsVm e (write r.0 x r.1) pgdir f.free
  page-IsVm a x k r f =
      subst (λ p. IsVm e (write p x r.1) pgdir f.free) (sym f.at)
        (write-IsVm e pgdir a x r.1 f.free f.vm f.present)

  page_maps :
      (a pa : ℕ) (k : Kmem) (r : ℕ × Kmem) (f : IsFound e pgdir a k r)
      → a % 4096 ≡ 0
      → a < 2 ^ 32
      → (u : ℕ) → u < 2 ^ 32
      → mapped (store r.0 (entry_for pa perm) r.1.word) pgdir u
        ≡ now_mapped a 1 pa perm u (mapped k.word pgdir u)
  page_maps a pa k r f al la u lu =
      ap (λ p. mapped (store p (entry_for pa perm) r.1.word) pgdir u) f.at
      ∙ one_mapped e pgdir a pa perm r.1 f.free f.vm f.present al la u lu
      ∙ ap (now_mapped a 1 pa perm u) (f.same u)

  last_page :
      (a pa : ℕ) (k : Kmem) (r : ℕ × Kmem) (f : IsFound e pgdir a k r)
      → a % 4096 ≡ 0
      → a < 2 ^ 32
      → IsMapped e pgdir a 1 pa perm k (true, write r.0 (entry_for pa perm) r.1)
  last_page a pa k r f al la = record {
    free = f.free;
    vm = page-IsVm a (entry_for pa perm) k r f;
    count = 1;
    reached = λ _. refl;
    part = λ (q : true ≡ false). cc;
    maps = page_maps a pa k r f al la;
  }

  more_pages :
      (n a pa : ℕ) (k k2 : Kmem) (r : Bool × Kmem)
      → a % 4096 ≡ 0
      → ((u : ℕ)
          → u < 2 ^ 32
          → mapped k2.word pgdir u ≡ now_mapped a 1 pa perm u (mapped k.word pgdir u))
      → IsMapped e pgdir (a + 4096) n (pa + 4096) perm k2 r
      → IsMapped e pgdir a (suc n) pa perm k r
  more_pages n a pa k k2 r al first rest = record {
    free = rest.free;
    vm = rest.vm;
    count = suc rest.count;
    reached = λ ok. ap suc (rest.reached ok);
    part = λ bad. let (lt, empty) = rest.part bad in (omega arith, empty);
    maps = λ u lu.
        rest.maps u lu
        ∙ ap (now_mapped (a + 4096) rest.count (pa + 4096) perm u) (first u lu)
        ∙ now_mapped-suc a rest.count pa perm u _ al;
  }

  stopped :
      (n a pa : ℕ) (k : Kmem) (free : List ℕ)
      → 0 < n
      → free ≡ []
      → IsVm e k pgdir free
      → IsMapped e pgdir a n pa perm k (false, k)
  stopped n a pa k free pos empty vm = record {
    free = free;
    vm = vm;
    count = 0;
    reached = λ (q : false ≡ true). cc;
    part = λ _. (pos, empty);
    maps = λ u lu.
        now_mapped-outside a 0 pa perm u _ (elim (Bool-cases (ltb u a)) [
          | inl lt ↦ inl (ground arith)
          | inr ge ↦ inr (ground arith)
        ]);
  }

  -- The conditions for `suc m` pages from `a` on.
  pub record Fits (m a pa last : ℕ) (k : Kmem) : Type 0 where
    pub ends : last ≡ a + m * 4096
    pub aligned : a % 4096 ≡ 0
    pub aligned_pa : pa % 4096 ≡ 0
    pub top : a + m * 4096 + 4096 ≤ 2 ^ 32
    pub top_pa : pa + m * 4096 + 4096 ≤ 2 ^ 32
    pub unmapped : (u : ℕ) → a ≤ u → u < a + m * 4096 + 4096 → mapped k.word pgdir u ≡ none

  Fits-next :
      (m a pa last : ℕ) (k k2 : Kmem)
      → ((u : ℕ)
          → u < 2 ^ 32
          → mapped k2.word pgdir u ≡ now_mapped a 1 pa perm u (mapped k.word pgdir u))
      → Fits (suc m) a pa last k
      → Fits m (a + 4096) (pa + 4096) last k2
  Fits-next m a pa last k k2 first f =
      let al = f.aligned in
      let alp = f.aligned_pa in
      let t = f.top in
      let tp = f.top_pa in
      let en = f.ends in
      record {
        ends = omega arith;
        aligned = omega arith;
        aligned_pa = omega arith;
        top = omega arith;
        top_pa = omega arith;
        unmapped = λ u lo hi.
            first u (omega arith)
            ∙ sym (now_mapped-outside a 1 pa perm u _ (inr (omega arith)))
            ∙ f.unmapped u (omega arith) (omega arith);
      }

  -- The recursive call, for the pages behind the first.
  abbrev Next : ℕ → ℕ → ℕ → ℕ → ℕ → Type 0
  Next fuel m a pa last =
      (n : ℕ) (k2 : Kmem) (free2 : List ℕ)
      → m ≡ suc n
      → IsVm e k2 pgdir free2
      → Fits n (a + 4096) (pa + 4096) last k2
      → Maps e pgdir (a + 4096) (suc n) (pa + 4096) perm k2
          (map_from fuel pgdir (a + 4096) last (pa + 4096) perm k2)

  found_lem :
      (fuel m a pa last : ℕ) (k : Kmem) (r : ℕ × Kmem)
      → Fits m a pa last k
      → Next fuel m a pa last
      → IsFound e pgdir a k r
      → Maps e pgdir a (suc m) pa perm k (round_of fuel pgdir a last pa perm r)
  found_lem fuel zero a pa last k r fits next f =
      let nz = f.nonnull in
      let test : (r.0 == 0) ≡ false = ground arith in
      let t = fits.top in
      let gone = not-present e pgdir a k r f (fits.unmapped a (omega arith) (omega arith)) in
      let en = fits.ends in
      let end : (a == last) ≡ true = ground arith in
      let bits = entry_for-bits pa perm fits.aligned_pa few in
      (
        (true, write r.0 (entry_for pa perm) r.1),
        rw (test, gone, end, bits) refl,
        last_page a pa k r f fits.aligned (omega arith),
      )
  found_lem fuel (suc n) a pa last k r fits next f =
      let nz = f.nonnull in
      let test : (r.0 == 0) ≡ false = ground arith in
      let t = fits.top in
      let tp = fits.top_pa in
      let gone = not-present e pgdir a k r f (fits.unmapped a (omega arith) (omega arith)) in
      let en = fits.ends in
      let go_on : (a == last) ≡ false = ground arith in
      let bits = entry_for-bits pa perm fits.aligned_pa few in
      let wrap : (a + pg_size) % 2 ^ 32 ≡ a + 4096 = omega arith in
      let wrap_pa : (pa + pg_size) % 2 ^ 32 ≡ pa + 4096 = omega arith in
      let k2 = write r.0 (entry_for pa perm) r.1 in
      let step : round_of fuel pgdir a last pa perm r
          ≡ map_from fuel pgdir (a + 4096) last (pa + 4096) perm k2 =
        rw (test, gone, go_on, bits, wrap, wrap_pa) refl in
      let first = page_maps a pa k r f fits.aligned (omega arith) in
      let (r', run, rest) =
        next n k2 f.free refl (page-IsVm a (entry_for pa perm) k r f)
          (Fits-next n a pa last k k2 first fits) in
      (r', step ∙ run, more_pages (suc n) a pa k k2 r' fits.aligned first rest)

  round_lem :
      (fuel m a pa last : ℕ) (k : Kmem) (free : List ℕ) (r : ℕ × Kmem)
      → IsVm e k pgdir free
      → Fits m a pa last k
      → Next fuel m a pa last
      → Walked e pgdir a k free r
      → Maps e pgdir a (suc m) pa perm k (round_of fuel pgdir a last pa perm r)
  round_lem fuel m a pa last k free (p, k1) vm fits next (inl (null, same, empty)) =
      ((false, k), rw (null, same) refl, stopped (suc m) a pa k free (omega arith) empty vm)
  round_lem fuel m a pa last k free r vm fits next (inr f) =
      found_lem fuel m a pa last k r fits next f

  pub map_from-IsMapped :
      (fuel m a pa last : ℕ) (k : Kmem) (free : List ℕ)
      → m < fuel
      → IsVm e k pgdir free
      → Fits m a pa last k
      → Maps e pgdir a (suc m) pa perm k (map_from fuel pgdir a last pa perm k)
  map_from-IsMapped zero m a pa last k free lt vm fits = absurd (omega arith)
  map_from-IsMapped (suc fuel) m a pa last k free lt vm fits =
      rw (map_from-round fuel pgdir a last pa perm k) (
        round_lem fuel m a pa last k free (walkpgdir pgdir a true k) vm fits
          (λ n k2 free2 e2 vm2 fits2.
            map_from-IsMapped fuel n (a + 4096) (pa + 4096) last k2 free2 (omega arith) vm2 fits2)
          (walkpgdir-Walked e pgdir a k free vm))
