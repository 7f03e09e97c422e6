-- ===== src/Prelude/Lists.antt =====
-- C arrays as lists indexed by native numbers, under the library's names.
use Prim.Native.Nat.{ℕ, zero, suc, ◌+◌, ◌<◌, ◌≤◌}
use mathlib.Core.Path.{◌≡◌, refl, sym, ap}
use mathlib.Core.Logic.{inl, inr}
use mathlib.Core.Bool.{Bool, true, false, ◌&&◌}
use mathlib.Core.List.{List, [], ◌∷◌, ◌++◌, map}
use mathlib.Core.Option
use mathlib.Core.Option.{Option, none, some}
use native.Mathlib.Omega.{arith}
use osce.Prelude.Tests.{◌==◌, ltb, if◌then◌else◌, Bool-cases}

module _ {ℓ} {A : Type ℓ} where
  abbrev pub length : List A → ℕ
  length [] = 0
  length (x ∷ xs) = suc (length xs)

  abbrev pub get_elem? : List A → ℕ → Option A
  get_elem? [] i = none
  get_elem? (x ∷ xs) zero = some x
  get_elem? (x ∷ xs) (suc i) = get_elem? xs i

  abbrev pub get_or : List A → ℕ → A → A
  get_or [] i d = d
  get_or (x ∷ xs) zero d = x
  get_or (x ∷ xs) (suc i) d = get_or xs i d

  -- A write out of bounds changes nothing.
  abbrev pub set : List A → ℕ → A → List A
  set [] i v = []
  set (x ∷ xs) zero v = v ∷ xs
  set (x ∷ xs) (suc i) v = x ∷ set xs i v

  abbrev pub replicate : ℕ → A → List A
  replicate zero a = []
  replicate (suc n) a = a ∷ replicate n a

  abbrev pub take : ℕ → List A → List A
  take zero xs = []
  take (suc n) [] = []
  take (suc n) (x ∷ xs) = x ∷ take n xs

  abbrev pub drop : ℕ → List A → List A
  drop zero xs = xs
  drop (suc n) [] = []
  drop (suc n) (x ∷ xs) = drop n xs

  -- An assignment through a pointer to one element: `p->x = …`.
  abbrev pub modify : List A → ℕ → (A → A) → List A
  modify [] i f = []
  modify (x ∷ xs) zero f = f x ∷ xs
  modify (x ∷ xs) (suc i) f = x ∷ modify xs i f

  pub length-append : (xs ys : List A) → length (xs ++ ys) ≡ length xs + length ys
  length-append [] ys = omega arith
  length-append (x ∷ xs) ys = omega (arith, length-append xs ys)

  pub length-set : (xs : List A) (i : ℕ) (v : A) → length (set xs i v) ≡ length xs
  length-set [] i v = refl
  length-set (x ∷ xs) zero v = refl
  length-set (x ∷ xs) (suc i) v = ap suc (length-set xs i v)

  pub length-modify : (xs : List A) (i : ℕ) (f : A → A) → length (modify xs i f) ≡ length xs
  length-modify [] i f = refl
  length-modify (x ∷ xs) zero f = refl
  length-modify (x ∷ xs) (suc i) f = ap suc (length-modify xs i f)

  -- The element at `j` after an assignment at `i`.
  pub get_elem?-modify :
      (xs : List A) (i j : ℕ) (f : A → A)
      → get_elem? (modify xs i f) j
        ≡ (if i == j then Option.map f (get_elem? xs j) else get_elem? xs j)
  get_elem?-modify [] i j f = ground arith
  get_elem?-modify (x ∷ xs) zero zero f = refl
  get_elem?-modify (x ∷ xs) zero (suc j) f = ground arith
  get_elem?-modify (x ∷ xs) (suc i) zero f = ground arith
  get_elem?-modify (x ∷ xs) (suc i) (suc j) f = ground (arith, get_elem?-modify xs i j f)

  pub get_or-set :
      (xs : List A) (i j : ℕ) (v d : A)
      → i < length xs
      → get_or (set xs i v) j d ≡ (if i == j then v else get_or xs j d)
  get_or-set [] i j v d h = elim h [ ]
  get_or-set (x ∷ xs) zero zero v d h = refl
  get_or-set (x ∷ xs) zero (suc j) v d h = ground arith
  get_or-set (x ∷ xs) (suc i) zero v d h = ground arith
  get_or-set (x ∷ xs) (suc i) (suc j) v d h = ground (arith, get_or-set xs i j v d)

module _ {ℓ κ} {A : Type ℓ} {B : Type κ} where
  pub length-map : (xs : List A) (f : A → B) → length (map f xs) ≡ length xs
  length-map [] f = refl
  length-map (x ∷ xs) f = ap suc (length-map xs f)

  pub get_elem?-map :
      (xs : List A) (f : A → B) (j : ℕ) → get_elem? (map f xs) j ≡ Option.map f (get_elem? xs j)
  get_elem?-map [] f j = refl
  get_elem?-map (x ∷ xs) f zero = refl
  get_elem?-map (x ∷ xs) f (suc j) = get_elem?-map xs f j

module _ {ℓ} {A : Type ℓ} where
  -- A read with a default after an assignment, in bounds or not.
  pub get_or-modify :
      (xs : List A) (i j : ℕ) (f : A → A) (d : A)
      → get_or (modify xs i f) j d
        ≡ (if i == j && ltb i (length xs) then f (get_or xs j d) else get_or xs j d)
  get_or-modify [] i j f d = ground arith
  get_or-modify (x ∷ xs) zero zero f d = ground arith
  get_or-modify (x ∷ xs) zero (suc j) f d = ground arith
  get_or-modify (x ∷ xs) (suc i) zero f d = ground arith
  get_or-modify (x ∷ xs) (suc i) (suc j) f d = ground (arith, get_or-modify xs i j f d)

  pub get_or-map :
      (xs : List A) (f : A → A) (j : ℕ) (d : A)
      → f d ≡ d
      → get_or (map f xs) j d ≡ f (get_or xs j d)
  get_or-map [] f j d h = sym h
  get_or-map (x ∷ xs) f zero d h = refl
  get_or-map (x ∷ xs) f (suc j) d h = get_or-map xs f j d h

  pub get_or_outside : (xs : List A) (j : ℕ) (d : A) → length xs ≤ j → get_or xs j d ≡ d
  get_or_outside [] j d h = refl
  get_or_outside (x ∷ xs) zero d h = absurd (omega arith)
  get_or_outside (x ∷ xs) (suc j) d h = get_or_outside xs j d (omega arith)

module _ {ℓ} {A : Type ℓ} where
  -- `for (p = a; p < a + n; p++) if (test(*p)) goto found;`, counting from `i`.
  unfoldable pub find_first : (A → Bool) → List A → ℕ → Option ℕ
  find_first test [] i = none
  find_first test (x ∷ xs) i = if test x then some i else find_first test xs (i + 1)

  -- `k` is the first index with the test.
  pub record IsFirst (test : A → Bool) (xs : List A) (d : A) (k : ℕ) : Type 0 where
    pub inside : k < length xs
    pub passes : test (get_or xs k d) ≡ true
    pub before : (j : ℕ) → j < k → test (get_or xs j d) ≡ false

  -- What the search comes to: no element passes, or the first that does is found.
  abbrev pub Search : (A → Bool) → List A → A → Option ℕ → Type 0
  Search test xs d none = (j : ℕ) → j < length xs → test (get_or xs j d) ≡ false
  Search test xs d (some k) = IsFirst test xs d k

  abbrev Shifted : (A → Bool) → List A → A → ℕ → Option ℕ → Type 0
  Shifted test xs d i none = (j : ℕ) → j < length xs → test (get_or xs j d) ≡ false
  Shifted test xs d i (some k) = (m : ℕ) × (k ≡ i + m) × IsFirst test xs d m

  none_cons :
      (test : A → Bool) (x : A) (xs : List A) (d : A)
      → test x ≡ false
      → ((j : ℕ) → j < length xs → test (get_or xs j d) ≡ false)
      → (j : ℕ) → j < length (x ∷ xs)
      → test (get_or (x ∷ xs) j d) ≡ false
  none_cons test x xs d miss rest zero h = miss
  none_cons test x xs d miss rest (suc j) h = rest j (omega arith)

  before_cons :
      (test : A → Bool) (x : A) (xs : List A) (d : A) (m : ℕ)
      → test x ≡ false
      → ((j : ℕ) → j < m → test (get_or xs j d) ≡ false)
      → (j : ℕ) → j < suc m
      → test (get_or (x ∷ xs) j d) ≡ false
  before_cons test x xs d m miss rest zero h = miss
  before_cons test x xs d m miss rest (suc j) h = rest j (omega arith)

  Shifted-cons :
      (test : A → Bool) (x : A) (xs : List A) (d : A) (i : ℕ) (r : Option ℕ)
      → test x ≡ false
      → Shifted test xs d (i + 1) r
      → Shifted test (x ∷ xs) d i r
  Shifted-cons test x xs d i none miss rest = none_cons test x xs d miss rest
  Shifted-cons test x xs d i (some k) miss (m, e, first) = (
    suc m,
    omega arith,
    record {
      inside = omega (arith, first.inside);
      passes = first.passes;
      before = before_cons test x xs d m miss first.before;
    },
  )

  find_first-Shifted :
      (test : A → Bool) (xs : List A) (d : A) (i : ℕ) → Shifted test xs d i (find_first test xs i)
  unfolding find_first
  find_first-Shifted test [] d i = λ j h. elim h [ ]
  find_first-Shifted test (x ∷ xs) d i = elim (Bool-cases (test x)) [
    | inl hit ↦
        rw hit (
          0,
          omega arith,
          record { inside = omega arith; passes = hit; before = λ j h. elim h [ ] },
        )
    | inr miss ↦ rw miss (Shifted-cons test x xs d i _ miss (find_first-Shifted test xs d (i + 1)))
  ]

  pub find_first-Search :
      (test : A → Bool) (xs : List A) (d : A) → Search test xs d (find_first test xs 0)
  find_first-Search test xs d = plain (find_first test xs 0) (find_first-Shifted test xs d 0)
    where
      plain : (r : Option ℕ) → Shifted test xs d 0 r → Search test xs d r
      plain none s = s
      plain (some k) (m, e, first) = let e' : k ≡ m = omega arith in rw e' first

  -- The search does not see an assignment that keeps the test.
  pub find_first-modify :
      (test : A → Bool) (f : A → A)
      → ((x : A) → test (f x) ≡ test x)
      → (xs : List A) (i n : ℕ) → find_first test (modify xs i f) n ≡ find_first test xs n
  unfolding find_first
  find_first-modify test f same [] i n = refl
  find_first-modify test f same (x ∷ xs) zero n = rw (same x)
  find_first-modify test f same (x ∷ xs) (suc i) n = rw (find_first-modify test f same xs i (n + 1))

  -- The index that a search returns is the only first one.
  pub find_first-eq :
      (test : A → Bool) (xs : List A) (d : A) (k : ℕ)
      → IsFirst test xs d k
      → find_first test xs 0 ≡ some k
  find_first-eq test xs d k first = pick (find_first test xs 0) (find_first-Search test xs d)
    where
      pick : (r : Option ℕ) → Search test xs d r → r ≡ some k
      pick none miss = cc (miss k first.inside, first.passes)
      pick (some m) other =
          ground (arith, first.before m, first.passes, other.before k, other.passes)
