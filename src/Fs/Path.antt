-- ===== src/Fs/Path.antt =====
-- fs.c, `skipelem`: the elements of a path name. A path is the list of its bytes, without the 0.
use osce.Prelude.{
  ℕ, zero, suc, ◌+◌, ◌<◌, ◌≤◌, ◌≡◌, refl, sym, ◌∙◌, ap, false, ◌==◌, leb, if◌then◌else◌, Option,
  none, some, List, [], ◌∷◌, ◌++◌, length, take, drop, arith, Bool-cases, inl, inr,
}
use osce.Str.{cstr}

abbrev pub dirsiz : ℕ
dirsiz = 14

-- The byte `/`.
abbrev pub slash : ℕ
slash = 47

-- `while(*path == '/') path++;`
unfoldable pub skip_slashes : List ℕ → List ℕ
skip_slashes [] = []
skip_slashes (c ∷ path) = if c == slash then skip_slashes path else c ∷ path

-- `while(*path != '/' && *path != 0) path++;`: what is passed, and what is left.
unfoldable pub span_elem : List ℕ → List ℕ × List ℕ
span_elem [] = ([], [])
span_elem (c ∷ path) =
    if c == slash then ([], c ∷ path) else (c ∷ (span_elem path).0, (span_elem path).1)

-- `name` after an element of `path` was copied to it.
abbrev pub copy_elem : List ℕ → List ℕ → List ℕ
copy_elem elem name =
    if leb dirsiz (length elem)
    then take dirsiz elem ++ drop dirsiz name
    else elem ++ 0 ∷ drop (length elem + 1) name

-- `skipelem` behind the first slashes; `none` for 0.
abbrev pub next_elem : List ℕ → List ℕ → Option (List ℕ × List ℕ)
next_elem [] name = none
next_elem (c ∷ path) name =
    some (skip_slashes (span_elem (c ∷ path)).1, copy_elem (span_elem (c ∷ path)).0 name)

unfoldable pub skipelem : List ℕ → List ℕ → Option (List ℕ × List ℕ)
unfolding skip_slashes span_elem
skipelem path name = next_elem (skip_slashes path) name

-- A reference: the parts between slashes, and those of them that are not empty.
abbrev pub push : ℕ → List (List ℕ) → List (List ℕ)
push c [] = (c ∷ []) ∷ []
push c (x ∷ xs) = (c ∷ x) ∷ xs

pub parts : List ℕ → List (List ℕ)
parts [] = [] ∷ []
parts (c ∷ path) = if c == slash then [] ∷ parts path else push c (parts path)

pub nonempty : List (List ℕ) → List (List ℕ)
nonempty [] = []
nonempty ([] ∷ xs) = nonempty xs
nonempty ((c ∷ x) ∷ xs) = (c ∷ x) ∷ nonempty xs

unfoldable pub components : List ℕ → List (List ℕ)
unfolding parts nonempty
components path = nonempty (parts path)

stay : (c : ℕ) (path : List ℕ) → (c == slash) ≡ false → skip_slashes (c ∷ path) ≡ c ∷ path
unfolding skip_slashes
stay c path off = rw off refl

components-skip : (path : List ℕ) → components (skip_slashes path) ≡ components path
unfolding components parts nonempty skip_slashes
components-skip [] = refl
components-skip (c ∷ path) = elim (Bool-cases (c == slash)) [
  | inl at ↦ rw at (components-skip path)
  | inr off ↦ ap components (stay c path off)
]

-- The parts of a path are those behind its first element, with the element in front.
abbrev with_rest : List ℕ → List ℕ → List (List ℕ)
with_rest elem [] = elem ∷ []
with_rest elem (c ∷ rest) = elem ∷ parts rest

IsStop : List ℕ → Type 0
IsStop [] = Unit
IsStop (c ∷ rest) = c ≡ slash

span-IsStop : (path : List ℕ) → IsStop (span_elem path).1
unfolding span_elem IsStop
span-IsStop [] = tt
span-IsStop (c ∷ path) = elim (Bool-cases (c == slash)) [
  | inl at ↦ rw at (ground arith)
  | inr off ↦ rw off (span-IsStop path)
]

push-with_rest :
    (c : ℕ) (elem rest : List ℕ) → push c (with_rest elem rest) ≡ with_rest (c ∷ elem) rest
push-with_rest c elem [] = refl
push-with_rest c elem (d ∷ rest) = refl

parts-span : (path : List ℕ) → parts path ≡ with_rest (span_elem path).0 (span_elem path).1
unfolding parts span_elem
parts-span [] = refl
parts-span (c ∷ path) = elim (Bool-cases (c == slash)) [
  | inl at ↦ rw at refl
  | inr off ↦
      rw off
        (ap (push c) (parts-span path) ∙ push-with_rest c (span_elem path).0 (span_elem path).1)
]

nonempty-with_rest :
    (c : ℕ) (elem rest : List ℕ)
    → IsStop rest
    → nonempty (with_rest (c ∷ elem) rest) ≡ (c ∷ elem) ∷ components (skip_slashes rest)
unfolding components parts nonempty skip_slashes IsStop
nonempty-with_rest c elem [] stop = refl
nonempty-with_rest c elem (d ∷ rest) stop =
    rw stop (ap (◌∷◌ (c ∷ elem)) (sym (components-skip rest)))

-- The first byte behind the slashes is none.
unfoldable pub IsSkipped : List ℕ → Type 0
IsSkipped [] = Unit
IsSkipped (c ∷ rest) = (c == slash) ≡ false

pub skip-IsSkipped : (path : List ℕ) → IsSkipped (skip_slashes path)
unfolding skip_slashes IsSkipped
skip-IsSkipped [] = tt
skip-IsSkipped (c ∷ path) = elim (Bool-cases (c == slash)) [
  | inl at ↦ rw at (skip-IsSkipped path)
  | inr off ↦ rw off off
]

-- What `skipelem` says of the elements of the path: `none` at the end, else the first of them,
-- copied to `name`, and a path to the others that does not start with a slash.
abbrev pub Skipped : List ℕ → List ℕ → Option (List ℕ × List ℕ) → Type 0
Skipped path name none = components path ≡ []
Skipped path name (some (rest, copy)) =
    (elem : List ℕ) × (components path ≡ elem ∷ components rest)
    × (cstr (take dirsiz copy) ≡ take dirsiz elem)
    × IsSkipped rest

unfoldable pub NoNul : List ℕ → Type 0
NoNul [] = Unit
NoNul (c ∷ s) = ((c == 0) ≡ false) × NoNul s

skip-NoNul : (path : List ℕ) → NoNul path → NoNul (skip_slashes path)
unfolding skip_slashes NoNul
skip-NoNul [] full = tt
skip-NoNul (c ∷ path) full = elim (Bool-cases (c == slash)) [
  | inl at ↦ rw at (skip-NoNul path full.1)
  | inr off ↦ rw off full
]

span-NoNul : (path : List ℕ) → NoNul path → NoNul (span_elem path).0
unfolding span_elem NoNul
span-NoNul [] full = tt
span-NoNul (c ∷ path) full = elim (Bool-cases (c == slash)) [
  | inl at ↦ rw at tt
  | inr off ↦ rw off (full.0, span-NoNul path full.1)
]

cstr-ended : (k : ℕ) (s r : List ℕ) → NoNul s → length s < k → cstr (take k (s ++ 0 ∷ r)) ≡ take k s
unfolding NoNul
cstr-ended zero s r full fits = absurd (omega arith)
cstr-ended (suc k) [] r full fits = refl
cstr-ended (suc k) (c ∷ s) r full fits =
    rw (full.0) (ap (◌∷◌ c) (cstr-ended k s r full.1 (omega arith)))

cstr-cut :
    (k : ℕ) (s r : List ℕ) → NoNul s → k ≤ length s → cstr (take k (take k s ++ r)) ≡ take k s
unfolding NoNul
cstr-cut zero s r full long = refl
cstr-cut (suc k) [] r full long = absurd (omega arith)
cstr-cut (suc k) (c ∷ s) r full long =
    rw (full.0) (ap (◌∷◌ c) (cstr-cut k s r full.1 (omega arith)))

copy_elem-cstr :
    (elem name : List ℕ) → NoNul elem → cstr (take dirsiz (copy_elem elem name)) ≡ take dirsiz elem
copy_elem-cstr elem name full = elim (Bool-cases (leb dirsiz (length elem))) [
  | inl long ↦ rw long (cstr-cut dirsiz elem (drop dirsiz name) full (ground arith))
  | inr short ↦ rw short (cstr-ended dirsiz elem (drop (length elem + 1) name) full (ground arith))
]

span-step :
    (c : ℕ) (path : List ℕ)
    → (c == slash) ≡ false
    → span_elem (c ∷ path) ≡ (c ∷ (span_elem path).0, (span_elem path).1)
unfolding span_elem
span-step c path off = rw off refl

first-elem :
    (c : ℕ) (path : List ℕ)
    → (c == slash) ≡ false
    → components (c ∷ path)
      ≡ (span_elem (c ∷ path)).0 ∷ components (skip_slashes (span_elem (c ∷ path)).1)
unfolding components
first-elem c path off =
    ap nonempty (parts-span (c ∷ path))
    ∙ rw (span-step c path off)
        (nonempty-with_rest c (span_elem path).0 (span_elem path).1 (span-IsStop path))

next_elem-Skipped :
    (path name : List ℕ) → NoNul path → IsSkipped path → Skipped path name (next_elem path name)
unfolding components parts nonempty IsSkipped
next_elem-Skipped [] name full off = refl
next_elem-Skipped (c ∷ path) name full off =
    let elem = (span_elem (c ∷ path)).0 in
    let rest = (span_elem (c ∷ path)).1 in
    (
      elem,
      first-elem c path off,
      copy_elem-cstr elem name (span-NoNul (c ∷ path) full),
      skip-IsSkipped rest,
    )

carry_over :
    (path path' name : List ℕ)
    → components path ≡ components path'
    → (r : Option (List ℕ × List ℕ)) → Skipped path name r
    → Skipped path' name r
carry_over path path' name e none end = sym e ∙ end
carry_over path path' name e (some (rest, copy)) (elem, split, cut, back) =
    (elem, sym e ∙ split, cut, back)

-- On a path without 0 bytes `skipelem` agrees with splitting the path at its slashes and leaving
-- out empty parts. It returns 0 exactly when there is no part; otherwise the string in the first
-- 14 bytes of `name` is the first part, cut to 14 bytes, and the parts of the returned path,
-- which does not start with a slash, are the others.
pub skipelem-Skipped : (path name : List ℕ) → NoNul path → Skipped path name (skipelem path name)
unfolding skipelem
skipelem-Skipped path name full =
    carry_over (skip_slashes path) path name (components-skip path)
      (next_elem (skip_slashes path) name)
      (next_elem-Skipped (skip_slashes path) name (skip-NoNul path full) (skip-IsSkipped path))
