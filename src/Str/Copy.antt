-- ===== src/Str/Copy.antt =====
-- What the copying and comparing routines of string.c do to the strings that the arrays hold.
use osce.Prelude.{
  ℕ, zero, suc, ◌-◌, ◌≤◌, ◌<◌, ◌≡◌, refl, List, [], ◌∷◌, arith, ltb, if◌then◌else◌, length, take,
  get_or, ap, ◌↔◌,
}
use osce.Str.{safestrcpy_loop, safestrcpy, zero_fill, strncpy, strncmp, strlen, cstr}

-- There is a 0 among the first `n` bytes.
abbrev pub HasNul : ℕ → List ℕ → Type 0
HasNul n s = (length (cstr s) < n) × (length (cstr s) < length s)

safestrcpy_loop-cstr :
    (n : ℕ) (s t : List ℕ)
    → suc n ≤ length s
    → (cstr (safestrcpy_loop (suc n) s t) ≡ take n (cstr t))
      × (length (safestrcpy_loop (suc n) s t) ≡ length s)
unfolding safestrcpy_loop
safestrcpy_loop-cstr n [] t h = absurd (omega arith)
safestrcpy_loop-cstr zero (d ∷ s) t h = (refl, refl)
safestrcpy_loop-cstr (suc n) (d ∷ s) [] h = (refl, refl)
safestrcpy_loop-cstr (suc n) (d ∷ []) (c ∷ t) h = absurd (omega arith)
safestrcpy_loop-cstr (suc n) (d ∷ d' ∷ s) (c ∷ t) h =
    ground (arith, safestrcpy_loop-cstr n (d' ∷ s) t (omega arith))

length-take-le : (n : ℕ) (s : List ℕ) → length (take n s) ≤ n
length-take-le zero s = omega arith
length-take-le (suc n) [] = omega arith
length-take-le (suc n) (c ∷ s) = omega (arith, length-take-le n s)

-- For `0 < n` and an array `s` of at least `n` bytes, `safestrcpy` leaves in `s` the first `n -
-- 1` bytes of the string `t`, ended by a 0 inside the `n` bytes, and keeps the size of the array.
safestrcpy-cstr :
    (s t : List ℕ) (n : ℕ)
    → 0 < n
    → n ≤ length s
    → (cstr (safestrcpy s t n) ≡ take (n - 1) (cstr t))
      × HasNul n (safestrcpy s t n)
      × (length (safestrcpy s t n) ≡ length s)
unfolding safestrcpy
safestrcpy-cstr s t zero pos fits = absurd (omega arith)
safestrcpy-cstr s t (suc n) pos fits =
    let (e, len) = safestrcpy_loop-cstr n s t fits in
    let e' : suc n - 1 ≡ n = omega arith in
    let short : length (cstr (safestrcpy_loop (suc n) s t)) ≤ n =
      rw e (length-take-le n (cstr t)) in
    (rw e' e, (omega arith, omega arith), len)

length-zero_fill : (n : ℕ) (s : List ℕ) → length (zero_fill n s) ≡ length s
unfolding zero_fill
length-zero_fill zero s = refl
length-zero_fill (suc n) [] = refl
length-zero_fill (suc n) (d ∷ s) = ap suc (length-zero_fill n s)

get_or-zero_fill :
    (n : ℕ) (s : List ℕ) (k : ℕ)
    → get_or (zero_fill n s) k 0 ≡ (if ltb k n then 0 else get_or s k 0)
unfolding zero_fill
get_or-zero_fill zero s k = ground arith
get_or-zero_fill (suc n) [] k = ground arith
get_or-zero_fill (suc n) (d ∷ s) zero = ground arith
get_or-zero_fill (suc n) (d ∷ s) (suc k) = ground (arith, get_or-zero_fill n s k)

-- After `strncpy` into an array of at least `n` bytes, its first `n` bytes are those of the
-- string `t`, padded with 0; the bytes behind them and the size of the array stay.
strncpy-get_or :
    (s t : List ℕ) (n k : ℕ)
    → n ≤ length s
    → (get_or (strncpy s t n) k 0 ≡ (if ltb k n then get_or (cstr t) k 0 else get_or s k 0))
      × (length (strncpy s t n) ≡ length s)
unfolding strncpy
strncpy-get_or s t zero k h = (ground arith, refl)
strncpy-get_or [] t (suc n) k h = absurd (omega arith)
strncpy-get_or (d ∷ s) [] (suc n) k h =
    ground (arith, get_or-zero_fill (suc n) (d ∷ s) k, length-zero_fill (suc n) (d ∷ s))
strncpy-get_or (d ∷ s) (c ∷ t) (suc n) zero h =
    ground (arith, length-zero_fill n s, strncpy-get_or s t n 0)
strncpy-get_or (d ∷ s) (c ∷ t) (suc n) (suc k) h =
    ground (arith, get_or-zero_fill n s k, length-zero_fill n s, strncpy-get_or s t n k)

-- On arrays of at least `n` bytes `strncmp` compares equal exactly when the two strings agree on
-- their first `n` bytes.
pub strncmp-eq :
    (p q : List ℕ) (n : ℕ)
    → n ≤ length p
    → n ≤ length q
    → ((strncmp p q n).0 ≡ (strncmp p q n).1) ↔ (take n (cstr p) ≡ take n (cstr q))
unfolding strncmp
strncmp-eq p q zero hp hq = (λ _. refl, λ _. refl)
strncmp-eq [] q (suc n) hp hq = absurd (omega arith)
strncmp-eq (a ∷ p) [] (suc n) hp hq = absurd (omega arith)
strncmp-eq (a ∷ p) (b ∷ q) (suc n) hp hq =
    let ih = strncmp-eq p q n (omega arith) (omega arith) in
    (λ h. ground (arith, ih.0), λ h. ground (arith, ih.1))

-- `strlen` is the length of the string that the array holds.
pub strlen-cstr : (s : List ℕ) → strlen s ≡ length (cstr s)
unfolding strlen
strlen-cstr [] = refl
strlen-cstr (c ∷ s) = ground (arith, strlen-cstr s)
