-- ===== src/Ulib/Numbers.antt =====
-- printf.c and ulib.c: what `printint` prints in base 10, `atoi` reads.
use osce.Prelude.{
  ℕ, zero, suc, ◌+◌, ◌-◌, ◌*◌, ◌/◌, ◌%◌, ◌^◌, ◌<◌, ◌≤◌, ◌≡◌, refl, sym, ◌∙◌, ap, Bool, true, ◌&&◌,
  List, [], ◌∷◌, ◌++◌, length, ◌==◌, ltb, leb, if◌then◌else◌, done, Bool-cases, inl, inr, arith,
}
use osce.Ulib.{atoi_from, atoi, digit, digits_loop, magnitude, print_magnitude, printint}

tens : ℕ → ℕ
tens zero = 1
tens (suc k) = 10 * tens k

append-snoc : (xs : List ℕ) (d : ℕ) (ys : List ℕ) → (xs ++ d ∷ []) ++ ys ≡ xs ++ d ∷ ys
append-snoc [] d ys = refl
append-snoc (x ∷ xs) d ys = ap (◌∷◌ x) (append-snoc xs d ys)

append-nil : (xs : List ℕ) → xs ++ [] ≡ xs
append-nil [] = refl
append-nil (x ∷ xs) = ap (◌∷◌ x) (append-nil xs)

length-snoc : (xs : List ℕ) (d : ℕ) → length (xs ++ d ∷ []) ≡ length xs + 1
length-snoc [] d = refl
length-snoc (x ∷ xs) d = omega (arith, length-snoc xs d)

-- A digit behind `n` that was read.
atoi_from-digit :
    (n d : ℕ) (s : List ℕ)
    → d < 10
    → n * 10 + d < 2 ^ 32
    → atoi_from n (digit d ∷ s) ≡ atoi_from (n * 10 + d) s
unfolding atoi_from
atoi_from-digit n d s small fits =
    let t : ltb d 10 ≡ true = ground arith in
    let g : (leb 48 (48 + d) && leb (48 + d) 57) ≡ true = ground arith in
    let e : (n * 10 + (48 + d) + 2 ^ 32 - 48) % 2 ^ 32 ≡ n * 10 + d = omega arith in
    rw (t, g, e) refl

last_digit : (x : ℕ) (s : List ℕ) → x / 10 ≡ 0 → atoi_from 0 (digit (x % 10) ∷ s) ≡ atoi_from x s
last_digit x s z =
    atoi_from-digit 0 (x % 10) s (omega arith) (omega arith)
    ∙ ap (λ n. atoi_from n s) (let e : 0 * 10 + x % 10 ≡ x = omega arith in e)

-- The loop puts at most `k + 1` digits in front of `buf`, and `atoi` reads them as `x`.
digits_loop-atoi :
    (k fuel x : ℕ) (buf : List ℕ)
    → k < fuel
    → x < tens (suc k)
    → x < 2 ^ 32
    → (ds : List ℕ) × (digits_loop fuel 10 x buf ≡ done (ds ++ buf))
      × (length ds ≤ k + 1)
      × ((s : List ℕ) → atoi_from 0 (ds ++ s) ≡ atoi_from x s)
unfolding digits_loop tens
digits_loop-atoi k zero x buf enough few fits = absurd (omega arith)
digits_loop-atoi zero (suc fuel) x buf enough few fits =
    let z : (x / 10 == 0) ≡ true = ground arith in
    (digit (x % 10) ∷ [], rw z refl, omega arith, λ s. last_digit x s (ground arith))
digits_loop-atoi (suc k) (suc fuel) x buf enough few fits = elim (Bool-cases (x / 10 == 0)) [
  | inl z ↦ (digit (x % 10) ∷ [], rw z refl, omega arith, λ s. last_digit x s (ground arith))
  | inr more ↦
      let (ds, e, len, back) =
        digits_loop-atoi k fuel (x / 10) (digit (x % 10) ∷ buf) (omega arith) (omega arith)
          (omega arith) in
      (
        ds ++ digit (x % 10) ∷ [],
        rw more (e ∙ ap done (sym (append-snoc ds (digit (x % 10)) buf))),
        omega (arith, length-snoc ds (digit (x % 10))),
        λ s.
            let whole : x / 10 * 10 + x % 10 ≡ x = omega arith in
            ap (atoi_from 0) (append-snoc ds (digit (x % 10)) s)
            ∙ back (digit (x % 10) ∷ s)
            ∙ atoi_from-digit (x / 10) (x % 10) s (omega arith) (omega arith)
            ∙ ap (λ n. atoi_from n s) whole,
      )
]

-- What `printint` prints of `x` is at most 10 digits, which `atoi` reads as `x`.
printed :
    (x : ℕ)
    → x < 2 ^ 32
    → (out : List ℕ) × (digits_loop 32 10 x [] ≡ done out) × (length out ≤ 10) × (atoi out ≡ x)
unfolding tens atoi atoi_from
printed x fits =
    let (ds, e, len, back) = digits_loop-atoi 9 32 x [] (omega arith) (omega arith) fits in
    let n : ds ++ [] ≡ ds = append-nil ds in
    (ds, e ∙ ap done n, len, ap (atoi_from 0) (sym n) ∙ back [])

print_magnitude-done :
    (fuel : ℕ) (neg : Bool) (x : ℕ) (out : List ℕ)
    → digits_loop fuel 10 x [] ≡ done out
    → print_magnitude fuel neg 10 x ≡ done (if neg then 45 ∷ out else out)
unfolding print_magnitude
print_magnitude-done fuel neg x out e = rw e refl

-- For every `int`, `printint` in base 10 with sign prints at most 10 digits, behind a `-` exactly
-- if it is negative, so its buffer of 16 bytes is large enough; `atoi` of the digits is the
-- number, or its absolute value if it is negative.
pub printint-atoi :
    (xx : ℕ)
    → xx < 2 ^ 32
    → (out : List ℕ) × (length out ≤ 10)
      × (printint xx 10 true ≡ done (if leb (2 ^ 31) xx then 45 ∷ out else out))
      × (atoi out ≡ (if leb (2 ^ 31) xx then 2 ^ 32 - xx else xx))
unfolding printint
printint-atoi xx fits =
    let neg = leb (2 ^ 31) xx in
    let (out, e, len, back) = printed (magnitude neg xx) (ground arith) in
    (out, len, print_magnitude-done 32 neg (magnitude neg xx) out e, back ∙ ground arith)
