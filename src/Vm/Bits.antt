-- ===== src/Vm/Bits.antt =====
-- vm.c: the `|` of an address and the bits of an entry.
use Prim.Native.Nat.{bit_or, digits, bit_or-bitwise, max}
use osce.Prelude.{ℕ, zero, suc, ◌+◌, ◌*◌, ◌/◌, ◌%◌, ◌≤◌, ◌<◌, ◌≡◌, refl, sym, ap, ◌∙◌, arith}

abbrev or_digits : ℕ → ℕ → ℕ → ℕ
or_digits n a b = digits (λ b. b) max n a b

or_digits_fuel : (n m a b : ℕ) → a ≤ n → a ≤ m → or_digits n a b ≡ or_digits m a b
or_digits_fuel zero zero a b p q = refl
or_digits_fuel zero (suc m) zero b p q = refl
or_digits_fuel zero (suc m) (suc a) b p q = absurd (omega arith)
or_digits_fuel (suc n) zero zero b p q = refl
or_digits_fuel (suc n) zero (suc a) b p q = absurd (omega arith)
or_digits_fuel (suc n) (suc m) zero b p q = refl
or_digits_fuel (suc n) (suc m) (suc a) b p q =
    omega (arith, or_digits_fuel n m (suc a / 2) (b / 2) (omega arith) (omega arith))

zero-bit_or : (b : ℕ) → bit_or 0 b ≡ b
zero-bit_or b = bit_or-bitwise 0 b

pub bit_or_step : (a b : ℕ) → bit_or a b ≡ bit_or (a / 2) (b / 2) * 2 + max (a % 2) (b % 2)
bit_or_step zero b = omega (arith, zero-bit_or b, zero-bit_or (b / 2))
bit_or_step (suc a) b = omega (
  arith,
  bit_or-bitwise (suc a) b,
  bit_or-bitwise (suc a / 2) (b / 2),
  or_digits_fuel a (suc a / 2) (suc a / 2) (b / 2) (omega arith) (omega arith),
)

bit_or-zero_fuel : (n a : ℕ) → a ≤ n → bit_or a 0 ≡ a
bit_or-zero_fuel n zero h = refl
bit_or-zero_fuel zero (suc a) h = absurd (omega arith)
bit_or-zero_fuel (suc n) (suc a) h =
    omega (arith, bit_or_step (suc a) 0, bit_or-zero_fuel n (suc a / 2) (omega arith))

pub bit_or-zero : (a : ℕ) → bit_or a 0 ≡ a
bit_or-zero a = bit_or-zero_fuel a a (omega arith)

pub bit_or-one : (a : ℕ) → bit_or a 1 ≡ a / 2 * 2 + 1
bit_or-one a = omega (arith, bit_or_step a 1, bit_or-zero (a / 2))

-- Each step takes off a digit.
or_half : (a b : ℕ) → a % 2 ≡ 0 → bit_or (a / 2) (b / 2) ≡ a / 2 + b / 2 → bit_or a b ≡ a + b
or_half a b e h = omega (arith, bit_or_step a b)

-- `q` shifted by `k` places.
shift : ℕ → ℕ → ℕ
shift q zero = q
shift q (suc k) = 2 * shift q k

bit_or-shift : (k q b : ℕ) → b < shift 1 k → bit_or (shift q k) b ≡ shift q k + b
unfolding shift
bit_or-shift zero q b h = let none : b ≡ 0 = omega arith in rw none (omega (arith, bit_or-zero q))
bit_or-shift (suc k) q b h =
    let half : 2 * shift q k / 2 ≡ shift q k = omega arith in
    or_half (2 * shift q k) b (omega arith) (rw half (bit_or-shift k q (b / 2) (omega arith)))

pub bit_or-aligned : (a b : ℕ) → a % 4096 ≡ 0 → b < 4096 → bit_or a b ≡ a + b
unfolding shift
bit_or-aligned a b e h =
    let same : shift (a / 4096) 12 ≡ a = omega arith in
    let sum = bit_or-shift 12 (a / 4096) b (omega arith) in
    sym (ap (λ x. bit_or x b) same) ∙ sum ∙ ap (λ x. x + b) same

pub bit_or-two : (a : ℕ) → a % 4 ≡ 1 → bit_or a 2 ≡ a + 2
bit_or-two a e = omega (arith, bit_or_step a 2, bit_or-one (a / 2))

pub bit_or-four : (a : ℕ) → a % 8 ≡ 3 → bit_or a 4 ≡ a + 4
bit_or-four a e = omega (arith, bit_or_step a 4, bit_or_step (a / 2) 2, bit_or-one (a / 2 / 2))
