-- ===== src/Fs/Bits.antt =====
-- fs.c, single bits of a bitmap block.
use osce.Prelude.{ℕ, zero, suc, ◌+◌, ◌*◌, ◌/◌, ◌%◌, ◌≡◌, true, false, ◌==◌, if◌then◌else◌, arith}
use osce.Fs.Store.{Bytes, test_bit, set_bit, clear_bit, bit_at, with_bit, without_bit}

test_bit-set_bit : (b k j : ℕ) → test_bit (set_bit b k) j ≡ (if k == j then true else test_bit b j)
unfolding test_bit set_bit
test_bit-set_bit b zero zero = ground arith
test_bit-set_bit b zero (suc j) =
    let e : (b / 2 * 2 + 1) / 2 ≡ b / 2 = omega arith in rw e (ground arith)
test_bit-set_bit b (suc k) zero = ground arith
test_bit-set_bit b (suc k) (suc j) =
    let e : (set_bit (b / 2) k * 2 + b % 2) / 2 ≡ set_bit (b / 2) k = omega arith in
    rw e (ground (arith, test_bit-set_bit (b / 2) k j))

test_bit-clear_bit :
    (b k j : ℕ) → test_bit (clear_bit b k) j ≡ (if k == j then false else test_bit b j)
unfolding test_bit clear_bit
test_bit-clear_bit b zero zero = ground arith
test_bit-clear_bit b zero (suc j) =
    let e : (b / 2 * 2) / 2 ≡ b / 2 = omega arith in rw e (ground arith)
test_bit-clear_bit b (suc k) zero = ground arith
test_bit-clear_bit b (suc k) (suc j) =
    let e : (clear_bit (b / 2) k * 2 + b % 2) / 2 ≡ clear_bit (b / 2) k = omega arith in
    rw e (ground (arith, test_bit-clear_bit (b / 2) k j))

pub bit_at-with_bit :
    (b : Bytes) (i j : ℕ) → bit_at (with_bit b i) j ≡ (if i == j then true else bit_at b j)
bit_at-with_bit b i j = ground (arith, test_bit-set_bit (b (j / 8)) (i % 8) (j % 8))

pub bit_at-without_bit :
    (b : Bytes) (i j : ℕ) → bit_at (without_bit b i) j ≡ (if i == j then false else bit_at b j)
bit_at-without_bit b i j = ground (arith, test_bit-clear_bit (b (j / 8)) (i % 8) (j % 8))
