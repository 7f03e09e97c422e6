-- ===== src/Str/Blocks.antt =====
-- string.c, what `memset` and `memmove` leave in memory, byte by byte.
use osce.Prelude.{
  Bool, ℕ, zero, suc, ◌+◌, ◌-◌, ◌*◌, ◌/◌, ◌%◌, ◌<◌, ◌≤◌, ◌≡◌, false, ◌&&◌, ◌==◌, ltb, leb,
  if◌then◌else◌, arith, Bool-cases, inl, inr, ◌⊎◌,
}
use osce.Str.Memory.{
  Memory, poke, stosb, put_word, stosl, four_times, memset, move_down, move_up, memmove,
}

-- The `n` bytes from `d` on.
abbrev pub within : ℕ → ℕ → ℕ → Bool
within d n a = leb d a && ltb a (d + n)

move_down_lem :
    (n d s : ℕ) (mem : Memory) (a : ℕ)
    → s < d
    → move_down n d s mem a ≡ (if within d n a then mem (s + (a - d)) else mem a)
unfolding move_down
move_down_lem zero d s mem a h = ground arith
move_down_lem (suc n) d s mem a h =
    ground (arith, move_down_lem n d s (poke (d + n) (mem (s + n)) mem) a h)

move_up_lem :
    (n d s : ℕ) (mem : Memory) (a : ℕ)
    → (d ≤ s) ⊎ (s + n ≤ d)
    → move_up n d s mem a ≡ (if within d n a then mem (s + (a - d)) else mem a)
unfolding move_up
move_up_lem zero d s mem a h = ground arith
move_up_lem (suc n) d s mem a h =
    ground (arith, move_up_lem n (d + 1) (s + 1) (poke d (mem s) mem) a (later h))
  where
    later : (d ≤ s) ⊎ (s + suc n ≤ d) → (d + 1 ≤ s + 1) ⊎ (s + 1 + n ≤ d + 1)
    later (inl le) = inl (omega arith)
    later (inr le) = inr (omega arith)

-- After `memmove` every byte of the destination is the byte that stood at its place in the source
-- before, also when the blocks overlap, and every other byte is as before.
pub memmove_lem :
    (dst src n : ℕ) (mem : Memory) (a : ℕ)
    → memmove dst src n mem a ≡ (if within dst n a then mem (src + (a - dst)) else mem a)
unfolding memmove
memmove_lem dst src n mem a = elim (Bool-cases (ltb src dst && ltb dst (src + n))) [
  | inl over ↦ rw over (move_down_lem n dst src mem a (ground arith))
  | inr apart ↦ rw apart (move_up_lem n dst src mem a (sides apart))
]
  where
    sides : (ltb src dst && ltb dst (src + n)) ≡ false → (dst ≤ src) ⊎ (src + n ≤ dst)
    sides e = elim (Bool-cases (ltb src dst)) [
      | inl below ↦ inr (ground arith)
      | inr above ↦ inl (ground arith)
    ]

stosb_lem :
    (n d x : ℕ) (mem : Memory) (a : ℕ)
    → stosb n d x mem a ≡ (if within d n a then x % 256 else mem a)
unfolding stosb
stosb_lem zero d x mem a = ground arith
stosb_lem (suc n) d x mem a = ground (arith, stosb_lem n (d + 1) x (poke d (x % 256) mem) a)

put_word_lem :
    (d c : ℕ) (mem : Memory) (a : ℕ)
    → c < 256
    → put_word d (four_times c) mem a ≡ (if within d 4 a then c else mem a)
put_word_lem d c mem a h =
    let b0 : four_times c % 256 ≡ c = omega arith in
    let b1 : four_times c / 256 % 256 ≡ c = omega arith in
    let b2 : four_times c / 65536 % 256 ≡ c = omega arith in
    let b3 : four_times c / 16777216 % 256 ≡ c = omega arith in rw (b0, b1, b2, b3) (ground arith)

stosl_lem :
    (n d c : ℕ) (mem : Memory) (a : ℕ)
    → c < 256
    → stosl n d (four_times c) mem a ≡ (if within d (4 * n) a then c else mem a)
unfolding stosl
stosl_lem zero d c mem a h = ground arith
stosl_lem (suc n) d c mem a h =
    ground
      (arith, stosl_lem n (d + 4) c (put_word d (four_times c) mem) a h, put_word_lem d c mem a h)

-- After `memset`, by words or by bytes, every byte of the block is the low byte of `c`, and every
-- other byte is as before.
memset_lem :
    (dst c n : ℕ) (mem : Memory) (a : ℕ)
    → memset dst c n mem a ≡ (if within dst n a then c % 256 else mem a)
unfolding memset
memset_lem dst c n mem a = elim (Bool-cases (dst % 4 == 0 && n % 4 == 0)) [
  | inl words ↦ let e : 4 * (n / 4) ≡ n = ground arith in rw words (by_words e)
  | inr bytes ↦ rw bytes (stosb_lem n dst c mem a)
]
  where
    by_words :
        4 * (n / 4) ≡ n
        → stosl (n / 4) dst (four_times (c % 256)) mem a
          ≡ (if within dst n a then c % 256 else mem a)
    by_words e = ground (arith, stosl_lem (n / 4) dst (c % 256) mem a (omega arith))
