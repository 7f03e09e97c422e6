-- ===== src/Str.antt =====
-- string.c, on arrays of bytes. A C string is an array with a byte 0; `cstr` reads it.
pub mod Copy
pub mod Memory
pub mod Blocks
mod Tests
use osce.Prelude.{
  ℕ, zero, suc, ◌+◌, ◌-◌, Bool, true, false, List, [], ◌∷◌, ◌==◌, ltb, leb, if◌then◌else◌, ◌&&◌,
  not,
}

-- `*s = 0` at the first byte of what is left of an array
abbrev pub put_nul : List ℕ → List ℕ
put_nul [] = []
put_nul (d ∷ ds) = 0 ∷ ds

-- The `while` of `safestrcpy` at `n`, and the final `*s = 0`. After the copy of a 0 the pointer
-- stands behind it, so a second 0 is written.
pub safestrcpy_loop : ℕ → List ℕ → List ℕ → List ℕ
safestrcpy_loop zero s t = put_nul s
safestrcpy_loop (suc zero) s t = put_nul s
safestrcpy_loop (suc (suc n)) [] t = []
safestrcpy_loop (suc (suc n)) (d ∷ s) [] = put_nul (d ∷ s)
safestrcpy_loop (suc (suc n)) (d ∷ s) (c ∷ t) =
    if c == 0 then 0 ∷ put_nul s else c ∷ safestrcpy_loop (suc n) s t

-- The array `s` after `safestrcpy(s, t, n)`, for `n` of at most the length of `s`.
unfoldable pub safestrcpy : List ℕ → List ℕ → ℕ → List ℕ
unfolding safestrcpy_loop
safestrcpy s t zero = s
safestrcpy s t (suc n) = safestrcpy_loop (suc n) s t

-- The second `while` of `strncpy`: the `n` bytes that are left become 0.
pub zero_fill : ℕ → List ℕ → List ℕ
zero_fill zero s = s
zero_fill (suc n) [] = []
zero_fill (suc n) (d ∷ s) = 0 ∷ zero_fill n s

unfoldable pub strncpy : List ℕ → List ℕ → ℕ → List ℕ
unfolding zero_fill
strncpy s t zero = s
strncpy [] t (suc n) = []
strncpy (d ∷ s) [] (suc n) = zero_fill (suc n) (d ∷ s)
strncpy (d ∷ s) (c ∷ t) (suc n) = if c == 0 then 0 ∷ zero_fill n s else c ∷ strncpy s t n

-- Two strings that agree so far, `n` bytes to go; the difference of the bytes is a signed `int`,
-- given as its two operands.
unfoldable pub strncmp : List ℕ → List ℕ → ℕ → ℕ × ℕ
strncmp p q zero = (0, 0)
strncmp [] q (suc n) = (0, 0)
strncmp (a ∷ p) [] (suc n) = (a, 0)
strncmp (a ∷ p) (b ∷ q) (suc n) = if not (a == 0) && a == b then strncmp p q n else (a, b)

-- `strlen`, the index of the first 0
unfoldable pub strlen : List ℕ → ℕ
strlen [] = 0
strlen (c ∷ s) = if c == 0 then 0 else strlen s + 1

-- The string that an array holds, without its 0.
abbrev pub cstr : List ℕ → List ℕ
cstr [] = []
cstr (c ∷ s) = if c == 0 then [] else c ∷ cstr s
